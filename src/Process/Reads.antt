-- ===== src/Process/Reads.antt =====
-- One read at a time.
use easyprospect_service.Prelude.{
  ℕ, ◌+◌, ◌≡◌, refl, true, not, ◌&&◌, List, [], ◌∷◌, ◌==◌, if◌then◌else◌, if-both, if-split, ◌≤◌,
  inl, inr, Bool-cases, ◌≢◌, sym, ap, ◌∙◌, subst, ◌++◌, length, length-append, arith,
}
use easyprospect_service.Pipes.{
  Thread, running, ended, terminated, broken, Io, completes, pending, fails,
}
use easyprospect_service.Process.{
  Stream, new_stream, Process, new_process, Result, read, incomplete, handle_eof, other_error, Wait,
  signalled, timeout, wait_failed, Round, begin_read, take_result, end_read, read_throws, on_wait,
  err_round, round, if_running, run,
}

-- The reads that were started are those whose result was taken, and one more while a read is pending; what is
-- logged came from a result.
pub record OneRead (s : Stream) : Type 0 where
  pub counted : s.started ≡ s.taken + (if s.pending then 1 else 0)
  pub brought : length s.logged ≤ s.taken

begin_read-OneRead : (s : Stream) → OneRead s → OneRead (begin_read s)
unfolding begin_read
begin_read-OneRead s h =
    if-split OneRead (s.process && not s.pending)
      (λ e. record { counted = ground (arith, h.counted); brought = h.brought }) (λ e. h)

take_result-OneRead :
    (r : Result) (s : Stream) → s.pending ≡ true → OneRead s → OneRead (take_result r s)
unfolding take_result
take_result-OneRead (read bytes) s p h = record {
  counted = ground (arith, h.counted);
  brought = omega (arith, h.brought, length-append s.logged (bytes ∷ []));
}
take_result-OneRead incomplete s p h = record {
  counted = ground (arith, h.counted);
  brought = h.brought;
}
take_result-OneRead handle_eof s p h = record {
  counted = ground (arith, h.counted);
  brought = omega (arith, h.brought);
}
take_result-OneRead other_error s p h = record {
  counted = ground (arith, h.counted);
  brought = omega (arith, h.brought);
}

reads-OneRead : (r : Result) (s : Stream) → OneRead s → OneRead (end_read r (begin_read s))
unfolding end_read
reads-OneRead r s h =
    let begun : OneRead (begin_read s) = begin_read-OneRead s h in
    if-split OneRead (begin_read s).pending (λ p. take_result-OneRead r (begin_read s) p begun)
      (λ p. begun)

pub record BothRead (p : Process) : Type 0 where
  pub out : OneRead p.out
  pub err : OneRead p.err

-- An event only marks its stream.
signalled-OneRead : (s : Stream) → OneRead s → OneRead (record s { process = true })
signalled-OneRead s h = record { counted = h.counted; brought = h.brought }

on_wait-BothRead : (w : Wait) (p : Process) → BothRead p → BothRead (on_wait w p)
unfolding on_wait
on_wait-BothRead timeout p h = h
on_wait-BothRead wait_failed p h = record { out = h.out; err = h.err }
on_wait-BothRead (signalled k) p h =
    if-both BothRead (k == 0) (record { out = signalled-OneRead p.out h.out; err = h.err })
      (if-both BothRead (k == 1) (record { out = h.out; err = signalled-OneRead p.err h.err })
        (if-both BothRead (k == 3) (record { out = h.out; err = h.err }) h))

err_round-BothRead : (e : Round) (p : Process) → BothRead p → BothRead (err_round e p)
unfolding err_round
err_round-BothRead e p h =
    if-both BothRead (read_throws e.err_read p.err)
      (record { out = h.out; err = begin_read-OneRead p.err h.err })
      (on_wait-BothRead e.wait _
        (record { out = h.out; err = reads-OneRead e.err_result p.err h.err }))

round-BothRead : (e : Round) (p : Process) → BothRead p → BothRead (round e p)
unfolding round
round-BothRead e p h =
    if-both BothRead (read_throws e.out_read p.out)
      (record { out = begin_read-OneRead p.out h.out; err = h.err })
      (err_round-BothRead e _
        (record { out = reads-OneRead e.out_result p.out h.out; err = h.err }))

if_running-BothRead :
    (k : Thread) (e : Round) (p : Process) → BothRead p → BothRead (if_running k (round e) p)
unfolding if_running
if_running-BothRead running e p h = round-BothRead e p h
if_running-BothRead ended e p h = h
if_running-BothRead terminated e p h = h
if_running-BothRead broken e p h = h

run_from-BothRead : (es : List Round) (p : Process) → BothRead p → BothRead (run es p)
unfolding run
run_from-BothRead [] p h = h
run_from-BothRead (e ∷ es) p h =
    run_from-BothRead es (if_running p.thread (round e) p) (if_running-BothRead p.thread e p h)

-- Whatever the operating system answers, each output of a worker has at most one read under way: the
-- calls of `ReadFile` are the results that were taken, and one more exactly while a read is pending; and
-- every line of the log comes from a result of its own.
run-BothRead : (es : List Round) → BothRead (run es new_process)
unfolding new_process new_stream
run-BothRead es =
    let fresh : OneRead new_stream = record { counted = refl; brought = omega arith } in
    run_from-BothRead es new_process (record { out = fresh; err = fresh })

on_wait-logged : (w : Wait) (p : Process) → (on_wait w p).out.logged ≡ p.out.logged
unfolding on_wait
on_wait-logged timeout p = refl
on_wait-logged wait_failed p = refl
on_wait-logged (signalled k) p =
    let same : Process → Type 0 = λ q. q.out.logged ≡ p.out.logged in
    if-both same (k == 0) refl (if-both same (k == 1) refl (if-both same (k == 3) refl refl))

err_round-logged : (e : Round) (p : Process) → (err_round e p).out.logged ≡ p.out.logged
unfolding err_round
err_round-logged e p =
    if-both (λ (q : Process). q.out.logged ≡ p.out.logged) (read_throws e.err_read p.err) refl
      (on_wait-logged e.wait _)

-- A stream that may start a read, or has one pending, takes the result.
reads-logged :
    (bytes : List ℕ) (s : Stream)
    → s.process ≡ true
    → (end_read (read bytes) (begin_read s)).logged ≡ s.logged ++ bytes ∷ []
unfolding end_read begin_read take_result
reads-logged bytes s h = elim (Bool-cases s.pending) [
  | inl p ↦ rw (h, p) refl
  | inr p ↦ rw (h, p) refl
]

-- Only a failure of `ReadFile` throws.
read_throws-fails : (io : Io) (s : Stream) → read_throws io s ≡ true → io ≡ fails
unfolding read_throws
read_throws-fails completes s h = absurd cc
read_throws-fails pending s h = absurd cc
read_throws-fails fails s h = refl

abbrev Marked : Process → Type 0
Marked p = p.thread ≡ running → p.out.process ≡ true

on_wait-Marked : (w : Wait) (p : Process) → w ≡ signalled 0 → Marked (on_wait w p)
unfolding on_wait
on_wait-Marked w p h = subst (λ v. Marked (on_wait v p)) (sym h) (λ k. refl)

err_round-Marked : (e : Round) (p : Process) → e.wait ≡ signalled 0 → Marked (err_round e p)
unfolding err_round
err_round-Marked e p h =
    if-both Marked (read_throws e.err_read p.err) (λ k. absurd cc) (on_wait-Marked e.wait _ h)

round-Marked : (e : Round) (p : Process) → e.wait ≡ signalled 0 → Marked (round e p)
unfolding round
round-Marked e p h =
    if-both Marked (read_throws e.out_read p.out) (λ k. absurd cc) (err_round-Marked e _ h)

round-logged :
    (f : Round) (q : Process) (bytes : List ℕ)
    → q.out.process ≡ true
    → f.out_result ≡ read bytes
    → f.out_read ≢ fails
    → (round f q).out.logged ≡ q.out.logged ++ bytes ∷ []
unfolding round
round-logged f q bytes h r ok =
    if-split (λ (t : Process). t.out.logged ≡ q.out.logged ++ bytes ∷ [])
      (read_throws f.out_read q.out)
      (λ throws. absurd (ok (read_throws-fails f.out_read q.out throws)))
      (λ goes.
        err_round-logged f _
        ∙ ap (λ v. (end_read v (begin_read q.out)).logged) r
        ∙ reads-logged bytes q.out h)

-- Once the event of the standard output is signalled, in a round after which the loop still runs, what the
-- next round's result brings is logged in that round, once, whether the read was started before or is
-- started then; unless `ReadFile` fails then.
pub signalled-logged :
    (e f : Round) (p : Process) (bytes : List ℕ)
    → e.wait ≡ signalled 0
    → (round e p).thread ≡ running
    → f.out_result ≡ read bytes
    → f.out_read ≢ fails
    → (run (f ∷ []) (round e p)).out.logged ≡ (round e p).out.logged ++ bytes ∷ []
unfolding run if_running
signalled-logged e f p bytes w runs r ok =
    let q : Process = round e p in
    ap (λ k. (if_running k (round f) q).out.logged) runs
    ∙ round-logged f q bytes (round-Marked e p w runs) r ok
