-- ===== src/Pipes/Stopped.antt =====
-- What a stop of another thread leaves undone.
use easyprospect_service.Prelude.{
  ℕ, ◌-◌, ◌≡◌, ◌≢◌, refl, Bool, true, Option, List, [], ◌∷◌, ltb, ◌||◌, if-both, if-split, inl, inr,
  ◌⊎◌, Bool-cases, arith,
}
use easyprospect_service.Control.{Value}
use easyprospect_service.Control.Unpack.{
  Processed, message, nothing, threw, undefined, process_input,
}
use easyprospect_service.Pipes.{
  Thread, running, ended, terminated, broken, Server, instances, indices, Io, Overlapped, finished,
  failed, Wait, timeout, wait_failed, signalled, Round, write_front, scan_writes, received,
  set_read_ready, end_write, on_write_event, stop,
}
use easyprospect_service.Pipes.Loop.{
  end_read, on_read_event, on_event, on_wait, unless_stopped, if_running, and_then, start_round,
  may_stop, finish_round, round,
}

abbrev pub IsStopped : Server → Type 0
IsStopped s = s.stop_loop ≡ true

if_running-IsStopped :
    (k : Thread) (f : Server → Server) (s : Server)
    → (IsStopped s → IsStopped (f s))
    → IsStopped s
    → IsStopped (if_running k f s)
unfolding if_running
if_running-IsStopped running f s h i = h i
if_running-IsStopped ended f s h i = i
if_running-IsStopped terminated f s h i = i
if_running-IsStopped broken f s h i = i

unless_stopped-IsStopped : (s : Server) → IsStopped s → IsStopped (unless_stopped s)
unfolding unless_stopped
unless_stopped-IsStopped s h = if-both IsStopped s.stop_loop h h

may_stop-IsStopped : (b : Bool) (s : Server) → IsStopped s → IsStopped (may_stop b s)
unfolding may_stop stop
may_stop-IsStopped b s h = if-both IsStopped b refl h

write_front-IsStopped :
    (i : ℕ) (io : Io) (s : Server) (q : List Value) → IsStopped s → IsStopped (write_front i io s q)
unfolding write_front
write_front-IsStopped i io s [] h = h
write_front-IsStopped i io s (b ∷ q) h = h

scan_writes-IsStopped :
    (is : List ℕ) (io : ℕ → Io) (s : Server) → IsStopped s → IsStopped (scan_writes is io s)
unfolding scan_writes
scan_writes-IsStopped [] io s h = h
scan_writes-IsStopped (i ∷ is) io s h =
    scan_writes-IsStopped is io _ (write_front-IsStopped i (io i) s (s.pipes i).write_queue h)

received-IsStopped : (i : ℕ) (p : Processed) (s : Server) → IsStopped s → IsStopped (received i p s)
unfolding received set_read_ready
received-IsStopped i (message m) s h = h
received-IsStopped i nothing s h = h
received-IsStopped i threw s h = h
received-IsStopped i undefined s h = h

end_write-IsStopped :
    (i : ℕ) (o : Overlapped) (s : Server) → IsStopped s → IsStopped (end_write i o s)
unfolding end_write
end_write-IsStopped i (finished f tc rs bytes n) s h = h
end_write-IsStopped i failed s h = h

-- The test at the end of a round.
last-still :
    (k : Thread) (s : Server)
    → s.thread ≡ k
    → IsStopped s
    → (if_running k unless_stopped s).thread ≢ running
unfolding if_running unless_stopped
last-still running s e h =
    if-split (λ (t : Server). t.thread ≢ running) s.stop_loop (λ k x. cc) (λ k. cc)
last-still ended s e h = λ x. cc
last-still terminated s e h = λ x. cc
last-still broken s e h = λ x. cc

-- A stop during a round.
abbrev pub stops : Round → Bool
stops e = e.stopped_reading || e.stopped_writing || e.stopped_waiting

may_stop-true : (b : Bool) (s : Server) → b ≡ true → IsStopped (may_stop b s)
unfolding may_stop stop
may_stop-true b s h = if-split IsStopped b (λ k. refl) (λ k. cc)

module _ (unpack : List ℕ → Option Value) where
  end_read-IsStopped :
      (i : ℕ) (o : Overlapped) (s : Server) → IsStopped s → IsStopped (end_read unpack i o s)
  unfolding end_read set_read_ready
  end_read-IsStopped i (finished f tc rs bytes n) s h =
      if-both IsStopped (ltb 0 n) (received-IsStopped i (process_input f tc rs unpack bytes n) _ h)
        h
  end_read-IsStopped i failed s h = h

  on_wait-IsStopped : (w : Wait) (s : Server) → IsStopped s → IsStopped (on_wait unpack w s)
  unfolding on_wait stop on_event on_read_event on_write_event set_read_ready
  on_wait-IsStopped timeout s h = h
  on_wait-IsStopped wait_failed s h = refl
  on_wait-IsStopped (signalled k o) s h = if-both IsStopped (ltb 7 k) h (
      if-both IsStopped (ltb k instances)
        (if-both IsStopped (s.pipes k).read_pending (end_read-IsStopped k o s h) h)
        (if-both IsStopped (s.pipes (k - instances)).write_pending
          (end_write-IsStopped (k - instances) o s h) h))

  -- A stop before the second test, or during the wait.
  finish_round-still :
      (e : Round) (s : Server)
      → IsStopped (may_stop e.stopped_writing s) ⊎ (e.stopped_waiting ≡ true)
      → IsStopped (finish_round unpack e s) × ((finish_round unpack e s).thread ≢ running)
  unfolding finish_round
  finish_round-still e s h =
      let met = may_stop e.stopped_writing s in
      let again = and_then unless_stopped met in
      let waited = and_then (on_wait unpack e.wait) again in
      let late = may_stop e.stopped_waiting waited in
      let stopped : IsStopped late = elim h [
        | inl a ↦ may_stop-IsStopped e.stopped_waiting waited (
            if_running-IsStopped again.thread (on_wait unpack e.wait) again
              (on_wait-IsStopped e.wait again)
              (if_running-IsStopped met.thread unless_stopped met (unless_stopped-IsStopped met) a))
        | inr b ↦ may_stop-true e.stopped_waiting waited b
      ] in
      (
        if_running-IsStopped late.thread unless_stopped late (unless_stopped-IsStopped late)
            stopped,
        last-still late.thread late refl stopped,
      )

  -- A round with a stop in it, wherever it comes, is the last.
  pub round-still :
      (e : Round) (s : Server)
      → stops e ≡ true
      → IsStopped (round unpack e s) × ((round unpack e s).thread ≢ running)
  unfolding round start_round
  round-still e s h =
      let read = start_round e s in
      let wrote = and_then (scan_writes indices e.writes) read in
      finish_round-still e wrote (elim (Bool-cases e.stopped_reading) [
        | inl r ↦ inl (
            may_stop-IsStopped e.stopped_writing wrote (
              if_running-IsStopped read.thread (scan_writes indices e.writes) read
                (scan_writes-IsStopped indices e.writes read)
                (may_stop-true e.stopped_reading _ r)))
        | inr r ↦ elim (Bool-cases e.stopped_writing) [
          | inl w ↦ inl (may_stop-true e.stopped_writing wrote w)
          | inr w ↦ inr (ground arith)
        ]
      ])
