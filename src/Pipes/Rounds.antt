-- ===== src/Pipes/Rounds.antt =====
-- What rounds of the loop write.
use easyprospect_service.Prelude.{
  ℕ, ◌<◌, ◌≤◌, ◌≡◌, refl, ap, Bool, Option, List, [], ◌∷◌, length, if-both,
}
use easyprospect_service.Control.{Value}
use easyprospect_service.Pipes.{
  Thread, running, ended, terminated, broken, Server, instances, indices, Round, scan_writes, stop,
}
use easyprospect_service.Pipes.Loop.{
  on_wait, unless_stopped, if_running, and_then, start_round, finish_round, round, may_stop,
}
use easyprospect_service.Pipes.Keeps.{start_round-Keeps, finish_round-Keeps}
use easyprospect_service.Pipes.Drain.{
  Wrote, Wrote-refl, scan-Wrote, if_running-Wrote, Wrote-suc, Wrote-Keeps, Keeps-Wrote,
}

-- A thread that still runs ran before.
if_running-was :
    (k : Thread) (f : Server → Server) (s : Server)
    → s.thread ≡ k
    → (if_running k f s).thread ≡ running
    → s.thread ≡ running
unfolding if_running
if_running-was running f s e h = e
if_running-was ended f s e h = h
if_running-was terminated f s e h = h
if_running-was broken f s e h = h

pub and_then-was :
    (f : Server → Server) (s : Server) → (and_then f s).thread ≡ running → s.thread ≡ running
and_then-was f s h = if_running-was s.thread f s refl h

and_then_running : (f : Server → Server) (s : Server) → s.thread ≡ running → and_then f s ≡ f s
unfolding if_running
and_then_running f s e = ap (λ k. if_running k f s) e

may_stop-was : (b : Bool) (s : Server) → (may_stop b s).thread ≡ running → s.thread ≡ running
unfolding may_stop stop
may_stop-was b s =
    if-both (λ (t : Server). t.thread ≡ running → s.thread ≡ running) b (λ k. k) (λ k. k)

module _ (unpack : List ℕ → Option Value) where
  finish_round-was :
      (e : Round) (s : Server) → (finish_round unpack e s).thread ≡ running → s.thread ≡ running
  unfolding finish_round
  finish_round-was e s h = may_stop-was e.stopped_writing s (
      and_then-was unless_stopped _ (
        and_then-was (on_wait unpack e.wait) _
          (may_stop-was e.stopped_waiting _ (and_then-was unless_stopped _ h))))

  pub round-Wrote :
      (i : ℕ) (e : Round) (s : Server)
      → i < instances
      → (round unpack e s).thread ≡ running
      → Wrote 1 i s (round unpack e s)
  unfolding round
  round-Wrote i e s lt h =
      let begun = start_round e s in
      let wrote = and_then (scan_writes indices e.writes) begun in
      let ran = and_then-was (scan_writes indices e.writes) begun (finish_round-was e wrote h) in
      let one : Wrote 1 i begun wrote =
        rw (and_then_running (scan_writes indices e.writes) begun ran)
          (scan-Wrote i e.writes begun lt) in
      Wrote-Keeps 1 i s wrote _ (Keeps-Wrote 1 i s begun wrote (start_round-Keeps i e s) one)
        (finish_round-Keeps unpack i e wrote)

  -- Whether the loop runs or not.
  pub round-Wrote_most :
      (i : ℕ) (e : Round) (s : Server)
      → i < instances
      → (n : ℕ) × (n ≤ 1) × Wrote n i s (round unpack e s)
  unfolding round
  round-Wrote_most i e s lt =
      let begun = start_round e s in
      let (n, le, w) = if_running-Wrote begun.thread i e.writes begun lt in
      let wrote = and_then (scan_writes indices e.writes) begun in
      (
        n,
        le,
        Wrote-Keeps n i s wrote _ (Keeps-Wrote n i s begun wrote (start_round-Keeps i e s) w)
            (finish_round-Keeps unpack i e wrote),
      )

  round-was : (e : Round) (s : Server) → (round unpack e s).thread ≡ running → s.thread ≡ running
  unfolding round start_round
  round-was e s h = and_then-was unless_stopped s (
      and_then-was _ _ (
        may_stop-was e.stopped_reading _
          (and_then-was (scan_writes indices e.writes) _ (finish_round-was e _ h))))

  -- The rounds of a history without other events.
  abbrev pub rounds : List Round → Server → Server
  rounds [] s = s
  rounds (e ∷ es) s = rounds es (round unpack e s)

  rounds-was : (es : List Round) (s : Server) → (rounds es s).thread ≡ running → s.thread ≡ running
  rounds-was [] s h = h
  rounds-was (e ∷ es) s h = round-was e s (rounds-was es (round unpack e s) h)

  -- After `n` rounds of a loop that still runs, each pipe has been given the first `n` messages of its queue,
  -- or all if there are fewer, and the others wait.
  pub rounds-Wrote :
      (es : List Round) (i : ℕ) (s : Server)
      → i < instances
      → (rounds es s).thread ≡ running
      → Wrote (length es) i s (rounds es s)
  rounds-Wrote [] i s lt h = Wrote-refl i s
  rounds-Wrote (e ∷ es) i s lt h =
      let t = round unpack e s in
      Wrote-suc (length es) i s t _ (round-Wrote i e s lt (rounds-was es t h))
        (rounds-Wrote es i t lt h)
