-- ===== src/Pipes/Stop.antt =====
-- What a stop of the server leaves undone.
use easyprospect_service.Prelude.{
  ℕ, ◌≤◌, ◌<◌, ◌++◌, take, arith, ◌≡◌, ◌≢◌, refl, sym, ap, ◌∙◌, Bool, true, false, Option, none,
  some, List, [], ◌∷◌, ltb, if-both, if-split, put, put_cases, inl, inr,
}
use easyprospect_service.Control.{Message, Value, pack}
use easyprospect_service.Pipes.{
  Pipe, Thread, running, ended, terminated, broken, Server, instances, indices, set_pipe,
  set_thread, Round, scan_reads, scan_writes, pop_message, take_message, next_message, push_packed,
  send, stop,
}
use mathlib.Core.List.{append-nil}
use easyprospect_service.Pipes.Rounds.{round-Wrote_most}
use easyprospect_service.Pipes.Stopped.{stops, round-still}
use easyprospect_service.Pipes.Loop.{
  may_stop, on_wait, unless_stopped, if_running, and_then, start_round, finish_round, round, Event,
  round_event, send_event, next_event, stop_event, step, run,
}

-- A loop that has ended after a stop, with the pipes as they were.
record Idle (s t : Server) : Type 0 where
  pipes : t.pipes ≡ s.pipes
  stopped : t.stop_loop ≡ true
  still : t.thread ≢ running

if_running-Idle :
    (k : Thread) (f : Server → Server) (s t : Server)
    → t.thread ≡ k
    → Idle s t
    → Idle s (if_running k f t)
unfolding if_running
if_running-Idle running f s t e i = absurd (i.still e)
if_running-Idle ended f s t e i = i
if_running-Idle terminated f s t e i = i
if_running-Idle broken f s t e i = i

and_then-Idle : (f : Server → Server) (s t : Server) → Idle s t → Idle s (and_then f t)
and_then-Idle f s t i = if_running-Idle t.thread f s t refl i

may_stop-Idle : (b : Bool) (s t : Server) → Idle s t → Idle s (may_stop b t)
unfolding may_stop stop
may_stop-Idle b s t i =
    if-both (Idle s) b (record { pipes = i.pipes; stopped = refl; still = i.still }) i

-- The first test of a round.
test-Idle :
    (k : Thread) (s : Server)
    → s.thread ≡ k
    → s.stop_loop ≡ true
    → Idle s (if_running k unless_stopped s)
unfolding if_running unless_stopped
test-Idle running s e h =
    if-split (Idle s) s.stop_loop (λ k. record { pipes = refl; stopped = k; still = λ x. cc })
      (λ k. cc)
test-Idle ended s e h = record { pipes = refl; stopped = h; still = λ x. cc }
test-Idle terminated s e h = record { pipes = refl; stopped = h; still = λ x. cc }
test-Idle broken s e h = record { pipes = refl; stopped = h; still = λ x. cc }

-- A stopped server whose pipe `i` was given `l`, and whose loop does not run once it had a round.
record After (i : ℕ) (l : List Value) (had_round : Bool) (s : Server) : Type 0 where
  stopped : s.stop_loop ≡ true
  written : (s.pipes i).written ≡ l
  still : had_round ≡ true → s.thread ≢ running

module _ (i : ℕ) (l : List Value) (b : Bool) where
  broken-After : (s : Server) → After i l b s → After i l b (set_thread broken s)
  broken-After s a = record { stopped = a.stopped; written = a.written; still = λ h k. cc }

  -- A call that leaves the written values of its pipe.
  set_pipe-After :
      (j : ℕ) (p : Pipe) (s : Server)
      → p.written ≡ (s.pipes j).written
      → After i l b s
      → After i l b (set_pipe j p s)
  set_pipe-After j p s w a = record {
    stopped = a.stopped;
    written = (set_pipe-Writes j p s w) ∙ a.written;
    still = a.still;
  }
    where
      set_pipe-Writes :
          (j : ℕ) (p : Pipe) (s : Server)
          → p.written ≡ (s.pipes j).written
          → (put j p s.pipes i).written ≡ (s.pipes i).written
      set_pipe-Writes j p s w = elim (put_cases j i p s.pipes) [
        | inl e ↦ ap (λ (x : Pipe). x.written) e.1 ∙ w ∙ ap (λ k. (s.pipes k).written) (sym e.0)
        | inr e ↦ ap (λ (x : Pipe). x.written) e
      ]

  push_packed-After :
      (j : ℕ) (m : Option Value) (s : Server) → After i l b s → After i l b (push_packed j m s)
  unfolding push_packed
  push_packed-After j none s a = a
  push_packed-After j (some v) s a = set_pipe-After j _ s refl a

  send-After : (j : ℕ) (m : Message) (s : Server) → After i l b s → After i l b (send j m s)
  unfolding send
  send-After j m s a =
      if-both (After i l b) (ltb j instances) (push_packed-After j (pack m) s a) (broken-After s a)

  pop_message-After :
      (j : ℕ) (s : Server) (q : List Message) → After i l b s → After i l b (pop_message j s q).0
  unfolding pop_message
  pop_message-After j s [] a = broken-After s a
  pop_message-After j s (m ∷ q) a = set_pipe-After j _ s refl a

  take_message-After :
      (j : ℕ) (s : Server) (q : List Message) → After i l b s → After i l b (take_message j s q).0
  unfolding take_message
  take_message-After j s [] a = a
  take_message-After j s (m ∷ q) a = pop_message-After j s (s.pipes j).read_queue a

-- Whether a round is among the events, or was before.
abbrev pub had_round : Bool → List Event → Bool
had_round b [] = b
had_round b (round_event e ∷ es) = had_round true es
had_round b (send_event j m ∷ es) = had_round b es
had_round b (next_event j ∷ es) = had_round b es
had_round b (stop_event ∷ es) = had_round b es

-- A stop by another thread, and the rounds that are under way then.
abbrev pub is_stop : Event → Bool
is_stop (round_event e) = stops e
is_stop (send_event j m) = false
is_stop (next_event j) = false
is_stop stop_event = true

abbrev pub under_way : Event → ℕ
under_way (round_event e) = 1
under_way (send_event j m) = 0
under_way (next_event j) = 0
under_way stop_event = 0

module _ (unpack : List ℕ → Option Value) where
  finish_round-Idle : (e : Round) (s t : Server) → Idle s t → Idle s (finish_round unpack e t)
  unfolding finish_round
  finish_round-Idle e s t i = and_then-Idle unless_stopped s _ (
      may_stop-Idle e.stopped_waiting s _ (
        and_then-Idle (on_wait unpack e.wait) s _
          (and_then-Idle unless_stopped s _ (may_stop-Idle e.stopped_writing s t i))))

  round-Idle : (e : Round) (s : Server) → s.stop_loop ≡ true → Idle s (round unpack e s)
  unfolding round start_round
  round-Idle e s h = finish_round-Idle e s _ (
      and_then-Idle (scan_writes indices e.writes) s _ (
        may_stop-Idle e.stopped_reading s _
          (and_then-Idle (scan_reads indices e.reads) s _ (test-Idle s.thread s refl h))))

  run-After :
      (i : ℕ) (l : List Value) (b : Bool) (es : List Event) (s : Server)
      → After i l b s
      → After i l (had_round b es) (run unpack es s)
  unfolding run step next_message stop
  run-After i l b [] s a = a
  run-After i l b (round_event e ∷ es) s a =
      let r = round-Idle e s a.stopped in
      run-After i l true es (round unpack e s) (record {
        stopped = r.stopped;
        written = ap (λ p. (p i).written) r.pipes ∙ a.written;
        still = λ h. r.still;
      })
  run-After i l b (send_event j m ∷ es) s a =
      run-After i l b es (send j m s) (send-After i l b j m s a)
  run-After i l b (next_event j ∷ es) s a =
      run-After i l b es (take_message j s (s.pipes 0).read_queue).0
        (take_message-After i l b j s (s.pipes 0).read_queue a)
  run-After i l b (stop_event ∷ es) s a =
      run-After i l b es (stop s) (record { stopped = refl; written = a.written; still = a.still })

  -- Once another thread stops the server, between two rounds or anywhere within one, `WriteFile` is
  -- called for each pipe at most once more, in the round that is under way, if any, and with the
  -- first value of the queue; and never after that round, whatever waits in the queues or is sent
  -- later. The loop runs no longer once the round under way, or else a further one, is over.
  pub run-stop :
      (x : Event) (es : List Event) (s : Server) (i : ℕ)
      → i < instances
      → is_stop x ≡ true
      → ((n : ℕ) × (n ≤ under_way x)
          × (((run unpack (x ∷ es) s).pipes i).written
              ≡ (s.pipes i).written ++ take n (s.pipes i).write_queue))
        × (had_round false (x ∷ es) ≡ true → (run unpack (x ∷ es) s).thread ≢ running)
  unfolding run step stop
  run-stop (round_event e) es s i lt h =
      let t = round unpack e s in
      let (n, le, w) = round-Wrote_most unpack i e s lt in
      let (stopped, still) = round-still unpack e s h in
      let a =
        run-After i (t.pipes i).written true es t
          (record { stopped = stopped; written = refl; still = λ k. still }) in
      ((n, le, a.written ∙ w.written), a.still)
  run-stop (send_event j m) es s i lt h = absurd cc
  run-stop (next_event j) es s i lt h = absurd cc
  run-stop stop_event es s i lt h =
      let a =
        run-After i (s.pipes i).written false es (stop s)
          (record { stopped = refl; written = refl; still = λ k. cc }) in
      ((0, omega arith, a.written ∙ sym (append-nil _)), a.still)
