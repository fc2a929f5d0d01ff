-- ===== src/Pipes/Fifo.antt =====
-- What is sent to a pipe is written in order.
use mathlib.Core.List.{append-nil, append_assoc}
use easyprospect_service.Prelude.{
  ℕ, ◌<◌, ◌≡◌, refl, sym, ap, ◌∙◌, inl, inr, true, false, Option, none, some, List, [], ◌∷◌, ◌++◌,
  ltb, ◌==◌, if◌then◌else◌, if-both, if-split, put, put_ne, put_cases, Bool-cases, ==_iff, arith,
}
use easyprospect_service.Control.{Message, Value, pack}
use easyprospect_service.Pipes.{
  Pipe, Thread, running, ended, terminated, broken, Server, instances, indices, set_pipe, Io, Round,
  pending_after, write_front, scan_writes, next_message, push_packed, send, stop,
}
use easyprospect_service.Pipes.Loop.{
  if_running, and_then, start_round, round, Event, round_event, send_event, next_event, stop_event,
  step, run,
}
use easyprospect_service.Pipes.Keeps.{
  Keeps, Keeps-refl, same_pipes, set_pipe-Keeps, take_message-Keeps, start_round-Keeps,
  finish_round-Keeps,
}

-- Between two states a pipe was sent `sent`: what `WriteFile` got in the meantime, `more`, comes from the front
-- of its queue, and what is left behind it stays in order.
pub record Delivers (i : ℕ) (s t : Server) (sent : List Value) : Type 0 where
  pub more : List Value
  pub grew : (t.pipes i).written ≡ (s.pipes i).written ++ more
  pub kept : (s.pipes i).write_queue ++ sent ≡ more ++ (t.pipes i).write_queue

pub Delivers-trans :
    (i : ℕ) (s t u : Server) (a b : List Value)
    → Delivers i s t a
    → Delivers i t u b
    → Delivers i s u (a ++ b)
Delivers-trans i s t u a b d e = record {
  more = d.more ++ e.more;
  grew = e.grew ∙ simp (d.grew, append_assoc);
  kept =
      sym (append_assoc (s.pipes i).write_queue a b)
      ∙ ap (λ l. l ++ b) d.kept
      ∙ append_assoc d.more (t.pipes i).write_queue b
      ∙ ap (λ l. d.more ++ l) e.kept
      ∙ sym (append_assoc d.more e.more (u.pipes i).write_queue);
}

Keeps-Delivers : (i : ℕ) (s t : Server) → Keeps i s t → Delivers i s t []
Keeps-Delivers i s t k = record {
  more = [];
  grew = k.written ∙ sym (append-nil _);
  kept = append-nil _ ∙ sym k.queue;
}

-- The value that is written is the first of the queue.
write_front-Delivers :
    (i j : ℕ) (io : Io) (s : Server) (q : List Value)
    → (s.pipes j).write_queue ≡ q
    → Delivers i s (write_front j io s q) []
unfolding write_front
write_front-Delivers i j io s [] e = Keeps-Delivers i s _ (set_pipe-Keeps i j _ s refl refl)
write_front-Delivers i j io s (b ∷ q) e =
    elim (put_cases j i
      (record (s.pipes j) {
        write_ready = true;
        write_queue = q;
        written = (s.pipes j).written ++ b ∷ [];
        write_pending = pending_after io (s.pipes j).write_pending;
      })
      s.pipes) [
        | inl h ↦ record {
          more = b ∷ [];
          grew =
              ap (λ (x : Pipe). x.written) h.1 ∙ ap (λ k. (s.pipes k).written ++ b ∷ []) (sym h.0);
          kept =
              append-nil _
              ∙ ap (λ k. (s.pipes k).write_queue) h.0
              ∙ e
              ∙ ap (λ (x : Pipe). b ∷ x.write_queue) (sym h.1);
        }
        | inr h ↦ Keeps-Delivers i s _ (same_pipes i s _ h)
      ]

pub scan_writes-Delivers :
    (i : ℕ) (is : List ℕ) (io : ℕ → Io) (s : Server) → Delivers i s (scan_writes is io s) []
unfolding scan_writes
scan_writes-Delivers i [] io s = Keeps-Delivers i s s (Keeps-refl i s)
scan_writes-Delivers i (j ∷ is) io s =
    Delivers-trans i s _ _ [] [] (write_front-Delivers i j (io j) s _ refl)
      (scan_writes-Delivers i is io (write_front j (io j) s (s.pipes j).write_queue))

abbrev packed : Option Value → List Value
packed none = []
packed (some b) = b ∷ []

-- What an event sends to a pipe, and what a history does.
abbrev pub sends : ℕ → Event → List Value
sends i (round_event e) = []
sends i (send_event j m) = if i == j then packed (pack m) else []
sends i (next_event j) = []
sends i stop_event = []

abbrev pub sent : ℕ → List Event → List Value
sent i [] = []
sent i (e ∷ es) = sends i e ++ sent i es

push_packed-Delivers :
    (i j : ℕ) (m : Option Value) (s : Server)
    → Delivers i s (push_packed j m s) (if i == j then packed m else [])
unfolding push_packed
push_packed-Delivers i j none s =
    if-both (λ l. Delivers i s s l) (i == j) (Keeps-Delivers i s s (Keeps-refl i s))
      (Keeps-Delivers i s s (Keeps-refl i s))
push_packed-Delivers i j (some b) s =
    let new : Pipe = record (s.pipes j) {
      write_ready = true;
      write_queue = (s.pipes j).write_queue ++ b ∷ [];
    } in
    elim (Bool-cases (i == j)) [
      | inl same ↦
          let at : put j new s.pipes i ≡ new = rw same refl in
          let e : i ≡ j = (==_iff i j).0 same in
          rw same (record {
            more = [];
            grew =
                ap (λ (x : Pipe). x.written) at
                ∙ ap (λ k. (s.pipes k).written) (sym e)
                ∙ sym (append-nil _);
            kept =
                ap (λ k. (s.pipes k).write_queue ++ b ∷ []) e
                ∙ sym (ap (λ (x : Pipe). x.write_queue) at);
          })
      | inr other ↦
          rw other (
            Keeps-Delivers i s (set_pipe j new s) (same_pipes i s _ (put_ne j i new s.pipes other)))
    ]

send-Delivers :
    (i j : ℕ) (m : Message) (s : Server)
    → i < instances
    → Delivers i s (send j m s) (if i == j then packed (pack m) else [])
unfolding send
send-Delivers i j m s h =
    if-split (λ t. Delivers i s t (if i == j then packed (pack m) else [])) (ltb j instances)
      (λ e. push_packed-Delivers i j (pack m) s)
      (λ e.
        let other : (i == j) ≡ false = ground arith in
        rw other (Keeps-Delivers i s _ (same_pipes i s _ refl)))

if_running-Delivers :
    (i : ℕ) (k : Thread) (f : Server → Server) (s : Server)
    → Delivers i s (f s) []
    → Delivers i s (if_running k f s) []
unfolding if_running
if_running-Delivers i running f s e = e
if_running-Delivers i ended f s e = Keeps-Delivers i s s (Keeps-refl i s)
if_running-Delivers i terminated f s e = Keeps-Delivers i s s (Keeps-refl i s)
if_running-Delivers i broken f s e = Keeps-Delivers i s s (Keeps-refl i s)

module _ (unpack : List ℕ → Option Value) where
  round-Delivers : (i : ℕ) (e : Round) (s : Server) → Delivers i s (round unpack e s) []
  unfolding round
  round-Delivers i e s =
      let begun = start_round e s in
      let wrote = and_then (scan_writes indices e.writes) begun in
      Delivers-trans i s begun _ [] [] (Keeps-Delivers i s _ (start_round-Keeps i e s)) (
        Delivers-trans i begun wrote _ [] []
          (if_running-Delivers i begun.thread _ begun
            (scan_writes-Delivers i indices e.writes begun))
          (Keeps-Delivers i wrote _ (finish_round-Keeps unpack i e wrote)))

  step-Delivers :
      (i : ℕ) (e : Event) (s : Server) → i < instances → Delivers i s (step unpack s e) (sends i e)
  unfolding step next_message stop
  step-Delivers i (round_event e) s h = round-Delivers i e s
  step-Delivers i (send_event j m) s h = send-Delivers i j m s h
  step-Delivers i (next_event j) s h =
      Keeps-Delivers i s _ (take_message-Keeps i j s (s.pipes 0).read_queue)
  step-Delivers i stop_event s h = Keeps-Delivers i s _ (same_pipes i s _ refl)

  -- Over any events, whatever the operating system answers, each pipe is a first-in first-out channel:
  -- what `WriteFile` got in the meantime, and then what waits, are what waited before and then what was
  -- sent, in this order, nothing lost, doubled or overtaken.
  pub run-Delivers :
      (es : List Event) (i : ℕ) (s : Server)
      → i < instances
      → Delivers i s (run unpack es s) (sent i es)
  unfolding run
  run-Delivers [] i s h = Keeps-Delivers i s s (Keeps-refl i s)
  run-Delivers (e ∷ es) i s h =
      Delivers-trans i s (step unpack s e) _ (sends i e) (sent i es) (step-Delivers i e s h)
        (run-Delivers es i (step unpack s e) h)
