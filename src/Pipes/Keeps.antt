-- ===== src/Pipes/Keeps.antt =====
-- What leaves the written values and the write queue of a pipe as they are.
use easyprospect_service.Prelude.{
  ℕ, ◌-◌, ◌≡◌, refl, sym, ap, ◌∙◌, inl, inr, Bool, true, false, Option, List, [], ◌∷◌, ltb, ◌&&◌,
  if-both, put_cases,
}
use easyprospect_service.Control.{Message, Value}
use easyprospect_service.Control.Unpack.{
  Processed, message, nothing, threw, undefined, process_input,
}
use easyprospect_service.Pipes.{
  Pipe, Thread, running, ended, terminated, broken, Server, instances, indices, set_pipe, Io,
  Overlapped, finished, failed, Wait, timeout, wait_failed, signalled, Round, is_failure,
  begin_read, scan_reads, set_read_ready, received, end_write, on_write_event, pop_message,
  take_message, stop,
}
use easyprospect_service.Pipes.Loop.{
  end_read, on_read_event, on_event, on_wait, unless_stopped, if_running, and_then, start_round,
  finish_round, may_stop,
}

pub record Keeps (i : ℕ) (s t : Server) : Type 0 where
  pub written : (t.pipes i).written ≡ (s.pipes i).written
  pub queue : (t.pipes i).write_queue ≡ (s.pipes i).write_queue

pub Keeps-refl : (i : ℕ) (s : Server) → Keeps i s s
Keeps-refl i s = record { written = refl; queue = refl }

pub Keeps-trans : (i : ℕ) (s t u : Server) → Keeps i s t → Keeps i t u → Keeps i s u
Keeps-trans i s t u k l = record { written = l.written ∙ k.written; queue = l.queue ∙ k.queue }

-- A change of nothing but the flags of the server.
pub same_pipes : (i : ℕ) (s t : Server) → t.pipes i ≡ s.pipes i → Keeps i s t
same_pipes i s t e = record {
  written = ap (λ (x : Pipe). x.written) e;
  queue = ap (λ (x : Pipe). x.write_queue) e;
}

-- A pipe whose written values and queue stay.
pub set_pipe-Keeps :
    (i j : ℕ) (p : Pipe) (s : Server)
    → p.written ≡ (s.pipes j).written
    → p.write_queue ≡ (s.pipes j).write_queue
    → Keeps i s (set_pipe j p s)
set_pipe-Keeps i j p s w q = elim (put_cases j i p s.pipes) [
  | inl e ↦ record {
    written = ap (λ (x : Pipe). x.written) e.1 ∙ w ∙ ap (λ k. (s.pipes k).written) (sym e.0);
    queue = ap (λ (x : Pipe). x.write_queue) e.1 ∙ q ∙ ap (λ k. (s.pipes k).write_queue) (sym e.0);
  }
  | inr e ↦ same_pipes i s (set_pipe j p s) e
]

begin_read-Keeps : (i j : ℕ) (s : Server) → Keeps i s (begin_read j s)
unfolding begin_read
begin_read-Keeps i j s =
    if-both (λ t. Keeps i s t) (s.pipes j).read_ready (set_pipe-Keeps i j _ s refl refl)
      (Keeps-refl i s)

scan_reads-Keeps : (i : ℕ) (is : List ℕ) (io : ℕ → Io) (s : Server) → Keeps i s (scan_reads is io s)
unfolding scan_reads
scan_reads-Keeps i [] io s = Keeps-refl i s
scan_reads-Keeps i (j ∷ is) io s =
    let begun = begin_read-Keeps i j s in
    if-both (λ t. Keeps i s t) ((s.pipes j).read_ready && is_failure (io j))
      (record { written = begun.written; queue = begun.queue })
      (Keeps-trans i s (begin_read j s) _ begun (scan_reads-Keeps i is io (begin_read j s)))

pub received-Keeps : (i j : ℕ) (p : Processed) (s : Server) → Keeps i s (received j p s)
unfolding received set_read_ready
received-Keeps i j (message m) s =
    Keeps-trans i s _ _ (set_pipe-Keeps i j _ s refl refl) (set_pipe-Keeps i j _ _ refl refl)
received-Keeps i j nothing s = same_pipes i s _ refl
received-Keeps i j threw s = same_pipes i s _ refl
received-Keeps i j undefined s = same_pipes i s _ refl

pub end_write-Keeps : (i j : ℕ) (o : Overlapped) (s : Server) → Keeps i s (end_write j o s)
unfolding end_write
end_write-Keeps i j (finished f tc rs bytes n) s = set_pipe-Keeps i j _ s refl refl
end_write-Keeps i j failed s = same_pipes i s _ refl

pop_message-Keeps : (i j : ℕ) (s : Server) (q : List Message) → Keeps i s (pop_message j s q).0
unfolding pop_message
pop_message-Keeps i j s [] = same_pipes i s _ refl
pop_message-Keeps i j s (m ∷ q) = set_pipe-Keeps i j _ s refl refl

pub take_message-Keeps :
    (i j : ℕ) (s : Server) (q : List Message) → Keeps i s (take_message j s q).0
unfolding take_message
take_message-Keeps i j s [] = Keeps-refl i s
take_message-Keeps i j s (m ∷ q) = pop_message-Keeps i j s (s.pipes j).read_queue

if_running-Keeps :
    (i : ℕ) (t : Thread) (f : Server → Server) (s : Server)
    → Keeps i s (f s)
    → Keeps i s (if_running t f s)
unfolding if_running
if_running-Keeps i running f s d = d
if_running-Keeps i ended f s d = Keeps-refl i s
if_running-Keeps i terminated f s d = Keeps-refl i s
if_running-Keeps i broken f s d = Keeps-refl i s

and_then-Keeps :
    (i : ℕ) (f : Server → Server) (s t : Server)
    → ((u : Server) → Keeps i u (f u))
    → Keeps i s t
    → Keeps i s (and_then f t)
and_then-Keeps i f s t h d = Keeps-trans i s t _ d (if_running-Keeps i t.thread f t (h t))

unless_stopped-Keeps : (i : ℕ) (s : Server) → Keeps i s (unless_stopped s)
unfolding unless_stopped
unless_stopped-Keeps i s =
    if-both (λ t. Keeps i s t) s.stop_loop (same_pipes i s _ refl) (Keeps-refl i s)

may_stop-Keeps : (i : ℕ) (b : Bool) (s : Server) → Keeps i s (may_stop b s)
unfolding may_stop stop
may_stop-Keeps i b s = if-both (λ t. Keeps i s t) b (same_pipes i s _ refl) (Keeps-refl i s)

pub start_round-Keeps : (i : ℕ) (e : Round) (s : Server) → Keeps i s (start_round e s)
unfolding start_round
start_round-Keeps i e s =
    Keeps-trans i s _ _
      (and_then-Keeps i (scan_reads indices e.reads) s _ (scan_reads-Keeps i indices e.reads)
        (and_then-Keeps i unless_stopped s s (unless_stopped-Keeps i) (Keeps-refl i s)))
      (may_stop-Keeps i e.stopped_reading _)

module _ (unpack : List ℕ → Option Value) where
  end_read-Keeps : (i j : ℕ) (o : Overlapped) (s : Server) → Keeps i s (end_read unpack j o s)
  unfolding end_read set_read_ready
  end_read-Keeps i j (finished f tc rs bytes n) s =
      let done : Server = set_pipe j (record (s.pipes j) { read_pending = false }) s in
      Keeps-trans i s done _ (set_pipe-Keeps i j _ s refl refl) (
        if-both (λ t. Keeps i done t) (ltb 0 n)
          (received-Keeps i j (process_input f tc rs unpack bytes n) done)
          (set_pipe-Keeps i j (record (done.pipes j) { read_ready = true }) done refl refl))
  end_read-Keeps i j failed s = set_pipe-Keeps i j _ s refl refl

  on_event-Keeps : (i k : ℕ) (o : Overlapped) (s : Server) → Keeps i s (on_event unpack k o s)
  unfolding on_event on_read_event on_write_event set_read_ready
  on_event-Keeps i k o s =
      let P : Server → Type 0 = λ t. Keeps i s t in
      if-both P (ltb 7 k) (same_pipes i s _ refl) (
        if-both P (ltb k instances)
          (if-both P (s.pipes k).read_pending (end_read-Keeps i k o s)
            (set_pipe-Keeps i k _ s refl refl))
          (if-both P (s.pipes (k - instances)).write_pending (end_write-Keeps i (k - instances) o s)
            (Keeps-refl i s)))

  on_wait-Keeps : (i : ℕ) (w : Wait) (s : Server) → Keeps i s (on_wait unpack w s)
  unfolding on_wait stop
  on_wait-Keeps i timeout s = Keeps-refl i s
  on_wait-Keeps i wait_failed s = same_pipes i s _ refl
  on_wait-Keeps i (signalled k o) s = on_event-Keeps i k o s

  pub finish_round-Keeps : (i : ℕ) (e : Round) (s : Server) → Keeps i s (finish_round unpack e s)
  unfolding finish_round
  finish_round-Keeps i e s =
      let met = may_stop-Keeps i e.stopped_writing s in
      let again = and_then-Keeps i unless_stopped s _ (unless_stopped-Keeps i) met in
      let waited = and_then-Keeps i (on_wait unpack e.wait) s _ (on_wait-Keeps i e.wait) again in
      and_then-Keeps i unless_stopped s _ (unless_stopped-Keeps i)
        (Keeps-trans i s _ _ waited (may_stop-Keeps i e.stopped_waiting _))
