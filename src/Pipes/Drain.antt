-- ===== src/Pipes/Drain.antt =====
-- How fast the queues of the pipes drain.
use mathlib.Core.List.{append-nil, append_assoc}
use easyprospect_service.Prelude.{
  ℕ, zero, suc, ◌<◌, ◌≤◌, ◌≡◌, refl, sym, ap, ◌∙◌, true, false, List, [], ◌∷◌, ◌++◌, take, drop,
  ◌==◌, put_self, put_ne, lt→ltb, some, if◌then◌else◌, arith,
}
use easyprospect_service.Control.{Message, Value, pack}
use easyprospect_service.Pipes.{
  Pipe, Thread, running, ended, terminated, broken, Server, instances, indices, Io, pending_after,
  scan_writes, write_front, send, push_packed, set_thread,
}
use easyprospect_service.Pipes.Loop.{if_running}
use easyprospect_service.Pipes.Keeps.{Keeps, Keeps-refl, Keeps-trans, same_pipes, set_pipe-Keeps}

-- A message that is sent waits at the end of the queue of its pipe.
pub sent_pipe :
    (k : ℕ) (m : Message) (v : Value) (s : Server)
    → k < instances
    → pack m ≡ some v
    → (send k m s).pipes k
      ≡ record (s.pipes k) { write_ready = true; write_queue = (s.pipes k).write_queue ++ v ∷ [] }
unfolding send push_packed
sent_pipe k m v s lt e =
    ap (λ b. (if b then push_packed k (pack m) s else set_thread broken s).pipes k)
      (lt→ltb k instances lt)
    ∙ ap (λ o. (push_packed k o s).pipes k) e
    ∙ put_self k _ s.pipes

-- The first `n` of the queue were written.
pub record Wrote (n i : ℕ) (s t : Server) : Type 0 where
  pub written : (t.pipes i).written ≡ (s.pipes i).written ++ take n (s.pipes i).write_queue
  pub queue : (t.pipes i).write_queue ≡ drop n (s.pipes i).write_queue

pub Wrote-refl : (i : ℕ) (s : Server) → Wrote 0 i s s
Wrote-refl i s = record { written = sym (append-nil _); queue = refl }

pub Wrote-Keeps : (n i : ℕ) (s t u : Server) → Wrote n i s t → Keeps i t u → Wrote n i s u
Wrote-Keeps n i s t u w k = record { written = k.written ∙ w.written; queue = k.queue ∙ w.queue }

pub Keeps-Wrote : (n i : ℕ) (s t u : Server) → Keeps i s t → Wrote n i t u → Wrote n i s u
Keeps-Wrote n i s t u k w = record {
  written = w.written ∙ cc (k.written, k.queue);
  queue = w.queue ∙ ap (drop n) k.queue;
}

take_one : (n : ℕ) (q : List Value) → take 1 q ++ take n (drop 1 q) ≡ take (suc n) q
take_one zero [] = refl
take_one (suc n) [] = refl
take_one zero (b ∷ q) = refl
take_one (suc n) (b ∷ q) = refl

drop_one : (n : ℕ) (q : List Value) → drop n (drop 1 q) ≡ drop (suc n) q
drop_one zero [] = refl
drop_one (suc n) [] = refl
drop_one n (b ∷ q) = refl

pub Wrote-suc : (n i : ℕ) (s t u : Server) → Wrote 1 i s t → Wrote n i t u → Wrote (suc n) i s u
Wrote-suc n i s t u w v = record {
  written =
      v.written
      ∙ cc (w.written, w.queue)
      ∙ append_assoc (s.pipes i).written (take 1 (s.pipes i).write_queue) _
      ∙ ap (λ l. (s.pipes i).written ++ l) (take_one n (s.pipes i).write_queue);
  queue = v.queue ∙ ap (drop n) w.queue ∙ drop_one n (s.pipes i).write_queue;
}

write_front-Wrote :
    (i : ℕ) (io : Io) (s : Server) (q : List Value)
    → (s.pipes i).write_queue ≡ q
    → Wrote 1 i s (write_front i io s q)
unfolding write_front
write_front-Wrote i io s [] e =
    let at = put_self i (record (s.pipes i) { write_ready = false }) s.pipes in
    record {
      written =
          ap (λ (x : Pipe). x.written) at
          ∙ sym (append-nil _)
          ∙ ap (λ l. (s.pipes i).written ++ take 1 l) (sym e);
      queue = ap (λ (x : Pipe). x.write_queue) at ∙ e ∙ ap (drop 1) (sym e);
    }
write_front-Wrote i io s (b ∷ q) e =
    let new : Pipe = record (s.pipes i) {
      write_ready = true;
      write_queue = q;
      written = (s.pipes i).written ++ b ∷ [];
      write_pending = pending_after io (s.pipes i).write_pending;
    } in
    let at = put_self i new s.pipes in
    record {
      written = ap (λ (x : Pipe). x.written) at ∙ ap (λ l. (s.pipes i).written ++ take 1 l) (sym e);
      queue = ap (λ (x : Pipe). x.write_queue) at ∙ ap (drop 1) (sym e);
    }

write_front-Keeps :
    (i j : ℕ) (io : Io) (s : Server) (q : List Value)
    → (i == j) ≡ false
    → Keeps i s (write_front j io s q)
unfolding write_front
write_front-Keeps i j io s [] e = set_pipe-Keeps i j _ s refl refl
write_front-Keeps i j io s (b ∷ q) e = same_pipes i s _ (put_ne j i _ s.pipes e)

abbrev AllOther : ℕ → List ℕ → Type 0
AllOther i [] = Unit
AllOther i (j ∷ is) = ((i == j) ≡ false) × AllOther i is

scan_other :
    (i : ℕ) (is : List ℕ) (io : ℕ → Io) (s : Server)
    → AllOther i is
    → Keeps i s (scan_writes is io s)
unfolding scan_writes
scan_other i [] io s h = Keeps-refl i s
scan_other i (j ∷ is) io s h =
    Keeps-trans i s _ _ (write_front-Keeps i j (io j) s _ h.0) (scan_other i is io _ h.1)

scan_once :
    (i : ℕ) (before after : List ℕ) (io : ℕ → Io) (s : Server)
    → AllOther i before
    → AllOther i after
    → Wrote 1 i s (scan_writes (before ++ i ∷ after) io s)
unfolding scan_writes
scan_once i [] after io s h k =
    Wrote-Keeps 1 i s _ _ (write_front-Wrote i (io i) s _ refl) (scan_other i after io _ k)
scan_once i (j ∷ before) after io s h k =
    Keeps-Wrote 1 i s _ _ (write_front-Keeps i j (io j) s _ h.0)
      (scan_once i before after io _ h.1 k)

pub scan-Wrote :
    (i : ℕ) (io : ℕ → Io) (s : Server) → i < instances → Wrote 1 i s (scan_writes indices io s)
scan-Wrote zero io s h = scan_once 0 [] (1 ∷ 2 ∷ 3 ∷ []) io s tt (refl, (refl, (refl, tt)))
scan-Wrote (suc zero) io s h = scan_once 1 (0 ∷ []) (2 ∷ 3 ∷ []) io s (refl, tt) (refl, (refl, tt))
scan-Wrote (suc (suc zero)) io s h =
    scan_once 2 (0 ∷ 1 ∷ []) (3 ∷ []) io s (refl, (refl, tt)) (refl, tt)
scan-Wrote (suc (suc (suc zero))) io s h =
    scan_once 3 (0 ∷ 1 ∷ 2 ∷ []) [] io s (refl, (refl, (refl, tt))) tt
scan-Wrote (suc (suc (suc (suc n)))) io s h = absurd (omega arith)

pub if_running-Wrote :
    (k : Thread) (i : ℕ) (io : ℕ → Io) (s : Server)
    → i < instances
    → (n : ℕ) × (n ≤ 1) × Wrote n i s (if_running k (scan_writes indices io) s)
unfolding if_running
if_running-Wrote running i io s lt = (1, omega arith, scan-Wrote i io s lt)
if_running-Wrote ended i io s lt = (0, omega arith, Wrote-refl i s)
if_running-Wrote terminated i io s lt = (0, omega arith, Wrote-refl i s)
if_running-Wrote broken i io s lt = (0, omega arith, Wrote-refl i s)
