-- ===== src/Pipes/Calls.antt =====
-- The calls of other threads: `next_message`, and what `stop` leaves undone.
use easyprospect_service.Prelude.{ℕ, ◌≡◌, ◌↔◌, refl, Bool, true, false, List, [], ◌∷◌}
use easyprospect_service.Control.{Message}
use easyprospect_service.Pipes.{Server, Next, next, null, pop_message, take_message, next_message}

abbrev pub is_empty : List Message → Bool
is_empty [] = true
is_empty (m ∷ q) = false

-- What a queue is meant to give.
abbrev pub front : List Message → Next
front [] = null
front (m ∷ q) = next m

take_message_iff :
    (i : ℕ) (s : Server) (p q : List Message)
    → (s.pipes i).read_queue ≡ q
    → ((take_message i s p).1 ≡ front q) ↔ (is_empty p ≡ is_empty q)
unfolding take_message pop_message
take_message_iff i s [] [] e = (λ h. refl, λ h. refl)
take_message_iff i s [] (m ∷ q) e = (λ h. cc, λ h. cc)
take_message_iff i s (n ∷ p) [] e = rw e (λ h. cc, λ h. cc)
take_message_iff i s (n ∷ p) (m ∷ q) e = rw e (λ h. refl, λ h. refl)

-- `next_message` gives the first message of the queue of its pipe, or null if there is none, exactly if that
-- queue and the queue of the first pipe are both empty or both not. Otherwise a waiting message is not
-- given, or the front of an empty queue is read.
pub next_message_iff :
    (i : ℕ) (s : Server)
    → ((next_message i s).1 ≡ front (s.pipes i).read_queue)
      ↔ (is_empty (s.pipes 0).read_queue ≡ is_empty (s.pipes i).read_queue)
unfolding next_message
next_message_iff i s = take_message_iff i s (s.pipes 0).read_queue (s.pipes i).read_queue refl
