-- ===== src/WsSession/SendQueue.antt =====
-- The outgoing messages of `ws_session_base`: `do_send`, `do_write` and `on_write` of
-- include/easyprospect-service-shared/session.hpp. All three run on the strand of the stream, so
-- they never overlap. A write is in flight from `async_write` to the call of `on_write`.
pub mod Conserve
pub mod Order
use easyprospect_service.Prelude.{
  ℕ, suc, ◌-◌, Bool, true, false, Option, none, some, List, [], ◌∷◌, ◌++◌, ◌==◌, if◌then◌else◌,
  length, get_elem?, set, take,
}

-- `in_flight` holds the index that `do_write` binds into the handler, and the message it writes;
-- `sent` lists the messages whose write was completed, oldest first.
pub record Queue {ℓ} (A : Type ℓ) : Type ℓ where
  pub is_open : Bool
  pub mq : List A
  pub in_flight : Option (ℕ × A)
  pub sent : List A

pub data Event {ℓ} (A : Type ℓ) : Type ℓ where
  send : A → Event A
  -- The write in flight ends, with an error or without.
  written : (failed : Bool) → Event A
  stop : Event A

module _ {ℓ} {A : Type ℓ} where
  unfoldable pub empty : Queue A
  empty = record { is_open = true; mq = []; in_flight = none; sent = [] }

  -- `async_write(mq_.back(), on_write(mq_.size() - 1))`
  unfoldable pub do_write : Queue A → Queue A
  do_write q =
      let last = length q.mq - 1 in
      elim (get_elem? q.mq last) [ none ↦ q | some m ↦ record q { in_flight = some (last, m) } ]

  unfoldable pub enqueue : Queue A → A → Queue A
  unfolding do_write
  enqueue q m =
      let r = record q { mq = q.mq ++ m ∷ [] } in if length r.mq == 1 then do_write r else r

  unfoldable pub do_send : Queue A → A → Queue A
  unfolding enqueue
  do_send q m = if q.is_open then enqueue q m else q

  unfoldable pub swap : List A → ℕ → ℕ → List A
  swap xs i j = elim (get_elem? xs i) [
    | none ↦ xs
    | some x ↦ elim (get_elem? xs j) [ none ↦ xs | some y ↦ set (set xs i y) j x ]
  ]

  -- `on_write` without an error: the queue that is left.
  unfoldable pub remove : List A → ℕ → List A
  unfolding swap
  remove mq idx =
      let last = length mq - 1 in take last (if idx == last then mq else swap mq idx last)

  unfoldable pub write_next : Queue A → Queue A
  unfolding do_write
  write_next q = elim q.mq [ [] ↦ q | m ∷ rest ↦ do_write q ]

  unfoldable pub on_write : Queue A → ℕ → A → Bool → Queue A
  unfolding remove write_next
  on_write q idx m true = record q { in_flight = none }
  on_write q idx m false =
      write_next (record q { mq = remove q.mq idx; in_flight = none; sent = q.sent ++ m ∷ [] })

  unfoldable pub step : Queue A → Event A → Queue A
  unfolding do_send on_write
  step q (send m) = do_send q m
  step q (written failed) = elim q.in_flight [ none ↦ q | some (idx, m) ↦ on_write q idx m failed ]
  step q stop = record q { is_open = false }

  unfoldable pub run : Queue A → List (Event A) → Queue A
  unfolding step
  run q [] = q
  run q (e ∷ es) = run (step q e) es

  -- The messages that `send` was given while the socket was open.
  unfoldable pub accepted : Queue A → List (Event A) → List A
  accepted q [] = []
  accepted q (send m ∷ es) =
      let rest = accepted (step q (send m)) es in if q.is_open then m ∷ rest else rest
  accepted q (written failed ∷ es) = accepted (step q (written failed)) es
  accepted q (stop ∷ es) = accepted (step q stop) es
