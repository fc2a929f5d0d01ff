-- ===== src/Tests/WsSession.antt =====
-- The send queue of include/easyprospect-service-shared/session.hpp at concrete events.
use mathlib.Core.List.{Perm}
use easyprospect_service.Prelude.{ℕ, ◌≡◌, refl, true, false, List, [], ◌∷◌, ◌++◌, map, replicate}
use easyprospect_service.WsSession.SendQueue.{
  Event, send, written, stop, empty, do_write, enqueue, do_send, swap, remove, write_next, on_write,
  step, run, accepted,
}
use easyprospect_service.WsSession.SendQueue.Conserve.{run-conserves}
use easyprospect_service.WsSession.SendQueue.Order.{run-reverses}

abbrev mixed : List (Event ℕ)
mixed = send 1 ∷ send 2 ∷ send 3 ∷ written false ∷ stop ∷ send 4 ∷ written false ∷ written true ∷ []

mixed_sent : (run empty mixed).sent ≡ 1 ∷ 2 ∷ []
unfolding run step do_send enqueue on_write write_next remove swap do_write empty
mixed_sent = refl

mixed-accepted : accepted empty mixed ≡ 1 ∷ 2 ∷ 3 ∷ []
unfolding accepted step do_send enqueue on_write write_next remove swap do_write empty
mixed-accepted = refl

run-conserves_example : Perm ((run empty mixed).sent ++ (run empty mixed).mq) (accepted empty mixed)
run-conserves_example = run-conserves mixed

run-reverses_example :
    (run {A = ℕ} empty (map send (1 ∷ 2 ∷ 3 ∷ 4 ∷ []) ++ replicate 4 (written false))).sent
    ≡ 1 ∷ 3 ∷ 2 ∷ 4 ∷ []
run-reverses_example = run-reverses 1 4 (2 ∷ 3 ∷ [])
