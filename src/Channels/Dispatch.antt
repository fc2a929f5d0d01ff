-- ===== src/Channels/Dispatch.antt =====
-- The requests to one channel, `channel::dispatch` and the handlers of the three kinds of channel:
-- src/easyprospect-web-worker/ws-user.cpp and include/easyprospect-web-worker/worker-server.h.
use Prim.Native.String.{len}
use text.Mathlib.Text.{◌==◌ as str_eq}
use easyprospect_service.Prelude.{
  ℕ, Bool, true, false, Option, none, some, String, ltb, ◌==◌, if◌then◌else◌, not,
}
use easyprospect_service.Rpc.{
  RpcCall, error_of_text, error_of_code, method_not_found, Checked, ok, fail, checked_string,
}
use easyprospect_service.Channels.{
  Kind, room, system, table, Request, shutdown, stop, Job, play, watch, bet, start, hit, stand, job,
  World, Site, Outcome, done, failed, post, ask, said, broadcast, user_name, is_joined, insert,
  erase, is_empty, complete_to,
}

-- `checked_user`
unfoldable pub checked_user : ℕ → Site → Checked {0} Unit
unfolding error_of_text
checked_user u k = if is_empty (user_name u k) then fail (error_of_text "1") else ok tt

unfoldable pub finish : RpcCall → ℕ → String → Site × Bool → Site × Outcome
unfolding complete_to error_of_text
finish rpc s text (k, true) = (complete_to rpc s k, done)
finish rpc s text (k, false) = (k, failed (error_of_text text))

unfoldable pub do_join : RpcCall → ℕ → ℕ → Site → Site × Outcome
unfolding checked_user insert finish
do_join rpc u s k = elim (checked_user u k) [
  | fail e ↦ (k, failed e)
  | ok _ ↦ finish rpc s "Already in channel" (insert u s k)
]

unfoldable pub do_leave : RpcCall → ℕ → ℕ → Site → Site × Outcome
unfolding erase finish
do_leave rpc u s k = finish rpc s "Not in channel" (erase u s k)

-- `room_impl::do_say`
unfoldable pub do_say : RpcCall → ℕ → ℕ → Site → Site × Outcome
unfolding checked_user checked_string said broadcast complete_to error_of_text
do_say rpc u s k = elim (checked_user u k) [
  | fail e ↦ (k, failed e)
  | ok _ ↦
      if is_joined s k
      then (elim (checked_string rpc.params "message") [
        | fail e ↦ (k, failed e)
        | ok text ↦ (complete_to rpc s (broadcast (said k.channel (user_name u k) text) k), done)
      ])
      else (k, failed (error_of_text "not in channel"))
]

-- `room_impl::do_slash`, which `on_dispatch` does not call.
unfoldable pub do_slash : ℕ → Site → Site × Outcome
unfolding checked_user error_of_text
do_slash u k = elim (checked_user u k) [
  | fail e ↦ (k, failed e)
  | ok _ ↦ (k, failed (error_of_text "Unimplemented"))
]

-- `system_channel::do_identify`
unfoldable pub set_name : ℕ → String → Site → Site
set_name u n k = record k {
  world = record k.world { names = λ v. if v == u then n else k.world.names v };
}

unfoldable pub do_identify : RpcCall → ℕ → ℕ → Site → Site × Outcome
unfolding checked_string set_name insert complete_to error_of_text
do_identify rpc u s k = elim (checked_string rpc.params "name") [
  | fail e ↦ (k, failed e)
  | ok name ↦
      if ltb 20 (len name)
      then (k, failed (error_of_text "Invalid \"name\": too long"))
      else if not (is_empty (user_name u k))
      then (k, failed (error_of_text "Identity is already set"))
      else (complete_to rpc s (insert u s (set_name u name k)).0, done)
]

-- `do_shutdown` and `do_stop` of the system channel.
unfoldable pub do_ask : Request → RpcCall → ℕ → Site → Site × Outcome
unfolding ask complete_to
do_ask r rpc s k = (complete_to rpc s (record k { world = ask r k.world }), done)

unfoldable pub reject : Site → Site × Outcome
unfolding error_of_code
reject k = (k, failed (error_of_code method_not_found))

unfoldable pub room_dispatch : RpcCall → ℕ → ℕ → Site → Site × Outcome
unfolding do_say reject
room_dispatch rpc u s k =
    if str_eq rpc.method "say"
    then do_say rpc u s k
    else if str_eq rpc.method "slash"
    then do_say rpc u s k
    else reject k

unfoldable pub system_dispatch : RpcCall → ℕ → ℕ → Site → Site × Outcome
unfolding do_identify do_ask reject
system_dispatch rpc u s k =
    if str_eq rpc.method "identify"
    then do_identify rpc u s k
    else if str_eq rpc.method "shutdown"
    then do_ask (shutdown 30) rpc s k
    else if str_eq rpc.method "stop"
    then do_ask stop rpc s k
    else reject k

-- The job that `table::on_dispatch` posts for a method.
unfoldable pub job_of : String → Option Job
job_of m =
    if str_eq m "play"
    then some play
    else if str_eq m "watch"
    then some watch
    else if str_eq m "bet"
    then some bet
    else if str_eq m "start"
    then some start
    else if str_eq m "hit"
    then some hit
    else if str_eq m "stand"
    then some stand
    else none

-- `std::move(u)` and `std::move(sess)` move the user and the session into the posted handler: the name
-- that is left is empty.
unfoldable pub move_out : ℕ → ℕ → World → World
move_out u s w = record w {
  names = λ v. if v == u then "" else w.names v;
  moved = λ t. if t == s then true else w.moved t;
}

unfoldable pub table_dispatch : RpcCall → ℕ → ℕ → Site → Site × Outcome
unfolding job_of post move_out reject
table_dispatch rpc u s k = elim (job_of rpc.method) [
  | none ↦ reject k
  | some j ↦ (record k { world = move_out u s (post (job j rpc s) k.world) }, done)
]

-- The `on_dispatch` of a kind of channel.
unfoldable pub kind_dispatch : Kind → RpcCall → ℕ → ℕ → Site → Site × Outcome
unfolding room_dispatch system_dispatch table_dispatch
kind_dispatch room rpc u s k = room_dispatch rpc u s k
kind_dispatch system rpc u s k = system_dispatch rpc u s k
kind_dispatch table rpc u s k = table_dispatch rpc u s k

unfoldable pub on_dispatch : RpcCall → ℕ → ℕ → Site → Site × Outcome
unfolding kind_dispatch
on_dispatch rpc u s k = kind_dispatch k.channel.kind rpc u s k

-- `channel::dispatch`
unfoldable pub dispatch : RpcCall → ℕ → ℕ → Site → Site × Outcome
unfolding do_join do_leave on_dispatch
dispatch rpc u s k =
    if str_eq rpc.method "join"
    then do_join rpc u s k
    else if str_eq rpc.method "leave"
    then do_leave rpc u s k
    else on_dispatch rpc u s k
