-- ===== src/Channels.antt =====
-- Channels and the list of them: src/easyprospect-web-worker/ws-user.cpp, worker-server.cpp and
-- include/easyprospect-web-worker/worker-server.h.
-- A session is a number in the order of the addresses, which is the order of the `flat_set`; the
-- user that a session owns has the same number. The locks only keep single accesses of a channel
-- apart, so a call is one step.
pub mod Dispatch
pub mod Hub
pub mod Answers
pub mod Once
pub mod Receive
pub mod Frame
pub mod Deliver
pub mod Deaf
pub mod Members
pub mod Kept
pub mod Invariant
pub mod History
use text.Mathlib.Text.{◌==◌ as str_eq}
use easyprospect_service.Prelude.{
  ℕ, zero, suc, ◌+◌, Bool, true, false, Option, none, some, List, [], ◌∷◌, ◌++◌, String, ltb, leb,
  ◌==◌, if◌then◌else◌, length, get_elem?, set, replicate, ◌-◌,
}
use easyprospect_service.Prelude.Int.{pos}
use easyprospect_service.Json.{Json, null, integer, string, object, end, assign, get_size}
use easyprospect_service.Rpc.{
  RpcCall, RpcError, error_with, error_of_text, error_of_code, invalid_params, method_not_found,
  complete, complete_error, Checked, ok, fail, checked_value, checked_string,
}

pub data Kind : Type 0 where
  room system table : Kind

pub record Channel : Type 0 where
  pub kind : Kind
  pub cid : ℕ
  pub name : String
  pub sessions : List ℕ

-- What the code asks of `srv_`: `shutdown` with the seconds, and `stop`.
pub data Request : Type 0 where
  shutdown : ℕ → Request
  stop : Request

pub data Job : Type 0 where
  play watch bet start hit stand : Job

-- The calls that the table posts to its strand.
pub data Post : Type 0 where
  inserted : (s : ℕ) → Post
  erased : (u s : ℕ) → Post
  job : Job → RpcCall → (s : ℕ) → Post

-- `alive` says if the weak pointer to a session can be locked, and `moved` if the session object was
-- moved from, which leaves its pointers null. `outbox` lists the messages that reach the `send` of a
-- connection, `asked` the calls on the server, oldest first.
pub record World : Type 0 where
  pub names : ℕ → String
  pub alive : ℕ → Bool
  pub moved : ℕ → Bool
  pub outbox : List (ℕ × Json)
  pub asked : List Request
  pub posted : List Post

pub record Site : Type 0 where
  pub channel : Channel
  pub world : World

pub data Outcome : Type 0 where
  done : Outcome
  failed : RpcError → Outcome
  -- An exception that is not an `rpc_error`.
  crash : Outcome

-- `flat_set`: sorted, and an element is in it once.
unfoldable pub member : ℕ → List ℕ → Bool
member s [] = false
member s (t ∷ ts) = let rest = member s ts in if s == t then true else rest

unfoldable pub insert_session : ℕ → List ℕ → List ℕ
insert_session s [] = s ∷ []
insert_session s (t ∷ ts) =
    let rest = insert_session s ts in
    if ltb s t then s ∷ t ∷ ts else if s == t then t ∷ ts else t ∷ rest

unfoldable pub erase_session : ℕ → List ℕ → List ℕ
erase_session s [] = []
erase_session s (t ∷ ts) = let rest = erase_session s ts in if s == t then ts else t ∷ rest

-- `ws_session_base::send(jv)`
unfoldable pub send_direct : ℕ → Json → World → World
send_direct s jv w = record w { outbox = w.outbox ++ (s, jv) ∷ [] }

-- `ws_session_t::send(jv)`: nothing is sent if `plain_ptr_` is null.
unfoldable pub post_to : ℕ → Json → World → World
unfolding send_direct
post_to s jv w = if w.moved s then w else send_direct s jv w

-- `sp->send(jv)` if the session can be locked.
unfoldable pub send_if_alive : ℕ → Json → World → World
unfolding post_to
send_if_alive s jv w = if w.alive s then post_to s jv w else w

unfoldable pub send_each : List ℕ → Json → World → World
unfolding send_if_alive
send_each [] jv w = w
send_each (s ∷ ss) jv w = send_each ss jv (send_if_alive s jv w)

unfoldable pub post : Post → World → World
post p w = record w { posted = w.posted ++ p ∷ [] }

unfoldable pub ask : Request → World → World
ask r w = record w { asked = w.asked ++ r ∷ [] }

-- The notification of a join, a leave or a say.
unfoldable pub notice : String → Channel → String → Json
notice verb c user = object (
    assign "user" (string user) (
      assign "name" (string c.name)
        (assign "verb" (string verb) (assign "cid" (integer (pos c.cid)) end))))

unfoldable pub said : Channel → String → String → Json
said c user text = object (
    assign "message" (string text) (
      assign "user" (string user) (
        assign "name" (string c.name)
          (assign "cid" (integer (pos c.cid)) (assign "verb" (string "say") end)))))

-- `channel::send`
unfoldable pub broadcast : Json → Site → Site
unfolding send_each
broadcast jv k = record k { world = send_each k.channel.sessions jv k.world }

abbrev pub user_name : ℕ → Site → String
user_name u k = k.world.names u

unfoldable pub on_insert : ℕ → Site → Site
unfolding post
on_insert s k = elim k.channel.kind [
  | table ↦ record k { world = post (inserted s) k.world }
  | _ ↦ k
]

unfoldable pub on_erase : ℕ → ℕ → Site → Site
unfolding post
on_erase u s k = elim k.channel.kind [
  | table ↦ record k { world = post (erased u s) k.world }
  | _ ↦ k
]

abbrev pub with_sessions : List ℕ → Site → Site
with_sessions ss k = record k { channel = record k.channel { sessions = ss } }

abbrev pub is_joined : ℕ → Site → Bool
is_joined s k = member s k.channel.sessions

-- The broadcast and the hook of `insert`, and those of `erase`.
unfoldable pub announce_join : ℕ → ℕ → Site → Site
unfolding broadcast notice on_insert
announce_join u s k = on_insert s (broadcast (notice "join" k.channel (user_name u k)) k)

unfoldable pub announce_leave : ℕ → ℕ → Site → Site
unfolding broadcast notice on_erase send_if_alive
announce_leave u s k =
    let jv = notice "leave" k.channel (user_name u k) in
    let l = broadcast jv k in on_erase u s (record l { world = send_if_alive s jv l.world })

unfoldable pub insert : ℕ → ℕ → Site → Site × Bool
unfolding insert_session announce_join
insert u s k =
    if is_joined s k
    then (k, false)
    else (announce_join u s (with_sessions (insert_session s k.channel.sessions) k), true)

unfoldable pub erase : ℕ → ℕ → Site → Site × Bool
unfolding erase_session announce_leave
erase u s k =
    if is_joined s k
    then (announce_leave u s (with_sessions (erase_session s k.channel.sessions) k), true)
    else (k, false)

abbrev pub is_empty : String → Bool
is_empty s = str_eq s ""

-- `rpc.complete` with the function that sends to the session.
unfoldable pub complete_to : RpcCall → ℕ → Site → Site
unfolding post_to
complete_to rpc s k = elim (complete rpc) [
  | none ↦ k
  | some jv ↦ record k { world = post_to s jv k.world }
]
