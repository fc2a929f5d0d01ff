-- ===== src/Downstream.antt =====
-- The downstream connections of the proxy:
-- include/easyprospect-web/easyprospect-server-downstream.h.
-- A session id is a number, and 0 the nil id; a new id is drawn by the random generator, which is an
-- argument, `fresh`. A pointer to a connection is its address; `next` is the first free one. The
-- results of the network are arguments too.
pub mod Serve
pub mod Owned
pub mod Requests
pub mod Forwards
use easyprospect_service.Prelude.{
  ℕ, zero, suc, ◌+◌, Bool, true, false, Option, none, some, List, [], ◌∷◌, String, not, ◌&&◌, ◌||◌,
  ◌==◌, if◌then◌else◌, length, get_elem?, put,
}
use easyprospect_service.Prelude.Int.{ℤ, pos, negsuc}

pub record Connection : Type 0 where
  pub owner : ℕ
  pub initialized : Bool

unfoldable pub new_connection : Connection
new_connection = record { owner = 0; initialized = false }

-- Takes an unused connection, or one that the session has already.
unfoldable pub acquire : ℕ → Connection → Connection × Bool
acquire s c = if c.owner == 0 then (record c { owner = s }, true) else (c, c.owner == s)

pub record Session : Type 0 where
  pub id : ℕ
  pub conn : Option ℕ

pub record Backend : Type 0 where
  pub name : String
  pub address : String
  pub port : String

pub record Downstream : Type 0 where
  pub next : ℕ
  pub heap : ℕ → Connection
  pub connections : List (List ℕ)
  pub sessions : ℕ → Option Session
  pub backends : List Backend

unfoldable pub empty_downstream : Downstream
unfolding new_connection
empty_downstream = record {
  next = 0;
  heap = λ a. new_connection;
  connections = [];
  sessions = λ s. none;
  backends = [];
}

-- `sessions_[s->get_id()] = s`
unfoldable pub put_session : Session → Downstream → Downstream
put_session s d = record d { sessions = put s.id (some s) d.sessions }

unfoldable pub new_session : ℕ → ℕ → Session
new_session fresh s = record { id = if s == 0 then fresh else s; conn = none }

-- The session, or nothing if `logic_error` is thrown.
unfoldable pub found_session :
    ℕ → ℕ → Bool → Downstream → Option Session → Option (Downstream × Session)
unfolding put_session new_session
found_session fresh s throw_on_missing d (some x) = some (d, x)
found_session fresh s true d none = none
found_session fresh s false d none = some (put_session (new_session fresh s) d, new_session fresh s)

unfoldable pub get_session : ℕ → ℕ → Bool → Downstream → Option (Downstream × Session)
unfolding found_session
get_session fresh s throw_on_missing d = found_session fresh s throw_on_missing d (d.sessions s)

-- `find_if` with `acquire`: it changes the connection that it finds.
unfoldable pub find_acquire : ℕ → List ℕ → (ℕ → Connection) → (ℕ → Connection) × Option ℕ
unfolding acquire
find_acquire s [] h = (h, none)
find_acquire s (a ∷ cs) h =
    let rest = find_acquire s cs h in
    let tried = acquire s (h a) in if tried.1 then (put a tried.0 h, some a) else rest

unfoldable pub set_owner : ℕ → ℕ → Downstream → Downstream
set_owner s a d = record d { heap = put a (record (d.heap a) { owner = s }) d.heap }

-- The connection that was found, or a new one. A new one is put into `con` only, a copy of the
-- vector.
unfoldable pub take_connection : ℕ → (ℕ → Connection) × Option ℕ → Downstream → Downstream × ℕ
unfolding set_owner acquire new_connection
take_connection s (h, some a) d = (set_owner s a (record d { heap = h }), a)
take_connection s (h, none) d =
    let made = record d { next = suc d.next; heap = put d.next (acquire s new_connection).0 h } in
    (set_owner s d.next made, d.next)

unfoldable pub connections_at : ℤ → Downstream → Option (List ℕ)
connections_at (pos i) d = get_elem? d.connections i
connections_at (negsuc i) d = none

unfoldable pub taken : ℕ → Downstream → Option (List ℕ) → Option (Downstream × ℕ)
unfolding take_connection find_acquire
taken s d none = none
taken s d (some con) = some (take_connection s (find_acquire s con d.heap) d)

-- Nothing if `logic_error` is thrown. A negative id is converted to a large one for the comparison.
unfoldable pub get_connection : ℤ → ℕ → Downstream → Option (Downstream × ℕ)
unfolding taken connections_at
get_connection backend s d = taken s d (connections_at backend d)

unfoldable pub resize : ℕ → List (List ℕ) → List (List ℕ)
resize zero cs = []
resize (suc n) [] = [] ∷ resize n []
resize (suc n) (c ∷ cs) = c ∷ resize n cs

unfoldable pub set_backends : List Backend → Downstream → Downstream
unfolding resize
set_backends bs d = record d { backends = bs; connections = resize (length bs) d.connections }
