-- ===== src/Downstream/Serve.antt =====
-- `start_request` of include/easyprospect-web/easyprospect-server-downstream.h, and histories of calls.
use easyprospect_service.Prelude.{
  ℕ, Bool, true, false, Option, none, some, List, [], ◌∷◌, not, ◌&&◌, ◌||◌, if◌then◌else◌,
  get_elem?, put,
}
use easyprospect_service.Prelude.Int.{ℤ, pos, negsuc}
use easyprospect_service.Downstream.{
  Backend, Connection, Downstream, Session, get_connection, get_session, put_session, set_backends,
}

-- A package of a request: the session id and whether the message is complete.
pub record Package : Type 0 where
  pub session : ℕ
  pub done : Bool

-- What comes of the calls of the network: the lookup, the connection, the write and the read.
pub record Net (R : Type 0) : Type 0 where
  pub resolved : Bool
  pub connected : Bool
  pub written : Bool
  pub read : Option R

pub data Sent (R : Type 0) : Type 0 where
  sent : R → Sent R
  returned : Sent R
  threw : Sent R
  undefined : Sent R

-- `curr_sess->set_connection(conn)`
unfoldable pub bound : Session → Option (Downstream × ℕ) → Option (Downstream × ℕ)
unfolding put_session
bound s none = none
bound s (some (d, a)) = some (put_session (record s { conn = some a }) d, a)

unfoldable pub connection_of : ℤ → Session → Option ℕ → Downstream → Option (Downstream × ℕ)
unfolding bound get_connection
connection_of backend s (some a) d = some (d, a)
connection_of backend s none d = bound s (get_connection backend s.id d)

unfoldable pub backend_at : ℤ → Downstream → Option Backend
backend_at (pos i) d = get_elem? d.backends i
backend_at (negsuc i) d = none

unfoldable pub is_waiting : Option Package → Bool
is_waiting none = false
is_waiting (some p) = not p.done

-- `first_req ? first_req : req_continuation->get_request()`
unfoldable pub current : Option Package → Option Package → Option Package
current (some p) more = some p
current none more = more

pub data Event (R : Type 0) : Type 0 where
  backends_event : List Backend → Event R
  request_event : ℕ → ℤ → Option Package → Option Package → Net R → Event R

module _ {R : Type 0} where
  unfoldable pub init : Net R → Connection → Connection
  init net c = if net.resolved && net.connected then record c { initialized = true } else c

  unfoldable pub init_at : Net R → ℕ → Downstream → Option Backend → Option Downstream
  unfolding init
  init_at net a d none = none
  init_at net a d (some backend) = some (record d { heap = put a (init net (d.heap a)) d.heap })

  -- Nothing if the index of the backend is out of range.
  unfoldable pub initialize : ℤ → Net R → ℕ → Downstream → Option Downstream
  unfolding init_at backend_at
  initialize backend net a d =
      if (d.heap a).initialized then some d else init_at net a d (backend_at backend d)

  unfoldable pub answer_of : Option R → Sent R
  answer_of none = returned
  answer_of (some res) = sent res

  -- The write, the tests whether the message is complete, and the read.
  unfoldable pub forward : Option Package → Option Package → Net R → Sent R
  unfolding is_waiting answer_of
  forward first more net =
      if not net.written
      then returned
      else if is_waiting first || is_waiting more
      then returned
      else answer_of net.read

  unfoldable pub exchange :
      Option Package → Option Package → Net R → Downstream → Option Downstream → Downstream × Sent R
  unfolding forward
  exchange first more net d none = (d, undefined)
  exchange first more net d (some e) = (e, forward first more net)

  unfoldable pub connect :
      ℤ
      → Option Package
      → Option Package
      → Net R
      → Downstream
      → Option (Downstream × ℕ)
      → Downstream × Sent R
  unfolding exchange initialize
  connect backend first more net d none = (d, threw)
  connect backend first more net d (some (e, a)) =
      exchange first more net e (initialize backend net a e)

  unfoldable pub serve :
      ℤ
      → Option Package
      → Option Package
      → Net R
      → Downstream
      → Option (Downstream × Session)
      → Downstream × Sent R
  unfolding connect connection_of
  serve backend first more net d none = (d, threw)
  serve backend first more net d (some (e, s)) =
      connect backend first more net e (connection_of backend s s.conn e)

  unfoldable pub start_with :
      ℕ
      → ℤ
      → Option Package
      → Option Package
      → Net R
      → Downstream
      → Option Package
      → Downstream × Sent R
  unfolding serve get_session
  start_with fresh backend first more net d none = (d, undefined)
  start_with fresh backend first more net d (some p) =
      serve backend first more net d (get_session fresh p.session false d)

  unfoldable pub start_request :
      ℕ → ℤ → Option Package → Option Package → Net R → Downstream → Downstream × Sent R
  unfolding start_with current
  start_request fresh backend first more net d =
      start_with fresh backend first more net d (current first more)

  unfoldable pub step : Downstream → Event R → Downstream
  unfolding set_backends start_request
  step d (backends_event bs) = set_backends bs d
  step d (request_event fresh backend first more net) =
      (start_request fresh backend first more net d).0

  unfoldable pub run : List (Event R) → Downstream → Downstream
  unfolding step
  run [] d = d
  run (e ∷ es) d = run es (step d e)
