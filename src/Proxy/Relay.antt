-- ===== src/Proxy/Relay.antt =====
-- The packages of a session on their way to the workers: the function that
-- src/easyprospect-web/server.cpp sets by `set_send_worker_req_impl`.
-- Each package starts a coroutine; here one ends before the next begins. `fresh` and `nets` are the
-- random ids and the results of the network that the packages meet.
use easyprospect_service.Prelude.{ℕ, suc, Option, none, some, List, [], ◌∷◌, ◌++◌}
use easyprospect_service.Prelude.Int.{pos}
use easyprospect_service.Downstream
use easyprospect_service.Downstream.Serve
use easyprospect_service.Downstream.Serve.{Net, Sent, start_request}
use easyprospect_service.Proxy.Request.{HttpRequest, Continuation}
use easyprospect_service.Proxy.Session.{Package}

unfoldable pub first_of : Option HttpRequest → Option Serve.Package
first_of none = none
first_of (some req) = some (record { session = req.session_id; done = req.done })

-- A continuation goes to the session of its request.
unfoldable pub more_of : Option Continuation → Option Serve.Package
more_of none = none
more_of (some c) = elim c.request [
  | none ↦ none
  | some req ↦ some (record { session = req.session_id; done = c.done })
]

-- What became of the packages.
pub record Relay (R : Type 0) : Type 0 where
  pub downstream : Downstream.Downstream
  pub count : ℕ
  pub answers : List (Sent R)

module _ {R : Type 0} where
  -- The backend is number 0, and the position is not used.
  unfoldable pub send_worker_req :
      ℕ → Package → Net R → Downstream.Downstream → Downstream.Downstream × Sent R
  unfolding first_of more_of start_request
  send_worker_req fresh p net d =
      start_request fresh (pos 0) (first_of p.first) (more_of p.more) net d

  unfoldable pub new_relay : Downstream.Downstream → Relay R
  new_relay d = record { downstream = d; count = 0; answers = [] }

  module _ (fresh : ℕ → ℕ) (nets : ℕ → Net R) where
    unfoldable pub relay_one : Package → Relay R → Relay R
    unfolding send_worker_req
    relay_one p r =
        let (d, a) = send_worker_req (fresh r.count) p (nets r.count) r.downstream in
        record { downstream = d; count = suc r.count; answers = r.answers ++ a ∷ [] }

    unfoldable pub relay : List Package → Relay R → Relay R
    unfolding relay_one
    relay [] r = r
    relay (p ∷ ps) r = relay ps (relay_one p r)
