-- ===== src/Tests/Downstream.antt =====
-- The downstream connections at concrete inputs.
use easyprospect_service.Prelude.{◌≡◌, ◌≢◌, arith, refl, true, none, some, List, [], ◌∷◌, String}
use easyprospect_service.Prelude.Int.{pos}
use easyprospect_service.Downstream.{Session, empty_downstream}
use easyprospect_service.Downstream.Serve.{Net, Event, backends_event, request_event, run}
use easyprospect_service.Downstream.Owned.{Owned}
use easyprospect_service.Downstream.Requests.{run-Owned, run-unshared}

abbrev works : Net String
works = record { resolved = true; connected = true; written = true; read = some "ok" }

-- Two requests without a session, then one more of the first session.
abbrev events : List (Event String)
events =
    backends_event (record { name = "be1"; address = "127.0.0.1"; port = "9101" } ∷ [])
    ∷ request_event 7 (pos 0) (some (record { session = 0; done = true })) none works
    ∷ request_event 8 (pos 0) (some (record { session = 0; done = true })) none works
    ∷ request_event 9 (pos 0) (some (record { session = 7; done = true })) none works
    ∷ []

second_connection :
    (run events empty_downstream).sessions 8 ≡ some (record { id = 8; conn = some 1 })
unfolding run empty_downstream
second_connection = refl

run-Owned_example : Owned (run events empty_downstream)
run-Owned_example = run-Owned events

abbrev first : Session
first = record { id = 7; conn = some 0 }

abbrev second : Session
second = record { id = 8; conn = some 1 }

run-unshared_example : second.conn ≢ some 0
unfolding run empty_downstream
run-unshared_example = run-unshared events 7 8 first second 0 (λ h. omega arith) refl refl refl
