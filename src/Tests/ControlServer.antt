-- ===== src/Tests/ControlServer.antt =====
-- The control program at a concrete run.
use easyprospect_service.Prelude.{◌≡◌, refl, true, false, List, [], ◌∷◌, ◌++◌, arith}
use easyprospect_service.Prelude.Int.{pos}
use easyprospect_service.Control.{no_type, pack}
use easyprospect_service.Pipes
use easyprospect_service.Pipes.Loop
use easyprospect_service.ControlServer.{
  Visit, Iteration, Exit, make_server, loop, new_state, visit, take_next, send_stops,
}
use easyprospect_service.ControlServer.Shutdown.{stop_value, make_server-stops}
use easyprospect_service.Tests.Pipes.{base, no_bytes, quiet}

abbrev visit_of : Visit
visit_of = record {
  meanwhile = quiet ∷ [];
  is_running = true;
  fresh = base;
  type_cmd = no_type;
  result = pos 0;
}

-- Nothing comes in the first iteration, and Ctrl-C in the second.
abbrev iterations : List Iteration
iterations =
    record { visits = λ i. visit_of; interrupted = false }
    ∷ record { visits = λ i. visit_of; interrupted = true }
    ∷ []

abbrev warned : Exit
warned = record { fresh = λ i. base; warning = quiet ∷ quiet ∷ [] }

make_server-stops_example :
    let s = loop no_bytes iterations new_state in
    let t = make_server no_bytes iterations warned in
    (s.full_exit ≡ true)
    × ((t.pipes.pipes 0).written
        ≡ (s.pipes.pipes 0).written ++ ((s.pipes.pipes 0).write_queue ++ stop_value base ∷ []))
    × (t.pipes.stop_loop ≡ true)
unfolding loop new_state visit take_next send_stops Loop.round Pipes.send Pipes.next_message pack
make_server-stops_example = make_server-stops no_bytes iterations warned refl (omega arith) refl
