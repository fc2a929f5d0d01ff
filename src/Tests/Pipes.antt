-- ===== src/Tests/Pipes.antt =====
-- The named pipes at concrete inputs.
use easyprospect_service.Prelude.{
  refl, take, ◌++◌, ◌≤◌, ℕ, ◌≡◌, ◌≢◌, ◌↔◌, true, false, Option, none, List, [], ◌∷◌, put, arith,
}
use easyprospect_service.Prelude.Int.{pos}
use easyprospect_service.Control.{Base, cmd_stop, Message, stop_message, Value}
use easyprospect_service.Pipes.{
  Server, new_server, running, completes, pending, Round, timeout, signalled, finished,
  next_message,
}
use easyprospect_service.Pipes.Loop.{Event, round_event, send_event, run}
use easyprospect_service.Pipes.Fifo.{Delivers, sent, run-Delivers}
use easyprospect_service.Pipes.Calls.{front, is_empty, next_message_iff}
use easyprospect_service.Pipes.Stop.{run-stop}

abbrev pub base : Base
base = record { type = cmd_stop; pid = pos 7; port = pos 0; id1 = 1; id2 = 2; current_time = pos 9 }

abbrev pub goodbye : Message
goodbye = stop_message base

abbrev pub no_bytes : List ℕ → Option Value
no_bytes bytes = none

-- The first event of a new pipe, and a round in which nothing happens but writes.
abbrev connected : Round
connected = record {
  reads = λ i. pending;
  writes = λ i. completes;
  stopped_reading = false;
  stopped_writing = false;
  stopped_waiting = false;
  wait = signalled 1 (finished base cmd_stop (pos 0) [] 0);
}

abbrev pub quiet : Round
quiet = record {
  reads = λ i. pending;
  writes = λ i. pending;
  stopped_reading = false;
  stopped_writing = false;
  stopped_waiting = false;
  wait = timeout;
}

abbrev events : List Event
events =
    round_event connected ∷ send_event 1 goodbye ∷ send_event 3 goodbye ∷ round_event quiet ∷ []

run-Delivers_example : Delivers 1 new_server (run no_bytes events new_server) (sent 1 events)
run-Delivers_example = run-Delivers no_bytes events 1 new_server (omega arith)

abbrev waiting : Server
waiting =
    run no_bytes (send_event 1 goodbye ∷ send_event 1 goodbye ∷ send_event 1 goodbye ∷ [])
      new_server

-- A message of the third pipe, while the first has none.
abbrev blocked : Server
blocked = record new_server {
  pipes = put 2 (record (new_server.pipes 2) { read_queue = goodbye ∷ [] }) new_server.pipes;
}

next_message_iff_example :
    ((next_message 2 blocked).1 ≡ front (goodbye ∷ []))
    ↔ (is_empty (blocked.pipes 0).read_queue ≡ is_empty (goodbye ∷ []))
next_message_iff_example = next_message_iff 2 blocked

-- A stop that comes between the first test and the writes.
abbrev overtaken : Event
overtaken = round_event (record quiet { stopped_reading = true })

run-stop_example :
    ((n : ℕ) × (n ≤ 1)
      × (((run no_bytes (overtaken ∷ round_event quiet ∷ []) waiting).pipes 1).written
          ≡ (waiting.pipes 1).written ++ take n (waiting.pipes 1).write_queue))
    × (true ≡ true → (run no_bytes (overtaken ∷ round_event quiet ∷ []) waiting).thread ≢ running)
run-stop_example = run-stop no_bytes overtaken (round_event quiet ∷ []) waiting 1 (omega arith) refl
