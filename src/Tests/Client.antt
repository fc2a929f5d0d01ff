-- ===== src/Tests/Client.antt =====
-- The worker's end of the pipe at concrete inputs.
use easyprospect_service.Prelude.{
  ℕ, ◌+◌, ◌≡◌, refl, Option, some, List, [], ◌∷◌, true, false, none, arith,
}
use easyprospect_service.Prelude.Int.{pos}
use easyprospect_service.Control.{cmd_stop, stop_message, Value, int, pack, type_code, type_of_code}
use easyprospect_service.Control.RoundTrip.{InRange}
use easyprospect_service.Lifecycle
use easyprospect_service.Lifecycle.{running_server}
use easyprospect_service.Lifecycle.Countdown.{fires}
use easyprospect_service.Pipes
use easyprospect_service.Pipes.Loop
use easyprospect_service.Pipes.{new_server, completes, pending, timeout, Io}
use easyprospect_service.Client.{
  Client, new_client, finished, signalled, Event, round_event, handler_event, send_event, run,
}
use easyprospect_service.Client.Handlers.{Posted, run-Posted}
use easyprospect_service.Client.Worker.{shutdown_worker, stop-stops}
use easyprospect_service.Tests.Pipes.{base, goodbye, no_bytes, quiet}

-- What msgpack reads from the bytes of the message.
abbrev unpack_goodbye : List ℕ → Option Value
unpack_goodbye bytes = pack goodbye

base-InRange : InRange base
unfolding type_code type_of_code
base-InRange = record {
  type = refl;
  known = refl;
  pid = refl;
  port = refl;
  id1 = omega arith;
  id2 = omega arith;
  current_time = refl;
}

-- Counts the calls of the shutdown function.
abbrev count_shutdown : ℕ → ℕ
count_shutdown n = n + 1

abbrev idle_events : List Event
idle_events =
    round_event (record {
      read = pending;
      write = completes;
      wait = signalled 1 (finished base cmd_stop (pos 0) [] 0);
    })
    ∷ send_event goodbye
    ∷ handler_event
    ∷ []

run-Posted_example : Posted (run no_bytes count_shutdown idle_events (new_client 0))
run-Posted_example = run-Posted no_bytes count_shutdown idle_events 0

abbrev reading_client : Client Lifecycle.Server
reading_client = record (new_client running_server) { read_pipe = false; read_pending = true }

-- The value that a stop message packs to.
abbrev value_of : Option Value → Value
value_of (some v) = v
value_of none = int (pos 0)

abbrev goodbye_value : Value
goodbye_value = value_of (pack (stop_message base))

stop-stops_example :
    (((Loop.round unpack_goodbye quiet (Pipes.send 1 (stop_message base) new_server)).pipes
        1).written
      ≡ goodbye_value ∷ [])
    × ((fires
          (0 ∷ [])
          (run unpack_goodbye
            (shutdown_worker 1000)
            (round_event (record {
              read = pending;
              write = completes;
              wait = signalled 0 (finished base cmd_stop (pos 0) (7 ∷ []) 1);
            })
              ∷ handler_event
              ∷ [])
            reading_client).app).stopped
        ≡ true)
unfolding new_server new_client Loop.round Pipes.send pack
stop-stops_example =
    stop-stops 1000 (0 ∷ []) unpack_goodbye new_server 1 quiet base goodbye_value reading_client
      pending completes base cmd_stop (pos 0) (7 ∷ []) 1 (omega arith) base-InRange refl refl refl
      refl (record { runs = refl; waits = refl; begun = refl; handled = refl; none_posted = refl })
      refl (omega arith) refl (omega arith)
