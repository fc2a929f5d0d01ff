-- ===== src/Client/Worker.antt =====
-- From a stop message of the control process to the end of a worker: the function that the constructor
-- in src/easyprospect-web-worker/worker-server-app.cpp gives the client.
use easyprospect_service.Prelude.{
  ℕ, ◌≤◌, ◌<◌, ◌≡◌, ap, ◌∙◌, true, Option, none, some, List, [], ◌∷◌, ◌++◌, length, take, arith,
}
use easyprospect_service.Prelude.Int.{ℤ}
use easyprospect_service.Control.{Base, MessageType, cmd_stop, stop_message, Value, pack}
use easyprospect_service.Control.RoundTrip.{InRange}
use easyprospect_service.Pipes
use easyprospect_service.Pipes.{running, Io, instances}
use easyprospect_service.Pipes.Loop
use easyprospect_service.Lifecycle
use easyprospect_service.Lifecycle.{shutdown}
use easyprospect_service.Lifecycle.Countdown.{fires, shutdown-stops}
use easyprospect_service.Client.{Client, finished, signalled, round_event, handler_event, run}
use easyprospect_service.Client.Stop.{Reading, stop-reaches}

-- The worker is asked at the time `now` to shut down within 5 seconds.
unfoldable pub shutdown_worker : ℕ → Lifecycle.Server → Lifecycle.Server
unfolding shutdown
shutdown_worker now v = shutdown now 5 v

-- A stop message, which packs to `v`, is sent on a pipe whose queue is empty, and the next round of the
-- control process leaves its loop running. Then `v` is written, and a worker that is not yet shutting down,
-- whose read is pending and ends with bytes that msgpack unpacks to `v`, has stopped once the posted
-- handler has run and the timer has fired, at least once and however late.
pub stop-stops :
    (now : ℕ) (ds : List ℕ) (unpack : List ℕ → Option Value) (s : Pipes.Server) (k : ℕ)
    (e : Pipes.Round) (b : Base) (v : Value) (c : Client Lifecycle.Server) (io out : Io)
    (fresh : Base) (tc : MessageType) (rs : ℤ) (bytes : List ℕ) (n : ℕ)
    → k < instances
    → InRange b
    → b.type ≡ cmd_stop
    → (s.pipes k).write_queue ≡ []
    → (Loop.round unpack e (Pipes.send k (stop_message b) s)).thread ≡ running
    → pack (stop_message b) ≡ some v
    → Reading c
    → c.app.expiry ≡ none
    → 0 < n
    → unpack (take n bytes) ≡ some v
    → 1 ≤ length ds
    → (((Loop.round unpack e (Pipes.send k (stop_message b) s)).pipes k).written
        ≡ (s.pipes k).written ++ v ∷ [])
      × ((fires ds
            (run unpack
              (shutdown_worker now)
              (round_event (record {
                read = io;
                write = out;
                wait = signalled 0 (finished fresh tc rs bytes n);
              })
                ∷ handler_event
                ∷ [])
              c).app).stopped
          ≡ true)
unfolding shutdown_worker
stop-stops now ds unpack s k e b v c io out fresh tc rs bytes n lt r ty empty runs packed reading
      idle h u one =
    let (wrote, asked) =
      stop-reaches unpack (shutdown_worker now) s k e b v c io out fresh tc rs bytes n lt r ty empty
        runs packed reading h u in
    (
      wrote,
      ap (λ a. (fires ds a).stopped) asked ∙ shutdown-stops now 5 ds c.app idle one (omega arith),
    )
