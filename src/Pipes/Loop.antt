-- ===== src/Pipes/Loop.antt =====
-- `process_control_win::listen_loop` of src/epworkercntl/epprocess-control-win.cpp: a round of the loop,
-- and what may happen to a server.
use easyprospect_service.Prelude.{ℕ, ◌-◌, Bool, false, Option, List, [], ◌∷◌, ltb, if◌then◌else◌}
use easyprospect_service.Control.{Message, Value}
use easyprospect_service.Control.Unpack.{process_input}
use easyprospect_service.Pipes.{
  Overlapped, Round, Server, Thread, Wait, broken, ended, failed, finished, indices, instances,
  next_message, on_write_event, received, running, scan_reads, scan_writes, send, set_pipe,
  set_read_ready, set_thread, signalled, stop, terminated, timeout, wait_failed,
}

-- The tests of `stop_loop`.
unfoldable pub unless_stopped : Server → Server
unless_stopped s = if s.stop_loop then set_thread ended s else s

-- By the state of the thread, in which nothing goes on unless it runs.
unfoldable pub if_running : Thread → (Server → Server) → Server → Server
if_running running f s = f s
if_running ended f s = s
if_running terminated f s = s
if_running broken f s = s

abbrev pub and_then : (Server → Server) → Server → Server
and_then f s = if_running s.thread f s

-- What happens to a server: a round of its loop, and the calls of other threads.
pub data Event : Type 0 where
  round_event : Round → Event
  send_event : ℕ → Message → Event
  next_event : ℕ → Event
  stop_event : Event

-- A call of `stop` by another thread.
unfoldable pub may_stop : Bool → Server → Server
unfolding stop
may_stop b s = if b then stop s else s

-- The first test of `stop_loop` and the reads. From here to the second test nothing reads
-- `stop_loop`, so a stop before the writes does not keep the round from them.
unfoldable pub start_round : Round → Server → Server
unfolding unless_stopped if_running scan_reads may_stop
start_round e s =
    may_stop e.stopped_reading (and_then (scan_reads indices e.reads) (and_then unless_stopped s))

module _ (unpack : List ℕ → Option Value) where
  unfoldable pub end_read : ℕ → Overlapped → Server → Server
  unfolding received set_read_ready
  end_read i (finished fresh tc rs bytes n) s =
      let done = set_pipe i (record (s.pipes i) { read_pending = false }) s in
      if ltb 0 n
      then received i (process_input fresh tc rs unpack bytes n) done
      else set_read_ready i done
  end_read i failed s =
      set_pipe i (record (s.pipes i) { read_ready = false; write_ready = false }) s

  unfoldable pub on_read_event : ℕ → Overlapped → Server → Server
  unfolding end_read set_read_ready
  on_read_event i o s = if (s.pipes i).read_pending then end_read i o s else set_read_ready i s

  unfoldable pub on_event : ℕ → Overlapped → Server → Server
  unfolding on_read_event on_write_event
  on_event k o s =
      if ltb 7 k
      then set_thread ended s
      else if ltb k instances
      then on_read_event k o s
      else on_write_event (k - instances) o s

  unfoldable pub on_wait : Wait → Server → Server
  unfolding on_event stop
  on_wait timeout s = s
  on_wait wait_failed s = stop s
  on_wait (signalled k o) s = on_event k o s

  -- What follows the writes: the second test of `stop_loop`, the wait and the test at the end.
  unfoldable pub finish_round : Round → Server → Server
  unfolding unless_stopped if_running on_wait may_stop
  finish_round e s =
      let again = and_then unless_stopped (may_stop e.stopped_writing s) in
      let waited = and_then (on_wait e.wait) again in
      and_then unless_stopped (may_stop e.stopped_waiting waited)

  -- A round of the `do` loop.
  unfoldable pub round : Round → Server → Server
  unfolding start_round scan_writes if_running finish_round
  round e s = finish_round e (and_then (scan_writes indices e.writes) (start_round e s))

  unfoldable pub step : Server → Event → Server
  unfolding round send next_message stop
  step s (round_event e) = round e s
  step s (send_event i m) = send i m s
  step s (next_event i) = (next_message i s).0
  step s stop_event = stop s

  unfoldable pub run : List Event → Server → Server
  unfolding step
  run [] s = s
  run (e ∷ es) s = run es (step s e)
