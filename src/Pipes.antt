-- ===== src/Pipes.antt =====
-- The named pipes of the control process on Windows: `process_control_win` of
-- include/epworkercntl/epprocess-win.h and src/epworkercntl/epprocess-control-win.cpp.
-- What the operating system answers to `ReadFile`, `WriteFile`, `WaitForMultipleObjects` and
-- `GetOverlappedResult` is an argument of each round of the loop. The bytes of msgpack are a
-- parameter, as in Control.
pub mod Fifo
pub mod Loop
pub mod Keeps
pub mod Drain
pub mod Rounds
pub mod Stopped
pub mod Calls
pub mod Stop
use easyprospect_service.Prelude.{
  ℕ, ◌-◌, Bool, true, false, Option, none, some, List, [], ◌∷◌, ◌++◌, ltb, ◌&&◌, if◌then◌else◌, put,
}
use easyprospect_service.Prelude.Int.{ℤ}
use easyprospect_service.Control.{Base, MessageType, Message, Value, pack}
use easyprospect_service.Control.Unpack.{
  Processed, message, nothing, threw, undefined, process_input,
}

-- The members at one index of the arrays. `written` holds what `WriteFile` was called with, whether
-- the call succeeded or not: a message whose call fails is lost.
pub record Pipe : Type 0 where
  pub read_ready : Bool
  pub write_ready : Bool
  pub read_pending : Bool
  pub write_pending : Bool
  pub write_queue : List Value
  pub read_queue : List Message
  pub written : List Value

-- The thread of `listen_loop`. An exception that leaves it ends the process; `broken` is undefined
-- behaviour.
pub data Thread : Type 0 where
  running ended terminated broken : Thread

pub record Server : Type 0 where
  pub pipes : ℕ → Pipe
  pub stop_loop : Bool
  pub thread : Thread

unfoldable pub new_pipe : Pipe
new_pipe = record {
  read_ready = false;
  write_ready = false;
  read_pending = false;
  write_pending = false;
  write_queue = [];
  read_queue = [];
  written = [];
}

unfoldable pub new_server : Server
unfolding new_pipe
new_server = record { pipes = λ i. new_pipe; stop_loop = false; thread = running }

-- `INSTANCES`, and the indices below it.
abbrev pub instances : ℕ
instances = 4

abbrev pub indices : List ℕ
indices = 0 ∷ 1 ∷ 2 ∷ 3 ∷ []

abbrev pub set_pipe : ℕ → Pipe → Server → Server
set_pipe i p s = record s { pipes = put i p s.pipes }

abbrev pub set_thread : Thread → Server → Server
set_thread t s = record s { thread = t }

-- A call of `ReadFile` or `WriteFile`: it completes, goes on, or fails.
pub data Io : Type 0 where
  completes pending fails : Io

-- `GetOverlappedResult`. A read comes with the bytes of the buffer and their number, and with the
-- base that the constructor of a message draws and the values of the members without initialiser.
pub data Overlapped : Type 0 where
  finished : Base → MessageType → ℤ → List ℕ → ℕ → Overlapped
  failed : Overlapped

pub data Wait : Type 0 where
  timeout wait_failed : Wait
  signalled : ℕ → Overlapped → Wait

-- What one round of the loop meets. Another thread may stop the server after the first test of
-- `stop_loop` and before the writes, after the writes and before the second test, or during the wait.
pub record Round : Type 0 where
  pub reads : ℕ → Io
  pub writes : ℕ → Io
  pub stopped_reading : Bool
  pub stopped_writing : Bool
  pub stopped_waiting : Bool
  pub wait : Wait

unfoldable pub begin_read : ℕ → Server → Server
begin_read i s =
    if (s.pipes i).read_ready
    then set_pipe i (record (s.pipes i) { read_ready = false; read_pending = true }) s
    else s

abbrev pub is_failure : Io → Bool
is_failure completes = false
is_failure pending = false
is_failure fails = true

-- The first loop over the pipes; a failed `ReadFile` throws.
unfoldable pub scan_reads : List ℕ → (ℕ → Io) → Server → Server
unfolding begin_read
scan_reads [] io s = s
scan_reads (i ∷ is) io s =
    let rest = scan_reads is io (begin_read i s) in
    if (s.pipes i).read_ready && is_failure (io i)
    then set_thread terminated (begin_read i s)
    else rest

-- After an error the pipe is disconnected and connected again, which changes no member.
abbrev pub pending_after : Io → Bool → Bool
pending_after completes old = false
pending_after pending old = true
pending_after fails old = old

-- By the write queue of the pipe.
unfoldable pub write_front : ℕ → Io → Server → List Value → Server
write_front i io s [] = set_pipe i (record (s.pipes i) { write_ready = false }) s
write_front i io s (b ∷ q) =
    let p = s.pipes i in
    set_pipe i
      (record p {
        write_ready = true;
        write_queue = q;
        written = p.written ++ b ∷ [];
        write_pending = pending_after io p.write_pending;
      })
      s

-- The second loop over the pipes.
unfoldable pub scan_writes : List ℕ → (ℕ → Io) → Server → Server
unfolding write_front
scan_writes [] io s = s
scan_writes (i ∷ is) io s = scan_writes is io (write_front i (io i) s (s.pipes i).write_queue)

unfoldable pub set_read_ready : ℕ → Server → Server
set_read_ready i s = set_pipe i (record (s.pipes i) { read_ready = true }) s

-- What `process_input` makes of a read. The null pointer is dereferenced for the log.
unfoldable pub received : ℕ → Processed → Server → Server
unfolding set_read_ready
received i (message m) s =
    let p = s.pipes i in
    set_read_ready i (set_pipe i (record p { read_queue = p.read_queue ++ m ∷ [] }) s)
received i nothing s = set_thread broken s
received i threw s = set_thread terminated s
received i undefined s = set_thread broken s

unfoldable pub end_write : ℕ → Overlapped → Server → Server
end_write i (finished fresh tc rs bytes n) s =
    set_pipe i (record (s.pipes i) { write_pending = false }) s
-- `DisconnectAndReconnect` gets the index of the event, which is out of the range of the pipes.
end_write i failed s = set_thread broken s

unfoldable pub on_write_event : ℕ → Overlapped → Server → Server
unfolding end_write
on_write_event i o s = if (s.pipes i).write_pending then end_write i o s else s

-- `next_message` returns a message or null, or is undefined.
pub data Next : Type 0 where
  next : Message → Next
  null : Next
  front_of_empty : Next

unfoldable pub pop_message : ℕ → Server → List Message → Server × Next
pop_message i s [] = (set_thread broken s, front_of_empty)
pop_message i s (m ∷ q) = (set_pipe i (record (s.pipes i) { read_queue = q }) s, next m)

-- `read_queue->empty()` asks the first queue.
unfoldable pub take_message : ℕ → Server → List Message → Server × Next
unfolding pop_message
take_message i s [] = (s, null)
take_message i s (m ∷ q) = pop_message i s (s.pipes i).read_queue

unfoldable pub next_message : ℕ → Server → Server × Next
unfolding take_message
next_message i s = take_message i s (s.pipes 0).read_queue

unfoldable pub push_packed : ℕ → Option Value → Server → Server
push_packed i none s = s
push_packed i (some b) s =
    let p = s.pipes i in
    set_pipe i (record p { write_ready = true; write_queue = p.write_queue ++ b ∷ [] }) s

-- Nothing is sent if `pack` throws. An index out of range is undefined behaviour.
unfoldable pub send : ℕ → Message → Server → Server
unfolding push_packed
send i m s = if ltb i instances then push_packed i (pack m) s else set_thread broken s

unfoldable pub stop : Server → Server
stop s = record s { stop_loop = true }
