-- ===== src/Client.antt =====
-- The worker's end of the named pipe: `process_cntrl_client_win` of
-- include/easyprospect-web-worker/easyprospect-process-cntrl-client-win.h and
-- src/easyprospect-web-worker/easyprospect-process-cntrl-client-win.cpp, and the actions on messages of
-- include/easyprospect-web-worker/easyprospect-process-message-actions.h.
-- The answers of the operating system are arguments of each round of the loop, as in Pipes. The
-- function that shuts the application down is a parameter, and `S` the state that it changes.
pub mod Handlers
pub mod Stop
pub mod Worker
use easyprospect_service.Prelude.{
  ℕ, zero, suc, Bool, true, false, Option, none, some, List, [], ◌∷◌, ◌++◌, ltb, ◌==◌,
  if◌then◌else◌,
}
use easyprospect_service.Prelude.Int.{ℤ}
use easyprospect_service.Control.{
  Base, MessageType, no_type, base, start, ping, pong, cmd_stop, cmd_result, other, Message,
  base_of, Value, pack,
}
use easyprospect_service.Control.Unpack.{
  Processed, message, nothing, threw, undefined, process_input,
}
use easyprospect_service.Pipes.{
  Thread, running, ended, terminated, broken, Io, completes, pending, fails,
}

-- `written` holds what `WriteFile` was called with, `posted` counts the handlers that were posted and
-- did not run yet. The thread is `terminated` if an exception leaves its loop.
pub record Client (S : Type 0) : Type 0 where
  pub read_pipe : Bool
  pub write_pipe : Bool
  pub read_pending : Bool
  pub write_pending : Bool
  pub write_queue : List Value
  pub read_queue : List Message
  pub written : List Value
  pub posted : ℕ
  pub thread : Thread
  pub app : S

-- `GetOverlappedResult`: success, with what a read brings, or an error.
pub data Outcome : Type 0 where
  finished : Base → MessageType → ℤ → List ℕ → ℕ → Outcome
  incomplete : Outcome
  failed : Outcome

pub data Wait : Type 0 where
  timeout wait_failed : Wait
  signalled : ℕ → Outcome → Wait

pub record Round : Type 0 where
  pub read : Io
  pub write : Io
  pub wait : Wait

-- `do_action`, by the type of the message: the shutdown function is called, nothing happens but a line
-- in the log, or a `runtime_error` is thrown.
pub data Action : Type 0 where
  shuts_down logs invalid : Action

unfoldable pub do_action : MessageType → Action
do_action no_type = logs
do_action base = logs
do_action start = logs
do_action ping = logs
do_action pong = logs
do_action cmd_stop = shuts_down
do_action cmd_result = logs
do_action (other n) = invalid

-- A failed write is only logged.
abbrev pub still_pending : Io → Bool
still_pending completes = false
still_pending pending = true
still_pending fails = true

module _ {S : Type 0} where
  -- The client once the pipe is open.
  unfoldable pub new_client : S → Client S
  new_client app = record {
    read_pipe = true;
    write_pipe = true;
    read_pending = false;
    write_pending = false;
    write_queue = [];
    read_queue = [];
    written = [];
    posted = 0;
    thread = running;
    app = app;
  }

  abbrev pub set_thread : Thread → Client S → Client S
  set_thread t c = record c { thread = t }

  -- What follows in a round unless the loop was left.
  unfoldable pub if_running : Thread → (Client S → Client S) → Client S → Client S
  if_running running f c = f c
  if_running ended f c = c
  if_running terminated f c = c
  if_running broken f c = c

  abbrev pub and_then : (Client S → Client S) → Client S → Client S
  and_then f c = if_running c.thread f c

  unfoldable pub read_file : Io → Client S → Client S
  read_file completes c = record c { read_pipe = false; read_pending = true }
  read_file pending c = record c { read_pipe = false; read_pending = true }
  read_file fails c = record c { read_pipe = false; read_pending = true; thread = terminated }

  unfoldable pub begin_read : Io → Client S → Client S
  unfolding read_file
  begin_read io c = if c.read_pipe then read_file io c else c

  unfoldable pub write_front : Io → Client S → List Value → Client S
  write_front io c [] = record c { write_pipe = false; write_pending = false }
  write_front io c (b ∷ q) = record c {
    write_pending = still_pending io;
    write_queue = q;
    written = c.written ++ b ∷ [];
  }

  unfoldable pub begin_write : Io → Client S → Client S
  unfolding write_front
  begin_write io c = if c.write_pipe then write_front io c c.write_queue else c

  -- A message is queued, and a handler for it posted. The null pointer is dereferenced for the log.
  unfoldable pub received : Processed → Client S → Client S
  received (message m) c = record c { read_queue = c.read_queue ++ m ∷ []; posted = suc c.posted }
  received nothing c = set_thread broken c
  received threw c = set_thread terminated c
  received undefined c = set_thread broken c

  unfoldable pub end_write : Outcome → Client S → Client S
  end_write (finished fresh tc rs bytes n) c = record c { write_pending = false }
  end_write incomplete c = record c { write_pending = true }
  end_write failed c = record c { write_pending = false }

  -- A message is pushed whatever `pack` gives, unless it throws; `send` throws if the thread is not
  -- running.
  unfoldable pub push_packed : Option Value → Client S → Client S
  push_packed none c = c
  push_packed (some b) c = record c { write_pipe = true; write_queue = c.write_queue ++ b ∷ [] }

  unfoldable pub send : Message → Client S → Client S
  unfolding if_running push_packed
  send m c = and_then (push_packed (pack m)) c

module _ {S : Type 0} (shutdown : S → S) where
  unfoldable pub act : Action → Client S → Client S
  act shuts_down c = record c { app = shutdown c.app }
  act logs c = c
  act invalid c = set_thread terminated c

  -- The handler that was posted, by the read queue.
  unfoldable pub handle : List Message → Client S → Client S
  unfolding act do_action
  handle [] c = set_thread broken c
  handle (m ∷ q) c = act (do_action (base_of m).type) (record c { read_queue = q })

  -- A handler runs if one was posted.
  unfoldable pub run_handler : ℕ → Client S → Client S
  unfolding handle
  run_handler zero c = c
  run_handler (suc n) c = handle c.read_queue (record c { posted = n })

-- What happens to a client: a round of its loop, a handler that runs, a message to send.
pub data Event : Type 0 where
  round_event : Round → Event
  handler_event : Event
  send_event : Message → Event

module _ {S : Type 0} (unpack : List ℕ → Option Value) where
  unfoldable pub read_result : Outcome → Client S → Client S
  unfolding received
  read_result (finished fresh tc rs bytes n) c =
      if ltb 0 n then received (process_input fresh tc rs unpack bytes n) c else c
  read_result incomplete c = record c { read_pending = true }
  read_result failed c = c

  unfoldable pub on_read_event : Outcome → Client S → Client S
  unfolding read_result
  on_read_event o c =
      let ready = record c { read_pipe = true } in
      if c.read_pending then read_result o (record ready { read_pending = false }) else ready

  unfoldable pub on_write_event : Outcome → Client S → Client S
  unfolding end_write
  on_write_event o c =
      let ready = record c { write_pipe = true } in
      if c.write_pending then end_write o ready else ready

  unfoldable pub on_wait : Wait → Client S → Client S
  unfolding on_read_event on_write_event
  on_wait timeout c = c
  on_wait wait_failed c = set_thread ended c
  on_wait (signalled k o) c =
      if k == 0 then on_read_event o c else if k == 1 then on_write_event o c else c

  -- A round of the `do` loop.
  unfoldable pub round : Round → Client S → Client S
  unfolding if_running begin_read begin_write on_wait
  round e c =
      let read = and_then (begin_read e.read) c in
      and_then (on_wait e.wait) (and_then (begin_write e.write) read)

  module _ (shutdown : S → S) where
    unfoldable pub step : Client S → Event → Client S
    unfolding round run_handler send
    step c (round_event e) = round e c
    step c handler_event = run_handler shutdown c.posted c
    step c (send_event m) = send m c

    unfoldable pub run : List Event → Client S → Client S
    unfolding step
    run [] c = c
    run (e ∷ es) c = run es (step c e)
