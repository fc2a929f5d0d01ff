-- ===== src/ControlServer.antt =====
-- The main loop of the control program: `make_server` of src/epworkercntl/make-server.cpp, with the
-- registry of include/easyprospect-config/easyprospect-registry.h.
-- The control process is the one of Pipes; the rounds that its thread makes meanwhile, what the operating
-- system says of the worker processes, and the values that a new message draws are arguments.
pub mod Shutdown
use easyprospect_service.Prelude.{
  ℕ, Bool, true, false, not, ◌||◌, List, [], ◌∷◌, ◌++◌, Option, if◌then◌else◌, put,
}
use easyprospect_service.Prelude.Int.{ℤ}
use easyprospect_service.Control.{
  Base, MessageType, no_type, base, start, ping, pong, cmd_stop, cmd_result, other, Message,
  base_of, Value, make_stop, make_result,
}
use easyprospect_service.Pipes
use easyprospect_service.Pipes.{Thread, running, ended, terminated, broken, Next}
use easyprospect_service.Pipes.Rounds.{rounds}

-- `ep_worker_client_state`
pub record WorkerClient : Type 0 where
  pub pid : List ℤ
  pub port : List ℤ

-- `processes` says which of `proc_list` are not null.
pub record State : Type 0 where
  pub pipes : Pipes.Server
  pub processes : ℕ → Bool
  pub worker_clients : ℕ → WorkerClient
  pub start_messages : ℕ → List Base
  pub full_exit : Bool

-- `proc_count` is 1, whatever number of workers was configured.
abbrev pub processes_of : List ℕ
processes_of = 0 ∷ []

unfoldable pub new_state : State
unfolding Pipes.new_server
new_state = record {
  pipes = Pipes.new_server;
  processes = λ i. true;
  worker_clients = λ i. record { pid = []; port = [] };
  start_messages = λ i. [];
  full_exit = false;
}

-- What one round of the `for` loop meets: the rounds of the control thread before it, whether the process
-- runs, and the members of the reply.
pub record Visit : Type 0 where
  pub meanwhile : List Pipes.Round
  pub is_running : Bool
  pub fresh : Base
  pub type_cmd : MessageType
  pub result : ℤ

abbrev pub set_pipes : Pipes.Server → State → State
set_pipes p s = record s { pipes = p }

-- A process that has ended is forgotten, and the program is to exit.
unfoldable pub check_process : ℕ → Bool → State → State
check_process i is_running s =
    if not (s.processes i)
    then record s { full_exit = true }
    else if not is_running
    then record s { processes = put i false s.processes; full_exit = true }
    else s

-- A startup message is registered and answered.
unfoldable pub register : ℕ → Visit → Base → State → State
unfolding make_result Pipes.send
register i v b s =
    let c = s.worker_clients i in
    record s {
      pipes = Pipes.send i (make_result v.fresh v.type_cmd v.result) s.pipes;
      worker_clients =
          put i (record { pid = c.pid ++ b.pid ∷ []; port = c.port ++ b.port ∷ [] })
            s.worker_clients;
      start_messages = put i (s.start_messages i ++ b ∷ []) s.start_messages;
    }

unfoldable pub on_type : ℕ → Visit → Base → MessageType → State → State
unfolding register
on_type i v b start s = register i v b s
on_type i v b ty s = s

-- No message, or one by its type. Of a START nothing but the base is read.
unfoldable pub on_next : ℕ → Visit → Next → State → State
unfolding on_type
on_next i v Next.null s = s
on_next i v (Next.next m) s = on_type i v (base_of m) (base_of m).type s
on_next i v Next.front_of_empty s = s

abbrev pub is_running : Thread → Bool
is_running running = true
is_running _ = false

-- What one iteration of the `do` loop meets; `interrupted` is the handler of Ctrl-C.
pub record Iteration : Type 0 where
  pub visits : ℕ → Visit
  pub interrupted : Bool

-- What the exit meets: the members of the stop messages, and the rounds in the 6 seconds after them.
pub record Exit : Type 0 where
  pub fresh : ℕ → Base
  pub warning : List Pipes.Round

module _ (unpack : List ℕ → Option Value) where
  unfoldable pub take_next : ℕ → Visit → State → State
  unfolding on_next Pipes.next_message
  take_next i v s = let (p, n) = Pipes.next_message i s.pipes in on_next i v n (set_pipes p s)

  -- A round of the `for` loop.
  unfoldable pub visit : ℕ → Visit → State → State
  unfolding check_process take_next
  visit i v s =
      take_next i v (check_process i v.is_running (set_pipes (rounds unpack v.meanwhile s.pipes) s))

  unfoldable pub visit_all : List ℕ → (ℕ → Visit) → State → State
  unfolding visit
  visit_all [] vs s = s
  visit_all (i ∷ is) vs s = visit_all is vs (visit i (vs i) s)

  -- The test of the control thread ends an iteration.
  unfoldable pub check_thread : Bool → State → State
  check_thread interrupted s = record s {
    full_exit = s.full_exit || interrupted || not (is_running s.pipes.thread);
  }

  unfoldable pub iterate : Iteration → State → State
  unfolding visit_all check_thread
  iterate t s = check_thread t.interrupted (visit_all processes_of t.visits s)

  -- The `do` loop, up to the iteration after which the program is to exit.
  unfoldable pub loop : List Iteration → State → State
  unfolding iterate
  loop [] s = s
  loop (t ∷ ts) s = let u = iterate t s in let rest = loop ts u in if u.full_exit then u else rest

  unfoldable pub send_stops : List ℕ → (ℕ → Base) → Pipes.Server → Pipes.Server
  unfolding make_stop Pipes.send
  send_stops [] fresh s = s
  send_stops (i ∷ is) fresh s = send_stops is fresh (Pipes.send i (make_stop (fresh i)) s)

  -- What follows the loop: the stop messages, the warning time, and the stop of the control process.
  unfoldable pub finish : Exit → State → State
  unfolding send_stops Pipes.stop
  finish e s =
      set_pipes (Pipes.stop (rounds unpack e.warning (send_stops processes_of e.fresh s.pipes))) s

  unfoldable pub make_server : List Iteration → Exit → State
  unfolding loop finish new_state
  make_server ts e = finish e (loop ts new_state)
