-- ===== src/Process.antt =====
-- The loop that reads the output of a worker process: `process_win::listen_loop` of
-- src/epworkercntl/epprocess-win.cpp, once the process runs.
-- The answers of the operating system are arguments of each round, as in Pipes.
pub mod Reads
use easyprospect_service.Prelude.{
  ℕ, suc, Bool, true, false, not, ◌&&◌, Option, none, some, List, [], ◌∷◌, ◌++◌, ◌==◌,
  if◌then◌else◌,
}
use easyprospect_service.Pipes.{
  Thread, running, ended, terminated, broken, Io, completes, pending, fails,
}

-- One of the two outputs. `started` counts the calls of `ReadFile`, `taken` the results that ended a
-- read, and `logged` has what the reads brought.
pub record Stream : Type 0 where
  pub process : Bool
  pub pending : Bool
  pub started : ℕ
  pub taken : ℕ
  pub logged : List (List ℕ)

unfoldable pub new_stream : Stream
new_stream = record { process = true; pending = false; started = 0; taken = 0; logged = [] }

pub record Process : Type 0 where
  pub out : Stream
  pub err : Stream
  pub thread : Thread

unfoldable pub new_process : Process
unfolding new_stream
new_process = record { out = new_stream; err = new_stream; thread = running }

-- What `GetOverlappedResult` says of a read.
pub data Result : Type 0 where
  read : List ℕ → Result
  incomplete handle_eof other_error : Result

-- `WaitForMultipleObjects`
pub data Wait : Type 0 where
  signalled : ℕ → Wait
  timeout wait_failed : Wait

pub record Round : Type 0 where
  pub out_read : Io
  pub out_result : Result
  pub err_read : Io
  pub err_result : Result
  pub wait : Wait

-- `ReadFile` is called if the event was signalled and no read is pending.
unfoldable pub begin_read : Stream → Stream
begin_read s =
    if s.process && not s.pending
    then record s { pending = true; process = false; started = suc s.started }
    else s

unfoldable pub take_result : Result → Stream → Stream
take_result (read bytes) s = record s {
  pending = false;
  taken = suc s.taken;
  logged = s.logged ++ bytes ∷ [];
}
take_result incomplete s = record s { pending = true }
take_result handle_eof s = record s { pending = false; taken = suc s.taken }
take_result other_error s = record s { pending = false; taken = suc s.taken }

unfoldable pub end_read : Result → Stream → Stream
unfolding take_result
end_read r s = if s.pending then take_result r s else s

-- An error of `ReadFile` throws, if it is called.
unfoldable pub read_throws : Io → Stream → Bool
read_throws completes s = false
read_throws pending s = false
read_throws fails s = s.process && not s.pending

unfoldable pub on_wait : Wait → Process → Process
on_wait timeout p = p
on_wait wait_failed p = record p { thread = ended }
on_wait (signalled k) p =
    if k == 0
    then record p { out = record p.out { process = true } }
    else if k == 1
    then record p { err = record p.err { process = true } }
    else if k == 3
    then record p { thread = ended }
    else p

-- The second half of a round, if the first one did not throw.
unfoldable pub err_round : Round → Process → Process
unfolding begin_read end_read read_throws on_wait
err_round e p =
    if read_throws e.err_read p.err
    then record p { err = begin_read p.err; thread = terminated }
    else on_wait e.wait (record p { err = end_read e.err_result (begin_read p.err) })

unfoldable pub round : Round → Process → Process
unfolding err_round
round e p =
    if read_throws e.out_read p.out
    then record p { out = begin_read p.out; thread = terminated }
    else err_round e (record p { out = end_read e.out_result (begin_read p.out) })

unfoldable pub if_running : Thread → (Process → Process) → Process → Process
if_running running f p = f p
if_running ended f p = p
if_running terminated f p = p
if_running broken f p = p

unfoldable pub run : List Round → Process → Process
unfolding round if_running
run [] p = p
run (e ∷ es) p = run es (if_running p.thread (round e) p)
