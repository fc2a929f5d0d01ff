-- ===== src/Client/Handlers.antt =====
-- A handler is posted for each message that is queued.
use easyprospect_service.Prelude.{
  ℕ, zero, suc, ◌≡◌, refl, sym, ◌∙◌, Option, none, some, List, [], ◌∷◌, ltb, ◌==◌, if-both, length,
  length-append, arith,
}
use easyprospect_service.Control.{Message, base_of, Value, pack}
use easyprospect_service.Control.Unpack.{
  Processed, message, nothing, threw, undefined, process_input,
}
use easyprospect_service.Pipes.{
  Thread, running, ended, terminated, broken, Io, completes, pending, fails,
}
use easyprospect_service.Client.{
  Client, new_client, Outcome, finished, incomplete, failed, Wait, timeout, wait_failed, signalled,
  Round, Action, shuts_down, logs, invalid, do_action, if_running, and_then, read_file, begin_read,
  write_front, begin_write, received, end_write, push_packed, send, act, handle, run_handler, Event,
  round_event, handler_event, send_event, read_result, on_read_event, on_write_event, on_wait,
  round, step, run,
}

module _ {S : Type 0} where
  abbrev pub Posted : Client S → Type 0
  Posted c = c.posted ≡ length c.read_queue

  if_running-Posted :
      (k : Thread) (f : Client S → Client S) (c : Client S)
      → ((c : Client S) → Posted c → Posted (f c))
      → Posted c
      → Posted (if_running k f c)
  unfolding if_running
  if_running-Posted running f c h p = h c p
  if_running-Posted ended f c h p = p
  if_running-Posted terminated f c h p = p
  if_running-Posted broken f c h p = p

  begin_read-Posted : (io : Io) (c : Client S) → Posted c → Posted (begin_read io c)
  unfolding begin_read read_file
  begin_read-Posted completes c p = if-both Posted c.read_pipe p p
  begin_read-Posted pending c p = if-both Posted c.read_pipe p p
  begin_read-Posted fails c p = if-both Posted c.read_pipe p p

  write_front-Posted :
      (io : Io) (c : Client S) (q : List Value) → Posted c → Posted (write_front io c q)
  unfolding write_front
  write_front-Posted io c [] p = p
  write_front-Posted io c (b ∷ q) p = p

  begin_write-Posted : (io : Io) (c : Client S) → Posted c → Posted (begin_write io c)
  unfolding begin_write
  begin_write-Posted io c p =
      if-both Posted c.write_pipe (write_front-Posted io c c.write_queue p) p

  received-Posted : (m : Processed) (c : Client S) → Posted c → Posted (received m c)
  unfolding received
  received-Posted (message m) c p = omega (arith, length-append {0} c.read_queue (m ∷ []))
  received-Posted nothing c p = p
  received-Posted threw c p = p
  received-Posted undefined c p = p

  end_write-Posted : (o : Outcome) (c : Client S) → Posted c → Posted (end_write o c)
  unfolding end_write
  end_write-Posted (finished f tc rs bytes n) c p = p
  end_write-Posted incomplete c p = p
  end_write-Posted failed c p = p

  push_packed-Posted : (m : Option Value) (c : Client S) → Posted c → Posted (push_packed m c)
  unfolding push_packed
  push_packed-Posted none c p = p
  push_packed-Posted (some b) c p = p

  module _ (shutdown : S → S) where
    act-Posted : (a : Action) (c : Client S) → Posted c → Posted (act shutdown a c)
    unfolding act
    act-Posted shuts_down c p = p
    act-Posted logs c p = p
    act-Posted invalid c p = p

    handle-Posted :
        (n : ℕ) (q : List Message) (c : Client S)
        → suc n ≡ length q
        → Posted (handle shutdown q (record c { posted = n; read_queue = q }))
    unfolding handle
    handle-Posted n [] c h = absurd (omega arith)
    handle-Posted n (m ∷ q) c h =
        let left : Posted (record c { posted = n; read_queue = q }) = omega arith in
        act-Posted (do_action (base_of m).type) (record c { posted = n; read_queue = q }) left

    run_handler-Posted :
        (n : ℕ) (c : Client S) → c.posted ≡ n → Posted c → Posted (run_handler shutdown n c)
    unfolding run_handler
    run_handler-Posted zero c e p = p
    run_handler-Posted (suc n) c e p = handle-Posted n c.read_queue c (sym e ∙ p)

module _ {S : Type 0} (unpack : List ℕ → Option Value) where
  read_result-Posted : (o : Outcome) (c : Client S) → Posted c → Posted (read_result unpack o c)
  unfolding read_result
  read_result-Posted (finished f tc rs bytes n) c p =
      if-both Posted (ltb 0 n) (received-Posted (process_input f tc rs unpack bytes n) c p) p
  read_result-Posted incomplete c p = p
  read_result-Posted failed c p = p

  on_wait-Posted : (w : Wait) (c : Client S) → Posted c → Posted (on_wait unpack w c)
  unfolding on_wait on_read_event on_write_event
  on_wait-Posted timeout c p = p
  on_wait-Posted wait_failed c p = p
  on_wait-Posted (signalled k o) c p =
      if-both Posted (k == 0) (if-both Posted c.read_pending (read_result-Posted o _ p) p)
        (if-both Posted (k == 1) (if-both Posted c.write_pending (end_write-Posted o _ p) p) p)

  round-Posted : (e : Round) (c : Client S) → Posted c → Posted (round unpack e c)
  unfolding round
  round-Posted e c p =
      let a : Client S = and_then (begin_read e.read) c in
      let b : Client S = and_then (begin_write e.write) a in
      let read : Posted a =
        if_running-Posted c.thread (begin_read e.read) c (begin_read-Posted e.read) p in
      let wrote : Posted b =
        if_running-Posted a.thread (begin_write e.write) a (begin_write-Posted e.write) read in
      if_running-Posted b.thread (on_wait unpack e.wait) b (on_wait-Posted e.wait) wrote

  module _ (shutdown : S → S) where
    step-Posted : (e : Event) (c : Client S) → Posted c → Posted (step unpack shutdown c e)
    unfolding step send
    step-Posted (round_event e) c p = round-Posted e c p
    step-Posted handler_event c p = run_handler-Posted shutdown c.posted c refl p
    step-Posted (send_event m) c p =
        if_running-Posted c.thread (push_packed (pack m)) c (push_packed-Posted (pack m)) p

    run_from-Posted :
        (es : List Event) (c : Client S) → Posted c → Posted (run unpack shutdown es c)
    unfolding run
    run_from-Posted [] c p = p
    run_from-Posted (e ∷ es) c p = run_from-Posted es (step unpack shutdown c e) (step-Posted e c p)

    -- From a new client on, there are always as many handlers that wait to run as messages in the read
    -- queue, whatever the operating system answers and whenever handlers run.
    pub run-Posted : (es : List Event) (app : S) → Posted (run unpack shutdown es (new_client app))
    unfolding new_client
    run-Posted es app = run_from-Posted es (new_client app) refl
