-- ===== src/ControlServer/Shutdown.antt =====
-- How the control program ends.
use easyprospect_service.Prelude.{
  ℕ, zero, suc, ◌<◌, ◌≡◌, refl, ap, ◌∙◌, Bool, true, false, not, ◌||◌, Option, some, List, [], ◌∷◌,
  ◌++◌, length, take, if-both, if-split, Bool-cases, inl, inr, arith,
}
use easyprospect_service.Control.{
  Base, base_of, no_type, base, start, ping, pong, cmd_stop, cmd_result, other, Value, base_entries,
  dict, pack, make_stop,
}
use easyprospect_service.Pipes
use easyprospect_service.Pipes.{Thread, running, ended, terminated, broken, Next, instances}
use easyprospect_service.Pipes.Drain.{sent_pipe}
use easyprospect_service.Pipes.Rounds.{rounds, rounds-Wrote}
use easyprospect_service.ControlServer.{
  State, Visit, Iteration, Exit, processes_of, check_process, register, on_type, on_next, take_next,
  visit, visit_all, check_thread, iterate, loop, send_stops, finish, new_state, make_server,
  set_pipes,
}

-- The value that a stop message packs to.
abbrev pub stop_value : Base → Value
unfolding base_entries
stop_value b = dict (base_entries (record b { type = cmd_stop }))

pack-make_stop : (b : Base) → pack (make_stop b) ≡ some (stop_value b)
unfolding pack make_stop
pack-make_stop b = refl

-- An iteration that finds the process ended, or in which Ctrl-C comes.
abbrev pub triggers : Iteration → Bool
triggers t = t.interrupted || not (t.visits 0).is_running

abbrev pub any_triggers : List Iteration → Bool
any_triggers [] = false
any_triggers (t ∷ ts) = let rest = any_triggers ts in triggers t || rest

take_whole :
    (n : ℕ) (xs : List Value) (x : Value) → length xs < n → take n (xs ++ x ∷ []) ≡ xs ++ x ∷ []
take_whole zero [] x h = absurd (omega arith)
take_whole zero (y ∷ xs) x h = absurd (omega arith)
take_whole (suc n) [] x h =
    ap (λ l. x ∷ l) (elim n as (λ k. take {A = Value} k [] ≡ []) [ zero ↦ refl | suc k ↦ refl ])
take_whole (suc n) (y ∷ xs) x h = ap (λ l. y ∷ l) (take_whole n xs x (omega arith))

on_next-full_exit :
    (i : ℕ) (v : Visit) (n : Next) (s : State) → (on_next i v n s).full_exit ≡ s.full_exit
unfolding on_next on_type register
on_next-full_exit i v Next.null s = refl
on_next-full_exit i v (Next.next m) s =
    elim (base_of m).type as (λ ty. (on_type i v (base_of m) ty s).full_exit ≡ s.full_exit) [
      | no_type ↦ refl
      | base ↦ refl
      | start ↦ refl
      | ping ↦ refl
      | pong ↦ refl
      | cmd_stop ↦ refl
      | cmd_result ↦ refl
      | other n ↦ refl
    ]
on_next-full_exit i v Next.front_of_empty s = refl

check_process-ended : (i : ℕ) (s : State) → (check_process i false s).full_exit ≡ true
unfolding check_process
check_process-ended i s =
    if-both (λ (t : State). t.full_exit ≡ true) (not (s.processes i)) refl refl

module _ (unpack : List ℕ → Option Value) where
  take_next-full_exit :
      (i : ℕ) (v : Visit) (s : State) → (take_next unpack i v s).full_exit ≡ s.full_exit
  unfolding take_next
  take_next-full_exit i v s =
      on_next-full_exit i v (Pipes.next_message i s.pipes).1
        (set_pipes (Pipes.next_message i s.pipes).0 s)

  iterate-triggers :
      (t : Iteration) (s : State) → triggers t ≡ true → (iterate unpack t s).full_exit ≡ true
  unfolding iterate check_thread visit_all visit
  iterate-triggers t s h =
      let v : Visit = t.visits 0 in
      let waited : State = set_pipes (rounds unpack v.meanwhile s.pipes) s in
      let u : State = visit unpack 0 v s in
      let ended : v.is_running ≡ false → u.full_exit ≡ true = λ e.
        take_next-full_exit 0 v (check_process 0 v.is_running waited)
        ∙ ap (λ r. (check_process 0 r waited).full_exit) e
        ∙ check_process-ended 0 waited in
      elim (Bool-cases v.is_running) [
        | inl r ↦ let i : t.interrupted ≡ true = ground arith in ground arith
        | inr r ↦ let e : u.full_exit ≡ true = ended r in ground arith
      ]

  -- An iteration after which the loop goes on is no trigger.
  later :
      (t : Iteration) (ts : List Iteration) (s : State)
      → (iterate unpack t s).full_exit ≡ false
      → any_triggers (t ∷ ts) ≡ true
      → any_triggers ts ≡ true
  later t ts s e h = elim (Bool-cases (triggers t)) [
    | inl now ↦
        let out : (iterate unpack t s).full_exit ≡ true = iterate-triggers t s now in absurd cc
    | inr quiet ↦ ground arith
  ]

  loop-triggers :
      (ts : List Iteration) (s : State)
      → any_triggers ts ≡ true
      → (loop unpack ts s).full_exit ≡ true
  unfolding loop
  loop-triggers [] s h = absurd cc
  loop-triggers (t ∷ ts) s h =
      if-split (λ (u : State). u.full_exit ≡ true) (iterate unpack t s).full_exit (λ e. e)
        (λ e. loop-triggers ts (iterate unpack t s) (later t ts s e h))

  sent_stop :
      (e : Exit) (s : State)
      → (send_stops unpack processes_of e.fresh s.pipes).pipes 0 ≡ record (s.pipes.pipes 0) {
        write_ready = true;
        write_queue = (s.pipes.pipes 0).write_queue ++ stop_value (e.fresh 0) ∷ [];
      }
  unfolding send_stops
  sent_stop e s =
      sent_pipe 0 (make_stop (e.fresh 0)) (stop_value (e.fresh 0)) s.pipes (omega arith)
        (pack-make_stop (e.fresh 0))

  -- Once an iteration finds the worker ended or is interrupted by Ctrl-C, the program leaves its loop. If
  -- the control thread then makes more rounds in the 6 seconds of warning than messages wait for the
  -- worker, and still runs, `WriteFile` is called once with each message that waited and then with the
  -- stop message, in this order, before the control process is stopped. Whether the calls succeed is left open:
  -- they may fail, and nothing says that the worker reads the messages.
  pub make_server-stops :
      (ts : List Iteration) (e : Exit)
      → any_triggers ts ≡ true
      → length ((loop unpack ts new_state).pipes.pipes 0).write_queue < length e.warning
      → (rounds unpack e.warning
          (send_stops unpack processes_of e.fresh (loop unpack ts new_state).pipes)).thread
        ≡ running
      → let s = loop unpack ts new_state in
        let t = make_server unpack ts e in
        (s.full_exit ≡ true)
        × ((t.pipes.pipes 0).written
            ≡ (s.pipes.pipes 0).written
              ++ ((s.pipes.pipes 0).write_queue ++ stop_value (e.fresh 0) ∷ []))
        × (t.pipes.stop_loop ≡ true)
  unfolding make_server finish Pipes.stop
  make_server-stops ts e h long runs =
      let s : State = loop unpack ts new_state in
      let sent : Pipes.Server = send_stops unpack processes_of e.fresh s.pipes in
      let wrote = rounds-Wrote unpack e.warning 0 sent (omega arith) runs in
      let queue : List Value = (s.pipes.pipes 0).write_queue in
      (
        loop-triggers ts new_state h,
        wrote.written
            ∙ ap (λ (p : Pipes.Pipe). p.written ++ take (length e.warning) p.write_queue)
                (sent_stop e s)
            ∙ ap (λ q. (s.pipes.pipes 0).written ++ q)
                (take_whole (length e.warning) queue (stop_value (e.fresh 0)) long),
        refl,
      )
