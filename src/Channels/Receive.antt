-- ===== src/Channels/Receive.antt =====
-- Each message that is a request is answered once.
use easyprospect_service.Prelude.{
  false, Bool-cases, ℕ, ◌+◌, ◌≡◌, refl, ◌∙◌, inl, inr, false, Option, none, some, String, arith,
  Option-cases,
}
use easyprospect_service.Prelude.Int.{ℤ, pos}
use easyprospect_service.Json.{Json, lookup, assign, get_size}
use easyprospect_service.Rpc.{
  RpcCall, RpcCode, RpcError, to_json, complete_error, Checked-cases, checked_value, error_with,
  invalid_request, message, Float, empty_call, extract, returned,
}
use easyprospect_service.Channels.{Outcome, done, failed, crash}
use easyprospect_service.Channels.Hub.{
  Hub, at, write_back, dispatch_list, Loop, reading, report, settle, receive,
}
use easyprospect_service.Channels.Answers.{answers-send_direct, has_id, answers}
use easyprospect_service.Channels.Once.{answered, dispatch-Answers}

-- The handler of the read loop goes on after an answer.
abbrev pub went_on : Loop → ℕ
went_on reading = 1
went_on _ = 0

pub report_one :
    (rpc : RpcCall) (e : RpcError) (n : ℕ)
    → rpc.id ≡ some (pos n)
    → (r : Json) × (complete_error rpc e ≡ some r) × (has_id r ≡ 1)
unfolding complete_error to_json assign lookup
report_one rpc e n h = (to_json e (pos n), rw h refl, refl)

answers-report :
    (rpc : RpcCall) (e : RpcError) (n s : ℕ) (h : Hub)
    → rpc.id ≡ some (pos n)
    → answers (report rpc e s h).world ≡ answers h.world + 1
unfolding report
answers-report rpc e n s h p =
    let (r, q, one) = report_one rpc e n p in
    rw (q, report) (answers-send_direct s r h.world ∙ omega (arith, one))

settle-answers :
    (rpc : RpcCall) (n s : ℕ) (g h : Hub) (o : Outcome)
    → rpc.id ≡ some (pos n)
    → answers h.world ≡ answers g.world + answered o
    → answers (settle rpc s (h, o)).0.world ≡ answers g.world + went_on (settle rpc s (h, o)).1
unfolding settle
settle-answers rpc n s g h done p e = e
settle-answers rpc n s g h (failed x) p e = omega (arith, answers-report rpc x n s h p)
settle-answers rpc n s g h crash p e = e

dispatch_list-answers :
    (rpc : RpcCall) (i : ℤ) (u s : ℕ) (h : Hub)
    → rpc.id ≡ some i
    → h.world.moved s ≡ false
    → answers (dispatch_list rpc u s h).0.world
      ≡ answers h.world + answered (dispatch_list rpc u s h).1
unfolding dispatch_list write_back
dispatch_list-answers rpc i u s h p m = elim (Checked-cases (checked_value rpc.params "cid")) [
  | inl (e, q) ↦ rw (q, dispatch_list) (omega arith)
  | inr (v, q) ↦ elim (Option-cases (get_size v)) [
    | inl w ↦ rw (q, w, dispatch_list) (omega arith)
    | inr (cid, w) ↦ elim (Option-cases (at cid h.channels)) [
      | inl x ↦ rw (q, w, x, dispatch_list) (omega arith)
      | inr (c, x) ↦
          rw (q, w, x, dispatch_list)
            (dispatch-Answers rpc i p u s (record { channel = c; world = h.world }) m)
    ]
  ]
]

module _ (stof : String → Option Float) (parse : String → Option Json) where
  -- A message with an id that is not negative, which `extract` reads without an exception, is
  -- answered by exactly one reply or posted as exactly one job to the table, whatever it asks of
  -- which channel, if the read loop then goes on. If the loop does not go on, because an exception
  -- leaves the handler or the user was moved out, it is not answered.
  pub receive-answers :
      (s n : ℕ) (text : String) (h : Hub) (jv : Json) (rpc : RpcCall) (ec : Option RpcCode)
      → parse text ≡ some jv
      → extract stof jv empty_call ≡ returned rpc ec
      → rpc.id ≡ some (pos n)
      → answers (receive stof parse s text h).0.world
        ≡ answers h.world + went_on (receive stof parse s text h).1
  unfolding receive
  receive-answers s n text h jv rpc none p e i = elim (Bool-cases (h.world.moved s)) [
    | inl m ↦ rw (p, e, m, receive) (omega arith)
    | inr m ↦
        rw (p, e, m, receive)
          (settle-answers rpc n s h (dispatch_list rpc s s h).0 (dispatch_list rpc s s h).1 i
            (dispatch_list-answers rpc (pos n) s s h i m))
  ]
  receive-answers s n text h jv rpc (some ec) p e i =
      rw (p, e, receive)
        (settle-answers rpc n s h h (failed (error_with invalid_request (message ec))) i
          (omega arith))
