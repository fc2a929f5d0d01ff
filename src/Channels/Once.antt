-- ===== src/Channels/Once.antt =====
-- Each handler of a channel answers its request once, or leaves the answer to its caller.
use easyprospect_service.Prelude.{
  false, Bool, if-both, ap, ℕ, ◌+◌, ◌≡◌, refl, ◌∙◌, inl, inr, Bool, true, false, some, String,
  arith, Option-cases,
}
use easyprospect_service.Prelude.Int.{ℤ}
use easyprospect_service.Json.{Json, integer, object, end, lookup, assign}
use easyprospect_service.Rpc.{RpcCall, complete, Checked-cases, checked_string}
use easyprospect_service.Channels.{
  with_sessions, insert_session, erase_session, is_joined, Request, shutdown, stop, job, Site,
  Outcome, done, ask, said, broadcast, user_name, insert, erase, complete_to,
}
use easyprospect_service.Channels.Dispatch.{
  checked_user, finish, do_join, do_leave, do_say, set_name, do_identify, do_ask, reject,
  room_dispatch, system_dispatch, job_of, table_dispatch, move_out, kind_dispatch, on_dispatch,
  dispatch,
}
use easyprospect_service.Channels.Frame.{broadcast-Same, announce_join-Same, announce_leave-Same}
use easyprospect_service.Channels.Answers.{
  has_id, answers, answers-post_to, answers-post, answers-broadcast, answers-insert, answers-erase,
  said_plain,
}

-- What a handler that was called for a request adds: an answer, or the error that its caller answers.
abbrev pub answered : Outcome → ℕ
answered done = 1
answered _ = 0

-- The handlers are given a request with an id.
abbrev Answers : Site → Site × Outcome → Type 0
Answers k (l, o) = answers l.world ≡ answers k.world + answered o

pub complete_one :
    (rpc : RpcCall) (i : ℤ)
    → rpc.id ≡ some i
    → (r : Json) × (complete rpc ≡ some r) × (has_id r ≡ 1)
unfolding complete assign lookup
complete_one rpc i h =
    (object (assign "result" rpc.result (assign "id" (integer i) end)), rw h refl, refl)

answers-complete_to :
    (rpc : RpcCall) (i : ℤ) (s : ℕ) (k : Site)
    → rpc.id ≡ some i
    → k.world.moved s ≡ false
    → answers (complete_to rpc s k).world ≡ answers k.world + 1
unfolding complete_to
answers-complete_to rpc i s k h m =
    let (r, e, one) = complete_one rpc i h in
    rw (e, complete_to) (answers-post_to s r k.world m ∙ omega (arith, one))

insert-moved :
    (u s : ℕ) (k : Site) → k.world.moved s ≡ false → (insert u s k).0.world.moved s ≡ false
unfolding insert
insert-moved u s k m =
    let l = with_sessions (insert_session s k.channel.sessions) k in
    if-both {A = Site × Bool} (λ r. r.0.world.moved s ≡ false) (is_joined s k) m
      (ap (λ f. f s) (announce_join-Same u s l).world.moved ∙ m)

erase-moved : (u s : ℕ) (k : Site) → k.world.moved s ≡ false → (erase u s k).0.world.moved s ≡ false
unfolding erase
erase-moved u s k m =
    let l = with_sessions (erase_session s k.channel.sessions) k in
    if-both {A = Site × Bool} (λ r. r.0.world.moved s ≡ false) (is_joined s k)
      (ap (λ f. f s) (announce_leave-Same u s l).world.moved ∙ m) m

module _ (rpc : RpcCall) (i : ℤ) (h : rpc.id ≡ some i) (u s : ℕ) where
  finish-Answers :
      (text : String) (k : Site) (r : Site × Bool)
      → answers r.0.world ≡ answers k.world
      → r.0.world.moved s ≡ false
      → Answers k (finish rpc s text r)
  unfolding finish
  finish-Answers text k (l, true) e m = omega (arith, answers-complete_to rpc i s l h m)
  finish-Answers text k (l, false) e m = omega arith

  do_join-Answers : (k : Site) → k.world.moved s ≡ false → Answers k (do_join rpc u s k)
  unfolding do_join
  do_join-Answers k m = elim (Checked-cases (checked_user u k)) [
    | inl (e, p) ↦ rw (p, do_join) (omega arith)
    | inr (t, p) ↦
        rw (p, do_join)
          (finish-Answers "Already in channel" k (insert u s k) (answers-insert u s k)
            (insert-moved u s k m))
  ]

  do_leave-Answers : (k : Site) → k.world.moved s ≡ false → Answers k (do_leave rpc u s k)
  unfolding do_leave
  do_leave-Answers k m =
      finish-Answers "Not in channel" k (erase u s k) (answers-erase u s k) (erase-moved u s k m)

  said-Answers :
      (text : String) (k : Site)
      → k.world.moved s ≡ false
      → Answers k (complete_to rpc s (broadcast (said k.channel (user_name u k) text) k), done)
  said-Answers text k m =
      let jv = said k.channel (user_name u k) text in
      answers-complete_to rpc i s (broadcast jv k) h
        (ap (λ f. f s) (broadcast-Same jv k).world.moved ∙ m)
      ∙ omega (arith, answers-broadcast jv k (said_plain k.channel (user_name u k) text))

  do_say-Answers : (k : Site) → k.world.moved s ≡ false → Answers k (do_say rpc u s k)
  unfolding do_say
  do_say-Answers k m = elim (Checked-cases (checked_user u k)) [
    | inl (e, p) ↦ rw (p, do_say) (omega arith)
    | inr (t, p) ↦ elim (Checked-cases (checked_string rpc.params "message")) [
      | inl (e, q) ↦ ground (arith, p, q)
      | inr (text, q) ↦ ground (arith, p, q, said-Answers text k m)
    ]
  ]

  identified-Answers :
      (name : String) (k : Site)
      → k.world.moved s ≡ false
      → Answers k (complete_to rpc s (insert u s (set_name u name k)).0, done)
  unfolding set_name
  identified-Answers name k m =
      let l = set_name u name k in
      answers-complete_to rpc i s (insert u s l).0 h (insert-moved u s l m)
      ∙ omega (arith, answers-insert u s l)

  do_identify-Answers : (k : Site) → k.world.moved s ≡ false → Answers k (do_identify rpc u s k)
  unfolding do_identify
  do_identify-Answers k m = elim (Checked-cases (checked_string rpc.params "name")) [
    | inl (e, p) ↦ rw (p, do_identify) (omega arith)
    | inr (name, p) ↦ rw (p, do_identify) (ground (arith, identified-Answers name k m))
  ]

  do_ask-Answers : (r : Request) (k : Site) → k.world.moved s ≡ false → Answers k (do_ask r rpc s k)
  unfolding do_ask ask
  do_ask-Answers r k m = answers-complete_to rpc i s (record k { world = ask r k.world }) h m

  reject-Answers : (k : Site) → Answers k (reject k)
  unfolding reject
  reject-Answers k = omega arith

  table_dispatch-Answers : (k : Site) → Answers k (table_dispatch rpc u s k)
  unfolding table_dispatch move_out
  table_dispatch-Answers k = elim (Option-cases (job_of rpc.method)) [
    | inl p ↦ rw (p, table_dispatch) (reject-Answers k)
    | inr (j, p) ↦ rw (p, table_dispatch) (answers-post (job j rpc s) k.world)
  ]

  on_dispatch-Answers : (k : Site) → k.world.moved s ≡ false → Answers k (on_dispatch rpc u s k)
  unfolding on_dispatch kind_dispatch room_dispatch system_dispatch
  on_dispatch-Answers k m = ground (
    arith,
    do_say-Answers k m,
    do_identify-Answers k m,
    do_ask-Answers (shutdown 30) k m,
    do_ask-Answers stop k m,
    table_dispatch-Answers k,
    reject-Answers k,
  )

  pub dispatch-Answers : (k : Site) → k.world.moved s ≡ false → Answers k (dispatch rpc u s k)
  unfolding dispatch
  dispatch-Answers k m =
      ground (arith, do_join-Answers k m, do_leave-Answers k m, on_dispatch-Answers k m)
