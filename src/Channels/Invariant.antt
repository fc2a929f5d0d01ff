-- ===== src/Channels/Invariant.antt =====
-- What holds after any messages: the list of channels is well-formed, and names are short and stay.
use Prim.Native.String.{len}
use easyprospect_service.Prelude.{
  ◌∷◌, ◌++◌, [], ℕ, ◌≤◌, ◌≡◌, refl, inl, inr, Bool, true, false, arith, ltb, Bool-cases,
  Option-cases, String,
}
use text.Mathlib.Text.{◌==◌ as str_eq}
use easyprospect_service.Prelude.{if-both}
use easyprospect_service.Rpc.{RpcCall, Checked-cases, checked_string}
use easyprospect_service.Channels.{
  job, Kind, room, system, table, Site, Request, shutdown, stop, Outcome, is_empty, insert, erase,
  broadcast, said, user_name, post, ask, is_joined,
}
use easyprospect_service.Channels.Dispatch.{
  checked_user, finish, do_join, do_leave, do_say, set_name, do_identify, do_ask, reject,
  room_dispatch, system_dispatch, job_of, table_dispatch, kind_dispatch, on_dispatch, dispatch,
}
use easyprospect_service.Channels.Frame.{
  Same, Same-refl, Same-trans, broadcast-Same, complete_to-Same,
}
use easyprospect_service.Channels.Kept.{
  Kept, move_out-Kept, Kept-trans, Same-Kept, insert-Kept, erase-Kept, set_name-Kept,
}

finish-Kept :
    (rpc : RpcCall) (s : ℕ) (text : String) (k : Site) (r : Site × Bool)
    → Kept k r.0
    → Kept k (finish rpc s text r).0
unfolding finish
finish-Kept rpc s text k (l, true) h = Kept-trans h (Same-Kept (complete_to-Same rpc s l))
finish-Kept rpc s text k (l, false) h = h

module _ (rpc : RpcCall) (s : ℕ) where
  do_join-Kept : (k : Site) → Kept k (do_join rpc s s k).0
  unfolding do_join checked_user
  do_join-Kept k = elim (Bool-cases (is_empty (k.world.names s))) [
    | inl e ↦ rw (e, do_join) (Same-Kept (Same-refl k))
    | inr e ↦
        rw (e, do_join)
          (finish-Kept rpc s "Already in channel" k (insert s s k) (insert-Kept s s k (inr e)))
  ]

  do_leave-Kept : (k : Site) → Kept k (do_leave rpc s s k).0
  unfolding do_leave
  do_leave-Kept k = finish-Kept rpc s "Not in channel" k (erase s s k) (erase-Kept s s k)

  do_say-Same : (k : Site) → Same k (do_say rpc s s k).0
  unfolding do_say
  do_say-Same k = elim (Checked-cases (checked_user s k)) [
    | inl (e, p) ↦ rw (p, do_say) (Same-refl k)
    | inr (t, p) ↦ elim (Bool-cases (is_joined s k)) [
      | inl j ↦ elim (Checked-cases (checked_string rpc.params "message")) [
        | inl (e, q) ↦ rw (p, j, q, do_say) (Same-refl k)
        | inr (text, q) ↦
            let jv = said k.channel (user_name s k) text in
            rw (p, j, q, do_say)
              (Same-trans (broadcast-Same jv k) (complete_to-Same rpc s (broadcast jv k)))
      ]
      | inr j ↦ rw (p, j, do_say) (Same-refl k)
    ]
  ]

  do_identify-Kept : (k : Site) → k.channel.kind ≡ system → Kept k (do_identify rpc s s k).0
  unfolding do_identify
  do_identify-Kept k sys = elim (Checked-cases (checked_string rpc.params "name")) [
    | inl (e, p) ↦ rw (p, do_identify) (Same-Kept (Same-refl k))
    | inr (n, p) ↦ elim (Bool-cases (ltb 20 (len n))) [
      | inl long ↦ rw (p, long, do_identify) (Same-Kept (Same-refl k))
      | inr fits ↦ elim (Bool-cases (is_empty (k.world.names s))) [
        | inl e ↦
            let l = set_name s n k in
            let le : len n ≤ 20 = ground arith in
            rw (p, fits, e, do_identify)
              (Kept-trans (set_name-Kept s n k e le) (
                Kept-trans (insert-Kept s s l (inl (unfold set_name in sys)))
                  (Same-Kept (complete_to-Same rpc s (insert s s l).0))))
        | inr e ↦ rw (p, fits, e, do_identify) (Same-Kept (Same-refl k))
      ]
    ]
  ]

  do_ask-Kept : (r : Request) (k : Site) → Kept k (do_ask r rpc s k).0
  unfolding do_ask ask
  do_ask-Kept r k =
      let l : Site = record k { world = ask r k.world } in
      Kept-trans
        (Same-Kept {l = l}
          (record { channel = refl; world = record { names = refl; alive = refl; moved = refl } }))
        (Same-Kept (complete_to-Same rpc s l))

  reject-Kept : (k : Site) → Kept k (reject k).0
  unfolding reject
  reject-Kept k = Same-Kept (Same-refl k)

  table_dispatch-Kept : (k : Site) → Kept k (table_dispatch rpc s s k).0
  unfolding table_dispatch post
  table_dispatch-Kept k = elim (Option-cases (job_of rpc.method)) [
    | inl p ↦ rw (p, table_dispatch) (reject-Kept k)
    | inr (j, p) ↦ rw (p, table_dispatch) (move_out-Kept s k (k.world.posted ++ job j rpc s ∷ []))
  ]

  room_dispatch-Kept : (k : Site) → Kept k (room_dispatch rpc s s k).0
  unfolding room_dispatch
  room_dispatch-Kept k =
      let P : Site × Outcome → Type 0 = λ r. Kept k r.0 in
      let say = Same-Kept (do_say-Same k) in
      if-both P (str_eq rpc.method "say") say
        (if-both P (str_eq rpc.method "slash") say (reject-Kept k))

  system_dispatch-Kept : (k : Site) → k.channel.kind ≡ system → Kept k (system_dispatch rpc s s k).0
  unfolding system_dispatch
  system_dispatch-Kept k sys =
      let P : Site × Outcome → Type 0 = λ r. Kept k r.0 in
      if-both P (str_eq rpc.method "identify") (do_identify-Kept k sys) (
        if-both P (str_eq rpc.method "shutdown") (do_ask-Kept (shutdown 30) k)
          (if-both P (str_eq rpc.method "stop") (do_ask-Kept stop k) (reject-Kept k)))

  kind_dispatch-Kept :
      (d : Kind) (k : Site) → k.channel.kind ≡ d → Kept k (kind_dispatch d rpc s s k).0
  unfolding kind_dispatch
  kind_dispatch-Kept room k e = room_dispatch-Kept k
  kind_dispatch-Kept system k e = system_dispatch-Kept k e
  kind_dispatch-Kept table k e = table_dispatch-Kept k

  on_dispatch-Kept : (k : Site) → Kept k (on_dispatch rpc s s k).0
  unfolding on_dispatch
  on_dispatch-Kept k = kind_dispatch-Kept k.channel.kind k refl

  pub dispatch-Kept : (k : Site) → Kept k (dispatch rpc s s k).0
  unfolding dispatch
  dispatch-Kept k =
      let P : Site × Outcome → Type 0 = λ r. Kept k r.0 in
      if-both P (str_eq rpc.method "join") (do_join-Kept k)
        (if-both P (str_eq rpc.method "leave") (do_leave-Kept k) (on_dispatch-Kept k))
