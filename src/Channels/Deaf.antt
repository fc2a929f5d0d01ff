-- ===== src/Channels/Deaf.antt =====
-- What a request to the table does to its session: `table::on_dispatch` moves it into the handler.
use easyprospect_service.Prelude.{
  ℕ, ◌≡◌, refl, ap, ◌∙◌, true, false, Option, none, some, List, String, arith, ◌==◌, if◌then◌else◌,
}
use easyprospect_service.Json.{Json}
use easyprospect_service.Rpc.{RpcCall, Float, empty_call, extract, returned}
use easyprospect_service.Channels.{Site, World, Job, Post, post}
use easyprospect_service.Channels.Dispatch.{job_of, move_out, table_dispatch}
use easyprospect_service.Channels.Hub.{Hub, undefined, receive, receive_all}
use easyprospect_service.Channels.History.{receive_all-Grew}
use easyprospect_service.Channels.Deliver.{hears}

same_eq : (n : ℕ) → (n == n) ≡ true
same_eq n = ground arith

table_dispatch_moved :
    (rpc : RpcCall) (u s : ℕ) (k : Site) (j : Job)
    → job_of rpc.method ≡ some j
    → ((table_dispatch rpc u s k).0.world.moved s ≡ true)
      × ((table_dispatch rpc u s k).0.world.names u ≡ "")
unfolding table_dispatch move_out
table_dispatch_moved rpc u s k j e =
    rw (e, table_dispatch)
      (
        ap (λ b. if b then true else (post (Post.job j rpc s) k.world).moved s) (same_eq s),
        ap (λ b. if b then "" else (post (Post.job j rpc s) k.world).names u) (same_eq u),
      )

module _ (stof : String → Option Float) (parse : String → Option Json) where
  deaf : (w : World) (s : ℕ) → w.moved s ≡ true → hears w s ≡ false
  deaf w s m = ground arith

  receive_undefined :
      (s : ℕ) (text : String) (h : Hub) (jv : Json) (rpc : RpcCall)
      → h.world.moved s ≡ true
      → parse text ≡ some jv
      → extract stof jv empty_call ≡ returned rpc none
      → receive stof parse s text h ≡ (h, undefined)
  unfolding receive
  receive_undefined s text h jv rpc m p e = rw (p, e, m, receive) refl

  -- A request that the table takes is a session's last one: its user has no name any more, no broadcast
  -- reaches the session whatever messages of others follow, and its next valid request is undefined
  -- behaviour.
  pub table_dispatch_deafens :
      (rpc : RpcCall) (u s : ℕ) (k : Site) (j : Job) (h : Hub) (ms : List (ℕ × String))
      → job_of rpc.method ≡ some j
      → h.world ≡ (table_dispatch rpc u s k).0.world
      → (h.world.names u ≡ "")
        × (hears (receive_all stof parse ms h).world s ≡ false)
        × ((text : String) (jv : Json) (next : RpcCall)
            → parse text ≡ some jv
            → extract stof jv empty_call ≡ returned next none
            → receive stof parse s text (receive_all stof parse ms h)
              ≡ (receive_all stof parse ms h, undefined))
  table_dispatch_deafens rpc u s k j h ms e same =
      let (moved, name) = table_dispatch_moved rpc u s k j e in
      let now : h.world.moved s ≡ true = ap (λ w. w.moved s) same ∙ moved in
      let later = (receive_all-Grew stof parse ms h).gone s now in
      (
        ap (λ w. w.names u) same ∙ name,
        deaf (receive_all stof parse ms h).world s later,
        λ text jv next p x.
            receive_undefined s text (receive_all stof parse ms h) jv next later p x,
      )
