-- ===== src/Channels/Deliver.antt =====
-- Who gets a broadcast.
use mathlib.Core.List.{append_assoc, append-nil}
use easyprospect_service.Prelude.{
  ◌&&◌, not, ℕ, ◌≡◌, refl, ap, ◌∙◌, sym, ◌⊎◌, inl, inr, Bool, true, false, Option, none, some, List,
  [], ◌∷◌, ◌++◌, String, arith, if◌then◌else◌, Bool-cases, Option-cases,
}
use easyprospect_service.Json.{Json}
use easyprospect_service.Rpc.{
  RpcCall, RpcError, error_of_text, ok, fail, Checked-cases, checked_string, complete,
}
use easyprospect_service.Channels.{
  World, Site, done, failed, post_to, send_direct, send_if_alive, send_each, said, broadcast,
  user_name, is_joined, is_empty, complete_to,
}
use easyprospect_service.Channels.Dispatch.{checked_user, do_say}
use easyprospect_service.Channels.Frame.{SameWorld}

-- A session that is alive and was not moved from.
abbrev pub hears : World → ℕ → Bool
hears w s = w.alive s && not (w.moved s)

-- One message to each session that hears, in order.
abbrev pub copies : World → List ℕ → Json → List (ℕ × Json)
copies w [] jv = []
copies w (s ∷ ss) jv = let rest = copies w ss jv in if hears w s then (s, jv) ∷ rest else rest

abbrev pub with_outbox : List (ℕ × Json) → World → World
with_outbox o w = record w { outbox = o }

send_if_alive-outbox :
    (s : ℕ) (jv : Json) (w : World)
    → send_if_alive s jv w ≡ with_outbox (w.outbox ++ copies w (s ∷ []) jv) w
unfolding send_if_alive post_to send_direct
send_if_alive-outbox s jv w = sent (w.alive s) (w.moved s)
  where
    unsent : w ≡ with_outbox (w.outbox ++ []) w
    unsent = ap (λ o. with_outbox o w) (sym (append-nil w.outbox))

    sent :
        (a m : Bool)
        → (if a then if m then w else send_direct s jv w else w)
          ≡ with_outbox (w.outbox ++ (if a && not m then (s, jv) ∷ [] else [])) w
    sent true true = unsent
    sent true false = refl
    sent false true = unsent
    sent false false = unsent

copies-cons :
    (w : World) (s : ℕ) (ss : List ℕ) (jv : Json)
    → copies w (s ∷ ss) jv ≡ copies w (s ∷ []) jv ++ copies w ss jv
copies-cons w s ss jv = ground arith

copies-Same :
    {w v : World} (ss : List ℕ) (jv : Json) → SameWorld w v → copies v ss jv ≡ copies w ss jv
copies-Same [] jv h = refl
copies-Same {w} {v} (s ∷ ss) jv h =
    let heard : hears v s ≡ hears w s =
      ap (λ f. f s && not (v.moved s)) h.alive ∙ ap (λ f. w.alive s && not (f s)) h.moved in
    ap (λ b. if b then (s, jv) ∷ copies v ss jv else copies v ss jv) heard
    ∙ ap (λ xs. if hears w s then (s, jv) ∷ xs else xs) (copies-Same ss jv h)

send_each-outbox :
    (ss : List ℕ) (jv : Json) (w : World)
    → send_each ss jv w ≡ with_outbox (w.outbox ++ copies w ss jv) w
unfolding send_each
send_each-outbox [] jv w = ap (λ o. with_outbox o w) (sym (append-nil w.outbox))
send_each-outbox (s ∷ ss) jv w =
    let first = w.outbox ++ copies w (s ∷ []) jv in
    let same : SameWorld w (with_outbox first w) = record {
      names = refl;
      alive = refl;
      moved = refl;
    } in
    send_each-outbox ss jv (send_if_alive s jv w)
    ∙ ap (λ u. with_outbox (u.outbox ++ copies u ss jv) u) (send_if_alive-outbox s jv w)
    ∙ ap (λ o. with_outbox o w)
        (ap (λ xs. first ++ xs) (copies-Same ss jv same)
          ∙ append_assoc w.outbox (copies w (s ∷ []) jv) (copies w ss jv)
          ∙ ap (λ xs. w.outbox ++ xs) (sym (copies-cons w s ss jv)))

broadcast-outbox :
    (jv : Json) (k : Site)
    → broadcast jv k ≡ record k {
      world = with_outbox (k.world.outbox ++ copies k.world k.channel.sessions jv) k.world;
    }
unfolding broadcast
broadcast-outbox jv k =
    ap (λ w. record k { world = w }) (send_each-outbox k.channel.sessions jv k.world)

abbrev replied : Option Json → ℕ → List (ℕ × Json)
replied none s = []
replied (some r) s = (s, r) ∷ []

complete_to-outbox :
    (rpc : RpcCall) (s : ℕ) (k : Site)
    → k.world.moved s ≡ false
    → complete_to rpc s k
      ≡ record k { world = with_outbox (k.world.outbox ++ replied (complete rpc) s) k.world }
unfolding complete_to post_to send_direct
complete_to-outbox rpc s k m = elim (Option-cases (complete rpc)) [
  | inl e ↦
      rw (e, complete_to)
        (ap (λ o. record k { world = with_outbox o k.world }) (sym (append-nil k.world.outbox)))
  | inr (r, e) ↦
      rw (e, complete_to)
        (ap (λ b. record k { world = if b then k.world else send_direct s r k.world }) m)
]

-- What a `say` that is allowed leaves.
pub record Said (rpc : RpcCall) (u s : ℕ) (text : String) (k l : Site) : Type 0 where
  pub name : is_empty (user_name u k) ≡ false
  pub joined : is_joined s k ≡ true
  pub asked : checked_string rpc.params "message" ≡ ok text
  pub sent : l ≡ record k {
    world =
        with_outbox
          (k.world.outbox
            ++ (copies k.world k.channel.sessions (said k.channel (user_name u k) text)
                ++ replied (complete rpc) s))
          k.world;
  }

-- The caller has no name, is not in the channel or sends no text.
abbrev pub Unfit : RpcCall → ℕ → ℕ → Site → Type 0
Unfit rpc u s k =
    (is_empty (user_name u k) ≡ true)
    ⊎ ((is_joined s k ≡ false) ⊎ ((e : RpcError) × (checked_string rpc.params "message" ≡ fail e)))

-- For a caller that was not moved from, `say` either changes nothing and fails, for a user without a
-- name, a session that is not in the channel or a request without a text, or it sends the text once
-- to every member that is alive and was not moved from, in the order of the set, and then the reply
-- to the caller, and changes nothing else in the channel, the names, the sessions, the calls on the
-- server and the posted jobs.
pub do_say-Said :
    (rpc : RpcCall) (u s : ℕ) (k : Site)
    → k.world.moved s ≡ false
    → (Unfit rpc u s k × ((e : RpcError) × (do_say rpc u s k ≡ (k, failed e))))
      ⊎ ((text : String) × Said rpc u s text k (do_say rpc u s k).0 × ((do_say rpc u s k).1 ≡ done))
unfolding do_say checked_user
do_say-Said rpc u s k m = elim (Bool-cases (is_empty (user_name u k))) [
  | inl e ↦ inl (inl e, (error_of_text "1", rw (e, do_say) refl))
  | inr e ↦ elim (Bool-cases (is_joined s k)) [
    | inr j ↦ inl (inr (inl j), (error_of_text "not in channel", rw (e, j, do_say) refl))
    | inl j ↦ elim (Checked-cases (checked_string rpc.params "message")) [
      | inl (x, q) ↦ inl (inr (inr (x, q)), (x, rw (e, j, q, do_say) refl))
      | inr (text, q) ↦
          inr (text, rw (e, j, q, do_say) (spoken e j text q), rw (e, j, q, do_say) refl)
    ]
  ]
]
  where
    spoken :
        is_empty (user_name u k) ≡ false
        → is_joined s k ≡ true
        → (text : String) → checked_string rpc.params "message" ≡ ok text
        → Said rpc u s text k
            (complete_to rpc s (broadcast (said k.channel (user_name u k) text) k))
    spoken e j text q =
        let jv = said k.channel (user_name u k) text in
        record {
          name = e;
          joined = j;
          asked = q;
          sent =
              ap (complete_to rpc s) (broadcast-outbox jv k)
              ∙ complete_to-outbox rpc s
                  (record k {
                    world =
                        with_outbox (k.world.outbox ++ copies k.world k.channel.sessions jv)
                          k.world;
                  })
                  m
              ∙ ap (λ o. record k { world = with_outbox o k.world })
                  (append_assoc k.world.outbox (copies k.world k.channel.sessions jv)
                    (replied (complete rpc) s));
        }
