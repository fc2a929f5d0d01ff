-- ===== src/Channels/History.antt =====
-- What holds after any messages of any sessions.
use easyprospect_service.Prelude.{
  if-both, ℕ, zero, suc, ◌<◌, ◌≡◌, ◌≢◌, refl, sym, ap, ◌∙◌, inl, inr, true, false, Option, none,
  some, List, [], ◌∷◌, arith, ◌==◌, String, Bool-cases, Option-cases, ==_iff, set, length,
  get_elem?-set_self, get_elem?-set_ne,
}
use easyprospect_service.Json.{Json, get_size}
use easyprospect_service.Rpc.{
  RpcCall, RpcError, Float, Extracted, returned, threw, empty_call, extract, complete_error,
  Checked-cases, checked_value, error_with, invalid_request, message,
}
use easyprospect_service.Channels.{
  Channel, Site, World, Outcome, done, failed, crash, send_direct, member,
}
use easyprospect_service.Channels.Dispatch.{dispatch}
use easyprospect_service.Channels.Hub.{
  Loop, Hub, at, put, resize, first_channels, write_back, dispatch_list, report, settle, receive,
  receive_all,
}
use easyprospect_service.Channels.Kept.{
  Grew, Grew-refl, Grew-trans, Short, WellFormed, WellFormed-Grew, Kept,
}
use easyprospect_service.Channels.Invariant.{dispatch-Kept}

-- Names are short, and a channel stands at its id and is well-formed.
pub record IsGood (h : Hub) : Type 0 where
  pub short : Short h.world
  pub placed : (i : ℕ) (c : Channel) → at i h.channels ≡ some c → c.cid ≡ i
  pub well : (i : ℕ) (c : Channel) → at i h.channels ≡ some c → WellFormed h.world c

record Step (h g : Hub) : Type 0 where
  grew : Grew h.world g.world
  good : IsGood h → IsGood g

Step-refl : (h : Hub) → Step h h
Step-refl h = record { grew = Grew-refl h.world; good = λ g. g }

Step-trans : {h g f : Hub} → Step h g → Step g f → Step h f
Step-trans a b = record { grew = Grew-trans a.grew b.grew; good = λ g. b.good (a.good g) }

at-lt : (v : List (Option Channel)) (i : ℕ) {c : Channel} → at i v ≡ some c → i < length v
at-lt [] i h = cc
at-lt (x ∷ v) zero h = omega arith
at-lt (x ∷ v) (suc i) h = omega (arith, at-lt v i h)

at-set_self :
    (v : List (Option Channel)) (i : ℕ) (x : Option Channel) → i < length v → at i (set v i x) ≡ x
at-set_self v i x h = rw (get_elem?-set_self v i x h, at) refl

at-set_ne :
    (v : List (Option Channel)) {i j : ℕ} (x : Option Channel) → i ≢ j → at j (set v i x) ≡ at j v
at-set_ne v x h = rw (get_elem?-set_ne v x h, at) refl

some_inj : {c d : Channel} → some c ≡ some d → c ≡ d
some_inj h = cc

write_back-Step :
    (cid : ℕ) (h : Hub) (c : Channel) (k : Site) (o : Outcome)
    → at cid h.channels ≡ some c
    → Kept (record { channel = c; world = h.world }) k
    → Step h (write_back cid h (k, o)).0
unfolding write_back
write_back-Step cid h c k o e kept = record {
  grew = kept.grew;
  good = λ g. record {
    short = kept.short g.short;
    placed = λ i d p. elim (Bool-cases (cid == i)) [
      | inl q ↦
          let same = (==_iff cid i).0 q in
          ap (λ x. x.cid) (sym (here i d same p)) ∙ (kept.cid ∙ (g.placed cid c e ∙ same))
      | inr q ↦ g.placed i d (sym (there i q) ∙ p)
    ];
    well = λ i d p. elim (Bool-cases (cid == i)) [
      | inl q ↦ rw (← here i d ((==_iff cid i).0 q) p) (kept.well (g.well cid c e))
      | inr q ↦ WellFormed-Grew d kept.grew (g.well i d (sym (there i q) ∙ p))
    ];
  };
}
  where
    here :
        (i : ℕ) (d : Channel)
        → cid ≡ i
        → at i (set h.channels cid (some k.channel)) ≡ some d
        → k.channel ≡ d
    here i d q p =
        some_inj (
          sym (at-set_self h.channels cid (some k.channel) (at-lt h.channels cid e))
          ∙ rw (← q) at p)

    there :
        (i : ℕ) → (cid == i) ≡ false → at i (set h.channels cid (some k.channel)) ≡ at i h.channels
    there i q = let ne : cid ≢ i = ground arith in at-set_ne h.channels (some k.channel) ne

dispatch_list-Step : (rpc : RpcCall) (s : ℕ) (h : Hub) → Step h (dispatch_list rpc s s h).0
unfolding dispatch_list
dispatch_list-Step rpc s h = elim (Checked-cases (checked_value rpc.params "cid")) [
  | inl (e, q) ↦ rw (q, dispatch_list) (Step-refl h)
  | inr (v, q) ↦ elim (Option-cases (get_size v)) [
    | inl w ↦ rw (q, w, dispatch_list) (Step-refl h)
    | inr (cid, w) ↦ elim (Option-cases (at cid h.channels)) [
      | inl x ↦ rw (q, w, x, dispatch_list) (Step-refl h)
      | inr (c, x) ↦
          let k : Site = record { channel = c; world = h.world } in
          rw (q, w, x, dispatch_list)
            (write_back-Step cid h c (dispatch rpc s s k).0 (dispatch rpc s s k).1 x
              (dispatch-Kept rpc s k))
    ]
  ]
]

report-Step : (rpc : RpcCall) (e : RpcError) (s : ℕ) (h : Hub) → Step h (report rpc e s h)
unfolding report send_direct
report-Step rpc e s h = elim (Option-cases (complete_error rpc e)) [
  | inl p ↦ rw (p, report) (Step-refl h)
  | inr (r, p) ↦
      let sent : Grew h.world (send_direct s r h.world) = record {
        gone = λ u q. q;
        same = λ u q. inl refl;
      } in
      rw (p, report)
        (record {
          grew = sent;
          good = λ g. record {
            short = g.short;
            placed = g.placed;
            well = λ i c q. WellFormed-Grew c sent (g.well i c q);
          };
        })
]

settle-Step : (rpc : RpcCall) (s : ℕ) (h : Hub) (o : Outcome) → Step h (settle rpc s (h, o)).0
unfolding settle
settle-Step rpc s h done = Step-refl h
settle-Step rpc s h (failed e) = report-Step rpc e s h
settle-Step rpc s h crash = Step-refl h

first_channels_at :
    (i : ℕ) (c : Channel) → at i first_channels ≡ some c → (c.cid ≡ i) × (c.sessions ≡ [])
unfolding first_channels put resize
first_channels_at zero c h = cc
first_channels_at (suc zero) c h = ground arith
first_channels_at (suc (suc zero)) c h = ground arith
first_channels_at (suc (suc (suc zero))) c h = ground arith
first_channels_at (suc (suc (suc (suc i)))) c h = cc

start-IsGood :
    (w : World)
    → ((u : ℕ) → w.names u ≡ "")
    → IsGood (record { channels = first_channels; world = w })
unfolding member
start-IsGood w h = record {
  short = λ u. rw (h u) (omega arith);
  placed = λ i c e. (first_channels_at i c e).0;
  well = λ i c e.
      let empty = (first_channels_at i c e).1 in
      record { sorted = rw empty tt; named = inr (λ t m. absurd (no_member t c.sessions empty m)) };
}
  where
    no_member : (t : ℕ) (ss : List ℕ) → ss ≡ [] → member t ss ≡ true → ⊥
    no_member t [] e m = cc
    no_member t (s ∷ ss) e m = cc

module _ (stof : String → Option Float) (parse : String → Option Json) where
  extracted-Step :
      (s : ℕ) (h : Hub) (text : String) (jv : Json) (x : Extracted)
      → parse text ≡ some jv
      → extract stof jv empty_call ≡ x
      → Step h (receive stof parse s text h).0
  unfolding receive
  extracted-Step s h text jv (returned rpc none) p e =
      let (g, o) = dispatch_list rpc s s h in
      rw (p, e, receive)
        (if-both {A = Hub × Loop} (λ r. Step h r.0) (h.world.moved s) (Step-refl h)
          (Step-trans (dispatch_list-Step rpc s h) (settle-Step rpc s g o)))
  extracted-Step s h text jv (returned rpc (some ec)) p e =
      rw (p, e, receive) (settle-Step rpc s h (failed (error_with invalid_request (message ec))))
  extracted-Step s h text jv (threw rpc x) p e = rw (p, e, receive) (Step-refl h)

  receive-Step : (s : ℕ) (text : String) (h : Hub) → Step h (receive stof parse s text h).0
  unfolding receive
  receive-Step s text h = elim (Option-cases (parse text)) [
    | inl p ↦ rw (p, receive) (Step-refl h)
    | inr (jv, p) ↦ extracted-Step s h text jv (extract stof jv empty_call) p refl
  ]

  receive_all-Step : (ms : List (ℕ × String)) (h : Hub) → Step h (receive_all stof parse ms h)
  unfolding receive_all
  receive_all-Step [] h = Step-refl h
  receive_all-Step ((s, text) ∷ ms) h =
      Step-trans (receive-Step s text h) (receive_all-Step ms (receive stof parse s text h).0)

  -- After any messages to a new server, names are at most 20 bytes long, a channel stands at its id,
  -- its sessions are a sorted set, and every member of a room or a table has a name or was moved out.
  pub receive_all-IsGood :
      (ms : List (ℕ × String)) (w : World)
      → ((u : ℕ) → w.names u ≡ "")
      → IsGood (receive_all stof parse ms (record { channels = first_channels; world = w }))
  receive_all-IsGood ms w h =
      (receive_all-Step ms (record { channels = first_channels; world = w })).good
        (start-IsGood w h)

  -- A user that has a name keeps it, whatever messages follow, until a request to the table moves the
  -- user out; and what was moved out stays so.
  pub receive_all-Grew :
      (ms : List (ℕ × String)) (h : Hub) → Grew h.world (receive_all stof parse ms h).world
  receive_all-Grew ms h = (receive_all-Step ms h).grew
