-- ===== src/Downstream/Owned.antt =====
-- Which session a downstream connection belongs to.
use easyprospect_service.Prelude.{
  ℕ, zero, suc, ◌<◌, ◌≤◌, ◌≡◌, put, put_self, put_ne, put_cases, refl, sym, ap, ◌∙◌, subst, inl,
  inr, Bool, true, false, Option, none, some, List, [], ◌∷◌, arith, ◌==◌, get_elem?,
}
use easyprospect_service.Prelude.Int.{ℤ, pos, negsuc}
use easyprospect_service.Downstream.{
  Connection, Session, Downstream, put_session, new_session, found_session, find_acquire, set_owner,
  take_connection, connections_at, taken, get_connection, resize,
}
use easyprospect_service.Downstream.Serve.{bound, connection_of}

abbrev pub AllEmpty : List (List ℕ) → Type 0
AllEmpty [] = Unit
AllEmpty (c ∷ cs) = (c ≡ []) × AllEmpty cs

-- A connection of a session is made and belongs to the session, and the pools are empty.
pub record Owned (d : Downstream) : Type 0 where
  pub ids : (s : ℕ) (x : Session) → d.sessions s ≡ some x → x.id ≡ s
  pub owned :
      (s : ℕ) (x : Session) (a : ℕ)
      → d.sessions s ≡ some x
      → x.conn ≡ some a
      → (a < d.next) × ((d.heap a).owner ≡ s)
  pub pooled : AllEmpty d.connections

pub AllEmpty-resize : (n : ℕ) (cs : List (List ℕ)) → AllEmpty cs → AllEmpty (resize n cs)
unfolding resize
AllEmpty-resize zero cs h = tt
AllEmpty-resize (suc n) [] h = (refl, AllEmpty-resize n [] h)
AllEmpty-resize (suc n) (c ∷ cs) h = (h.0, AllEmpty-resize n cs h.1)

get_elem?-AllEmpty :
    (cs : List (List ℕ)) (i : ℕ) (c : List ℕ) → AllEmpty cs → get_elem? cs i ≡ some c → c ≡ []
get_elem?-AllEmpty [] i c h e = cc
get_elem?-AllEmpty (b ∷ cs) zero c h e = let first = h.0 in cc
get_elem?-AllEmpty (b ∷ cs) (suc i) c h e = get_elem?-AllEmpty cs i c h.1 e

-- The heap may grow, and change but for the owners.
pub heap-Owned :
    (d : Downstream) (n : ℕ) (h : ℕ → Connection)
    → Owned d
    → d.next ≤ n
    → ((a : ℕ) → a < d.next → (h a).owner ≡ (d.heap a).owner)
    → Owned (record d { next = n; heap = h })
heap-Owned d n h o le same = record {
  ids = o.ids;
  owned = λ s x a e c. let old = o.owned s x a e c in (omega arith, same a old.0 ∙ old.1);
  pooled = o.pooled;
}

-- What a session may have as its connection.
abbrev Has : Downstream → Session → Type 0
Has d x = (a : ℕ) → x.conn ≡ some a → (a < d.next) × ((d.heap a).owner ≡ x.id)

put_session-Owned : (d : Downstream) (x : Session) → Owned d → Has d x → Owned (put_session x d)
unfolding put_session
put_session-Owned d x o h = record {
  ids = λ s y e. elim (put_cases x.id s (some x) d.sessions) [
    | inl p ↦ let same = p.0 in let entry = p.1 in cc
    | inr q ↦ o.ids s y (sym q ∙ e)
  ];
  owned = λ s y a e c. elim (put_cases x.id s (some x) d.sessions) [
    | inl p ↦
        let entry : some x ≡ some y = sym p.1 ∙ e in
        let has : x.conn ≡ some a = cc in ((h a has).0, (h a has).1 ∙ sym p.0)
    | inr q ↦ o.owned s y a (sym q ∙ e) c
  ];
  pooled = o.pooled;
}

abbrev pub GoodSession : Option (Downstream × Session) → Type 0
GoodSession none = Unit
GoodSession (some (d, x)) = Owned d × Has d x

pub found_session-Good :
    (fresh s : ℕ) (t : Bool) (d : Downstream) (m : Option Session)
    → d.sessions s ≡ m
    → Owned d
    → GoodSession (found_session fresh s t d m)
unfolding found_session new_session
found_session-Good fresh s t d (some x) e o =
    (o, λ a h. let old = o.owned s x a e h in (old.0, old.1 ∙ sym (o.ids s x e)))
found_session-Good fresh s true d none e o = tt
found_session-Good fresh s false d none e o =
    (put_session-Owned d (new_session fresh s) o (λ a h. cc), (λ a h. cc))

-- A connection that was handed out for a session.
abbrev pub GoodConnection : ℕ → Option (Downstream × ℕ) → Type 0
GoodConnection s none = Unit
GoodConnection s (some (d, a)) = Owned d × (a < d.next) × ((d.heap a).owner ≡ s)

take_connection-Good :
    (s : ℕ) (d : Downstream)
    → Owned d
    → GoodConnection s (some (take_connection s (d.heap, none) d))
unfolding take_connection set_owner
take_connection-Good s d o =
    let made : ℕ → Connection = put d.next (record { owner = s; initialized = false }) d.heap in
    let last : Connection = record (made d.next) { owner = s } in
    (
      heap-Owned d (suc d.next) (put d.next last made) o (omega arith) (λ a h.
          let other : (a == d.next) ≡ false = ground arith in
          ap (λ (c : Connection). c.owner)
            (put_ne d.next a last made other ∙ put_ne d.next a _ d.heap other)),
      omega arith,
      ap (λ (c : Connection). c.owner) (put_self d.next last made),
    )

taken-Good :
    (s : ℕ) (d : Downstream) (m : Option (List ℕ))
    → ((c : List ℕ) → m ≡ some c → c ≡ [])
    → Owned d
    → GoodConnection s (taken s d m)
unfolding taken find_acquire
taken-Good s d none h o = tt
taken-Good s d (some []) h o = take_connection-Good s d o
taken-Good s d (some (c ∷ cs)) h o = let bad : (c ∷ cs) ≡ [] = h (c ∷ cs) refl in cc

get_connection-Good :
    (b : ℤ) (s : ℕ) (d : Downstream) → Owned d → GoodConnection s (get_connection b s d)
unfolding get_connection connections_at
get_connection-Good (pos i) s d o =
    taken-Good s d (get_elem? d.connections i)
      (λ c e. get_elem?-AllEmpty d.connections i c o.pooled e) o
get_connection-Good (negsuc i) s d o = tt

bound-Good :
    (x : Session) (m : Option (Downstream × ℕ))
    → GoodConnection x.id m
    → GoodConnection x.id (bound x m)
unfolding bound put_session
bound-Good x none g = tt
bound-Good x (some (d, a)) g = (
  put_session-Owned d _ g.0 (λ b e.
      let same : a ≡ b = cc in
      (subst (λ c. c < d.next) same g.1, subst (λ c. (d.heap c).owner ≡ x.id) same g.2)),
  g.1,
  g.2,
)

pub connection_of-Good :
    (b : ℤ) (x : Session) (m : Option ℕ) (d : Downstream)
    → x.conn ≡ m
    → Owned d
    → Has d x
    → GoodConnection x.id (connection_of b x m d)
unfolding connection_of
connection_of-Good b x (some a) d e o h = (o, (h a e).0, (h a e).1)
connection_of-Good b x none d e o h = bound-Good x _ (get_connection-Good b x.id d o)
