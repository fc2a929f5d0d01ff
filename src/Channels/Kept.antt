-- ===== src/Channels/Kept.antt =====
-- What every handler keeps: names, and the well-formedness of its channel.
use Prim.Native.String.{len}
use easyprospect_service.Prelude.{
  ℕ, ◌≤◌, ◌≡◌, refl, ap, ◌∙◌, ◌⊎◌, inl, inr, true, false, arith, ◌==◌, Bool-cases, ==_iff, String,
  List,
}
use easyprospect_service.Channels.{
  system, Channel, World, Post, Site, member, insert_session, erase_session, is_joined,
  with_sessions, is_empty, insert, erase,
}
use easyprospect_service.Channels.Dispatch.{move_out, set_name}
use easyprospect_service.Channels.Frame.{
  Same, SameWorld, Same-refl, announce_join-Same, announce_leave-Same,
}
use easyprospect_service.Channels.Members.{
  IsSorted, insert_session-IsSorted, erase_session-IsSorted, member-insert_session,
  member-erase_session, insert-joined, insert-new, erase-joined, erase-absent,
}

-- A name is set once, and then stays until the user is moved out.
pub record Grew (w v : World) : Type 0 where
  pub gone : (u : ℕ) → w.moved u ≡ true → v.moved u ≡ true
  pub same : (u : ℕ) → is_empty (w.names u) ≡ false → (v.names u ≡ w.names u) ⊎ (v.moved u ≡ true)

abbrev pub Short : World → Type 0
Short w = (u : ℕ) → len (w.names u) ≤ 20

-- A user with a name, or one that was moved out.
abbrev pub IsKnown : World → ℕ → Type 0
IsKnown w t = (is_empty (w.names t) ≡ false) ⊎ (w.moved t ≡ true)

-- Every member of a room or a table has a name or was moved out.
pub record WellFormed (w : World) (c : Channel) : Type 0 where
  pub sorted : IsSorted c.sessions
  pub named : (c.kind ≡ system) ⊎ ((t : ℕ) → member t c.sessions ≡ true → IsKnown w t)

pub record Kept (k l : Site) : Type 0 where
  pub grew : Grew k.world l.world
  pub short : Short k.world → Short l.world
  pub well : WellFormed k.world k.channel → WellFormed l.world l.channel
  pub cid : l.channel.cid ≡ k.channel.cid
  pub kind : l.channel.kind ≡ k.channel.kind

pub Grew-refl : (w : World) → Grew w w
Grew-refl w = record { gone = λ u h. h; same = λ u h. inl refl }

pub Grew-trans : {w v x : World} → Grew w v → Grew v x → Grew w x
Grew-trans a b = record {
  gone = λ u h. b.gone u (a.gone u h);
  same = λ u h. elim (a.same u h) [
    | inl e ↦ elim (b.same u (ap is_empty e ∙ h)) [ inl f ↦ inl (f ∙ e) | inr m ↦ inr m ]
    | inr m ↦ inr (b.gone u m)
  ];
}

IsKnown-Grew : (w v : World) (t : ℕ) → Grew w v → IsKnown w t → IsKnown v t
IsKnown-Grew w v t g (inl e) = elim (g.same t e) [ inl f ↦ inl (ap is_empty f ∙ e) | inr m ↦ inr m ]
IsKnown-Grew w v t g (inr m) = inr (g.gone t m)

pub WellFormed-Grew : {w v : World} (c : Channel) → Grew w v → WellFormed w c → WellFormed v c
WellFormed-Grew {w} {v} c g r = record {
  sorted = r.sorted;
  named = elim r.named [ inl e ↦ inl e | inr f ↦ inr (λ t m. IsKnown-Grew w v t g (f t m)) ];
}

pub Kept-trans : {k l m : Site} → Kept k l → Kept l m → Kept k m
Kept-trans a b = record {
  grew = Grew-trans a.grew b.grew;
  short = λ s. b.short (a.short s);
  well = λ w. b.well (a.well w);
  cid = b.cid ∙ a.cid;
  kind = b.kind ∙ a.kind;
}

SameWorld-Grew : {w v : World} → SameWorld w v → Grew w v
SameWorld-Grew s = record {
  gone = λ u h. ap (λ f. f u) s.moved ∙ h;
  same = λ u h. inl (ap (λ f. f u) s.names);
}

pub Same-Kept : {k l : Site} → Same k l → Kept k l
Same-Kept {k} {l} s = record {
  grew = SameWorld-Grew s.world;
  short = λ h u. rw s.world.names (h u);
  well = λ w. rw s.channel (WellFormed-Grew k.channel (SameWorld-Grew s.world) w);
  cid = ap (λ c. c.cid) s.channel;
  kind = ap (λ c. c.kind) s.channel;
}

-- A session may be inserted if its user has a name or the channel is the system channel.
inserted-Kept :
    (s : ℕ) (k : Site)
    → (k.channel.kind ≡ system) ⊎ (is_empty (k.world.names s) ≡ false)
    → Kept k (with_sessions (insert_session s k.channel.sessions) k)
inserted-Kept s k h = record {
  grew = Grew-refl k.world;
  short = λ e. e;
  well = λ w. record {
    sorted = insert_session-IsSorted s k.channel.sessions w.sorted;
    named = elim w.named [
      | inl e ↦ inl e
      | inr f ↦ elim h [
        | inl e ↦ inl e
        | inr n ↦ inr (λ t m. elim (Bool-cases (t == s)) [
          | inl e ↦ inl (rw ((==_iff t s).0 e) n)
          | inr e ↦ f t (old t e m)
        ])
      ]
    ];
  };
  cid = refl;
  kind = refl;
}
  where
    old :
        (t : ℕ)
        → (t == s) ≡ false
        → member t (insert_session s k.channel.sessions) ≡ true
        → member t k.channel.sessions ≡ true
    old t e m = ground (arith, member-insert_session t s k.channel.sessions)

erased-Kept : (s : ℕ) (k : Site) → Kept k (with_sessions (erase_session s k.channel.sessions) k)
erased-Kept s k = record {
  grew = Grew-refl k.world;
  short = λ e. e;
  well = λ w. record {
    sorted = erase_session-IsSorted s k.channel.sessions w.sorted;
    named = elim w.named [ inl e ↦ inl e | inr f ↦ inr (λ t m. f t (old w.sorted t m)) ];
  };
  cid = refl;
  kind = refl;
}
  where
    old :
        IsSorted k.channel.sessions
        → (t : ℕ) → member t (erase_session s k.channel.sessions) ≡ true
        → member t k.channel.sessions ≡ true
    old w t m = ground (arith, member-erase_session t s k.channel.sessions w)

pub insert-Kept :
    (u s : ℕ) (k : Site)
    → (k.channel.kind ≡ system) ⊎ (is_empty (k.world.names s) ≡ false)
    → Kept k (insert u s k).0
insert-Kept u s k h = elim (Bool-cases (is_joined s k)) [
  | inl e ↦ rw (insert-joined u s k e) (Same-Kept (Same-refl k))
  | inr e ↦
      let l = with_sessions (insert_session s k.channel.sessions) k in
      rw (insert-new u s k e)
        (Kept-trans (inserted-Kept s k h) (Same-Kept (announce_join-Same u s l)))
]

pub erase-Kept : (u s : ℕ) (k : Site) → Kept k (erase u s k).0
erase-Kept u s k = elim (Bool-cases (is_joined s k)) [
  | inl e ↦
      let l = with_sessions (erase_session s k.channel.sessions) k in
      rw (erase-joined u s k e)
        (Kept-trans (erased-Kept s k) (Same-Kept (announce_leave-Same u s l)))
  | inr e ↦ rw (erase-absent u s k e) (Same-Kept (Same-refl k))
]

pub set_name-Kept :
    (u : ℕ) (n : String) (k : Site)
    → is_empty (k.world.names u) ≡ true
    → len n ≤ 20
    → Kept k (set_name u n k)
unfolding set_name
set_name-Kept u n k e le = record {
  grew = other;
  short = λ h v. elim (Bool-cases (v == u)) [ inl p ↦ rw p le | inr p ↦ rw p (h v) ];
  well = λ w. WellFormed-Grew k.channel other w;
  cid = refl;
  kind = refl;
}
  where
    clash : is_empty (k.world.names u) ≡ false → ⊥
    clash h = ground arith

    other : Grew k.world (set_name u n k).world
    other = record {
      gone = λ v h. h;
      same = λ v h. elim (Bool-cases (v == u)) [
        | inl p ↦ absurd (clash (rw ((==_iff v u).0 p) at h))
        | inr p ↦ inl (rw p refl)
      ];
    }

-- The user and the session of a call are moved out together.
pub move_out-Kept :
    (s : ℕ) (k : Site) (ps : List Post)
    → Kept k (record k { world = move_out s s (record k.world { posted = ps }) })
unfolding move_out
move_out-Kept s k ps = record {
  grew = gone;
  short = λ h v. elim (Bool-cases (v == s)) [ inl p ↦ rw p (omega arith) | inr p ↦ rw p (h v) ];
  well = λ w. WellFormed-Grew k.channel gone w;
  cid = refl;
  kind = refl;
}
  where
    gone : Grew k.world (move_out s s (record k.world { posted = ps }))
    gone = record {
      gone = λ v h. elim (Bool-cases (v == s)) [ inl p ↦ rw p refl | inr p ↦ rw p h ];
      same =
          λ v h. elim (Bool-cases (v == s)) [ inl p ↦ inr (rw p refl) | inr p ↦ inl (rw p refl) ];
    }
