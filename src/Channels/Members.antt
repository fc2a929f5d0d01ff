-- ===== src/Channels/Members.antt =====
-- The sessions of a channel: a sorted set that `insert` and `erase` change by one session.
use easyprospect_service.Prelude.{
  ℕ, ◌<◌, ◌≡◌, refl, ap, ◌∙◌, inl, inr, Bool, true, false, not, List, [], ◌∷◌, arith, All, ltb,
  ◌==◌, if◌then◌else◌, Bool-cases, ==_iff,
}
use easyprospect_service.Channels.{
  Channel, Site, member, insert_session, erase_session, is_joined, with_sessions, insert, erase,
  announce_join, announce_leave,
}
use easyprospect_service.Channels.Frame.{announce_join-Same, announce_leave-Same}

-- Strictly increasing.
abbrev pub IsSorted : List ℕ → Type 0
IsSorted [] = Unit
IsSorted (s ∷ ss) = All (λ t. s < t) ss × IsSorted ss

All-above : {s t : ℕ} (ss : List ℕ) → s < t → All (λ r. t < r) ss → All (λ r. s < r) ss
All-above [] h a = tt
All-above (r ∷ ss) h a = (omega (arith, a.0), All-above ss h a.1)

member-above : (s : ℕ) (ss : List ℕ) → All (λ r. s < r) ss → member s ss ≡ false
unfolding member
member-above s [] a = refl
member-above s (r ∷ ss) a = ground (arith, member-above s ss a.1)

pub member-insert_session :
    (t s : ℕ) (ss : List ℕ)
    → member t (insert_session s ss) ≡ (if t == s then true else member t ss)
unfolding member insert_session
member-insert_session t s [] = refl
member-insert_session t s (r ∷ ss) = ground (arith, member-insert_session t s ss)

All-insert_session :
    (r s : ℕ) (ss : List ℕ) → r < s → All (λ t. r < t) ss → All (λ t. r < t) (insert_session s ss)
unfolding insert_session
All-insert_session r s [] h a = (h, tt)
All-insert_session r s (t ∷ ss) h a = ground (arith, All-insert_session r s ss h a.1)

pub insert_session-IsSorted : (s : ℕ) (ss : List ℕ) → IsSorted ss → IsSorted (insert_session s ss)
unfolding insert_session
insert_session-IsSorted s [] h = (tt, tt)
insert_session-IsSorted s (t ∷ ss) h = elim (Bool-cases (ltb s t)) [
  | inl e ↦ let lt : s < t = ground arith in rw (e, insert_session) ((lt, All-above ss lt h.0), h)
  | inr e ↦ elim (Bool-cases (s == t)) [
    | inl f ↦ rw (e, f, insert_session) h
    | inr f ↦
        let lt : t < s = ground arith in
        rw (e, f, insert_session)
          (All-insert_session t s ss lt h.0, insert_session-IsSorted s ss h.1)
  ]
]

All-erase_session :
    (r s : ℕ) (ss : List ℕ) → All (λ t. r < t) ss → All (λ t. r < t) (erase_session s ss)
unfolding erase_session
All-erase_session r s [] a = tt
All-erase_session r s (t ∷ ss) a = ground (arith, All-erase_session r s ss a.1)

pub erase_session-IsSorted : (s : ℕ) (ss : List ℕ) → IsSorted ss → IsSorted (erase_session s ss)
unfolding erase_session
erase_session-IsSorted s [] h = tt
erase_session-IsSorted s (t ∷ ss) h = elim (Bool-cases (s == t)) [
  | inl e ↦ rw (e, erase_session) h.1
  | inr e ↦ rw (e, erase_session) (All-erase_session t s ss h.0, erase_session-IsSorted s ss h.1)
]

pub member-erase_session :
    (t s : ℕ) (ss : List ℕ)
    → IsSorted ss
    → member t (erase_session s ss) ≡ (if t == s then false else member t ss)
unfolding member erase_session
member-erase_session t s [] h = ground arith
member-erase_session t s (r ∷ ss) h =
    ground (arith, member-erase_session t s ss h.1, member-above r ss h.0)

erase_session-insert_session :
    (s : ℕ) (ss : List ℕ) → member s ss ≡ false → erase_session s (insert_session s ss) ≡ ss
unfolding member erase_session insert_session
erase_session-insert_session s [] h = ground arith
erase_session-insert_session s (t ∷ ss) h = ground (arith, erase_session-insert_session s ss)

abbrev with_new : ℕ → Site → Site
with_new s k = with_sessions (insert_session s k.channel.sessions) k

abbrev without : ℕ → Site → Site
without s k = with_sessions (erase_session s k.channel.sessions) k

pub insert-joined : (u s : ℕ) (k : Site) → is_joined s k ≡ true → insert u s k ≡ (k, false)
unfolding insert
insert-joined u s k e = rw (e, insert) refl

pub insert-new :
    (u s : ℕ) (k : Site)
    → is_joined s k ≡ false
    → insert u s k ≡ (announce_join u s (with_new s k), true)
unfolding insert
insert-new u s k e = rw (e, insert) refl

pub erase-joined :
    (u s : ℕ) (k : Site)
    → is_joined s k ≡ true
    → erase u s k ≡ (announce_leave u s (without s k), true)
unfolding erase
erase-joined u s k e = rw (e, erase) refl

pub erase-absent : (u s : ℕ) (k : Site) → is_joined s k ≡ false → erase u s k ≡ (k, false)
unfolding erase
erase-absent u s k e = rw (e, erase) refl

-- What `insert` and `erase` do to the set and report.
abbrev pub Inserted : ℕ → ℕ → Site → Site × Bool → Type 0
Inserted s t k (l, new) =
    (new ≡ not (is_joined s k))
    × (is_joined t l ≡ (if t == s then true else is_joined t k))
    × IsSorted l.channel.sessions

abbrev pub Erased : ℕ → ℕ → Site → Site × Bool → Type 0
Erased s t k (l, gone) =
    (gone ≡ is_joined s k)
    × (is_joined t l ≡ (if t == s then false else is_joined t k))
    × IsSorted l.channel.sessions

insert-Inserted :
    (u s t : ℕ) (k : Site) → IsSorted k.channel.sessions → Inserted s t k (insert u s k)
insert-Inserted u s t k h = elim (Bool-cases (is_joined s k)) [
  | inl e ↦ rw (insert-joined u s k e) (rw e refl, same e, h)
  | inr e ↦
      let c = (announce_join-Same u s (with_new s k)).channel in
      rw (insert-new u s k e, c)
        (
          rw e refl,
          member-insert_session t s k.channel.sessions,
          insert_session-IsSorted s k.channel.sessions h,
        )
]
  where
    same : is_joined s k ≡ true → is_joined t k ≡ (if t == s then true else is_joined t k)
    same e = elim (Bool-cases (t == s)) [
      | inl p ↦ rw p (rw ((==_iff t s).0 p) e)
      | inr p ↦ rw p refl
    ]

erase-Erased : (u s t : ℕ) (k : Site) → IsSorted k.channel.sessions → Erased s t k (erase u s k)
erase-Erased u s t k h = elim (Bool-cases (is_joined s k)) [
  | inl e ↦
      let c = (announce_leave-Same u s (without s k)).channel in
      rw (erase-joined u s k e, c)
        (
          rw e refl,
          member-erase_session t s k.channel.sessions h,
          erase_session-IsSorted s k.channel.sessions h,
        )
  | inr e ↦ rw (erase-absent u s k e) (rw e refl, same e, h)
]
  where
    same : is_joined s k ≡ false → is_joined t k ≡ (if t == s then false else is_joined t k)
    same e = elim (Bool-cases (t == s)) [
      | inl p ↦ rw p (rw ((==_iff t s).0 p) e)
      | inr p ↦ rw p refl
    ]

-- `insert` reports whether the session is new and makes it a member, `erase` reports whether it was a
-- member and makes it none; both leave the membership of every other session alone and the set sorted.
pub insert-erase-members :
    (u s t : ℕ) (k : Site)
    → IsSorted k.channel.sessions
    → Inserted s t k (insert u s k) × Erased s t k (erase u s k)
insert-erase-members u s t k h = (insert-Inserted u s t k h, erase-Erased u s t k h)

abbrev drop_session : ℕ → Channel → Channel
drop_session s d = record d { sessions = erase_session s d.sessions }

-- A session that joins a channel and leaves it again leaves the channel as it was.
erase-insert :
    (u s : ℕ) (k : Site)
    → is_joined s k ≡ false
    → ((insert u s k).1 ≡ true)
      × ((erase u s (insert u s k).0).1 ≡ true)
      × ((erase u s (insert u s k).0).0.channel ≡ k.channel)
erase-insert u s k h =
    let l = announce_join u s (with_new s k) in
    let c : l.channel ≡ (with_new s k).channel = (announce_join-Same u s (with_new s k)).channel in
    let back = erase_session-insert_session s k.channel.sessions h in
    let now : is_joined s l ≡ true =
      ap (λ d. member s d.sessions) c
      ∙ (member-insert_session s s k.channel.sessions ∙ ground arith) in
    rw (insert-new u s k h, erase-joined u s l now)
      (
        refl,
        refl,
        (announce_leave-Same u s (without s l)).channel
            ∙ ap (drop_session s) c
            ∙ ap {A = List ℕ} {B = Channel} (λ ss. record k.channel { sessions = ss }) back,
      )
