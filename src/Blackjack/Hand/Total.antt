-- ===== src/Blackjack/Hand/Total.antt =====
-- What the loops of `eval` compute of the numbers of the cards, which it adds up in place of their
-- values.
use easyprospect_service.Prelude.{
  ℕ, zero, suc, ◌+◌, ◌-◌, ◌*◌, ◌≤◌, ◌<◌, ◌≡◌, refl, ◌↔◌, inl, inr, List, [], ◌∷◌, arith, ltb, ◌==◌,
  if◌then◌else◌, Bool-cases, ltb→lt,
}
use easyprospect_service.Blackjack.Hand.{count_cards, soften, hand_total}

-- The sum of the numbers, and how often the number 1 is among them.
abbrev pub hard : List ℕ → ℕ
hard [] = 0
hard (c ∷ cs) = c + hard cs

abbrev pub aces_of : List ℕ → ℕ
aces_of [] = 0
aces_of (c ∷ cs) = let rest = aces_of cs in if c == 1 then rest + 1 else rest

count_cards_lem :
    (cs : List ℕ) (t a : ℕ)
    → ((count_cards cs t a).0 ≡ t + hard cs + 10 * aces_of cs)
      × ((count_cards cs t a).1 ≡ a + aces_of cs)
unfolding count_cards
count_cards_lem [] t a = omega arith
count_cards_lem (c ∷ cs) t a =
    ground
      (arith, count_cards_lem cs (if c == 1 then t + 11 else t + c) (if c == 1 then a + 1 else a))

-- A total of the numbers that counts some of the ones as 11.
abbrev pub Reachable : List ℕ → ℕ → Type 0
Reachable cs t = (k : ℕ) × (k ≤ aces_of cs) × (t ≡ hard cs + 10 * k)

soften_reach : (a h : ℕ) → (k : ℕ) × (k ≤ a) × (soften a (h + 10 * a) ≡ h + 10 * k)
unfolding soften
soften_reach zero h = (0, omega arith, omega arith)
soften_reach (suc a) h = elim (Bool-cases (ltb 21 (h + 10 * suc a))) [
  | inl big ↦
      let (k, le, e) = soften_reach a h in
      (
        k,
        omega arith,
        rw (big, soften) (let shift : h + 10 * suc a - 10 ≡ h + 10 * a = omega arith in rw shift e),
      )
  | inr small ↦ (suc a, omega arith, rw (small, soften) refl)
]

soften_fits : (a h : ℕ) → h ≤ 21 → soften a (h + 10 * a) ≤ 21
unfolding soften
soften_fits zero h le = omega arith
soften_fits (suc a) h le =
    let shift : h + 10 * suc a - 10 ≡ h + 10 * a = omega arith in
    elim (Bool-cases (ltb 21 (h + 10 * suc a))) [
      | inl big ↦ rw (big, soften) (rw shift (soften_fits a h le))
      | inr small ↦ rw (small, soften) (ground arith)
    ]

soften_best : (a h k : ℕ) → k ≤ a → h + 10 * k ≤ 21 → h + 10 * k ≤ soften a (h + 10 * a)
unfolding soften
soften_best zero h k le fits = omega arith
soften_best (suc a) h k le fits =
    let shift : h + 10 * suc a - 10 ≡ h + 10 * a = omega arith in
    elim (Bool-cases (ltb 21 (h + 10 * suc a))) [
      | inl big ↦
          let lt : 21 < h + 10 * suc a = ground arith in
          rw (big, soften) (rw shift (soften_best a h k (omega arith) fits))
      | inr small ↦ rw (small, soften) (omega arith)
    ]

zero_plus : (n : ℕ) → 0 + n ≡ n
zero_plus n = omega arith

hand_total_lem : (cs : List ℕ) → hand_total cs ≡ soften (aces_of cs) (hard cs + 10 * aces_of cs)
unfolding hand_total
hand_total_lem cs =
    let (t, a) = count_cards_lem cs 0 0 in
    rw (t, a) (cc (zero_plus (aces_of cs), zero_plus (hard cs)))

pub hand_total_reach :
    (cs : List ℕ)
    → Reachable cs (hand_total cs)
      × ((t : ℕ) → Reachable cs t → t ≤ 21 → (hand_total cs ≤ 21) × (t ≤ hand_total cs))
hand_total_reach cs = (
  rw (hand_total_lem cs) (soften_reach (aces_of cs) (hard cs)),
  λ t r le. rw (hand_total_lem cs) (
    soften_fits (aces_of cs) (hard cs) (omega (arith, r.2)),
    rw r.2 (soften_best (aces_of cs) (hard cs) r.0 r.1 (omega (arith, r.2))),
  ),
)

pub total_over : (cs : List ℕ) → (21 < hand_total cs) ↔ (21 < hard cs)
total_over cs =
    let ((k, le, e), best) = hand_total_reach cs in
    (
      λ over. elim (Bool-cases (ltb 21 (hard cs))) [
        | inl big ↦ ltb→lt _ _ big
        | inr small ↦
            let low : hard cs ≤ 21 = ground arith in
            absurd (omega (arith, (best (hard cs) (0, omega arith, omega arith) low).0))
      ],
      λ over. omega arith,
    )

pub total_21 : (cs : List ℕ) → (hand_total cs ≡ 21) ↔ Reachable cs 21
total_21 cs =
    let (reach, best) = hand_total_reach cs in
    (λ e. (reach.0, reach.1, omega (arith, reach.2)), λ r. omega (arith, best 21 r (omega arith)))
