-- ===== src/Blackjack/Hand/Rule.antt =====
-- `eval` against the rule of the game: a card counts its `value`, and an ace is 1 or 11.
use easyprospect_service.Prelude.{
  ℕ, ◌+◌, ◌*◌, ◌≤◌, ◌<◌, ◌≡◌, refl, ◌↔◌, ◌⊎◌, inl, inr, ◌||◌, Bool, true, List, leb, [], ◌∷◌, arith,
  ltb, ◌==◌, if◌then◌else◌, ==_iff,
}
use easyprospect_service.Blackjack.Hand.{Hand, value, hand_total, eval, is_finished}
use easyprospect_service.Blackjack.Hand.Total.{
  hard, aces_of, Reachable, hand_total_reach, total_over, total_21,
}

-- What the cards are worth with every ace as 1, and the number of aces, of whatever suit.
abbrev pub worth : List ℕ → ℕ
worth [] = 0
worth (c ∷ cs) = value c + worth cs

abbrev pub aces : List ℕ → ℕ
aces [] = 0
aces (c ∷ cs) = let rest = aces cs in if value c == 1 then rest + 1 else rest

-- A total that counts some of the aces as 11.
abbrev pub Choice : List ℕ → ℕ → Type 0
Choice cs t = (k : ℕ) × (k ≤ aces cs) × (t ≡ worth cs + 10 * k)

-- Only the hole card and the cards of the first suit up to its ten.
abbrev pub Low : List ℕ → Type 0
Low [] = Unit
Low (c ∷ cs) = (c ≤ 10) × Low cs

-- The number of cards above the first ten.
abbrev pub high_cards : List ℕ → ℕ
high_cards [] = 0
high_cards (c ∷ cs) = let rest = high_cards cs in if leb 11 c then rest + 1 else rest

value_low : (c : ℕ) → c ≤ 10 → value c ≡ c
unfolding value
value_low c h = ground arith

value_le : (c : ℕ) → value c ≤ c
unfolding value
value_le c = ground arith

worth-Low : (cs : List ℕ) → Low cs → (worth cs ≡ hard cs) × (aces cs ≡ aces_of cs)
worth-Low [] h = (refl, refl)
worth-Low (c ∷ cs) (h, hs) =
    let (w, a) = worth-Low cs hs in let v = value_low c h in (omega arith, rw (v, a) refl)

worth-hard : (cs : List ℕ) → worth cs ≤ hard cs
worth-hard [] = omega arith
worth-hard (c ∷ cs) = omega (arith, value_le c, worth-hard cs)

high_cards-hard : (cs : List ℕ) → 11 * high_cards cs ≤ hard cs
high_cards-hard [] = omega arith
high_cards-hard (c ∷ cs) = ground (arith, high_cards-hard cs)

Choice-Reachable : (cs : List ℕ) (t : ℕ) → Low cs → Choice cs t ↔ Reachable cs t
Choice-Reachable cs t h =
    let (w, a) = worth-Low cs h in
    (
      λ r. (r.0, omega (arith, r.1), omega (arith, r.2)),
      λ r. (r.0, omega (arith, r.1), omega (arith, r.2)),
    )

-- For a hand of hole cards and cards numbered 1 to 10, the total that eval computes counts some of
-- the aces as 11, is at most 21 if any such total is, and is then the largest of those.
pub hand_total_best :
    (cs : List ℕ)
    → Low cs
    → Choice cs (hand_total cs)
      × ((t : ℕ) → Choice cs t → t ≤ 21 → (hand_total cs ≤ 21) × (t ≤ hand_total cs))
hand_total_best cs h =
    let (reach, best) = hand_total_reach cs in
    (
      (Choice-Reachable cs (hand_total cs) h).1 reach,
      λ t r le. best t ((Choice-Reachable cs t h).0 r) le,
    )

busted_iff : (h : Hand) → ((eval h).busted ≡ true) ↔ (21 < hard h.cards)
unfolding eval
busted_iff h =
    let over = total_over h.cards in
    let bust : (ltb 21 (hand_total h.cards) ≡ true) ↔ (21 < hand_total h.cards) = ground arith in
    (λ b. over.0 (bust.0 b), λ b. bust.1 (over.1 b))

twenty_one_iff : (h : Hand) → ((eval h).twenty_one ≡ true) ↔ Reachable h.cards 21
unfolding eval
twenty_one_iff h =
    let hit = total_21 h.cards in
    let meet = ==_iff (hand_total h.cards) 21 in (λ b. hit.0 (meet.0 b), λ b. meet.1 (hit.1 b))

or_iff : (a b : Bool) → ((a || b) ≡ true) ↔ ((a ≡ true) ⊎ (b ≡ true))
or_iff a b = (λ h. ground arith, λ h. ground arith)

-- A hand of hole cards and cards numbered 1 to 10 is busted exactly if it is worth more than 21 with
-- every ace as 1, and counts as twenty-one exactly if some choice for the aces reaches 21; it is
-- finished in these two cases and no other.
pub eval-is_finished :
    (h : Hand)
    → Low h.cards
    → (((eval h).busted ≡ true) ↔ (21 < worth h.cards))
      × (((eval h).twenty_one ≡ true) ↔ Choice h.cards 21)
      × ((is_finished (eval h) ≡ true) ↔ ((21 < worth h.cards) ⊎ Choice h.cards 21))
unfolding is_finished
eval-is_finished h low =
    let (w, a) = worth-Low h.cards low in
    let bust = busted_iff h in
    let met = twenty_one_iff h in
    let choice = Choice-Reachable h.cards 21 low in
    let done = or_iff (eval h).busted (eval h).twenty_one in
    (
      (λ b. omega (arith, bust.0 b), λ b. bust.1 (omega (arith, b))),
      (λ b. choice.1 (met.0 b), λ b. met.1 (choice.0 b)),
      (
        λ b. elim (done.0 b) [
          | inl p ↦ inl (omega (arith, bust.0 p))
          | inr p ↦ inr (choice.1 (met.0 p))
        ],
        elim [
          | inl p ↦ done.1 (inl (bust.1 (omega (arith, p))))
          | inr p ↦ done.1 (inr (met.1 (choice.0 p)))
        ],
      ),
    )

-- A hand that is worth more than 21 with every ace as 1 is busted, and so is every hand with two
-- cards that are numbered 11 or more, whatever they are worth: `eval` adds up the numbers of the
-- cards and not their values.
pub eval_busts :
    (h : Hand) → (21 < worth h.cards) ⊎ (2 ≤ high_cards h.cards) → (eval h).busted ≡ true
eval_busts h (inl over) = (busted_iff h).1 (omega (arith, worth-hard h.cards))
eval_busts h (inr two) = (busted_iff h).1 (omega (arith, high_cards-hard h.cards))
