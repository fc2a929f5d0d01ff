-- ===== src/Blackjack/Hand.antt =====
-- `struct hand` of src/easyprospect-web-worker/ws-user.cpp.
-- A card is the number that the shoe deals, 1 to 52; 0 is the hole card.
pub mod Total
pub mod Rule
use easyprospect_service.Prelude.{
  ℕ, zero, suc, ◌+◌, ◌-◌, ◌%◌, Bool, true, false, ◌&&◌, ◌||◌, List, [], ◌∷◌, ltb, ◌==◌,
  if◌then◌else◌, length,
}

pub record Hand : Type 0 where
  pub cards : List ℕ
  pub wager : ℕ
  pub busted : Bool
  pub twenty_one : Bool
  pub blackjack : Bool

-- `hand` as it is constructed, and as `clear` leaves it.
abbrev pub empty_hand : Hand
empty_hand = record { cards = []; wager = 0; busted = false; twenty_one = false; blackjack = false }

unfoldable pub clear : Hand → Hand
clear h = record h { cards = []; wager = 0; busted = false; twenty_one = false; blackjack = false }

-- `(c - 1) % 13` is -1 at the hole card, so its value is 0.
unfoldable pub value : ℕ → ℕ
value c = if c == 0 then 0 else (let v = 1 + (c - 1) % 13 in if ltb 10 v then 10 else v)

-- The loop over the cards: the total, and the number of aces in it.
unfoldable pub count_cards : List ℕ → ℕ → ℕ → ℕ × ℕ
count_cards [] total aces = (total, aces)
count_cards (c ∷ cs) total aces =
    count_cards cs (if c == 1 then total + 11 else total + c) (if c == 1 then aces + 1 else aces)

-- `while (total > 21 && aces--) total -= 10;`
unfoldable pub soften : ℕ → ℕ → ℕ
soften zero total = total
soften (suc aces) total =
    let rest = soften aces (total - 10) in if ltb 21 total then rest else total

unfoldable pub hand_total : List ℕ → ℕ
hand_total cs = let (total, aces) = count_cards cs 0 0 in soften aces total

unfoldable pub eval : Hand → Hand
eval h =
    let total = hand_total h.cards in
    record h {
      busted = ltb 21 total;
      twenty_one = total == 21;
      blackjack = total == 21 && length h.cards == 2;
    }

unfoldable pub is_finished : Hand → Bool
is_finished h = h.busted || h.twenty_one
