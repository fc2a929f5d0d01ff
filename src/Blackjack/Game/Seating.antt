-- ===== src/Blackjack/Game/Seating.antt =====
-- Nobody ever sits down: `join` takes its seat in a copy of the seats.
use easyprospect_service.Prelude.{
  ℕ, zero, suc, ◌+◌, ◌≡◌, refl, Bool, true, false, ◌||◌, Option, none, some, List, [], ◌∷◌, arith,
  All, set, get_elem?, ◌≢◌, inl, inr, Option-cases,
}
use easyprospect_service.Prelude.Int.{ℤ, negsuc}
use easyprospect_service.Blackjack.Hand.{Hand}
use easyprospect_service.Blackjack.Shoe
use easyprospect_service.Blackjack.Game.{
  Error, not_playing, Seat, Game, is_open, make_game, find_from, find, take_seat, join, leave,
  surrender, bet, Deal, dealt, threw, undefined, deal_one, start, push_card,
}

-- The calls that the table makes of its game.
pub data Call : Type 0 where
  joins leaves surrenders bets : ℕ → Call
  starts : Call

abbrev pub settle : Deal → Option Game
settle (dealt g events) = some g
settle (threw g) = some g
settle undefined = none

module _ (rand : ℕ → ℕ) where
  -- The game after one call; `none` is undefined behaviour.
  unfoldable pub step : Game → Call → Option Game
  step g (joins v) = some (join g v).0
  step g (leaves v) = some (leave g v none).0
  step g (surrenders v) = some (surrender g v).0
  step g (bets v) = some (bet g v none).0
  step g starts = settle (start rand g).0

  -- The games that calls lead to.
  pub data Reach (g : Game) : Game → Type 0 where
    here : Reach g g
    next : {h k : Game} → Reach g h → (c : Call) → step h c ≡ some k → Reach g k

abbrev any_open : List Seat → Bool
any_open [] = false
any_open (s ∷ ss) = is_open s || any_open ss

pub record IsVacant (g : Game) : Type 0 where
  nobody : All (λ s. s.u ≡ none) g.seats
  room : any_open g.seats ≡ true

set-vacant :
    (ss : List Seat) (i : ℕ) (s : Seat) (hs : List Hand)
    → get_elem? ss i ≡ some s
    → All (λ s. s.u ≡ none) ss
    → All (λ s. s.u ≡ none) (set ss i (record s { hands = hs }))
      × (any_open (set ss i (record s { hands = hs })) ≡ any_open ss)
set-vacant [] i s hs e h = (tt, refl)
set-vacant (t ∷ ss) zero s hs e h = ground arith
set-vacant (t ∷ ss) (suc i) s hs e h = ground (arith, set-vacant ss i s hs e h.1)

find_from_vacant : (i v : ℕ) (ss : List Seat) → All (λ s. s.u ≡ none) ss → find_from i ss v ≡ 0
unfolding find_from
find_from_vacant i v [] h = refl
find_from_vacant i v (s ∷ ss) h = ground (arith, find_from_vacant (i + 1) v ss h.1)

find_vacant : (g : Game) (v : ℕ) → All (λ s. s.u ≡ none) g.seats → find g v ≡ 0
unfolding find
find_vacant g v h = find_from_vacant 0 v g.seats h

join_same : (g : Game) (v : ℕ) → (join g v).0 ≡ g
unfolding join
join_same g v = ground arith

leave_same : (g : Game) (v : ℕ) → (leave g v none).0 ≡ g
unfolding leave
leave_same g v = ground arith

take_seat_open : (v : ℕ) (ss : List Seat) → any_open ss ≡ true → take_seat v ss ≢ none
unfolding take_seat
take_seat_open v [] h = cc
take_seat_open v (s ∷ ss) h = ground (arith, take_seat_open v ss)

deal_one-IsVacant :
    (rand : ℕ → ℕ) (g h : Game) → settle (deal_one rand g) ≡ some h → IsVacant g → IsVacant h
unfolding deal_one
deal_one-IsVacant rand g h e v = elim (Option-cases (get_elem? g.seats g.turn)) [
  | inl miss ↦ ground arith
  | inr (s, hit) ↦ elim (Option-cases (push_card (Shoe.deal rand g.shoe).0 s.hands)) [
    | inl full ↦ ground arith
    | inr (hs, ok) ↦ ground (arith, set-vacant g.seats g.turn s hs hit v.nobody)
  ]
]

bet-vacant :
    (g : Game) (v : ℕ) (ec : Option Error) → find g v ≡ 0 → bet g v ec ≡ (g, some not_playing, [])
unfolding bet
bet-vacant g v ec h = rw h refl

module _ (rand : ℕ → ℕ) where
  step-IsVacant : (g h : Game) (c : Call) → step rand g c ≡ some h → IsVacant g → IsVacant h
  unfolding step start
  step-IsVacant g h (joins v) e w = ground (arith, join_same g v)
  step-IsVacant g h (leaves v) e w = ground (arith, leave_same g v)
  step-IsVacant g h (surrenders v) e w = unfold surrender in ground arith
  step-IsVacant g h (bets v) e w = ground (arith, bet-vacant g v none, find_vacant g v w.nobody)
  step-IsVacant g h starts e w = deal_one-IsVacant rand g h e w

  Reach-IsVacant : {g h : Game} → IsVacant g → Reach rand g h → IsVacant h
  Reach-IsVacant v here = v
  Reach-IsVacant v (next {h = h} {k = k} r c e) = step-IsVacant h k c e (Reach-IsVacant v r)

  -- Whatever calls are made of a new game, no seat is ever taken: every `join` reports success,
  -- and every later `bet` and `leave` of any user is refused with `not_playing`.
  pub Reach-not_playing :
      (decks draws : ℕ) (chips0 : ℤ) (g : Game) (v : ℕ) (ec : Option Error)
      → Reach rand (make_game rand decks draws chips0) g
      → (join g v ≡ (g, none))
        × (bet g v ec ≡ (g, some not_playing, []))
        × (leave g v ec ≡ (g, 0, some not_playing))
        × (surrender g v ≡ (g, negsuc 0))
  unfolding make_game
  Reach-not_playing decks draws chips0 g v ec r =
      let w = Reach-IsVacant (record { nobody = ground arith; room = refl }) r in
      let f = find_vacant g v w.nobody in
      (
        unfold join in ground (arith, take_seat_open v g.seats w.room),
        bet-vacant g v ec f,
        unfold leave in rw f refl,
        unfold surrender in rw f refl,
      )
