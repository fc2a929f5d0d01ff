-- ===== src/Blackjack/Game.antt =====
-- `struct seat` and `class game` of src/easyprospect-web-worker/ws-user.cpp, with the errors of
-- include/easyprospect-web-worker/app-error.h.
-- A user is the number of the object that `u` points to, and `none` is the null pointer.
-- `seat::chips` is not initialised by the constructor: its first value is a parameter, `chips0`.
-- A call returns the game and the error code that it leaves (`none`: no error).
pub mod Seating
pub mod Dealing
use easyprospect_service.Prelude.{
  ℕ, zero, suc, ◌+◌, Bool, true, false, ◌&&◌, not, Option, none, some, List, [], ◌∷◌, ◌++◌, ltb,
  leb, ◌==◌, if◌then◌else◌, length, set, get_elem?, String,
}
use easyprospect_service.Prelude.Int.{ℤ, pos, negsuc, ◌+ℤ◌, ◌-ℤ◌}
use easyprospect_service.Blackjack.Hand.{Hand, empty_hand}
use easyprospect_service.Blackjack.Hand
use easyprospect_service.Blackjack.Shoe.{Shoe, make_shoe}
use easyprospect_service.Blackjack.Shoe

pub data Error : Type 0 where
  not_playing already_playing already_leaving no_open_seat no_more_bets : Error

-- `error_codes::message`.
unfoldable pub message : Error → String
message not_playing = "Not playing"
message already_playing = "Already playing"
message already_leaving = "Already playing"
message no_open_seat = "No open seat"
message no_more_bets = "No more bets"

pub data SeatState : Type 0 where
  dealer waiting playing leaving open_seat : SeatState

pub record Seat : Type 0 where
  pub u : Option ℕ
  pub state : SeatState
  pub hands : List Hand
  pub chips : ℤ
  pub wager : ℤ

pub data GameState : Type 0 where
  wait play : GameState

pub record Game : Type 0 where
  pub state : GameState
  pub shoe : Shoe
  pub seats : List Seat
  pub turn : ℕ

-- The notifications of `game::callback`.
pub data Event : Type 0 where
  game_bet game_deal_card : Event

unfoldable pub make_seat : ℤ → Seat
make_seat chips0 = record {
  u = none;
  state = open_seat;
  hands = empty_hand ∷ [];
  chips = chips0;
  wager = pos 0;
}

abbrev pub is_open : Seat → Bool
is_open s = elim s.state [ open_seat ↦ true | _ ↦ false ]

abbrev pub is_user : ℕ → Option ℕ → Bool
is_user v none = false
is_user v (some w) = w == v

-- `seat::clear`: `hands[0].clear()` and the reset of the bets.
unfoldable pub clear_first : List Hand → List Hand
clear_first [] = []
clear_first (h ∷ hs) = Hand.clear h ∷ hs

unfoldable pub clear_seat : Seat → Seat
unfolding clear_first
clear_seat s = record s { hands = clear_first s.hands; wager = pos 0; chips = pos 1000 }

module _ (rand : ℕ → ℕ) where
  unfoldable pub make_game : ℕ → ℕ → ℤ → Game
  unfolding make_seat
  make_game decks draws chips0 =
      let s = make_seat chips0 in
      record {
        state = wait;
        shoe = make_shoe rand decks draws;
        seats = record s { state = dealer } ∷ s ∷ s ∷ s ∷ s ∷ s ∷ [];
        turn = 0;
      }

-- `find`: the index of the first seat that `v` holds, 0 if there is none.
unfoldable pub find_from : ℕ → List Seat → ℕ → ℕ
find_from i [] v = 0
find_from i (s ∷ ss) v =
    let rest = find_from (i + 1) ss v in if not (is_open s) && is_user v s.u then i else rest

unfoldable pub find : Game → ℕ → ℕ
unfolding find_from
find g v = find_from 0 g.seats v

-- The loop of `join`: the seats with the first open one taken.
unfoldable pub take_seat : ℕ → List Seat → Option (List Seat)
take_seat v [] = none
take_seat v (s ∷ ss) = elim s.state [
  | open_seat ↦ some (record s { u = some v; state = playing } ∷ ss)
  | _ ↦ elim (take_seat v ss) [ none ↦ none | some rest ↦ some (s ∷ rest) ]
]

-- `get_seat()` returns a copy of the seats, so the seat that the loop takes is one of the copy.
-- The number returned is a difference of pointers into two copies, and no caller reads it.
unfoldable pub join : Game → ℕ → Game × Option Error
unfolding find take_seat
join g v =
    if not (find g v == 0)
    then (g, some already_playing)
    else (elim (take_seat v g.seats) [ none ↦ (g, some no_open_seat) | some copy ↦ (g, none) ])

-- The assignments of `leave` go to copies too. The code returned is 1, 2, or 0 with an error;
-- `ec` is the error code that the caller passed in.
unfoldable pub leave : Game → ℕ → Option Error → Game × ℕ × Option Error
unfolding find
leave g v ec =
    let i = find g v in
    if i == 0 then (g, 0, some not_playing) else (elim (get_elem? g.seats i) [
      | none ↦ (g, 0, some already_leaving)
      | some s ↦ elim s.state [
        | waiting ↦ (g, 2, ec)
        | playing ↦ (g, 1, ec)
        | _ ↦ (g, 0, some already_leaving)
      ]
    ])

-- 1 is success and -1 is not playing; the seat that becomes open is one of a copy.
unfoldable pub surrender : Game → ℕ → Game × ℤ
unfolding find
surrender g v = (g, if find g v == 0 then negsuc 0 else pos 1)

abbrev pub place_bet : Seat → Seat
place_bet s = record s { wager = s.wager +ℤ pos 5; chips = s.chips -ℤ pos 5 }

unfoldable pub bet : Game → ℕ → Option Error → Game × Option Error × List Event
unfolding find
bet g v ec =
    let i = find g v in
    if i == 0 then (g, some not_playing, []) else (elim (get_elem? g.seats i) [
      | none ↦ (g, some no_more_bets, [])
      | some s ↦
          let placed : Game × Option Error × List Event =
            (record g { seats = set g.seats i (place_bet s) }, ec, game_bet ∷ []) in
          elim s.state [ playing ↦ placed | leaving ↦ placed | _ ↦ (g, some no_more_bets, []) ]
    ])

-- The private `insert`, which nothing calls.
unfoldable pub insert_from : ℕ → List Seat → ℕ → List Seat × ℕ
insert_from i [] v = ([], 0)
insert_from i (s ∷ ss) v = elim s.state [
  | open_seat ↦ (record s { state = waiting; u = some v } ∷ ss, i)
  | _ ↦ let (rest, j) = insert_from (i + 1) ss v in (s ∷ rest, j)
]

-- `static_string<22>::push_back` throws `length_error` on a full hand, and an index past the seats
-- is undefined behaviour.
pub data Deal : Type 0 where
  dealt : Game → List Event → Deal
  threw : Game → Deal
  undefined : Deal

abbrev pub hand_capacity : ℕ
hand_capacity = 22

-- `hand::deal` on `hands[0]`, with the card that the shoe has dealt.
unfoldable pub push_card : ℕ → List Hand → Option (List Hand)
push_card c [] = none
push_card c (h ∷ hs) =
    if ltb (length h.cards) hand_capacity
    then some (record h { cards = h.cards ++ c ∷ [] } ∷ hs)
    else none

module _ (rand : ℕ → ℕ) where
  -- The card is dealt and `turn_` has grown before `push_back` can throw.
  unfoldable pub deal_one : Game → Deal
  unfolding push_card
  deal_one g =
      let (c, shoe) = Shoe.deal rand g.shoe in
      elim (get_elem? g.seats g.turn) [
        | none ↦ undefined
        | some s ↦ elim (push_card c s.hands) [
          | none ↦ threw (record g { shoe = shoe; turn = g.turn + 1 })
          | some hands ↦
              dealt
                (record g {
                  shoe = shoe;
                  seats = set g.seats g.turn (record s { hands = hands });
                  turn = (if leb (length g.seats) (g.turn + 1) then 0 else g.turn + 1);
                })
                (game_deal_card ∷ [])
        ]
      ]

  -- `start`: the error code is cleared after the deal.
  unfoldable pub start : Game → Deal × Option Error
  unfolding deal_one
  start g = (deal_one g, none)
