-- ===== src/Blackjack/Game/Dealing.antt =====
-- `start` deals one card, to the seats in turn, and is never asked to clear a hand.
use easyprospect_service.Prelude.{
  ℕ, zero, suc, ◌+◌, ◌-◌, ◌/◌, ◌%◌, ◌≤◌, ◌<◌, ◌≡◌, refl, ◌∙◌, inl, inr, ◌≢◌, none, some, List, [],
  ◌∷◌, ◌++◌, arith, leb, ◌==◌, if◌then◌else◌, Bool-cases, All, length, set, get_elem?, length-set,
  get_elem?-set_self, get_elem?-set_ne, length-append, ==_iff,
}
use easyprospect_service.Prelude.Int.{ℤ}
use easyprospect_service.Blackjack.Hand.{Hand, empty_hand}
use easyprospect_service.Blackjack.Shoe
use easyprospect_service.Blackjack.Game.{
  Seat, Game, Event, game_deal_card, make_game, Deal, dealt, threw, undefined, push_card, deal_one,
  hand_capacity,
}

abbrev pub first_size : List Hand → ℕ
first_size [] = 0
first_size (h ∷ hs) = length h.cards

-- The number of cards in the first hand of seat `k`.
abbrev pub size_at : List Seat → ℕ → ℕ
size_at ss k = elim (get_elem? ss k) [ none ↦ 0 | some s ↦ first_size s.hands ]

-- After `n` deals.
record IsEven (n : ℕ) (g : Game) : Type 0 where
  six : length g.seats ≡ 6
  at : g.turn ≡ n % 6
  handed : All (λ s. s.hands ≢ []) g.seats
  shared : (k : ℕ) → k < 6 → size_at g.seats k ≡ (n + 5 - k) / 6

get_elem?-lt :
    (ss : List Seat) (i : ℕ)
    → i < length ss
    → All (λ s. s.hands ≢ []) ss
    → (s : Seat) × (get_elem? ss i ≡ some s) × (s.hands ≢ [])
get_elem?-lt [] i h a = elim h [ ]
get_elem?-lt (s ∷ ss) zero h a = (s, refl, a.0)
get_elem?-lt (s ∷ ss) (suc i) h a = get_elem?-lt ss i (omega arith) a.1

set-handed :
    (ss : List Seat) (i : ℕ) (s : Seat)
    → s.hands ≢ []
    → All (λ s. s.hands ≢ []) ss
    → All (λ s. s.hands ≢ []) (set ss i s)
set-handed [] i s h a = tt
set-handed (t ∷ ss) zero s h a = (h, a.1)
set-handed (t ∷ ss) (suc i) s h a = (a.0, set-handed ss i s h a.1)

size_at-set :
    (ss : List Seat) (i k : ℕ) (s : Seat)
    → i < length ss
    → size_at (set ss i s) k ≡ (if k == i then first_size s.hands else size_at ss k)
size_at-set ss i k s h = elim (Bool-cases (k == i)) [
  | inl e ↦ let p = (==_iff k i).0 e in rw (e, p, size_at, get_elem?-set_self ss i s h) refl
  | inr e ↦ let ne : i ≢ k = ground arith in rw (e, size_at, get_elem?-set_ne ss s ne) refl
]

push_card-lt :
    (c : ℕ) (hs : List Hand)
    → hs ≢ []
    → first_size hs < hand_capacity
    → (ks : List Hand) × (push_card c hs ≡ some ks)
      × (ks ≢ [])
      × (first_size ks ≡ first_size hs + 1)
unfolding push_card
push_card-lt c [] ne h = absurd (ne refl)
push_card-lt c (h ∷ hs) ne lt = (
  record h { cards = h.cards ++ c ∷ [] } ∷ hs,
  ground arith,
  λ e. cc,
  length-append h.cards (c ∷ []),
)

push_card-full : (c : ℕ) (hs : List Hand) → hand_capacity ≤ first_size hs → push_card c hs ≡ none
unfolding push_card
push_card-full c [] h = refl
push_card-full c (x ∷ hs) h = ground arith

turn_next : (len t n : ℕ) → len ≡ 6 → t ≡ n % 6 → (if leb len (t + 1) then 0 else t + 1) ≡ suc n % 6
turn_next len t n e h = ground arith

share_next :
    (n t k new old : ℕ)
    → t ≡ n % 6
    → k < 6
    → new ≡ (n + 5 - t) / 6 + 1
    → old ≡ (n + 5 - k) / 6
    → (if k == t then new else old) ≡ (suc n + 5 - k) / 6
share_next n t k new old h lk e o = ground arith

module _ (rand : ℕ → ℕ) where
  deal_one_mid :
      (g : Game) (s : Seat) (ks : List Hand)
      → get_elem? g.seats g.turn ≡ some s
      → push_card (Shoe.deal rand g.shoe).0 s.hands ≡ some ks
      → deal_one rand g
        ≡ dealt
            (record g {
              shoe = (Shoe.deal rand g.shoe).1;
              seats = set g.seats g.turn (record s { hands = ks });
              turn = (if leb (length g.seats) (g.turn + 1) then 0 else g.turn + 1);
            })
            (game_deal_card ∷ [])
  unfolding deal_one
  deal_one_mid g s ks hit ok = ground arith

  deal_one-IsEven :
      (n : ℕ) (g : Game)
      → IsEven n g
      → n < 132
      → (h : Game) × (deal_one rand g ≡ dealt h (game_deal_card ∷ [])) × IsEven (suc n) h
  deal_one-IsEven n g v lt =
      let (s, hit, ne) = get_elem?-lt g.seats g.turn (omega (arith, v.six, v.at)) v.handed in
      let old = v.shared g.turn (omega (arith, v.at)) in
      let size : first_size s.hands ≡ (n + 5 - g.turn) / 6 = rw (hit, size_at) at old in
      let (ks, ok, ke, more) =
        push_card-lt (Shoe.deal rand g.shoe).0 s.hands ne (omega (arith, v.at)) in
      (
        _,
        deal_one_mid g s ks hit ok,
        record {
          six = length-set g.seats g.turn (record s { hands = ks }) ∙ v.six;
          at = turn_next (length g.seats) g.turn n v.six v.at;
          handed = set-handed g.seats g.turn (record s { hands = ks }) ke v.handed;
          shared = λ k lk.
              size_at-set g.seats g.turn k (record s { hands = ks }) (omega (arith, v.six, v.at))
              ∙ share_next n g.turn k (first_size ks) (size_at g.seats k) v.at lk
                  (omega (arith, size, more)) (v.shared k lk);
        },
      )

  -- `n` calls of `start` in a row, as long as they deal a card.
  pub rounds : ℕ → Game → Deal
  rounds zero g = dealt g []
  rounds (suc n) g = elim (rounds n g) [
    | dealt h events ↦ deal_one rand h
    | threw h ↦ threw h
    | undefined ↦ undefined
  ]

  rounds-IsEven :
      (n : ℕ) (g : Game)
      → IsEven 0 g
      → n ≤ 132
      → (h : Game) × (events : List Event) × (rounds n g ≡ dealt h events) × IsEven n h
  unfolding rounds
  rounds-IsEven zero g v le = (g, [], refl, v)
  rounds-IsEven (suc n) g v le =
      let (h, events, e, w) = rounds-IsEven n g v (omega arith) in
      let (k, d, u) = deal_one-IsEven n h w (omega arith) in
      (k, game_deal_card ∷ [], rw (e, rounds) d, u)

  rounds-suc :
      (n : ℕ) (g h : Game) (events : List Event)
      → rounds n g ≡ dealt h events
      → rounds (suc n) g ≡ deal_one rand h
  unfolding rounds
  rounds-suc n g h events e = rw (e, rounds) refl

  fresh_sizes :
      (decks draws : ℕ) (chips0 : ℤ) (k : ℕ)
      → k < 6
      → size_at (make_game rand decks draws chips0).seats k ≡ 0
  unfolding make_game
  fresh_sizes decks draws chips0 zero h = refl
  fresh_sizes decks draws chips0 (suc zero) h = refl
  fresh_sizes decks draws chips0 (suc (suc zero)) h = refl
  fresh_sizes decks draws chips0 (suc (suc (suc zero))) h = refl
  fresh_sizes decks draws chips0 (suc (suc (suc (suc zero)))) h = refl
  fresh_sizes decks draws chips0 (suc (suc (suc (suc (suc zero))))) h = refl
  fresh_sizes decks draws chips0 (suc (suc (suc (suc (suc (suc k)))))) h = absurd (omega arith)

  make_game-IsEven : (decks draws : ℕ) (chips0 : ℤ) → IsEven 0 (make_game rand decks draws chips0)
  unfolding make_game
  make_game-IsEven decks draws chips0 =
      let full : (hs : List Hand) → (empty_hand ∷ hs) ≢ [] = λ hs e. cc in
      record {
        six = refl;
        at = refl;
        handed = (full [], (full [], (full [], (full [], (full [], (full [], tt))))));
        shared = λ k h. omega (arith, fresh_sizes decks draws chips0 k h);
      }

  -- A new game deals 132 cards without an error, in turn and evenly: after `n` of them seat `k` has
  -- `(n + 5 - k) / 6` cards.
  pub rounds-shares :
      (decks draws : ℕ) (chips0 : ℤ) (n k : ℕ)
      → n ≤ 132
      → k < 6
      → (g : Game) × (events : List Event) × (rounds n (make_game rand decks draws chips0)
          ≡ dealt g events)
        × (g.turn ≡ n % 6)
        × (size_at g.seats k ≡ (n + 5 - k) / 6)
  rounds-shares decks draws chips0 n k le lk =
      let (g, events, e, v) =
        rounds-IsEven n (make_game rand decks draws chips0) (make_game-IsEven decks draws chips0)
          le in
      (g, events, e, v.at, v.shared k lk)

  deal_one_full :
      (g : Game) (s : Seat)
      → get_elem? g.seats g.turn ≡ some s
      → push_card (Shoe.deal rand g.shoe).0 s.hands ≡ none
      → (h : Game) × (deal_one rand g ≡ threw h) × (h.turn ≡ g.turn + 1) × (h.seats ≡ g.seats)
  unfolding deal_one
  deal_one_full g s hit full =
      (record g { shoe = (Shoe.deal rand g.shoe).1; turn = g.turn + 1 }, ground arith, refl, refl)

  -- Nothing clears the hands, so call 133 of `start` throws: every hand holds 22 cards, and the turn
  -- has moved past the seat that got no card.
  rounds_throw :
      (decks draws : ℕ) (chips0 : ℤ)
      → (g : Game) × (rounds 133 (make_game rand decks draws chips0) ≡ threw g)
        × (g.turn ≡ 1)
        × ((k : ℕ) → k < 6 → size_at g.seats k ≡ hand_capacity)
  rounds_throw decks draws chips0 =
      let new = make_game rand decks draws chips0 in
      let (g, events, e, v) =
        rounds-IsEven 132 new (make_game-IsEven decks draws chips0) (omega arith) in
      let (s, hit, ne) = get_elem?-lt g.seats g.turn (omega (arith, v.six, v.at)) v.handed in
      let size : first_size s.hands ≡ (132 + 5 - g.turn) / 6 =
        rw (hit, size_at) at (v.shared g.turn (omega (arith, v.at))) in
      let full = push_card-full (Shoe.deal rand g.shoe).0 s.hands (omega (arith, size, v.at)) in
      let (h, d, t, same) = deal_one_full g s hit full in
      (
        h,
        rounds-suc 132 new g events e ∙ d,
        omega (arith, t, v.at),
        λ k lk. rw same (v.shared k lk ∙ omega arith),
      )
