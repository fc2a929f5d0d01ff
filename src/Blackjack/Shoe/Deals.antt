-- ===== src/Blackjack/Shoe/Deals.antt =====
-- A shoe deals every card of its decks once before it shuffles again.
use mathlib.Core.List.{Perm}
use mathlib.Core.List.Perm
use native.Mathlib.Numerals.{add-one}
use easyprospect_service.Prelude.{
  ℕ, zero, suc, ◌+◌, ◌-◌, ◌*◌, ◌%◌, ◌≤◌, ◌<◌, ◌≡◌, refl, ap, ◌∙◌, subst, inl, inr, List, [], ◌∷◌,
  arith, ◌==◌, Bool-cases, length, get_or, set, length-set, take, drop,
}
use easyprospect_service.Blackjack.Shoe.{
  Shoe, fill, swap_at, shuffle_from, shuffle, make_shoe, deal,
}

length-fill : (n i : ℕ) → length (fill n i) ≡ n
unfolding fill
length-fill zero i = refl
length-fill (suc n) i = ap suc (length-fill n (i + 1))

length-swap_at : (xs : List ℕ) (i j : ℕ) → length (swap_at xs i j) ≡ length xs
unfolding swap_at
length-swap_at xs i j =
    length-set (set xs i (get_or xs j 0)) j (get_or xs i 0) ∙ length-set xs i (get_or xs j 0)

-- A write trades the old entry for the new one.
set-perm : (xs : List ℕ) (i v : ℕ) → i < length xs → Perm (get_or xs i 0 ∷ set xs i v) (v ∷ xs)
set-perm [] i v h = elim h [ ]
set-perm (x ∷ xs) zero v h = Perm.swap v x xs
set-perm (x ∷ xs) (suc i) v h =
    Perm.trans (Perm.swap x (get_or xs i 0) (set xs i v))
      (Perm.trans (Perm.cons x (set-perm xs i v (omega arith))) (Perm.swap v x xs))

get_or-set :
    (xs : List ℕ) (i j : ℕ) → i < length xs → get_or (set xs i (get_or xs j 0)) j 0 ≡ get_or xs j 0
get_or-set [] i j h = elim h [ ]
get_or-set (x ∷ xs) zero zero h = refl
get_or-set (x ∷ xs) zero (suc j) h = refl
get_or-set (x ∷ xs) (suc i) zero h = refl
get_or-set (x ∷ xs) (suc i) (suc j) h = get_or-set xs i j (omega arith)

swap_at-perm : (xs : List ℕ) (i j : ℕ) → i < length xs → j < length xs → Perm (swap_at xs i j) xs
unfolding swap_at
swap_at-perm xs i j hi hj =
    let b = get_or xs j 0 in
    let ys = set xs i b in
    let second : Perm (get_or ys j 0 ∷ set ys j (get_or xs i 0)) (get_or xs i 0 ∷ ys) =
      set-perm ys j (get_or xs i 0) (omega (arith, length-set xs i b)) in
    Perm.cons_inv {a = b}
      (Perm.trans (subst_head (get_or-set xs i j hi) second) (set-perm xs i b hi))
  where
    subst_head : {a b : ℕ} {l k : List ℕ} → a ≡ b → Perm (a ∷ l) k → Perm (b ∷ l) k
    subst_head e p = rw e at p

take_all : (n : ℕ) (xs : List ℕ) → length xs ≡ n → take n xs ≡ xs
take_all zero [] h = refl
take_all zero (x ∷ xs) h = absurd (omega arith)
take_all (suc n) [] h = refl
take_all (suc n) (x ∷ xs) h = ap (◌∷◌ x) (take_all n xs (omega arith))

drop-get_or : (xs : List ℕ) (i : ℕ) → i < length xs → drop i xs ≡ get_or xs i 0 ∷ drop (suc i) xs
drop-get_or [] i h = elim h [ ]
drop-get_or (x ∷ xs) zero h = refl
drop-get_or (x ∷ xs) (suc i) h = drop-get_or xs i (omega arith)

module _ (rand : ℕ → ℕ) where
  shuffle_from-perm :
      (n i : ℕ) (cards : List ℕ) (draw : ℕ)
      → i + n + 1 ≤ length cards
      → Perm (shuffle_from rand n i cards draw) cards
  unfolding shuffle_from
  shuffle_from-perm zero i cards draw h = Perm.refl cards
  shuffle_from-perm (suc n) i cards draw h =
      let j = i + rand draw % (length cards - i) in
      Perm.trans
        (shuffle_from-perm n (i + 1) (swap_at cards i j) (draw + 1)
          (omega (arith, length-swap_at cards i j)))
        (swap_at-perm cards i j (omega arith) (omega arith))

  length-shuffle_from :
      (n i : ℕ) (cards : List ℕ) (draw : ℕ)
      → length (shuffle_from rand n i cards draw) ≡ length cards
  unfolding shuffle_from
  length-shuffle_from zero i cards draw = refl
  length-shuffle_from (suc n) i cards draw =
      let j = i + rand draw % (length cards - i) in
      length-shuffle_from n (i + 1) (swap_at cards i j) (draw + 1) ∙ length-swap_at cards i j

  length-shuffle : (s : Shoe) → length (shuffle rand s).cards ≡ length s.cards
  unfolding shuffle
  length-shuffle s =
      length-shuffle_from (length s.cards - 1) 0 (fill (length s.cards) 0) s.draws
      ∙ length-fill (length s.cards) 0

  -- Whatever `rand` returns, a shuffle puts exactly the cards of the decks in the shoe.
  shuffle-perm :
      (s : Shoe) → 0 < length s.cards → Perm (shuffle rand s).cards (fill (length s.cards) 0)
  unfolding shuffle
  shuffle-perm s h =
      shuffle_from-perm (length s.cards - 1) 0 (fill (length s.cards) 0) s.draws
        (omega (arith, length-fill (length s.cards) 0))

  -- `n` deals in a row.
  pub deals : ℕ → Shoe → List ℕ × Shoe
  deals zero s = ([], s)
  deals (suc n) s = let (c, t) = deal rand s in let (cs, u) = deals n t in (c ∷ cs, u)

  deal_mid :
      (s : Shoe)
      → s.pos < length s.cards
      → deal rand s ≡ (get_or s.cards s.pos 0, record s { pos = s.pos + 1 })
  unfolding deal
  deal_mid s h = elim (Bool-cases (s.pos == length s.cards)) [
    | inl e ↦ absurd (ground arith)
    | inr e ↦ rw e refl
  ]

  deals-take :
      (n : ℕ) (s : Shoe) → s.pos + n ≤ length s.cards → (deals n s).0 ≡ take n (drop s.pos s.cards)
  unfolding deals
  deals-take zero s h = refl
  deals-take (suc n) s h =
      rw (deal_mid s (omega arith), drop-get_or s.cards s.pos (omega arith), ← add-one s.pos)
        (ap (◌∷◌ (get_or s.cards s.pos 0))
          (deals-take n (record s { pos = s.pos + 1 }) (omega arith)))

  -- A new shoe of one deck or more deals each of its cards exactly once before it shuffles again,
  -- whatever `rand` returns: the first `decks * 52` cards are those of `decks` full decks.
  pub deals-make_shoe-perm :
      (decks draws : ℕ)
      → 1 ≤ decks
      → Perm (deals (decks * 52) (make_shoe rand decks draws)).0 (fill (decks * 52) 0)
  unfolding make_shoe
  deals-make_shoe-perm decks draws h =
      let s = make_shoe rand decks draws in
      let len = length-fill (decks * 52) 0 in
      let all : Perm s.cards (fill (length (fill (decks * 52) 0)) 0) =
        shuffle-perm (record { cards = fill (decks * 52) 0; pos = 0; draws = draws })
          (omega (arith, len)) in
      let size : length s.cards ≡ decks * 52 =
        length-shuffle (record { cards = fill (decks * 52) 0; pos = 0; draws = draws }) ∙ len in
      rw (deals-take (decks * 52) s (omega (arith, size)), take_all (decks * 52) s.cards size)
        (subst (λ n. Perm s.cards (fill n 0)) len all)
