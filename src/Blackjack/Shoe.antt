-- ===== src/Blackjack/Shoe.antt =====
-- `class shoe` of src/easyprospect-web-worker/ws-user.cpp.
-- `rand()` of the C library is a parameter: `rand k` is the result of its k-th call.
pub mod Deals
use easyprospect_service.Prelude.{
  ℕ, zero, suc, ◌+◌, ◌-◌, ◌*◌, ◌%◌, List, [], ◌∷◌, ◌==◌, if◌then◌else◌, length, get_or, set,
}

-- `pos` is the index of the iterator `pos_`; `draws` counts the calls of `rand`.
pub record Shoe : Type 0 where
  pub cards : List ℕ
  pub pos : ℕ
  pub draws : ℕ

-- `cards_[i] = 1 + (i % 52)` for `n` places from `i` on.
unfoldable pub fill : ℕ → ℕ → List ℕ
fill zero i = []
fill (suc n) i = (1 + i % 52) ∷ fill n (i + 1)

unfoldable pub swap_at : List ℕ → ℕ → ℕ → List ℕ
swap_at xs i j = set (set xs i (get_or xs j 0)) j (get_or xs i 0)

module _ (rand : ℕ → ℕ) where
  -- The second loop of `shuffle`: `n` rounds are left, and `i` is the index of this one.
  unfoldable pub shuffle_from : ℕ → ℕ → List ℕ → ℕ → List ℕ
  shuffle_from zero i cards draw = cards
  shuffle_from (suc n) i cards draw =
      let j = i + rand draw % (length cards - i) in
      shuffle_from n (i + 1) (swap_at cards i j) (draw + 1)

  -- A shoe holds at least one card, so `cards_.size() - 1` does not wrap.
  unfoldable pub shuffle : Shoe → Shoe
  shuffle s =
      let size = length s.cards in
      record {
        cards = shuffle_from (size - 1) 0 (fill size 0) s.draws;
        pos = 0;
        draws = s.draws + (size - 1);
      }

  -- The constructor; `resize` value-initialises the cards.
  unfoldable pub make_shoe : ℕ → ℕ → Shoe
  unfolding shuffle
  make_shoe decks draws = shuffle (record { cards = fill (decks * 52) 0; pos = 0; draws = draws })

  unfoldable pub deal : Shoe → ℕ × Shoe
  deal s =
      let t = (if s.pos == length s.cards then shuffle s else s) in
      (get_or t.cards t.pos 0, record t { pos = t.pos + 1 })
