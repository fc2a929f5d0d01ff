-- ===== src/Prelude/Perms.antt =====
-- Writes, swaps and the last element of a list, up to order.
use mathlib.Core.List.{List, [], ◌∷◌, ◌++◌, Perm}
use mathlib.Core.List.Perm
use mathlib.Core.Option.{some}
use mathlib.Core.Path.{◌≡◌, refl, ap}
use Prim.Native.Nat.{ℕ, zero, suc, ◌<◌}
use native.Mathlib.Omega.{arith}
use easyprospect_service.Prelude.Lists.{length, get_elem?, set, take}

module _ {ℓ} {A : Type ℓ} where
  -- A write trades the old element for the new one.
  pub set-perm :
      (xs : List A) (i : ℕ) (x v : A) → get_elem? xs i ≡ some x → Perm (x ∷ set xs i v) (v ∷ xs)
  set-perm [] i x v h = cc
  set-perm (y ∷ xs) zero x v h = trade (ground arith)
    where
      trade : y ≡ x → Perm (x ∷ v ∷ xs) (v ∷ y ∷ xs)
      trade e = rw e (Perm.swap v x xs)
  set-perm (y ∷ xs) (suc i) x v h =
      Perm.trans (Perm.swap y x (set xs i v))
        (Perm.trans (Perm.cons y (set-perm xs i x v h)) (Perm.swap v y xs))

  pub take-snoc :
      (n : ℕ) (xs : List A) (y : A)
      → length xs ≡ suc n
      → get_elem? xs n ≡ some y
      → xs ≡ take n xs ++ y ∷ []
  take-snoc n [] y len h = cc
  take-snoc zero (x ∷ []) y len h = ground arith
  take-snoc zero (x ∷ z ∷ xs) y len h = absurd (omega arith)
  take-snoc (suc n) (x ∷ xs) y len h = ap (◌∷◌ x) (take-snoc n xs y (omega arith) h)

  pub get_elem?-lt : (xs : List A) (i : ℕ) → i < length xs → (x : A) × (get_elem? xs i ≡ some x)
  get_elem?-lt [] i h = elim h [ ]
  get_elem?-lt (x ∷ xs) zero h = (x, refl)
  get_elem?-lt (x ∷ xs) (suc i) h = get_elem?-lt xs i (omega arith)
