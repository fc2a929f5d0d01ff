-- ===== src/Prelude/Maps.antt =====
-- Total functions on the numbers as arrays and maps.
use Prim.Native.Nat.{ℕ}
use mathlib.Core.Path.{◌≡◌}
use mathlib.Core.Logic.{◌⊎◌, inl, inr}
use mathlib.Core.Bool.{true, false}
use native.Mathlib.Omega.{arith}
use easyprospect_service.Prelude.Tests.{◌==◌, ==_iff, if◌then◌else◌, Bool-cases}

module _ {ℓ} {A : Type ℓ} where
  abbrev pub put : ℕ → A → (ℕ → A) → ℕ → A
  put k x m j = if j == k then x else m j

  pub put_self : (k : ℕ) (x : A) (m : ℕ → A) → put k x m k ≡ x
  put_self k x m = let same : (k == k) ≡ true = ground arith in rw same

  pub put_ne : (k j : ℕ) (x : A) (m : ℕ → A) → (j == k) ≡ false → put k x m j ≡ m j
  put_ne k j x m h = rw h

  -- The entry that was put, or an old one.
  pub put_cases :
      (k j : ℕ) (x : A) (m : ℕ → A) → ((j ≡ k) × (put k x m j ≡ x)) ⊎ (put k x m j ≡ m j)
  put_cases k j x m = elim (Bool-cases (j == k)) [
    | inl same ↦ inl ((==_iff j k).0 same, rw same)
    | inr differs ↦ inr (put_ne k j x m differs)
  ]
