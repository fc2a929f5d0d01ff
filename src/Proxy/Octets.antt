-- ===== src/Proxy/Octets.antt =====
-- The octets that are taken from a buffer.
use mathlib.Core.List.{append_assoc}
use easyprospect_service.Prelude.{
  ℕ, suc, zero, ◌≤◌, ◌≡◌, refl, sym, ap, ◌∙◌, true, some, List, [], ◌∷◌, ◌++◌, leb, take, drop,
  replicate, length, arith,
}
use easyprospect_service.Proxy.Session.{buffer_size, octets}

pub take-drop : (n : ℕ) (xs : List ℕ) → take n xs ++ drop n xs ≡ xs
take-drop zero xs = refl
take-drop (suc n) [] = refl
take-drop (suc n) (x ∷ xs) = ap (λ l. x ∷ l) (take-drop n xs)

take_whole : (m : ℕ) (xs : List ℕ) → length xs ≤ m → take m xs ≡ xs
take_whole zero [] h = refl
take_whole zero (x ∷ xs) h = absurd (omega arith)
take_whole (suc m) [] h = refl
take_whole (suc m) (x ∷ xs) h = ap (λ l. x ∷ l) (take_whole m xs (omega arith))

take-take : (n : ℕ) (xs zs : List ℕ) → n ≤ length xs → take n (take n xs ++ zs) ≡ take n xs
take-take zero xs zs h = refl
take-take (suc n) [] zs h = absurd (omega arith)
take-take (suc n) (x ∷ xs) zs h = ap (λ l. x ∷ l) (take-take n xs zs (omega arith))

length-take : (n : ℕ) (xs : List ℕ) → length (take n xs) ≤ n
length-take zero xs = omega arith
length-take (suc n) [] = omega arith
length-take (suc n) (x ∷ xs) = omega (arith, length-take n xs)

-- What is left of the first step goes into the next ones.
pub append-chain :
    (h k u f t r g s b : List ℕ)
    → k ++ u ≡ f ++ (t ++ r)
    → h ++ (f ++ t) ≡ g ++ (s ++ b)
    → (h ++ k) ++ u ≡ g ++ (s ++ (b ++ r))
append-chain h k u f t r g s b next one =
    append_assoc h k u
    ∙ ap (λ l. h ++ l) (next ∙ sym (append_assoc f t r))
    ∙ sym (append_assoc h (f ++ t) r)
    ∙ ap (λ l. l ++ r) one
    ∙ append_assoc g (s ++ b) r
    ∙ ap (λ l. g ++ l) (append_assoc s b r)

pub octets-take :
    (n : ℕ) (xs : List ℕ)
    → n ≤ length xs
    → n ≤ buffer_size
    → octets n (take n xs) ≡ some (take n xs)
unfolding octets
octets-take n xs h fits =
    let small : leb n buffer_size ≡ true = ground arith in
    rw (small, take_whole buffer_size (take n xs) (omega (arith, length-take n xs)))
      (ap some (take-take n xs (replicate buffer_size 0) h))
