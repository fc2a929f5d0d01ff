-- ===== src/Listener/Pair.antt =====
-- An argument `name=value`, read character by character.
use Prim.Native.Char.{Char, code, len_utf8}
use Prim.Native.Nat.{Ordering, compare}
use Prim.Native.String.append
use Prim.Native.String.find
use Prim.Native.String.len
use Prim.Native.String.{◌++◌, find, len, slice, same}
use text.Mathlib.Text.{is_le, when}
use text.Mathlib.TextFind.{find_cases}
use text.Mathlib.TextLemmas.{append_assoc}
use text.Mathlib.TextPositions.{
  NotGt, not-gt-add, len_utf8-pos, len-append, slice-append_left, slice-append_right,
}
use easyprospect_service.Prelude.{
  ℕ, suc, ◌+◌, ◌≡◌, refl, sym, ap, ◌∙◌, inl, inr, Bool, true, false, Option, none, some, String,
  ◌==◌, if◌then◌else◌, Bool-cases, arith,
}
use easyprospect_service.Listener.{split_pair}

abbrev pub is_equals : Char → Bool
is_equals c = code c == b'='

abbrev pub with_first : Char → Option (String × String) → Option (String × String)
with_first c none = none
with_first c (some (n, v)) = some (String.◌∷◌ c n, v)

-- The characters in front of the first `=`, and those behind it.
abbrev pub parts : String → Option (String × String)
parts String.[] = none
parts (String.◌∷◌ c s) =
    let rest = parts s in if is_equals c then some ("", s) else with_first c rest

find-equals : (c : Char) (s : String) → is_equals c ≡ true → find (String.◌∷◌ c s) "=" ≡ 0
find-equals c s h = find.cons c s "=" ∙ first (compare (code c) b'=') h
  where
    first :
        (o : Ordering)
        → elim o as (λ x. Bool) [ Ordering.eq ↦ true | _ ↦ false ] ≡ true
        → same o 0 (len_utf8 c + find s "=") ≡ 0
    first Ordering.lt h = cc
    first Ordering.eq h = refl
    first Ordering.gt h = cc

find-other :
    (c : Char) (s : String)
    → is_equals c ≡ false
    → find (String.◌∷◌ c s) "=" ≡ len_utf8 c + find s "="
find-other c s h = find.cons c s "=" ∙ later (compare (code c) b'=') h
  where
    later :
        (o : Ordering)
        → elim o as (λ x. Bool) [ Ordering.eq ↦ true | _ ↦ false ] ≡ false
        → same o 0 (len_utf8 c + find s "=") ≡ len_utf8 c + find s "="
    later Ordering.lt h = refl
    later Ordering.eq h = cc
    later Ordering.gt h = refl

parts-miss : (s : String) → find s "=" ≡ suc (len s) → parts s ≡ none
parts-miss String.[] h = refl
parts-miss (String.◌∷◌ c s) h =
    let (k, pos) = len_utf8-pos c in
    let size = len.cons c s in
    elim (Bool-cases (is_equals c)) [
      | inl e ↦ absurd (omega (arith, find-equals c s e))
      | inr e ↦ rw e (ap (with_first c) (parts-miss s (omega (arith, find-other c s e))))
    ]

parts-hit :
    (u v : String) → find (u ++ ("=" ++ v)) "=" ≡ len u → parts (u ++ ("=" ++ v)) ≡ some (u, v)
parts-hit String.[] v h =
    ap parts
      (append.nil ("=" ++ v) ∙ append.cons "=" "" v ∙ ap (λ t. String.◌∷◌ "=" t) (append.nil v))
parts-hit (String.◌∷◌ c u) v h =
    let w = u ++ ("=" ++ v) in
    let (k, pos) = len_utf8-pos c in
    let size = len.cons c u in
    let cons = append.cons c u ("=" ++ v) in
    let found : find (String.◌∷◌ c w) "=" ≡ len (String.◌∷◌ c u) =
      ap (λ t. find t "=") (sym cons) ∙ h in
    ap parts cons ∙ elim (Bool-cases (is_equals c)) [
      | inl e ↦ absurd (omega (arith, find-equals c w e))
      | inr e ↦ rw e (ap (with_first c) (parts-hit u v (omega (arith, find-other c w e))))
    ]

fits : (o : Ordering) → NotGt o → is_le o ≡ true
fits Ordering.lt h = refl
fits Ordering.eq h = refl
fits Ordering.gt h = absurd h

beyond : (n : ℕ) → is_le (compare (suc n) n) ≡ false
beyond n = ground arith

abbrev split_at : String → Option ℕ → Option (String × String)
split_at a none = none
split_at a (some p) = some (slice a 0 p, slice a (p + 1) (len a))

split_at-hit : (u v : String) → split_at (u ++ ("=" ++ v)) (some (len u)) ≡ some (u, v)
split_at-hit u v =
    let a = u ++ ("=" ++ v) in
    let right : slice a (len u + 1) (len a) ≡ v =
      ap (λ t. slice t (len u + 1) (len t)) (sym (append_assoc u "=" v))
      ∙ ap (λ n. slice ((u ++ "=") ++ v) n (len ((u ++ "=") ++ v))) (sym (len-append u "="))
      ∙ ap (slice ((u ++ "=") ++ v) (len (u ++ "="))) (len-append (u ++ "=") v)
      ∙ slice-append_right (u ++ "=") v in
    ap (λ n. some (n, slice a (len u + 1) (len a))) (slice-append_left u ("=" ++ v))
    ∙ ap (λ w. some (u, w)) right

-- The pair that is made of an argument is that of its first `=`.
pub split_pair-parts : (a : String) → split_pair a ≡ parts a
unfolding split_pair
split_pair-parts a = elim (find_cases a "=") [
  | inl (u, v, whole, at) ↦
      let w = u ++ ("=" ++ v) in
      let within : is_le (compare (find w "=") (len w)) ≡ true =
        ap (λ n. is_le (compare n (len w))) (ap (λ t. find t "=") (sym whole) ∙ at)
        ∙ ap (λ n. is_le (compare (len u) n)) (len-append u ("=" ++ v))
        ∙ fits _ (not-gt-add (len u) (len ("=" ++ v))) in
      let at_w = ap (λ t. find t "=") (sym whole) ∙ at in
      ap split_pair whole
      ∙ ap (λ b. split_at w (when b (find w "="))) within
      ∙ ap (λ n. split_at w (some n)) at_w
      ∙ split_at-hit u v
      ∙ sym (parts-hit u v at_w)
      ∙ ap parts (sym whole)
  | inr miss ↦
      ap (λ n. split_at a (when (is_le (compare n (len a))) n)) miss
      ∙ ap (λ b. split_at a (when b (suc (len a)))) (beyond (len a))
      ∙ sym (parts-miss a miss)
]
