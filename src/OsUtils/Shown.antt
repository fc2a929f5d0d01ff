-- ===== src/OsUtils/Shown.antt =====
-- Which bytes a hex dump shows.
use easyprospect_service.Prelude.{
  ◌≡◌, refl, sym, ap, ◌∙◌, ℕ, zero, suc, ◌+◌, ◌*◌, ◌/◌, ◌%◌, ◌^◌, ◌≤◌, ◌<◌, Bool, true, false, List,
  [], ◌∷◌, ◌++◌, length, take, drop, arith, if◌then◌else◌,
}
use easyprospect_service.OsUtils.{Line, is_last, dump_lines, lines_of}

unfoldable pub shown : List Line → List ℕ
shown [] = []
shown (l ∷ ls) = l.bytes ++ shown ls

-- All bytes but each 17th, of which the first comes after `n` others.
unfoldable pub kept : ℕ → List ℕ → List ℕ
kept n [] = []
kept zero (b ∷ bs) = kept 16 bs
kept (suc n) (b ∷ bs) = b ∷ kept n bs

kept-take : (n : ℕ) (bs : List ℕ) → kept n bs ≡ take n bs ++ kept 16 (drop (suc n) bs)
unfolding kept
kept-take zero [] = refl
kept-take zero (b ∷ bs) = refl
kept-take (suc n) [] = refl
kept-take (suc n) (b ∷ bs) = ap (b ∷◌) (kept-take n bs)

take-kept :
    (n m k : ℕ) (bs : List ℕ)
    → k ≡ n + m
    → take k (kept n bs) ≡ take n bs ++ take m (kept 16 (drop (suc n) bs))
unfolding kept
take-kept zero m k [] e = ap (λ i. take i []) (omega arith)
take-kept zero m k (b ∷ bs) e = ap (λ i. take i (kept 16 bs)) (omega arith)
take-kept (suc n) m zero bs e = absurd (omega arith)
take-kept (suc n) zero (suc k) [] e = refl
take-kept (suc n) (suc m) (suc k) [] e = refl
take-kept (suc n) m (suc k) (b ∷ bs) e = ap (b ∷◌) (take-kept n m k bs (omega arith))

length-drop : (n : ℕ) (bs : List ℕ) → length (drop n bs) ≤ length bs
length-drop zero bs = omega arith
length-drop (suc n) [] = omega arith
length-drop (suc n) (b ∷ bs) = omega (arith, length-drop n bs)

is_last-zero : (a : ℕ) → is_last 0 a ≡ false
unfolding is_last
is_last-zero a = refl

is_last-reached : (max a : ℕ) → 0 < max → max ≤ a → is_last max a ≡ true
unfolding is_last
is_last-reached max a p h = ground arith

is_last-below : (max a : ℕ) → a < max → is_last max a ≡ false
unfolding is_last
is_last-below max a h = ground arith

dump_lines-all : (n a : ℕ) (bs : List ℕ) → length bs ≤ n → shown (dump_lines 0 n a bs) ≡ kept 16 bs
unfolding shown dump_lines kept
dump_lines-all zero a [] h = refl
dump_lines-all zero a (b ∷ bs) h = absurd (omega arith)
dump_lines-all (suc n) a [] h = refl
dump_lines-all (suc n) a (b ∷ bs) h =
    let rest =
      dump_lines-all n ((a + 16) % 2 ^ 32) (drop 16 bs) (omega (arith, length-drop 16 bs)) in
    ap (λ cs. b ∷ (take 15 bs ++ cs)) rest ∙ ap (b ∷◌) (sym (kept-take 15 bs))

shown-if : (t : Bool) (ls : List Line) → shown (if t then [] else ls) ≡ (if t then [] else shown ls)
unfolding shown
shown-if true ls = refl
shown-if false ls = refl

dump_lines-step :
    (max n a : ℕ) (t : Bool) (b : ℕ) (bs : List ℕ)
    → is_last max ((a + 16) % 2 ^ 32) ≡ t
    → shown (dump_lines max (suc n) a (b ∷ bs))
      ≡ take 16 (b ∷ bs)
        ++ (if t then [] else shown (dump_lines max n ((a + 16) % 2 ^ 32) (drop 17 (b ∷ bs))))
unfolding shown dump_lines
dump_lines-step max n a t b bs h =
    let ls = dump_lines max n ((a + 16) % 2 ^ 32) (drop 17 (b ∷ bs)) in
    ap (λ u. take 16 (b ∷ bs) ++ shown (if u then [] else ls)) h
    ∙ ap (take 16 (b ∷ bs) ++◌) (shown-if t ls)

dump_lines-nil : (max n a k : ℕ) → shown (dump_lines max n a []) ≡ take k (kept 16 [])
unfolding shown dump_lines kept
dump_lines-nil max zero a zero = refl
dump_lines-nil max zero a (suc k) = refl
dump_lines-nil max (suc n) a zero = refl
dump_lines-nil max (suc n) a (suc k) = refl

dump_lines-until :
    (max n a m : ℕ) (bs : List ℕ)
    → length bs ≤ n
    → max + 16 ≤ 2 ^ 32
    → a + 16 * m < max
    → max ≤ a + 16 * m + 16
    → shown (dump_lines max n a bs) ≡ take (16 * m + 16) (kept 16 bs)
dump_lines-until max n a m [] h w l u = dump_lines-nil max n a (16 * m + 16)
dump_lines-until max zero a m (b ∷ bs) h w l u = absurd (omega arith)
dump_lines-until max (suc n) a zero (b ∷ bs) h w l u =
    dump_lines-step max n a true b bs (is_last-reached max _ (omega arith) (omega arith))
    ∙ sym (take-kept 16 0 16 (b ∷ bs) refl)
dump_lines-until max (suc n) a (suc m) (b ∷ bs) h w l u =
    let same : (a + 16) % 2 ^ 32 ≡ a + 16 = omega arith in
    let rest =
      dump_lines-until max n ((a + 16) % 2 ^ 32) m (drop 16 bs) (omega (arith, length-drop 16 bs)) w
        (omega arith) (omega arith) in
    dump_lines-step max n a false b bs (is_last-below max _ (omega arith))
    ∙ ap (take 16 (b ∷ bs) ++◌) rest
    ∙ sym (take-kept 16 (16 * m + 16) (16 * suc m + 16) (b ∷ bs) (omega arith))

-- What a maximum of the addresses leaves: whole lines; 0 leaves everything.
abbrev pub shown_by : ℕ → List ℕ → List ℕ
shown_by zero bs = bs
shown_by (suc max) bs = take ((suc max + 15) / 16 * 16) bs

pub lines_of-shown :
    (max : ℕ) (bs : List ℕ)
    → max + 16 ≤ 2 ^ 32
    → shown (lines_of max bs) ≡ shown_by max (kept 16 bs)
unfolding lines_of
lines_of-shown zero bs h = dump_lines-all (length bs) 0 bs (omega arith)
lines_of-shown (suc max) bs h =
    let size : 16 * (max / 16) + 16 ≡ (suc max + 15) / 16 * 16 = omega arith in
    dump_lines-until (suc max) (length bs) 0 (max / 16) bs (omega arith) h (omega arith)
      (omega arith)
    ∙ ap (λ k. take k (kept 16 bs)) size
