-- ===== src/OsUtils/Size.antt =====
-- The size of the text of a hex dump.
use easyprospect_service.Prelude.{
  ◌≡◌, refl, ◌∙◌, ℕ, zero, suc, ◌+◌, ◌*◌, List, [], ◌∷◌, ◌++◌, length, length-append, arith,
}
use easyprospect_service.OsUtils.{Line, hex, gap, columns, printables, print_line, print_lines}
use easyprospect_service.OsUtils.Reader.{length-printables}
use easyprospect_service.OsUtils.Shown.{shown}

length-columns : (n j : ℕ) (bs : List ℕ) → length (columns n j bs) ≡ length (columns n j [])
unfolding columns hex
length-columns zero j bs = refl
length-columns (suc n) j [] = refl
length-columns (suc n) j (b ∷ bs) =
    let code : length (32 ∷ hex 2 b) ≡ 3 = refl in
    omega (
      arith,
      length-append (gap j ++ 32 ∷ hex 2 b) (columns n (suc j) bs),
      length-append (gap j) (32 ∷ hex 2 b),
      length-append (gap j) (32 ∷ 32 ∷ 32 ∷ columns n (suc j) []),
      length-columns n (suc j) bs,
    )

length-columns-nil : length (columns 16 0 []) ≡ 50
unfolding columns
length-columns-nil = refl

length-print_line : (l : Line) → length (print_line l) ≡ 61 + length l.bytes
unfolding print_line hex
length-print_line l = omega (
  arith,
  length-append (columns 16 0 l.bytes ++ 32 ∷ 32 ∷ printables l.bytes) (10 ∷ []),
  length-append (columns 16 0 l.bytes) (32 ∷ 32 ∷ printables l.bytes),
  length-columns 16 0 l.bytes,
  length-columns-nil,
  length-printables l.bytes,
)

-- A line has 61 characters besides those of its bytes.
pub length-print_lines :
    (ls : List Line) → length (print_lines ls) ≡ 61 * length ls + length (shown ls)
unfolding print_lines shown
length-print_lines [] = refl
length-print_lines (l ∷ ls) =
    length-append (print_line l) (print_lines ls)
    ∙ omega (arith, length-print_line l, length-print_lines ls, length-append l.bytes (shown ls))
