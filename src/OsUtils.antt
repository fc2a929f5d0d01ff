-- ===== src/OsUtils.antt =====
-- The hex dump: include/easyprospect-os-utils/easyprospect-os-utils.h. A character is its code, and
-- an `unsigned long` has 32 bits, as on Windows.
pub mod Shown
pub mod Reader
pub mod Size
pub mod Dump
use easyprospect_service.Prelude.{
  ℕ, zero, suc, ◌+◌, ◌/◌, ◌%◌, ◌^◌, Bool, not, ◌&&◌, ◌||◌, ◌==◌, ltb, List, [], ◌∷◌, ◌++◌, length,
  take, drop, if◌then◌else◌,
}

pub record Line : Type 0 where
  pub address : ℕ
  pub bytes : List ℕ

unfoldable pub hex_digit : ℕ → ℕ
hex_digit d = if ltb d 10 then 48 + d else 87 + d

-- The last digits of a number, with zeros in front: `setw` and `setfill('0')`.
unfoldable pub hex : ℕ → ℕ → List ℕ
unfolding hex_digit
hex zero n = []
hex (suc w) n = hex w (n / 16) ++ hex_digit (n % 16) ∷ []

unfoldable pub gap : ℕ → List ℕ
gap j = if j % 8 == 0 then 32 ∷ [] else []

-- The columns from j on: a byte has its code, and a column without a byte is blank.
unfoldable pub columns : ℕ → ℕ → List ℕ → List ℕ
unfolding gap hex
columns zero j bs = []
columns (suc n) j [] = gap j ++ 32 ∷ 32 ∷ 32 ∷ columns n (suc j) []
columns (suc n) j (b ∷ bs) = gap j ++ 32 ∷ hex 2 b ++ columns n (suc j) bs

-- `char` is signed, so a byte above 127 is below 32 too.
unfoldable pub printable : ℕ → ℕ
printable b = if ltb b 32 || not (ltb b 128) then 46 else b

unfoldable pub printables : List ℕ → List ℕ
unfolding printable
printables [] = []
printables (b ∷ bs) = printable b ∷ printables bs

unfoldable pub print_line : Line → List ℕ
unfolding hex columns printables
print_line l = hex 8 l.address ++ columns 16 0 l.bytes ++ 32 ∷ 32 ∷ printables l.bytes ++ 10 ∷ []

unfoldable pub print_lines : List Line → List ℕ
unfolding print_line
print_lines [] = []
print_lines (l ∷ ls) = print_line l ++ print_lines ls

-- The test at the end of a round; a maximum of 0 is none.
unfoldable pub is_last : ℕ → ℕ → Bool
is_last address_max address = ltb 0 address_max && not (ltb address address_max)

-- Both loops step the index, so a round takes a line and passes over the byte behind it.
unfoldable pub dump_lines : ℕ → ℕ → ℕ → List ℕ → List Line
unfolding is_last
dump_lines address_max zero address bs = []
dump_lines address_max (suc n) address [] = []
dump_lines address_max (suc n) address (b ∷ bs) =
    let next = (address + 16) % 2 ^ 32 in
    let rest = dump_lines address_max n next (drop 17 (b ∷ bs)) in
    record { address = address; bytes = take 16 (b ∷ bs) }
    ∷ (if is_last address_max next then [] else rest)

-- A round takes a byte at least, so there are no more rounds than bytes.
unfoldable pub lines_of : ℕ → List ℕ → List Line
unfolding dump_lines
lines_of address_max buffer = dump_lines address_max (length buffer) 0 buffer

unfoldable pub binary_to_string : List ℕ → ℕ → List ℕ
unfolding print_lines lines_of
binary_to_string buffer address_max = print_lines (lines_of address_max buffer)
