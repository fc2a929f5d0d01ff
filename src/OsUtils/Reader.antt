-- ===== src/OsUtils/Reader.antt =====
-- A reader of the text of a hex dump, by the columns in which it stands.
use mathlib.Core.List.{append_assoc}
use easyprospect_service.Prelude.{
  ◌≡◌, refl, ap, ◌∙◌, ℕ, zero, suc, ◌+◌, ◌-◌, ◌*◌, ◌/◌, ◌%◌, ◌≤◌, ◌<◌, Bool, true, false, List, [],
  ◌∷◌, ◌++◌, length, take, drop, map, ltb, leb, ◌&&◌, ◌==◌, if◌then◌else◌, arith,
}
use easyprospect_service.OsUtils.{
  Line, hex_digit, hex, gap, columns, printable, printables, print_line, print_lines,
}

abbrev pub digit_value : ℕ → ℕ
digit_value c = if ltb c 97 then c - 48 else c - 87

-- The number that hexadecimal digits write, behind those that wrote `n`.
abbrev pub number : List ℕ → ℕ → ℕ
number [] n = n
number (c ∷ cs) n = number cs (16 * n + digit_value c)

-- A space and two digits, or three spaces.
abbrev pub column : List ℕ → List ℕ × List ℕ → List ℕ × List ℕ
column (s ∷ x ∷ y ∷ []) (bs, t) = if x == 32 then (bs, t) else (number (x ∷ y ∷ []) 0 ∷ bs, t)
column _ r = r

-- The bytes of the columns from `j` on, and the text behind these. A further space stands in front of each eighth
-- column.
abbrev pub read_columns : ℕ → ℕ → List ℕ → List ℕ × List ℕ
read_columns zero j t = ([], t)
read_columns (suc n) j t =
    let u = drop (if j % 8 == 0 then 1 else 0) t in
    column (take 3 u) (read_columns n (suc j) (drop 3 u))

pub record Entry : Type 0 where
  pub address : ℕ
  pub bytes : List ℕ
  pub chars : List ℕ

-- Behind the columns, two spaces, the characters of the bytes and the end of the line.
abbrev pub read_chars : ℕ → List ℕ × List ℕ → Entry × List ℕ
read_chars a (bs, t) =
    let u = drop 2 t in
    (record { address = a; bytes = bs; chars = take (length bs) u }, drop 1 (drop (length bs) u))

-- A line, and the text behind it.
abbrev pub read_line : List ℕ → Entry × List ℕ
read_line t = read_chars (number (take 8 t) 0) (read_columns 16 0 (drop 8 t))

abbrev pub read_lines : ℕ → List ℕ → List Entry
read_lines zero t = []
read_lines (suc n) [] = []
read_lines (suc n) (c ∷ t) = let r = read_line (c ∷ t) in r.0 ∷ read_lines n r.1

-- The lines of a text; each has a character at least.
abbrev pub read_dump : List ℕ → List Entry
read_dump t = read_lines (length t) t

-- How a byte stands among the characters: as itself, if it is printable ASCII, else as a point.
abbrev pub shown_as : ℕ → ℕ
shown_as b = if leb 32 b && ltb b 128 then b else 46

abbrev pub entry_of : Line → Entry
entry_of l = record { address = l.address; bytes = l.bytes; chars = map shown_as l.bytes }

abbrev pub Octets : List ℕ → Type 0
Octets [] = Unit
Octets (b ∷ bs) = (b < 256) × Octets bs

-- A line as the loop makes it.
pub record Fits (l : Line) : Type 0 where
  pub address : l.address < 4294967296
  pub size : length l.bytes ≤ 16
  pub octets : Octets l.bytes

number-append : (xs ys : List ℕ) (n : ℕ) → number (xs ++ ys) n ≡ number ys (number xs n)
number-append [] ys n = refl
number-append (x ∷ xs) ys n = number-append xs ys (16 * n + digit_value x)

digit_value-hex_digit : (d : ℕ) → d < 16 → digit_value (hex_digit d) ≡ d
unfolding hex_digit
digit_value-hex_digit d h = ground arith

hex_digit_dark : (d : ℕ) → (hex_digit d == 32) ≡ false
unfolding hex_digit
hex_digit_dark d = ground arith

abbrev power : ℕ → ℕ
power zero = 1
power (suc w) = 16 * power w

number-hex : (w n : ℕ) → n < power w → number (hex w n) 0 ≡ n
unfolding hex
number-hex zero n h = omega arith
number-hex (suc w) n h =
    number-append (hex w (n / 16)) (hex_digit (n % 16) ∷ []) 0
    ∙ ap (λ k. 16 * k + digit_value (hex_digit (n % 16))) (number-hex w (n / 16) (omega arith))
    ∙ ap (λ k. 16 * (n / 16) + k) (digit_value-hex_digit (n % 16) (omega arith))
    ∙ omega arith

printable_lem : (b : ℕ) → printable b ≡ shown_as b
unfolding printable
printable_lem b = ground arith

printables_lem : (bs : List ℕ) → printables bs ≡ map shown_as bs
unfolding printables
printables_lem [] = refl
printables_lem (b ∷ bs) = cc (printable_lem b, printables_lem bs)

gap-drop : (j : ℕ) (t : List ℕ) → drop (if j % 8 == 0 then 1 else 0) (gap j ++ t) ≡ t
unfolding gap
gap-drop j t = either (j % 8 == 0)
  where
    either : (b : Bool) → drop (if b then 1 else 0) ((if b then 32 ∷ [] else []) ++ t) ≡ t
    either true = refl
    either false = refl

-- What `read_columns` does behind the gap of its column.
abbrev read_column : ℕ → ℕ → List ℕ → List ℕ × List ℕ
read_column n j u = column (take 3 u) (read_columns n (suc j) (drop 3 u))

columns-read :
    (n j : ℕ) (bs t : List ℕ)
    → length bs ≤ n
    → Octets bs
    → read_columns n j (columns n j bs ++ t) ≡ (bs, t)
unfolding columns hex
columns-read zero j [] t h o = refl
columns-read zero j (b ∷ bs) t h o = absurd (omega arith)
columns-read (suc n) j [] t h o =
    let blank = 32 ∷ 32 ∷ 32 ∷ columns n (suc j) [] in
    ap (read_column n j) (
      ap (drop (if j % 8 == 0 then 1 else 0)) (append_assoc (gap j) blank t)
      ∙ gap-drop j (blank ++ t))
    ∙ ap (column (32 ∷ 32 ∷ 32 ∷ [])) (columns-read n (suc j) [] t (omega arith) tt)
columns-read (suc n) j (b ∷ bs) t h (o, os) =
    let code = 32 ∷ hex 2 b in
    let rest = columns n (suc j) bs in
    let x = hex_digit (b / 16 % 16) in
    ap (read_column n j) (
      ap (drop (if j % 8 == 0 then 1 else 0))
        (append_assoc (gap j ++ code) rest t ∙ append_assoc (gap j) code (rest ++ t))
      ∙ gap-drop j (code ++ (rest ++ t)))
    ∙ ap (column code) (columns-read n (suc j) bs t (omega arith) os)
    ∙ ap (λ d. if d then (bs, t) else (number (hex 2 b) 0 ∷ bs, t)) (hex_digit_dark (b / 16 % 16))
    ∙ ap (λ k. (k ∷ bs, t)) (number-hex 2 b (omega arith))

take-append : (n : ℕ) (xs t : List ℕ) → length xs ≡ n → take n (xs ++ t) ≡ xs
take-append zero [] t h = refl
take-append zero (x ∷ xs) t h = absurd (omega arith)
take-append (suc n) [] t h = absurd (omega arith)
take-append (suc n) (x ∷ xs) t h = ap (x ∷◌) (take-append n xs t (omega arith))

drop-append : (n : ℕ) (xs t : List ℕ) → length xs ≡ n → drop n (xs ++ t) ≡ t
drop-append zero [] t h = refl
drop-append zero (x ∷ xs) t h = absurd (omega arith)
drop-append (suc n) [] t h = absurd (omega arith)
drop-append (suc n) (x ∷ xs) t h = drop-append n xs t (omega arith)

pub length-printables : (bs : List ℕ) → length (printables bs) ≡ length bs
unfolding printables
length-printables [] = refl
length-printables (b ∷ bs) = ap suc (length-printables bs)

read_chars-printables :
    (a : ℕ) (bs t : List ℕ)
    → read_chars a (bs, 32 ∷ 32 ∷ (printables bs ++ 10 ∷ t))
      ≡ (record { address = a; bytes = bs; chars = map shown_as bs }, t)
read_chars-printables a bs t =
    let e = length-printables bs in
    ap
      (λ cs. (
        record { address = a; bytes = bs; chars = cs },
        drop 1 (drop (length bs) (printables bs ++ 10 ∷ t)),
      ))
      (take-append (length bs) (printables bs) (10 ∷ t) e ∙ printables_lem bs)
    ∙ ap (λ u. (record { address = a; bytes = bs; chars = map shown_as bs }, drop 1 u))
        (drop-append (length bs) (printables bs) (10 ∷ t) e)

read_line-print_line :
    (l : Line) (t : List ℕ) → Fits l → read_line (print_line l ++ t) ≡ (entry_of l, t)
unfolding print_line hex
read_line-print_line l t f =
    let cs = columns 16 0 l.bytes in
    let sp = 32 ∷ 32 ∷ printables l.bytes in
    ap (λ u. read_chars (number (hex 8 l.address) 0) (read_columns 16 0 u))
      (append_assoc (cs ++ sp) (10 ∷ []) t ∙ append_assoc cs sp (10 ∷ t))
    ∙ ap (read_chars (number (hex 8 l.address) 0))
        (columns-read 16 0 l.bytes (sp ++ 10 ∷ t) f.size f.octets)
    ∙ ap (λ a. read_chars a (l.bytes, sp ++ 10 ∷ t)) (number-hex 8 l.address f.address)
    ∙ read_chars-printables l.address l.bytes t

abbrev pub AllFit : List Line → Type 0
AllFit [] = Unit
AllFit (l ∷ ls) = Fits l × AllFit ls

-- With at least as many rounds as lines, the reader gets the lines back.
pub read_lines-print_lines :
    (n : ℕ) (ls : List Line)
    → length ls ≤ n
    → AllFit ls
    → read_lines n (print_lines ls) ≡ map entry_of ls
unfolding print_lines
read_lines-print_lines zero [] h f = refl
read_lines-print_lines zero (l ∷ ls) h f = absurd (omega arith)
read_lines-print_lines (suc n) [] h f = refl
read_lines-print_lines (suc n) (l ∷ ls) h (f, fs) =
    ap (λ r. r.0 ∷ read_lines n r.1) (read_line-print_line l (print_lines ls) f)
    ∙ ap (entry_of l ∷◌) (read_lines-print_lines n ls (omega arith) fs)
