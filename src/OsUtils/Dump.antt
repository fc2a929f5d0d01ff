-- ===== src/OsUtils/Dump.antt =====
-- What the text of a hex dump shows.
use easyprospect_service.Prelude.{◌≡◌, ℕ, ◌+◌, ◌*◌, ◌%◌, ◌^◌, List, [], ◌∷◌, ◌++◌, length, map}
use easyprospect_service.OsUtils.Reader.{Entry, read_dump, shown_as}
use easyprospect_service.OsUtils.Shown.{shown}

abbrev pub bytes_read : List Entry → List ℕ
bytes_read [] = []
bytes_read (e ∷ es) = e.bytes ++ bytes_read es

abbrev pub chars_read : List Entry → List ℕ
chars_read [] = []
chars_read (e ∷ es) = e.chars ++ chars_read es

-- Each address is 16 above the one before, within 32 bits.
abbrev pub Addressed : ℕ → List Entry → Type 0
Addressed a [] = Unit
Addressed a (e ∷ es) = (e.address ≡ a) × Addressed ((a + 16) % 2 ^ 32) es

-- The lines of a dump, read by their columns.
pub record Dumps (shown : List ℕ) (text : List ℕ) : Type 0 where
  pub bytes : bytes_read (read_dump text) ≡ shown
  pub chars : chars_read (read_dump text) ≡ map shown_as shown
  pub addresses : Addressed 0 (read_dump text)
  pub size : length text ≡ 61 * length (read_dump text) + length shown
