-- ===== src/Json.antt =====
-- JSON values: what src/ uses of `nlohmann::json`. A floating-point number enters the code only
-- through `get<int>`, so `real` holds the integer that it is truncated to.
use easyprospect_service.Prelude.{
  ℕ, ◌-◌, ◌%◌, ◌^◌, Bool, true, false, Option, none, some, String, ltb, if◌then◌else◌,
}
use easyprospect_service.Prelude.Int.{ℤ, pos, negsuc}
use text.Mathlib.Text.{◌==◌ as str_eq}

mutual
  pub data Json : Type 0 where
    null : Json
    boolean : Bool → Json
    integer : ℤ → Json
    real : ℤ → Json
    string : String → Json
    array : Items → Json
    object : Fields → Json

  pub data Items : Type 0 where
    nil : Items
    cons : Json → Items → Items

  pub data Fields : Type 0 where
    end : Fields
    field : String → Json → Fields → Fields

-- `find(key)`
unfoldable pub lookup : String → Fields → Option Json
lookup k end = none
lookup k (field j v fs) = let rest = lookup k fs in if str_eq j k then some v else rest

-- `obj[key] = v`
unfoldable pub assign : String → Json → Fields → Fields
assign k v end = field k v end
assign k v (field j w fs) =
    let rest = assign k v fs in if str_eq j k then field j v fs else field j w rest

abbrev pub is_object : Json → Bool
is_object (object fs) = true
is_object _ = false

abbrev pub is_array : Json → Bool
is_array (array xs) = true
is_array _ = false

-- `find` in a value: only an object has keys.
abbrev pub find : Json → String → Option Json
find (object fs) k = lookup k fs
find _ k = none

-- The conversion of a 64-bit integer to a 32-bit `int`.
unfoldable pub to_int32 : ℤ → ℤ
to_int32 (pos n) = let r = n % 2 ^ 32 in if ltb r (2 ^ 31) then pos r else negsuc (2 ^ 32 - 1 - r)
to_int32 (negsuc n) =
    let r = n % 2 ^ 32 in if ltb r (2 ^ 31) then negsuc r else pos (2 ^ 32 - 1 - r)

-- `get<int>`; `none` is `type_error`.
unfoldable pub get_int : Json → Option ℤ
unfolding to_int32
get_int (boolean true) = some (pos 1)
get_int (boolean false) = some (pos 0)
get_int (integer n) = some (to_int32 n)
get_int (real n) = some (to_int32 n)
get_int _ = none

-- `get<std::string>`; `none` is `type_error`.
unfoldable pub get_string : Json → Option String
get_string (string s) = some s
get_string _ = none

-- `get<size_t>`: a negative integer wraps around at 64 bits.
unfoldable pub to_size : ℤ → ℕ
to_size (pos n) = n % 2 ^ 64
to_size (negsuc n) = 2 ^ 64 - 1 - n % 2 ^ 64

unfoldable pub get_size : Json → Option ℕ
unfolding to_size
get_size (integer n) = some (to_size n)
get_size (real n) = some (to_size n)
get_size _ = none
