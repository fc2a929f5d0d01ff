-- ===== src/Config/ConfigFile.antt =====
-- The expressions, types and levels that a configuration file sets: `read_from_file` and
-- `set_epjs_url_path_regex` of src/easyprospect-config/easyprospect-config.cpp and
-- include/easyprospect-config/easyprospect-config.h. What the standard library says of an expression
-- (`compiles`) and what `boost::trim` leaves of a text (`trim`) are parameters.
use text.Mathlib.Text.{◌==◌ as str_eq}
use easyprospect_service.Prelude.{
  Bool, true, false, Option, none, some, List, [], ◌∷◌, ◌++◌, String, if◌then◌else◌,
}
use easyprospect_service.Json.{
  Json, null, array, object, Items, nil, cons, Fields, end, field, lookup, get_string,
}
use easyprospect_service.Config.Builder.{
  Attempt, Builder, Core, MimeType, and_then, done, logic_error, next_step, set_core,
  set_debug_level, type_error,
}

-- `operator[]` with a key; `none` is the `type_error`.
unfoldable pub or_null : Option Json → Json
or_null none = null
or_null (some j) = j

unfoldable pub json_at : String → Json → Option Json
unfolding or_null
json_at k null = some null
json_at k (object fs) = some (or_null (lookup k fs))
json_at k _ = none

unfoldable pub is_empty : Json → Bool
is_empty null = true
is_empty (array nil) = true
is_empty (object end) = true
is_empty _ = false

unfoldable pub values : Items → List Json
values nil = []
values (cons j js) = j ∷ values js

unfoldable pub field_values : Fields → List Json
field_values end = []
field_values (field k j fs) = j ∷ field_values fs

-- `items()`: a value that is no array and no object is iterated as one item.
unfoldable pub items : Json → List Json
unfolding values field_values
items null = []
items (array js) = values js
items (object fs) = field_values fs
items j = j ∷ []

unfoldable pub cons_string : Option String → Option (List String) → Option (List String)
cons_string none ss = none
cons_string (some s) none = none
cons_string (some s) (some ss) = some (s ∷ ss)

unfoldable pub strings_of : List Json → Option (List String)
unfolding cons_string
strings_of [] = some []
strings_of (j ∷ js) = cons_string (get_string j) (strings_of js)

-- The types of one entry, for its members "type" and "ext".
unfoldable pub typed : String → List String → List MimeType
typed t [] = []
typed t (e ∷ es) = record { mext = e; mtype = t } ∷ typed t es

unfoldable pub types_of_ext : String → Option (List String) → Option (List MimeType)
unfolding typed
types_of_ext t none = none
types_of_ext t (some es) = some (typed t es)

unfoldable pub types_of_type : Option String → Option Json → Option (List MimeType)
unfolding types_of_ext
types_of_type none ext = none
types_of_type (some t) none = none
types_of_type (some t) (some ext) = types_of_ext t (strings_of (items ext))

unfoldable pub string_at : String → Json → Option String
string_at k j = elim (json_at k j) [ none ↦ none | some t ↦ get_string t ]

unfoldable pub mime_types_of : Json → Option (List MimeType)
unfolding types_of_type string_at
mime_types_of j = types_of_type (string_at "type" j) (json_at "ext" j)

unfoldable pub append_types :
    Option (List MimeType) → Option (List MimeType) → Option (List MimeType)
append_types none ms = none
append_types (some ms) none = none
append_types (some ms) (some ns) = some (ms ++ ns)

unfoldable pub all_mime_types : List Json → Option (List MimeType)
unfolding append_types mime_types_of
all_mime_types [] = some []
all_mime_types (j ∷ js) = append_types (mime_types_of j) (all_mime_types js)

unfoldable pub set_mime_types : Option (List MimeType) → Builder → Attempt
set_mime_types none b = (b, type_error)
set_mime_types (some ms) b = (set_core (record b.core { mime_types = ms }) b, done)

-- A step of `read_from_file` for the value at a key.
unfoldable pub with_value : Option Json → (Json → Builder → Attempt) → Builder → Attempt
unfolding is_empty
with_value none f b = (b, type_error)
with_value (some j) f b = if is_empty j then (b, done) else f j b

-- What a configuration file holds: it is missing, it is no JSON, or a value.
pub data File : Type 0 where
  missing invalid : File
  contents : Json → File

module _ (compiles : String → Bool) where
  unfoldable pub clear_regexes : Bool → Core → Core
  clear_regexes clear c =
      if clear then record c { epjs_url_path_regex = []; epjs_url_path_regex_str = [] } else c

  unfoldable pub add_regex : String → Core → Core
  add_regex s c = record c {
    epjs_url_path_regex = c.epjs_url_path_regex ++ s ∷ [];
    epjs_url_path_regex_str = c.epjs_url_path_regex_str ++ s ∷ [];
  }

  -- The first expression that does not compile ends the loop.
  unfoldable pub add_regexes : List String → Builder → Attempt
  unfolding add_regex
  add_regexes [] b = (b, done)
  add_regexes (s ∷ ss) b =
      let rest = add_regexes ss (set_core (add_regex s b.core) b) in
      if compiles s then rest else (b, logic_error)

  unfoldable pub set_epjs_url_path_regex : List String → Bool → Builder → Attempt
  unfolding clear_regexes add_regexes
  set_epjs_url_path_regex ss clear b = add_regexes ss (set_core (clear_regexes clear b.core) b)

  unfoldable pub replace_regexes : Option (List String) → Builder → Attempt
  unfolding set_epjs_url_path_regex
  replace_regexes none b = (b, type_error)
  replace_regexes (some []) b = (b, done)
  replace_regexes (some (s ∷ ss)) b = set_epjs_url_path_regex (s ∷ ss) true b

  module _ (trim : String → String) where
    unfoldable pub set_trimmed : Option String → Builder → Attempt
    unfolding set_debug_level
    set_trimmed none b = (b, type_error)
    set_trimmed (some s) b = if str_eq (trim s) "" then (b, done) else set_debug_level (trim s) b

    unfoldable pub read_debug_level : Json → Builder → Attempt
    unfolding with_value set_trimmed
    read_debug_level j b = with_value (json_at "debug_level" j) (λ v. set_trimmed (get_string v)) b

    unfoldable pub read_regexes : Json → Builder → Attempt
    unfolding with_value replace_regexes
    read_regexes j b =
        with_value (json_at "epjs_url_path_regex" j) (λ v. replace_regexes (strings_of (items v))) b

    unfoldable pub read_mime_types : Json → Builder → Attempt
    unfolding with_value set_mime_types
    read_mime_types j b =
        with_value (json_at "mime_types" j) (λ v. set_mime_types (all_mime_types (items v))) b

    unfoldable pub read_json : Json → Builder → Attempt
    unfolding read_debug_level read_regexes read_mime_types next_step
    read_json j b =
        and_then (read_debug_level j b) (λ c. and_then (read_regexes j c) (read_mime_types j))

    unfoldable pub read_from_file : File → Builder → Attempt
    unfolding read_json
    read_from_file missing b = (b, done)
    read_from_file invalid b = (b, logic_error)
    read_from_file (contents j) b = read_json j b
