-- ===== src/Config/Precedence.antt =====
-- Which of the option and the file decides.
use easyprospect_service.Prelude.{
  ◌≡◌, refl, sym, ap, ◌∙◌, Bool, true, false, Option, none, some, List, [], ◌∷◌, String,
  if◌then◌else◌, if-both,
}
use text.Mathlib.Text.{◌==◌ as str_eq}
use easyprospect_service.Json.{
  Json, null, boolean, integer, real, string, array, object, nil, cons, end, field, get_string,
}
use easyprospect_service.Config.{Verbosity, DebugLevel, verbosity_from, debug_level_from}
use easyprospect_service.Config.Builder.{
  MimeType, Builder, Outcome, done, logic_error, logic_error_pointer, type_error, next_step,
  and_then, set_core, set_level, set_debug_level, set_level_of, set_verbosity, Options, if_given,
  set_paths, set_flags, parse_options,
}
use easyprospect_service.Config.ConfigFile.{
  json_at, is_empty, items, strings_of, all_mime_types, set_mime_types, with_value, File, missing,
  invalid, contents, clear_regexes, add_regex, add_regexes, set_epjs_url_path_regex,
  replace_regexes, set_trimmed, read_debug_level, read_regexes, read_mime_types, read_json,
  read_from_file,
}

abbrev pub or_default : {A : Type 0} → Option A → A → A
or_default none d = d
or_default (some a) d = a

-- The level of an option.
abbrev pub given_level : Option String → Option DebugLevel
given_level none = none
given_level (some s) = debug_level_from s

-- Nothing was thrown in either step.
pub and_then-done :
    {A : Type 0} (r : A × Outcome) (f : A → A × Outcome)
    → (and_then r f).1 ≡ done
    → (r.1 ≡ done) × (and_then r f ≡ f r.0)
unfolding next_step
and_then-done (b, done) f h = (refl, refl)
and_then-done (b, logic_error) f h = absurd cc
and_then-done (b, logic_error_pointer) f h = absurd cc
and_then-done (b, type_error) f h = absurd cc

-- A step that does not touch the debug level, whatever it throws.
abbrev Same : Builder → Builder × Outcome → Type 0
Same b r = r.0.core.debug_level ≡ b.core.debug_level

set_level-level :
    (m : Option DebugLevel) (b : Builder)
    → (set_level m b).1 ≡ done
    → (set_level m b).0.core.debug_level ≡ or_default m b.core.debug_level
unfolding set_level
set_level-level none b h = refl
set_level-level (some d) b h = refl

if_given-level :
    (o : Option String) (b : Builder)
    → (if_given o set_debug_level b).1 ≡ done
    → (if_given o set_debug_level b).0.core.debug_level
      ≡ or_default (given_level o) b.core.debug_level
unfolding if_given set_debug_level
if_given-level none b h = refl
if_given-level (some s) b h = set_level-level (debug_level_from s) b h

set_level_of-Same : (v : Option Verbosity) (b : Builder) → Same b (set_level_of v b)
unfolding set_level_of
set_level_of-Same none b = refl
set_level_of-Same (some v) b = refl

if_given-Same : (o : Option String) (b : Builder) → Same b (if_given o set_verbosity b)
unfolding if_given set_verbosity
if_given-Same none b = refl
if_given-Same (some s) b = set_level_of-Same (verbosity_from s) b

pub parse_options-level :
    (o : Options) (b : Builder)
    → (parse_options o b).1 ≡ done
    → (parse_options o b).0.core.debug_level
      ≡ or_default (given_level o.debug_level) b.core.debug_level
unfolding parse_options set_flags set_paths
parse_options-level o b h =
    let flagged : Builder = record { core = set_flags o b.core; help_str = o.description } in
    let paths : Builder → Builder × Outcome = λ d. (set_core (set_paths o d.core) d, done) in
    let v = if_given o.verbosity set_verbosity flagged in
    let d = if_given o.debug_level set_debug_level v.0 in
    let (ok, is_next) =
      and_then-done v (λ t. and_then (if_given o.debug_level set_debug_level t) paths) h in
    let (ok', is_last) = and_then-done d paths (sym (ap (λ r. r.1) is_next) ∙ h) in
    ap (λ r. r.0.core.debug_level) (is_next ∙ is_last)
    ∙ if_given-level o.debug_level v.0 ok'
    ∙ ap (or_default (given_level o.debug_level)) (if_given-Same o.verbosity flagged)

add_regexes-Same :
    (compiles : String → Bool) (ss : List String) (b : Builder) → Same b (add_regexes compiles ss b)
unfolding add_regexes add_regex
add_regexes-Same compiles [] b = refl
add_regexes-Same compiles (s ∷ ss) b =
    if-both (Same b) (compiles s)
      (add_regexes-Same compiles ss (set_core (add_regex compiles s b.core) b)) refl

replace_regexes-Same :
    (compiles : String → Bool) (m : Option (List String)) (b : Builder)
    → Same b (replace_regexes compiles m b)
unfolding replace_regexes set_epjs_url_path_regex clear_regexes
replace_regexes-Same compiles none b = refl
replace_regexes-Same compiles (some []) b = refl
replace_regexes-Same compiles (some (s ∷ ss)) b =
    add_regexes-Same compiles (s ∷ ss) (set_core (clear_regexes compiles true b.core) b)

set_mime_types-Same : (m : Option (List MimeType)) (b : Builder) → Same b (set_mime_types m b)
unfolding set_mime_types
set_mime_types-Same none b = refl
set_mime_types-Same (some ms) b = refl

next_step-Same :
    (e : Outcome) (b : Builder) (f : Builder → Builder × Outcome)
    → Same b (f b)
    → Same b (next_step b e f)
unfolding next_step
next_step-Same done b f h = h
next_step-Same logic_error b f h = refl
next_step-Same logic_error_pointer b f h = refl
next_step-Same type_error b f h = refl

with_value-Same :
    (m : Option Json) (f : Json → Builder → Builder × Outcome) (b : Builder)
    → ((j : Json) → Same b (f j b))
    → Same b (with_value m f b)
unfolding with_value
with_value-Same none f b k = refl
with_value-Same (some j) f b k = if-both (Same b) (is_empty j) refl (k j)

unless-level :
    (t : Bool) (m : Option DebugLevel) (b : Builder)
    → (if t then (b, done) else set_level m b).1 ≡ done
    → (if t then (b, done) else set_level m b).0.core.debug_level
      ≡ or_default (if t then none else m) b.core.debug_level
unless-level true m b h = refl
unless-level false m b h = set_level-level m b h

module _ (compiles : String → Bool) (trim : String → String) where
  -- The level that a file has, if any.
  abbrev pub text_level : String → Option DebugLevel
  text_level s = if str_eq (trim s) "" then none else debug_level_from (trim s)

  abbrev pub json_level : Option Json → Option DebugLevel
  json_level (some (string s)) = text_level s
  json_level _ = none

  abbrev pub file_level : File → Option DebugLevel
  file_level (contents j) = json_level (json_at "debug_level" j)
  file_level _ = none

  set_trimmed-level :
      (s : String) (b : Builder)
      → (set_trimmed compiles trim (some s) b).1 ≡ done
      → (set_trimmed compiles trim (some s) b).0.core.debug_level
        ≡ or_default (text_level s) b.core.debug_level
  unfolding set_trimmed set_debug_level
  set_trimmed-level s b h = unless-level (str_eq (trim s) "") (debug_level_from (trim s)) b h

  value-level :
      (m : Option Json) (b : Builder)
      → let r = with_value m (λ v. set_trimmed compiles trim (get_string v)) b in
        r.1 ≡ done → r.0.core.debug_level ≡ or_default (json_level m) b.core.debug_level
  unfolding with_value is_empty set_trimmed get_string
  value-level none b h = refl
  value-level (some null) b h = refl
  value-level (some (boolean x)) b h = refl
  value-level (some (integer n)) b h = refl
  value-level (some (real n)) b h = refl
  value-level (some (string s)) b h = set_trimmed-level s b h
  value-level (some (array nil)) b h = refl
  value-level (some (array (cons j js))) b h = refl
  value-level (some (object end)) b h = refl
  value-level (some (object (field k j fs))) b h = refl

  rest-Same :
      (j : Json) (b : Builder)
      → Same b (and_then (read_regexes compiles trim j b) (read_mime_types compiles trim j))
  unfolding read_regexes read_mime_types
  rest-Same j b =
      let c = read_regexes compiles trim j b in
      next_step-Same c.1 c.0 (read_mime_types compiles trim j) (
        with_value-Same (json_at "mime_types" j) _ c.0
          (λ v. set_mime_types-Same (all_mime_types (items v)) c.0))
      ∙ with_value-Same (json_at "epjs_url_path_regex" j) _ b
          (λ v. replace_regexes-Same compiles (strings_of (items v)) b)

  pub read_from_file-level :
      (f : File) (b : Builder)
      → (read_from_file compiles trim f b).1 ≡ done
      → (read_from_file compiles trim f b).0.core.debug_level
        ≡ or_default (file_level f) b.core.debug_level
  unfolding read_from_file read_json read_debug_level
  read_from_file-level missing b h = refl
  read_from_file-level invalid b h = refl
  read_from_file-level (contents j) b h =
      let first = read_debug_level compiles trim j b in
      let next : Builder → Builder × Outcome =
        λ c. and_then (read_regexes compiles trim j c) (read_mime_types compiles trim j) in
      let (ok, is_next) = and_then-done first next h in
      ap (λ r. r.0.core.debug_level) is_next
      ∙ rest-Same j first.0
      ∙ value-level (json_at "debug_level" j) b ok
