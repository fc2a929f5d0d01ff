-- ===== src/Config/Regexes.antt =====
-- The regular expressions of a configuration.
use easyprospect_service.Prelude.{
  ◌≡◌, refl, ap, Bool, true, Option, none, some, List, [], ◌∷◌, ◌++◌, String, if-both, if-split,
  sym, ◌∙◌, subst,
}
use text.Mathlib.Text.{◌==◌ as str_eq}
use easyprospect_service.Json.{Json, get_string}
use easyprospect_service.Config.{Verbosity, DebugLevel, verbosity_from, debug_level_from}
use easyprospect_service.Config.Builder.{
  MimeType, Core, Builder, Outcome, done, logic_error, logic_error_pointer, type_error, Attempt,
  next_step, and_then, default_regexes, new_builder, set_core, set_level, set_debug_level,
  set_level_of, set_verbosity, Options, if_given, set_paths, set_flags, parse_options,
}
use easyprospect_service.Config.ConfigFile.{
  json_at, is_empty, items, strings_of, all_mime_types, set_mime_types, with_value, File, missing,
  invalid, contents, clear_regexes, add_regex, add_regexes, set_epjs_url_path_regex,
  replace_regexes, set_trimmed, read_debug_level, read_regexes, read_mime_types, read_json,
  read_from_file,
}

-- What a program does with its builder.
pub data Call : Type 0 where
  options_call : Options → Call
  file_call : File → Call
  regex_call : List String → Bool → Call

module _ (compiles : String → Bool) (trim : String → String) where
  abbrev pub AllCompile : List String → Type 0
  AllCompile [] = Unit
  AllCompile (s ∷ ss) = (compiles s ≡ true) × AllCompile ss

  AllCompile-append : (xs ys : List String) → AllCompile xs → AllCompile ys → AllCompile (xs ++ ys)
  AllCompile-append [] ys h k = k
  AllCompile-append (x ∷ xs) ys h k = (h.0, AllCompile-append xs ys h.1 k)

  -- The compiled expressions are those whose texts are kept.
  pub record IsCompiled (b : Builder) : Type 0 where
    pub parallel : b.core.epjs_url_path_regex ≡ b.core.epjs_url_path_regex_str
    pub compiled : AllCompile b.core.epjs_url_path_regex

  -- A change that leaves them alone.
  IsCompiled-same :
      (b c : Builder)
      → c.core.epjs_url_path_regex ≡ b.core.epjs_url_path_regex
      → c.core.epjs_url_path_regex_str ≡ b.core.epjs_url_path_regex_str
      → IsCompiled b
      → IsCompiled c
  IsCompiled-same b c e f h = record {
    parallel = e ∙ h.parallel ∙ sym f;
    compiled = subst AllCompile (sym e) h.compiled;
  }

  -- A setter that keeps them, whatever it throws.
  abbrev pub Keeps : (Builder → Attempt) → Type 0
  Keeps f = (b : Builder) → IsCompiled b → IsCompiled (f b).0

  next_step-IsCompiled :
      (e : Outcome) (f : Builder → Attempt) (b : Builder)
      → Keeps f
      → IsCompiled b
      → IsCompiled (next_step b e f).0
  unfolding next_step
  next_step-IsCompiled done f b k h = k b h
  next_step-IsCompiled logic_error f b k h = h
  next_step-IsCompiled logic_error_pointer f b k h = h
  next_step-IsCompiled type_error f b k h = h

  and_then-Keeps : (f g : Builder → Attempt) → Keeps f → Keeps g → Keeps (λ b. and_then (f b) g)
  and_then-Keeps f g k l b h = next_step-IsCompiled (f b).1 g (f b).0 l (k b h)

  set_level-Keeps : (d : Option DebugLevel) → Keeps (set_level d)
  unfolding set_level
  set_level-Keeps none b h = h
  set_level-Keeps (some d) b h = IsCompiled-same b _ refl refl h

  set_level_of-Keeps : (v : Option Verbosity) → Keeps (set_level_of v)
  unfolding set_level_of
  set_level_of-Keeps none b h = h
  set_level_of-Keeps (some v) b h = IsCompiled-same b _ refl refl h

  if_given-Keeps :
      {A : Type 0} (o : Option A) (f : A → Builder → Attempt)
      → ((a : A) → Keeps (f a))
      → Keeps (if_given o f)
  unfolding if_given
  if_given-Keeps none f k b h = h
  if_given-Keeps (some a) f k b h = k a b h

  parse_options-Keeps : (o : Options) → Keeps (parse_options o)
  unfolding parse_options set_flags set_paths set_verbosity set_debug_level
  parse_options-Keeps o b h =
      let flagged : Builder = record { core = set_flags o b.core; help_str = o.description } in
      and_then-Keeps (if_given o.verbosity set_verbosity) _
        (if_given-Keeps o.verbosity set_verbosity (λ s. set_level_of-Keeps (verbosity_from s)))
        (and_then-Keeps (if_given o.debug_level set_debug_level) _
          (if_given-Keeps o.debug_level set_debug_level (λ s. set_level-Keeps (debug_level_from s)))
          (λ t k. IsCompiled-same t _ refl refl k))
        flagged (IsCompiled-same b flagged refl refl h)

  add_regexes-Keeps : (ss : List String) → Keeps (add_regexes compiles ss)
  unfolding add_regexes add_regex
  add_regexes-Keeps [] b h = h
  add_regexes-Keeps (s ∷ ss) b h =
      if-split (λ (r : Attempt). IsCompiled r.0) (compiles s)
        (λ good. add_regexes-Keeps ss (set_core (add_regex compiles s b.core) b) (record {
          parallel = ap (λ l. l ++ s ∷ []) h.parallel;
          compiled = AllCompile-append b.core.epjs_url_path_regex (s ∷ []) h.compiled (good, tt);
        }))
        (λ bad. h)

  set_epjs_url_path_regex-Keeps :
      (ss : List String) (clear : Bool) → Keeps (set_epjs_url_path_regex compiles ss clear)
  unfolding set_epjs_url_path_regex clear_regexes
  set_epjs_url_path_regex-Keeps ss clear b h =
      add_regexes-Keeps ss (set_core (clear_regexes compiles clear b.core) b) (
        if-both (λ (c : Core). IsCompiled (set_core c b)) clear
          (record { parallel = refl; compiled = tt }) h)

  replace_regexes-Keeps : (ss : Option (List String)) → Keeps (replace_regexes compiles ss)
  unfolding replace_regexes
  replace_regexes-Keeps none b h = h
  replace_regexes-Keeps (some []) b h = h
  replace_regexes-Keeps (some (s ∷ ss)) b h = set_epjs_url_path_regex-Keeps (s ∷ ss) true b h

  set_trimmed-Keeps : (s : Option String) → Keeps (set_trimmed compiles trim s)
  unfolding set_trimmed set_debug_level
  set_trimmed-Keeps none b h = h
  set_trimmed-Keeps (some s) b h =
      if-both (λ (r : Attempt). IsCompiled r.0) (str_eq (trim s) "") h
        (set_level-Keeps (debug_level_from (trim s)) b h)

  set_mime_types-Keeps : (ms : Option (List MimeType)) → Keeps (set_mime_types ms)
  unfolding set_mime_types
  set_mime_types-Keeps none b h = h
  set_mime_types-Keeps (some ms) b h = IsCompiled-same b _ refl refl h

  with_value-Keeps :
      (j : Option Json) (f : Json → Builder → Attempt)
      → ((j : Json) → Keeps (f j))
      → Keeps (with_value j f)
  unfolding with_value
  with_value-Keeps none f k b h = h
  with_value-Keeps (some j) f k b h =
      if-both (λ (r : Attempt). IsCompiled r.0) (is_empty j) h (k j b h)

  read_debug_level-Keeps : (j : Json) → Keeps (read_debug_level compiles trim j)
  unfolding read_debug_level
  read_debug_level-Keeps j =
      with_value-Keeps (json_at "debug_level" j) (λ v. set_trimmed compiles trim (get_string v))
        (λ v. set_trimmed-Keeps (get_string v))

  read_regexes-Keeps : (j : Json) → Keeps (read_regexes compiles trim j)
  unfolding read_regexes
  read_regexes-Keeps j =
      with_value-Keeps (json_at "epjs_url_path_regex" j)
        (λ v. replace_regexes compiles (strings_of (items v)))
        (λ v. replace_regexes-Keeps (strings_of (items v)))

  read_mime_types-Keeps : (j : Json) → Keeps (read_mime_types compiles trim j)
  unfolding read_mime_types
  read_mime_types-Keeps j =
      with_value-Keeps (json_at "mime_types" j) (λ v. set_mime_types (all_mime_types (items v)))
        (λ v. set_mime_types-Keeps (all_mime_types (items v)))

  read_json-Keeps : (j : Json) → Keeps (read_json compiles trim j)
  unfolding read_json
  read_json-Keeps j =
      and_then-Keeps (read_debug_level compiles trim j)
        (λ c. and_then (read_regexes compiles trim j c) (read_mime_types compiles trim j))
        (read_debug_level-Keeps j)
        (and_then-Keeps (read_regexes compiles trim j) (read_mime_types compiles trim j)
          (read_regexes-Keeps j) (read_mime_types-Keeps j))

  read_from_file-Keeps : (f : File) → Keeps (read_from_file compiles trim f)
  unfolding read_from_file
  read_from_file-Keeps missing b h = h
  read_from_file-Keeps invalid b h = h
  read_from_file-Keeps (contents j) b h = read_json-Keeps j b h

  abbrev pub call : Call → Builder → Attempt
  call (options_call o) = parse_options o
  call (file_call f) = read_from_file compiles trim f
  call (regex_call ss clear) = set_epjs_url_path_regex compiles ss clear

  -- Whatever was thrown.
  abbrev pub calls : List Call → Builder → Builder
  calls [] b = b
  calls (c ∷ cs) b = calls cs (call c b).0

  call-Keeps : (c : Call) → Keeps (call c)
  call-Keeps (options_call o) = parse_options-Keeps o
  call-Keeps (file_call f) = read_from_file-Keeps f
  call-Keeps (regex_call ss clear) = set_epjs_url_path_regex-Keeps ss clear

  calls_from-IsCompiled : (cs : List Call) (b : Builder) → IsCompiled b → IsCompiled (calls cs b)
  calls_from-IsCompiled [] b h = h
  calls_from-IsCompiled (c ∷ cs) b h = calls_from-IsCompiled cs (call c b).0 (call-Keeps c b h)

  -- If the two expressions of a new builder compile, then after any options, files and expressions, those
  -- that were refused included, its compiled expressions are those whose texts it keeps, in order, and
  -- all of them compile.
  pub calls-IsCompiled :
      (cs : List Call) → AllCompile default_regexes → IsCompiled (calls cs new_builder)
  unfolding new_builder
  calls-IsCompiled cs h =
      calls_from-IsCompiled cs new_builder (record { parallel = refl; compiled = h })
