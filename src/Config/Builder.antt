-- ===== src/Config/Builder.antt =====
-- `easyprospect_config_core`, its builder and the options of the command line:
-- include/easyprospect-config/easyprospect-config.h and
-- src/easyprospect-config/easyprospect-config.cpp.
-- A path is a text, and a compiled regular expression is the text that it was compiled from. What the
-- standard library says of a text as a Boolean value (`convert_bool`) is a parameter.
use easyprospect_service.Prelude.{
  Bool, true, false, Option, none, some, List, [], ◌∷◌, String, if◌then◌else◌,
}
use easyprospect_service.Config.{
  Verbosity, no_verbosity, DebugLevel, ep_none, verbosity_from, debug_level_from,
}

-- An extension and its type: `ep_mime_type`.
pub record MimeType : Type 0 where
  pub mext : String
  pub mtype : String

pub record Core : Type 0 where
  pub display_help : Bool
  pub display_version : Bool
  pub verbosity : Verbosity
  pub debug_level : DebugLevel
  pub epjs_url_path_regex : List String
  pub epjs_url_path_regex_str : List String
  pub mime_types : List MimeType
  pub remainder_args : Option (List String)
  pub out_file : Option String
  pub log_file : Option String
  pub arg_file : Option String
  pub cnf_file : Option String
  pub pid_file : Option String
  pub pid_dir_path : Option String

-- The builder has the members of what it builds, and the help.
pub record Builder : Type 0 where
  pub core : Core
  pub help_str : String

-- `done`, or what was thrown: `throw new` throws a pointer.
pub data Outcome : Type 0 where
  done logic_error logic_error_pointer type_error : Outcome

abbrev pub Attempt : Type 0
Attempt = Builder × Outcome

-- The next step, unless something was thrown.
unfoldable pub next_step : {A : Type 0} → A → Outcome → (A → A × Outcome) → A × Outcome
next_step b done f = f b
next_step b logic_error f = (b, logic_error)
next_step b logic_error_pointer f = (b, logic_error_pointer)
next_step b type_error f = (b, type_error)

abbrev pub and_then : {A : Type 0} → A × Outcome → (A → A × Outcome) → A × Outcome
and_then r f = next_step r.0 r.1 f

-- EPCONFIG_DEFAULT_EPJS_URL_PATH_REGEX_01 and _02
abbrev pub default_regexes : List String
default_regexes = ".*\\.epjs$" ∷ ".*\\.ep.js$" ∷ []

unfoldable pub new_builder : Builder
new_builder = record {
  core = record {
    display_help = false;
    display_version = false;
    verbosity = no_verbosity;
    debug_level = ep_none;
    epjs_url_path_regex = default_regexes;
    epjs_url_path_regex_str = default_regexes;
    mime_types = [];
    remainder_args = none;
    out_file = none;
    log_file = none;
    arg_file = none;
    cnf_file = none;
    pid_file = none;
    pid_dir_path = none;
  };
  help_str = "";
}

abbrev pub set_core : Core → Builder → Builder
set_core c b = record b { core = c }

unfoldable pub to_config_core : Builder → Core
to_config_core b = b.core

unfoldable pub set_level : Option DebugLevel → Builder → Attempt
set_level none b = (b, logic_error)
set_level (some d) b = (set_core (record b.core { debug_level = d }) b, done)

unfoldable pub set_debug_level : String → Builder → Attempt
unfolding set_level
set_debug_level d b = set_level (debug_level_from d) b

unfoldable pub set_level_of : Option Verbosity → Builder → Attempt
set_level_of none b = (b, logic_error)
set_level_of (some v) b = (set_core (record b.core { verbosity = v }) b, done)

unfoldable pub set_verbosity : String → Builder → Attempt
unfolding set_level_of
set_verbosity v b = set_level_of (verbosity_from v) b

unfoldable pub set_help_by : Option Bool → Builder → Attempt
set_help_by none b = (b, logic_error_pointer)
set_help_by (some h) b = (set_core (record b.core { display_help = h }) b, done)

-- The options that were given: `variables_map`, with the description of all.
pub record Options : Type 0 where
  pub description : String
  pub help : Bool
  pub version : Bool
  pub verbosity : Option String
  pub debug_level : Option String
  pub log_file : Option String
  pub output_file : Option String
  pub arg_file : Option String
  pub config_file : Option String
  pub pid_file : Option String
  pub pid_file_dir : Option String
  pub rest : Option (List String)

-- A setter that is called if an option was given.
unfoldable pub if_given : {A : Type 0} → Option A → (A → Builder → Attempt) → Builder → Attempt
if_given none f b = (b, done)
if_given (some a) f b = f a b

-- The members that cannot be refused.
unfoldable pub or_old : {A : Type 0} → Option A → Option A → Option A
or_old none old = old
or_old (some a) old = some a

unfoldable pub set_paths : Options → Core → Core
unfolding or_old
set_paths o c = record c {
  log_file = or_old o.log_file c.log_file;
  out_file = or_old o.output_file c.out_file;
  arg_file = or_old o.arg_file c.arg_file;
  cnf_file = or_old o.config_file c.cnf_file;
  pid_file = or_old o.pid_file c.pid_file;
  pid_dir_path = or_old o.pid_file_dir c.pid_dir_path;
  remainder_args = or_old o.rest c.remainder_args;
}

unfoldable pub set_flags : Options → Core → Core
set_flags o c = record c {
  display_help = if o.help then true else c.display_help;
  display_version = if o.version then true else c.display_version;
}

unfoldable pub parse_options : Options → Builder → Attempt
unfolding set_flags set_paths if_given next_step
parse_options o b =
    let flagged : Builder = record { core = set_flags o b.core; help_str = o.description } in
    and_then (if_given o.verbosity set_verbosity flagged) (λ v.
      and_then (if_given o.debug_level set_debug_level v)
        (λ d. (set_core (set_paths o d.core) d, done)))

module _ (convert_bool : String → Option Bool) where
  unfoldable pub set_display_help : String → Builder → Attempt
  unfolding set_help_by
  set_display_help s b = set_help_by (convert_bool s) b

  -- It sets the help, too.
  unfoldable pub set_display_version : String → Builder → Attempt
  unfolding set_help_by
  set_display_version s b = set_help_by (convert_bool s) b
