-- ===== src/Config/Server.antt =====
-- The configuration of the proxy: the builders of
-- include/easyprospect-config/easyprospect-config-service.h and easyprospect-config-server.h with
-- their options, src/easyprospect-config/easyprospect-config-service.cpp and
-- easyprospect-config-server.cpp, and the parser of include/easyprospect-config/ep-backend-config.h.
-- `stoi` and what a configuration file holds are parameters, as is the tokenizer.
use text.Mathlib.Text.{◌==◌ as str_eq}
use easyprospect_service.Prelude.{
  Bool, Option, none, some, List, [], ◌∷◌, ◌++◌, String, ltb, length, if◌then◌else◌,
}
use easyprospect_service.Prelude.Int.{ℤ, pos}
use easyprospect_service.Listener.{Conf, split_pair}
use easyprospect_service.Listener
use easyprospect_service.Downstream.{Backend, Downstream, set_backends, empty_downstream}
use easyprospect_service.Config.Builder.{
  Builder, Outcome, done, logic_error, new_builder, set_core, next_step, and_then, Options,
  parse_options,
}
use easyprospect_service.Config.ConfigFile.{File, read_from_file}

unfoldable pub empty_backend : Backend
empty_backend = record { name = ""; address = ""; port = "" }

unfoldable pub set_field : String → String → Backend → Backend
set_field n v b =
    if str_eq n "name"
    then record b { name = v }
    else if str_eq n "address"
    then record b { address = v }
    else if str_eq n "port"
    then record b { port = v }
    else b

unfoldable pub set_pair : Option (String × String) → Backend → Backend
unfolding set_field
set_pair none b = b
set_pair (some (n, v)) b = set_field n v b

unfoldable pub set_fields : List String → Backend → Backend
unfolding set_pair split_pair
set_fields [] b = b
set_fields (a ∷ args) b = set_fields args (set_pair (split_pair a) b)

-- `none` is the `logic_error` for fewer than three arguments.
unfoldable pub parse_args : List String → Option Backend
unfolding set_fields empty_backend
parse_args args = if ltb (length args) 3 then none else some (set_fields args empty_backend)

unfoldable pub cons_backend : Option Backend → Option (List Backend) → Option (List Backend)
cons_backend none bs = none
cons_backend (some b) none = none
cons_backend (some b) (some bs) = some (b ∷ bs)

-- The members of the service and the server builder.
pub record ServerBuilder : Type 0 where
  pub base : Builder
  pub num_threads : ℤ
  pub webroot_dir : Option String
  pub listeners : List Conf
  pub listen_file : Option String
  pub listen_dir_path : Option String
  pub backends : List Backend

unfoldable pub new_server_builder : ServerBuilder
unfolding new_builder
new_server_builder = record {
  base = new_builder;
  num_threads = pos 1;
  webroot_dir = some "wwwroot";
  listeners = [];
  listen_file = none;
  listen_dir_path = none;
  backends = [];
}

abbrev pub ServerAttempt : Type 0
ServerAttempt = ServerBuilder × Outcome

pub record ServerOptions : Type 0 where
  pub core : Options
  pub webroot_dir : Option String
  pub num_threads : Option String
  pub listener : Option (List String)
  pub backend : Option (List String)

-- A setter of the core builder.
unfoldable pub on_base : (Builder → Builder × Outcome) → ServerBuilder → ServerAttempt
on_base f b = let (c, e) = f b.base in (record b { base = c }, e)

unfoldable pub set_webroot_dir : Option String → ServerBuilder → ServerAttempt
set_webroot_dir none b = (b, done)
set_webroot_dir (some w) b = (record b { webroot_dir = some w }, done)

unfoldable pub set_threads : Option ℤ → ServerBuilder → ServerAttempt
set_threads none b = (b, logic_error)
set_threads (some n) b = (record b { num_threads = n }, done)

unfoldable pub add_listeners : Option (List Conf) → ServerBuilder → ServerAttempt
add_listeners none b = (b, logic_error)
add_listeners (some cs) b = (record b { listeners = b.listeners ++ cs }, done)

unfoldable pub add_backends : Option (List Backend) → ServerBuilder → ServerAttempt
add_backends none b = (b, logic_error)
add_backends (some bs) b = (record b { backends = b.backends ++ bs }, done)

-- What the constructor of the proxy does with its configuration.
unfoldable pub start_downstream : ServerBuilder → Downstream
unfolding set_backends empty_downstream
start_downstream b = set_backends b.backends empty_downstream

module _ (tokenize : String → List String) where
  unfoldable pub parse : String → Option Backend
  unfolding parse_args
  parse s = parse_args (tokenize s)

  -- The first error leaves the loop.
  unfoldable pub parse_all : List String → Option (List Backend)
  unfolding parse cons_backend
  parse_all [] = some []
  parse_all (s ∷ ss) = cons_backend (parse s) (parse_all ss)

  -- An option that is given has a value, or is refused.
  unfoldable pub set_listeners : Option (List String) → ServerBuilder → ServerAttempt
  unfolding add_listeners Listener.parse_all
  set_listeners none b = (b, done)
  set_listeners (some []) b = (b, logic_error)
  set_listeners (some (s ∷ ss)) b = add_listeners (Listener.parse_all tokenize (s ∷ ss)) b

  unfoldable pub set_server_backends : Option (List String) → ServerBuilder → ServerAttempt
  unfolding add_backends parse_all
  set_server_backends none b = (b, done)
  set_server_backends (some []) b = (b, logic_error)
  set_server_backends (some (s ∷ ss)) b = add_backends (parse_all (s ∷ ss)) b

  module _ (stoi : String → Option ℤ) where
    unfoldable pub set_num_threads : Option String → ServerBuilder → ServerAttempt
    unfolding set_threads
    set_num_threads none b = (b, done)
    set_num_threads (some n) b = set_threads (stoi n) b

    -- The options of the service.
    unfoldable pub parse_service : ServerOptions → ServerBuilder → ServerAttempt
    unfolding set_webroot_dir set_num_threads set_listeners on_base parse_options next_step
    parse_service o b = and_then (set_webroot_dir o.webroot_dir b) (λ c.
        and_then (set_num_threads o.num_threads c)
          (λ d. and_then (set_listeners o.listener d) (on_base (parse_options o.core))))

    unfoldable pub parse_server : ServerOptions → ServerBuilder → ServerAttempt
    unfolding set_server_backends parse_service next_step
    parse_server o b = and_then (set_server_backends o.backend b) (parse_service o)

    module _ (compiles : String → Bool) (trim : String → String) (file : String → File) where
      abbrev pub set_cnf_file : String → Builder → Builder
      set_cnf_file f b = set_core (record b.core { cnf_file = some f }) b

      -- The configuration file comes first, so that the options override it.
      unfoldable pub read_config : Option String → ServerBuilder → ServerAttempt
      unfolding on_base read_from_file
      read_config none b = (b, done)
      read_config (some f) b =
          on_base (λ c. read_from_file compiles trim (file f) (set_cnf_file f c)) b

      unfoldable pub init_args : ServerOptions → ServerAttempt
      unfolding read_config parse_server next_step new_server_builder
      init_args o = and_then (read_config o.core.config_file new_server_builder) (parse_server o)
