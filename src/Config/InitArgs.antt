-- ===== src/Config/InitArgs.antt =====
-- What the proxy makes of its arguments.
use mathlib.Core.List.{append-nil}
use easyprospect_service.Prelude.{
  ◌≡◌, refl, sym, ap, ◌∙◌, Bool, Option, none, some, List, [], ◌∷◌, ◌++◌, String,
}
use easyprospect_service.Prelude.Int.{ℤ}
use easyprospect_service.Listener
use easyprospect_service.Listener.{Conf}
use easyprospect_service.Downstream.{Backend}
use easyprospect_service.Config.{DebugLevel, ep_none}
use easyprospect_service.Config.Builder.{done, and_then, new_builder, Options, parse_options}
use easyprospect_service.Config.ConfigFile.{File}
use easyprospect_service.Config.Server.{
  ServerBuilder, new_server_builder, ServerAttempt, ServerOptions, on_base, set_webroot_dir,
  set_threads, add_listeners, add_backends, parse_all, set_listeners, set_server_backends,
  set_num_threads, parse_service, parse_server, set_cnf_file, read_config, init_args,
}
use easyprospect_service.Config.Precedence.{
  or_default, given_level, and_then-done, parse_options-level, file_level, read_from_file-level,
}

record Facts : Type 0 where
  level : DebugLevel
  backends : List Backend
  listeners : List Conf

abbrev facts : ServerBuilder → Facts
facts b = record { level = b.base.core.debug_level; backends = b.backends; listeners = b.listeners }

abbrev with_level : Option DebugLevel → Facts → Facts
with_level m f = record f { level = or_default m f.level }

-- What an option with values adds.
abbrev pub option_values :
    {A : Type 0} → (List String → Option (List A)) → Option (List String) → List A
option_values parse none = []
option_values parse (some ss) = or_default (parse ss) []

set_webroot_dir-facts :
    (o : Option String) (b : ServerBuilder) → facts (set_webroot_dir o b).0 ≡ facts b
unfolding set_webroot_dir
set_webroot_dir-facts none b = refl
set_webroot_dir-facts (some w) b = refl

set_threads-facts : (m : Option ℤ) (b : ServerBuilder) → facts (set_threads m b).0 ≡ facts b
unfolding set_threads
set_threads-facts none b = refl
set_threads-facts (some n) b = refl

add_listeners-facts :
    (m : Option (List Conf)) (b : ServerBuilder)
    → (add_listeners m b).1 ≡ done
    → facts (add_listeners m b).0 ≡ record (facts b) { listeners = b.listeners ++ or_default m [] }
unfolding add_listeners
add_listeners-facts none b h = absurd cc
add_listeners-facts (some cs) b h = refl

add_backends-facts :
    (m : Option (List Backend)) (b : ServerBuilder)
    → (add_backends m b).1 ≡ done
    → facts (add_backends m b).0 ≡ record (facts b) { backends = b.backends ++ or_default m [] }
unfolding add_backends
add_backends-facts none b h = absurd cc
add_backends-facts (some bs) b h = refl

module _ (tokenize : String → List String) where
  abbrev pub listeners_of : Option (List String) → List Conf
  listeners_of = option_values (Listener.parse_all tokenize)

  abbrev pub backends_of : Option (List String) → List Backend
  backends_of = option_values (parse_all tokenize)

  abbrev with_listeners : Option (List String) → Facts → Facts
  with_listeners o f = record f { listeners = f.listeners ++ listeners_of o }

  abbrev with_backends : Option (List String) → Facts → Facts
  with_backends o f = record f { backends = f.backends ++ backends_of o }

  set_listeners-facts :
      (o : Option (List String)) (b : ServerBuilder)
      → (set_listeners tokenize o b).1 ≡ done
      → facts (set_listeners tokenize o b).0 ≡ with_listeners o (facts b)
  unfolding set_listeners
  set_listeners-facts none b h = ap (λ l. record (facts b) { listeners = l }) (sym (append-nil _))
  set_listeners-facts (some []) b h = absurd cc
  set_listeners-facts (some (s ∷ ss)) b h = add_listeners-facts _ b h

  set_server_backends-facts :
      (o : Option (List String)) (b : ServerBuilder)
      → (set_server_backends tokenize o b).1 ≡ done
      → facts (set_server_backends tokenize o b).0 ≡ with_backends o (facts b)
  unfolding set_server_backends
  set_server_backends-facts none b h =
      ap (λ l. record (facts b) { backends = l }) (sym (append-nil _))
  set_server_backends-facts (some []) b h = absurd cc
  set_server_backends-facts (some (s ∷ ss)) b h = add_backends-facts _ b h

  module _ (stoi : String → Option ℤ) where
    set_num_threads-facts :
        (o : Option String) (b : ServerBuilder)
        → facts (set_num_threads tokenize stoi o b).0 ≡ facts b
    unfolding set_num_threads
    set_num_threads-facts none b = refl
    set_num_threads-facts (some n) b = set_threads-facts (stoi n) b

    on_base-facts :
        (o : Options) (b : ServerBuilder)
        → (on_base (parse_options o) b).1 ≡ done
        → facts (on_base (parse_options o) b).0 ≡ with_level (given_level o.debug_level) (facts b)
    unfolding on_base
    on_base-facts o b h = ap (λ l. record (facts b) { level = l }) (parse_options-level o b.base h)

    parse_service-facts :
        (o : ServerOptions) (b : ServerBuilder)
        → (parse_service tokenize stoi o b).1 ≡ done
        → facts (parse_service tokenize stoi o b).0
          ≡ with_level (given_level o.core.debug_level) (with_listeners o.listener (facts b))
    unfolding parse_service
    parse_service-facts o b h =
        let last : ServerBuilder → ServerAttempt = on_base (parse_options o.core) in
        let third : ServerBuilder → ServerAttempt =
          λ d. and_then (set_listeners tokenize o.listener d) last in
        let second : ServerBuilder → ServerAttempt =
          λ c. and_then (set_num_threads tokenize stoi o.num_threads c) third in
        let w = set_webroot_dir o.webroot_dir b in
        let (ok, is_second) = and_then-done w second h in
        let n = set_num_threads tokenize stoi o.num_threads w.0 in
        let (ok', is_third) = and_then-done n third (sym (ap (λ r. r.1) is_second) ∙ h) in
        let l = set_listeners tokenize o.listener n.0 in
        let (is_ok, is_last) =
          and_then-done l last (sym (ap (λ r. r.1) (is_second ∙ is_third)) ∙ h) in
        let whole = is_second ∙ is_third ∙ is_last in
        ap (λ r. facts r.0) whole
        ∙ on_base-facts o.core l.0 (sym (ap (λ r. r.1) whole) ∙ h)
        ∙ ap (with_level (given_level o.core.debug_level)) (
            set_listeners-facts o.listener n.0 is_ok
            ∙ ap (with_listeners o.listener)
                (set_num_threads-facts o.num_threads w.0 ∙ set_webroot_dir-facts o.webroot_dir b))

    parse_server-facts :
        (o : ServerOptions) (b : ServerBuilder)
        → (parse_server tokenize stoi o b).1 ≡ done
        → facts (parse_server tokenize stoi o b).0
          ≡ with_level
              (given_level o.core.debug_level)
              (with_listeners o.listener (with_backends o.backend (facts b)))
    unfolding parse_server
    parse_server-facts o b h =
        let s = set_server_backends tokenize o.backend b in
        let (ok, is_next) = and_then-done s (parse_service tokenize stoi o) h in
        ap (λ r. facts r.0) is_next
        ∙ parse_service-facts o s.0 (sym (ap (λ r. r.1) is_next) ∙ h)
        ∙ ap (λ f. with_level (given_level o.core.debug_level) (with_listeners o.listener f))
            (set_server_backends-facts o.backend b ok)

    module _ (compiles : String → Bool) (trim : String → String) (file : String → File) where
      -- The level of the configuration file.
      abbrev pub config_level : Option String → Option DebugLevel
      config_level none = none
      config_level (some f) = file_level compiles trim (file f)

      read_config-facts :
          (f : Option String) (b : ServerBuilder)
          → (read_config tokenize stoi compiles trim file f b).1 ≡ done
          → facts (read_config tokenize stoi compiles trim file f b).0
            ≡ with_level (config_level f) (facts b)
      unfolding read_config on_base
      read_config-facts none b h = refl
      read_config-facts (some f) b h =
          ap (λ l. record (facts b) { level = l })
            (read_from_file-level compiles trim (file f)
              (set_cnf_file tokenize stoi compiles trim file f b.base) h)

      -- If the arguments are accepted, the debug level is that of the option, else that of the
      -- configuration file, else none; the listeners and the backends are those that their options give.
      pub init_args_precedence :
          (o : ServerOptions)
          → let r = init_args tokenize stoi compiles trim file o in
            r.1 ≡ done
            → (r.0.base.core.debug_level
                ≡ or_default
                    (given_level o.core.debug_level)
                    (or_default (config_level o.core.config_file) ep_none))
              × (r.0.listeners ≡ listeners_of o.listener)
              × (r.0.backends ≡ backends_of o.backend)
      unfolding init_args new_server_builder new_builder
      init_args_precedence o h =
          let c =
            read_config tokenize stoi compiles trim file o.core.config_file new_server_builder in
          let (ok, is_next) = and_then-done c (parse_server tokenize stoi o) h in
          let all =
            ap (λ r. facts r.0) is_next
            ∙ parse_server-facts o c.0 (sym (ap (λ r. r.1) is_next) ∙ h)
            ∙ ap
                (λ f.
                  with_level (given_level o.core.debug_level)
                    (with_listeners o.listener (with_backends o.backend f)))
                (read_config-facts o.core.config_file new_server_builder ok) in
          (
            ap (λ (f : Facts). f.level) all,
            ap (λ (f : Facts). f.listeners) all,
            ap (λ (f : Facts). f.backends) all,
          )
