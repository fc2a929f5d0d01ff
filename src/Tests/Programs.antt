-- ===== src/Tests/Programs.antt =====
-- The configuration, the output of the worker processes, the results of scripts and the hex dump at concrete inputs.
use easyprospect_service.Prelude.{
  ◌≡◌, ◌↔◌, refl, Bool, true, false, Option, none, some, List, [], ◌∷◌, ◌++◌, String, ℕ,
}
use easyprospect_service.Http.Mime.{iequals}
use easyprospect_service.Json.{string, object, end, field, lookup, get_string}
use easyprospect_service.Config.{
  debug, ep_info, ep_warn, debug_level_by, verbosity_from, verbosity_to_string, debug_level_from,
  debug_level_to_string,
}
use easyprospect_service.Config.Levels.{verbosity_name, levels_iff}
use easyprospect_service.Config.ConfigFile.{File, contents, json_at}
use easyprospect_service.Config.Server.{ServerOptions, init_args, new_server_builder, parse_all}
use easyprospect_service.Config.InitArgs.{init_args_precedence}
use easyprospect_service.Prelude.Int.{ℤ, pos}
use easyprospect_service.Pipes.{pending, completes}
use easyprospect_service.Process.{
  new_process, Round, read, incomplete, signalled, timeout, round, run,
}
use easyprospect_service.Process.Reads.{signalled-logged}
use easyprospect_service.OsUtils.{binary_to_string, hex, columns}
use easyprospect_service.EpJsResult.{Local}
use easyprospect_service.EpJsResult.Tested.{Tested, create_result-Tested}

levels_iff_example :
    ((debug_level_from "EP_Info" ≡ some ep_info)
      ↔ (iequals "EP_Info" (debug_level_to_string ep_info) ≡ true))
    × ((verbosity_from "EP_Info" ≡ some debug) ↔ (iequals "EP_Info" (verbosity_name debug) ≡ true))
    × ((verbosity_from (verbosity_to_string debug) ≡ none) ↔ (debug ≡ debug))
levels_iff_example = levels_iff "EP_Info" ep_info debug

abbrev any_regex : String → Bool
any_regex s = true

abbrev same_text : String → String
same_text s = s

-- One level in the file, and no option for it.
abbrev level_file : String → File
level_file f = contents (object (field "debug_level" (string "ep_warn") end))

abbrev no_numbers : String → Option ℤ
no_numbers s = none

abbrev backend_parts : String → List String
backend_parts s = "name=be1" ∷ "address=127.0.0.1" ∷ "port=9101" ∷ []

abbrev arguments : ServerOptions
arguments = record {
  core = record {
    description = "";
    help = false;
    version = false;
    verbosity = none;
    debug_level = none;
    log_file = none;
    output_file = none;
    arg_file = none;
    config_file = some "ep.json";
    pid_file = none;
    pid_file_dir = none;
    rest = none;
  };
  webroot_dir = none;
  num_threads = none;
  listener = none;
  backend = some ("be1" ∷ []);
}

init_args_precedence_example :
    let b = (init_args backend_parts no_numbers any_regex same_text level_file arguments).0 in
    (b.base.core.debug_level ≡ ep_warn)
    × (b.listeners ≡ [])
    × (b.backends ≡ record { name = "be1"; address = "127.0.0.1"; port = "9101" } ∷ [])
unfolding init_args new_server_builder debug_level_from debug_level_by json_at iequals parse_all
    lookup get_string
init_args_precedence_example =
    init_args_precedence backend_parts no_numbers any_regex same_text level_file arguments refl

-- A read that is under way when the round ends, and whose event is signalled.
abbrev started : Round
started = record {
  out_read = pending;
  out_result = incomplete;
  err_read = pending;
  err_result = incomplete;
  wait = signalled 0;
}

abbrev arrived : Round
arrived = record {
  out_read = pending;
  out_result = read (104 ∷ 105 ∷ []);
  err_read = completes;
  err_result = read (33 ∷ []);
  wait = timeout;
}

signalled-logged_example :
    (run (arrived ∷ []) (round started new_process)).out.logged ≡ (104 ∷ 105 ∷ []) ∷ []
unfolding round run new_process
signalled-logged_example =
    signalled-logged started arrived new_process (104 ∷ 105 ∷ []) refl refl refl (λ e. absurd cc)

abbrev true_value : Local String
true_value = record {
  is_null = false;
  is_undefined = false;
  is_string_object = false;
  is_string = false;
  is_boolean = true;
  is_int32 = false;
  is_number = false;
  to_string = "true";
  type_of = "boolean";
  to_boolean = true;
  to_int32 = pos 1;
  to_number = "1.0";
}

create_result-Tested_example : Tested true_value
create_result-Tested_example = create_result-Tested true_value

-- 18 bytes, of which the 17th is 16.
abbrev buffer : List ℕ
buffer = 0 ∷ 1 ∷ 2 ∷ 3 ∷ 4 ∷ 5 ∷ 6 ∷ 7 ∷ 8 ∷ 9 ∷ 10 ∷ 11 ∷ 12 ∷ 13 ∷ 14 ∷ 15 ∷ 16 ∷ 17 ∷ []

-- The dump of one byte.
binary_to_string_one :
    binary_to_string (65 ∷ []) 0
    ≡ hex 8 0 ++ 32 ∷ 32 ∷ 52 ∷ 49 ∷ columns 15 1 [] ++ 32 ∷ 32 ∷ 65 ∷ 10 ∷ []
unfolding binary_to_string
binary_to_string_one = refl
