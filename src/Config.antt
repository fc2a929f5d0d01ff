-- ===== src/Config.antt =====
-- The configuration of the programs: include/easyprospect-config/easyprospect-config.h and
-- src/easyprospect-config/easyprospect-config.cpp. Here are the levels of verbosity and of debugging;
-- Builder has the rest. `iequals` compares without regard to case, as boost does.
pub mod Builder
pub mod ConfigFile
pub mod Levels
pub mod Regexes
pub mod Server
pub mod Precedence
pub mod InitArgs
use easyprospect_service.Prelude.{Bool, Option, none, some, String, if◌then◌else◌}
use easyprospect_service.Http.Mime.{iequals}

-- `ep_verbosity_type`
pub data Verbosity : Type 0 where
  no_verbosity quiet minimum normal debug maximum : Verbosity

-- `ep_debug_level_type`
pub data DebugLevel : Type 0 where
  ep_none ep_off ep_fatal ep_error ep_warn ep_info ep_debug ep_trace ep_all : DebugLevel

-- `to_string`: there is no case for `debug`.
unfoldable pub verbosity_to_string : Verbosity → String
verbosity_to_string no_verbosity = "none"
verbosity_to_string quiet = "quiet"
verbosity_to_string minimum = "minimum"
verbosity_to_string normal = "normal"
verbosity_to_string debug = ""
verbosity_to_string maximum = "maximum"

unfoldable pub debug_level_to_string : DebugLevel → String
debug_level_to_string ep_none = "ep_none"
debug_level_to_string ep_off = "ep_off"
debug_level_to_string ep_fatal = "ep_fatal"
debug_level_to_string ep_error = "ep_error"
debug_level_to_string ep_warn = "ep_warn"
debug_level_to_string ep_info = "ep_info"
debug_level_to_string ep_debug = "ep_debug"
debug_level_to_string ep_trace = "ep_trace"
debug_level_to_string ep_all = "ep_all"

-- The levels, for a test whether the text is a given one; `none` is the `logic_error`.
unfoldable pub verbosity_by : (String → Bool) → Option Verbosity
verbosity_by is =
    if is "none"
    then some no_verbosity
    else if is "quiet"
    then some quiet
    else if is "minimum"
    then some minimum
    else if is "normal"
    then some normal
    else if is "maximum"
    then some maximum
    else if is "debug"
    then some debug
    else none

unfoldable pub verbosity_from : String → Option Verbosity
unfolding verbosity_by
verbosity_from v = verbosity_by (iequals v)

unfoldable pub debug_level_by : (String → Bool) → Option DebugLevel
debug_level_by is =
    if is "ep_none"
    then some ep_none
    else if is "ep_all"
    then some ep_all
    else if is "ep_debug"
    then some ep_debug
    else if is "ep_trace"
    then some ep_trace
    else if is "ep_info"
    then some ep_info
    else if is "ep_warn"
    then some ep_warn
    else if is "ep_error"
    then some ep_error
    else if is "ep_fatal"
    then some ep_fatal
    else if is "ep_off"
    then some ep_off
    else none

unfoldable pub debug_level_from : String → Option DebugLevel
unfolding debug_level_by
debug_level_from d = debug_level_by (iequals d)
