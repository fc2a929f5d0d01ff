-- ===== src/Config/Levels.antt =====
-- The texts that name a level.
use easyprospect_service.Prelude.{◌≡◌, refl, ◌∙◌, ◌↔◌, Bool, true, none, some, String, arith}
use easyprospect_service.Http.Mime.{iequals}
use easyprospect_service.Http.Mime.LastDot.{iequals-same}
use easyprospect_service.Config.{
  Verbosity, no_verbosity, quiet, minimum, normal, debug, maximum, DebugLevel, ep_none, ep_off,
  ep_fatal, ep_error, ep_warn, ep_info, ep_debug, ep_trace, ep_all, verbosity_to_string,
  debug_level_to_string, verbosity_by, verbosity_from, debug_level_by, debug_level_from,
}

-- The name of a level.
abbrev pub verbosity_name : Verbosity → String
unfolding verbosity_to_string
verbosity_name debug = "debug"
verbosity_name v = verbosity_to_string v

debug_level_by-named :
    (is : String → Bool) (d : DebugLevel)
    → debug_level_by is ≡ some d
    → is (debug_level_to_string d) ≡ true
unfolding debug_level_by debug_level_to_string
debug_level_by-named is ep_none h = ground arith
debug_level_by-named is ep_off h = ground arith
debug_level_by-named is ep_fatal h = ground arith
debug_level_by-named is ep_error h = ground arith
debug_level_by-named is ep_warn h = ground arith
debug_level_by-named is ep_info h = ground arith
debug_level_by-named is ep_debug h = ground arith
debug_level_by-named is ep_trace h = ground arith
debug_level_by-named is ep_all h = ground arith

debug_level_from-to_string : (d : DebugLevel) → debug_level_from (debug_level_to_string d) ≡ some d
unfolding debug_level_from debug_level_by debug_level_to_string iequals
debug_level_from-to_string ep_none = refl
debug_level_from-to_string ep_off = refl
debug_level_from-to_string ep_fatal = refl
debug_level_from-to_string ep_error = refl
debug_level_from-to_string ep_warn = refl
debug_level_from-to_string ep_info = refl
debug_level_from-to_string ep_debug = refl
debug_level_from-to_string ep_trace = refl
debug_level_from-to_string ep_all = refl

verbosity_by-named :
    (is : String → Bool) (v : Verbosity) → verbosity_by is ≡ some v → is (verbosity_name v) ≡ true
unfolding verbosity_by verbosity_name verbosity_to_string
verbosity_by-named is no_verbosity h = ground arith
verbosity_by-named is quiet h = ground arith
verbosity_by-named is minimum h = ground arith
verbosity_by-named is normal h = ground arith
verbosity_by-named is debug h = ground arith
verbosity_by-named is maximum h = ground arith

verbosity_from-name : (v : Verbosity) → verbosity_from (verbosity_name v) ≡ some v
unfolding verbosity_from verbosity_by verbosity_name verbosity_to_string iequals
verbosity_from-name no_verbosity = refl
verbosity_from-name quiet = refl
verbosity_from-name minimum = refl
verbosity_from-name normal = refl
verbosity_from-name debug = refl
verbosity_from-name maximum = refl

verbosity_to_string-unread :
    (v : Verbosity) → (verbosity_from (verbosity_to_string v) ≡ none) ↔ (v ≡ debug)
unfolding verbosity_from verbosity_by verbosity_to_string iequals
verbosity_to_string-unread no_verbosity = (λ h. absurd cc, λ h. absurd cc)
verbosity_to_string-unread quiet = (λ h. absurd cc, λ h. absurd cc)
verbosity_to_string-unread minimum = (λ h. absurd cc, λ h. absurd cc)
verbosity_to_string-unread normal = (λ h. absurd cc, λ h. absurd cc)
verbosity_to_string-unread debug = (λ h. refl, λ h. refl)
verbosity_to_string-unread maximum = (λ h. absurd cc, λ h. absurd cc)

-- A text reads as a debug level or a verbosity exactly if it is the name of that level in upper or lower
-- case, and `to_string` prints the name; but for the verbosity `debug`, whose text is not read back.
pub levels_iff :
    (s : String) (d : DebugLevel) (v : Verbosity)
    → ((debug_level_from s ≡ some d) ↔ (iequals s (debug_level_to_string d) ≡ true))
      × ((verbosity_from s ≡ some v) ↔ (iequals s (verbosity_name v) ≡ true))
      × ((verbosity_from (verbosity_to_string v) ≡ none) ↔ (v ≡ debug))
unfolding debug_level_from verbosity_from
levels_iff s d v = (
  (
    debug_level_by-named (iequals s) d,
    λ h.
        (λ i. debug_level_by (λ t. iequals-same s (debug_level_to_string d) t h i))
        ∙ debug_level_from-to_string d,
  ),
  (
    verbosity_by-named (iequals s) v,
    λ h. (λ i. verbosity_by (λ t. iequals-same s (verbosity_name v) t h i)) ∙ verbosity_from-name v,
  ),
  verbosity_to_string-unread v,
)
