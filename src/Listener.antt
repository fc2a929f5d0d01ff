-- ===== src/Listener.antt =====
-- Listeners: include/easyprospect-config/ep-listener-config.h and
-- src/easyprospect-service-shared/listener.cpp.
-- `boost::tokenizer` is a parameter, `tokenize`, and so are the conversions of the standard library
-- from text to numbers and what the operating system answers to the calls of the acceptor.
pub mod Pair
pub mod Parse
pub mod Open
use text.Mathlib.Text.{◌==◌ as str_eq, find?}
use Prim.Native.String.{len, slice}
use easyprospect_service.Prelude.{
  ℕ, zero, suc, ◌+◌, ◌-◌, Bool, true, false, Option, none, some, List, [], ◌∷◌, ◌++◌, String, ltb,
  leb, not, ◌&&◌, ◌||◌, ◌==◌, if◌then◌else◌, length,
}
use easyprospect_service.Prelude.Int.{ℤ, pos, negsuc}
use easyprospect_service.Channels.{insert_session, erase_session}

pub data ListenerKind : Type 0 where
  no_kind no_tls allow_tls require_tls : ListenerKind

-- `to_string(listener_kind)`
unfoldable pub kind_text : ListenerKind → String
kind_text allow_tls = "allow_tls"
kind_text no_tls = "no_tls"
kind_text require_tls = "require_tls"
kind_text no_kind = "none"

-- `str_to_listener_kind`
unfoldable pub kind_of_text : String → ListenerKind
kind_of_text k =
    if str_eq k "allow_tls"
    then allow_tls
    else if str_eq k "no_tls"
    then no_tls
    else if str_eq k "require_tls"
    then require_tls
    else no_kind

pub record Conf : Type 0 where
  pub name : String
  pub address : String
  pub port : String
  pub min_port : String
  pub max_port : String
  pub kind : String

unfoldable pub empty_conf : Conf
empty_conf = record { name = ""; address = ""; port = ""; min_port = ""; max_port = ""; kind = "" }

-- An argument as a name and a value, by its first `=`.
unfoldable pub split_pair : String → Option (String × String)
split_pair a = elim (find? a "=") [
  | none ↦ none
  | some p ↦ some (slice a 0 p, slice a (p + 1) (len a))
]

unfoldable pub set_field : String → String → Conf → Conf
set_field n v c =
    if str_eq n "name"
    then record c { name = v }
    else if str_eq n "address"
    then record c { address = v }
    else if str_eq n "port"
    then record c { port = v }
    else if str_eq n "min-port"
    then record c { min_port = v }
    else if str_eq n "max-port"
    then record c { max_port = v }
    else if str_eq n "kind"
    then record c { kind = v }
    else c

-- The loop of `parse`.
unfoldable pub set_pair : Option (String × String) → Conf → Conf
unfolding set_field
set_pair none c = c
set_pair (some (n, v)) c = set_field n v c

unfoldable pub set_fields : List String → Conf → Conf
unfolding split_pair set_pair
set_fields [] c = c
set_fields (a ∷ args) c = set_fields args (set_pair (split_pair a) c)

-- `none` is the `logic_error` for fewer than three arguments.
unfoldable pub parse_args : List String → Option Conf
unfolding set_fields empty_conf
parse_args args = if ltb (length args) 3 then none else some (set_fields args empty_conf)

module _ (tokenize : String → List String) where
  -- `parse(std::string)`
  unfoldable pub parse : String → Option Conf
  unfolding parse_args
  parse s = parse_args (tokenize s)

  -- `parse(std::vector<std::string>)`: the first error leaves the loop.
  unfoldable pub parse_all : List String → Option (List Conf)
  unfolding parse
  parse_all [] = some []
  parse_all (s ∷ ss) =
      let rest = parse_all ss in
      elim (parse s) [ none ↦ none | some c ↦ elim rest [ none ↦ none | some cs ↦ some (c ∷ cs) ] ]

-- `bound` is the port that the acceptor is bound to, `ports` what is in the registry, and `told`
-- the sessions whose `on_stop` was called.
pub record Listener : Type 0 where
  pub conf : Conf
  pub is_open : Bool
  pub bound : Option ℤ
  pub ports : List ℤ
  pub sessions : List ℕ
  pub told : List ℕ

-- The constructor gives every listener the kind `allow_tls`.
unfoldable pub make_listener : Conf → Listener
unfolding kind_text
make_listener c = record {
  conf = record c { kind = kind_text allow_tls };
  is_open = false;
  bound = none;
  ports = [];
  sessions = [];
  told = [];
}

pub data Opened : Type 0 where
  -- `open` returns whether the acceptor listens, or throws.
  answer : Bool → Opened
  threw : Opened

abbrev pub max_uint16 : ℕ
max_uint16 = 65535

module _ (opens : Bool) (binds : ℤ → Bool) (listens : Option ℤ → Bool) where
  -- `acceptor_.open` fails on an acceptor that is open; a failed `bind` leaves it open.
  unfoldable pub open_port : ℤ → Listener → Listener × Bool
  open_port port l =
      if l.is_open || not opens
      then (l, false)
      else if binds port
      then (record l { is_open = true; bound = some port; ports = port ∷ [] }, true)
      else (record l { is_open = true }, false)

  -- The loop over the ports: `n` ports from `port` on are left. The port that it ends with.
  unfoldable pub scan : ℕ → ℕ → Listener → Listener × ℕ
  unfolding open_port
  scan zero port l = (l, port)
  scan (suc n) port l =
      let (m, ok) = open_port (pos port) l in
      let rest = scan n (port + 1) m in if ok then (m, port) else rest

  unfoldable pub listen : Listener → Listener × Opened
  listen l = (l, answer (l.is_open && listens l.bound))

  -- A range of ports, 1 to 65534, from the least to the greatest.
  unfoldable pub open_range : ℤ → ℤ → Listener → Listener × Opened
  unfolding scan listen
  open_range (negsuc a) hi l = (l, threw)
  open_range (pos lo) (negsuc b) l = (l, threw)
  open_range (pos lo) (pos hi) l =
      if ltb lo 1 || leb max_uint16 lo
      then (l, threw)
      else if ltb hi lo || leb max_uint16 hi
      then (l, threw)
      else (let (m, port) = scan (hi + 1 - lo) lo l in if ltb hi port then (m, threw) else listen m)

  module _ (read_int stoi : String → Option ℤ) where
    unfoldable pub open_listener : Listener → Listener × Opened
    unfolding open_port open_range listen
    open_listener l = elim (read_int l.conf.port) [
      | some port ↦ listen (open_port port l).0
      | none ↦ elim (stoi l.conf.min_port) [
        | none ↦ (l, threw)
        | some lo ↦ elim (stoi l.conf.max_port) [ none ↦ (l, threw) | some hi ↦ open_range lo hi l ]
      ]
    ]

-- What `operator()` does with a connection.
pub data Launched : Type 0 where
  finished http_session https_session detector : Launched

unfoldable pub on_accept : Bool → Listener → Launched
on_accept failed l =
    if failed
    then finished
    else if not l.is_open
    then finished
    else if str_eq l.conf.kind "no_tls"
    then http_session
    else if str_eq l.conf.kind "allow_tls"
    then detector
    else https_session

unfoldable pub insert : ℕ → Listener → Listener
unfolding insert_session
insert p l = record l { sessions = insert_session p l.sessions }

unfoldable pub erase : ℕ → Listener → Listener
unfolding erase_session
erase p l = record l { sessions = erase_session p l.sessions }

unfoldable pub living : (ℕ → Bool) → List ℕ → List ℕ
living alive [] = []
living alive (p ∷ ps) = let rest = living alive ps in if alive p then p ∷ rest else rest

unfoldable pub do_stop : (ℕ → Bool) → Listener → Listener
unfolding living
do_stop alive l = record l {
  is_open = false;
  sessions = [];
  told = l.told ++ living alive l.sessions;
}
