-- ===== src/Control.antt =====
-- The messages between the control process and the workers:
-- include/easyprospect-service-control/epprocess-message.h and
-- src/easyprospect-service-control/epprocess-message.cpp.
-- A packed message is the tree of values that msgpack writes; its bytes are a matter of the library.
pub mod Unpack
pub mod RoundTrip
use text.Mathlib.Text.{◌==◌ as str_eq}
use easyprospect_service.Prelude.{
  ℕ, ◌+◌, ◌-◌, ◌^◌, Bool, true, false, Option, none, some, List, [], ◌∷◌, String, ltb, leb, ◌==◌,
  if◌then◌else◌, take,
}
use easyprospect_service.Prelude.Int.{ℤ, pos, negsuc}

pub data MessageType : Type 0 where
  no_type base start ping pong cmd_stop cmd_result : MessageType
  -- A value that is no enumerator.
  other : ℤ → MessageType

unfoldable pub type_code : MessageType → ℤ
type_code no_type = pos 0
type_code base = pos 1
type_code start = pos 2
type_code ping = pos 3
type_code pong = pos 4
type_code cmd_stop = pos 5
type_code cmd_result = pos 6
type_code (other n) = n

unfoldable pub type_of_code : ℤ → MessageType
type_of_code (negsuc n) = other (negsuc n)
type_of_code (pos n) =
    if n == 0
    then no_type
    else if n == 1
    then base
    else if n == 2
    then start
    else if n == 3
    then ping
    else if n == 4
    then pong
    else if n == 5
    then cmd_stop
    else if n == 6
    then cmd_result
    else other (pos n)

pub record Base : Type 0 where
  pub type : MessageType
  pub pid : ℤ
  pub port : ℤ
  pub id1 : ℕ
  pub id2 : ℕ
  pub current_time : ℤ

-- The classes that derive from `process_message_base`; only the result has members of its own.
pub data Message : Type 0 where
  plain startup ping_message stop_message : Base → Message
  result_message : Base → (type_cmd : MessageType) → (result : ℤ) → Message

abbrev pub is_zero : ℕ → Bool
is_zero n = n == 0

-- `config`: `r1` and `r2` are drawn from 1 to the greatest 64-bit number, `self` is `getpid` and
-- `now` the time in milliseconds.
unfoldable pub config : ℕ → ℕ → ℤ → ℤ → MessageType → ℤ → ℤ → ℕ → ℕ → ℤ → Base
config r1 r2 self now ty pi po i1 i2 ct = record {
  type = ty;
  pid = elim pi [ pos n ↦ pos n | negsuc n ↦ self ];
  port = po;
  id1 = (if is_zero i1 then r1 else i1);
  id2 = (if is_zero i2 then r2 else i2);
  current_time = elim ct [ pos n ↦ pos n | negsuc n ↦ now ];
}

-- The constructor without arguments, and those of the classes.
unfoldable pub fresh_base : ℕ → ℕ → ℤ → ℤ → Base
unfolding config
fresh_base r1 r2 self now = config r1 r2 self now base (negsuc 0) (pos 0) 0 0 (negsuc 0)

unfoldable pub make_startup : Base → ℤ → Message
make_startup b po = startup (record b { type = start; port = po })

unfoldable pub make_stop : Base → Message
make_stop b = stop_message (record b { type = cmd_stop })

-- `type_cmd` and `result` are not initialised: `tc` and `rs`.
unfoldable pub make_result : Base → MessageType → ℤ → Message
make_result b tc rs = result_message (record b { type = cmd_result }) tc rs

-- What msgpack packs: integers and maps.
mutual
  pub data Value : Type 0 where
    int : ℤ → Value
    dict : Entries → Value

  pub data Entries : Type 0 where
    none_left : Entries
    entry : String → Value → Entries → Entries

unfoldable pub other_entries : Base → Entries
other_entries b = entry "pid" (int b.pid) (
    entry "port" (int b.port) (
      entry "id1" (int (pos b.id1))
        (entry "id2" (int (pos b.id2)) (entry "current_time" (int b.current_time) none_left))))

unfoldable pub base_entries : Base → Entries
unfolding type_code other_entries
base_entries b = entry "type" (int (type_code b.type)) (other_entries b)

abbrev pub base_of : Message → Base
base_of (plain b) = b
base_of (startup b) = b
base_of (ping_message b) = b
base_of (stop_message b) = b
base_of (result_message b tc rs) = b

-- `pack`, by the type that the message holds; `none` is the `logic_error`. A message whose type is
-- CMD_RESULT and that is no `process_message_cmd_result` is undefined behaviour, `none` too.
unfoldable pub pack_result : Message → Option Value
unfolding base_entries type_code
pack_result (result_message b tc rs) = some (
    dict (
      entry "process_message_base" (dict (base_entries b))
        (entry "type_cmd" (int (type_code tc)) (entry "result" (int rs) none_left))))
pack_result _ = none

unfoldable pub pack : Message → Option Value
unfolding base_entries pack_result
pack m =
    let b = base_of m in
    let base_value : Option Value = some (dict (base_entries b)) in
    elim b.type [
      | no_type ↦ base_value
      | base ↦ base_value
      | cmd_result ↦ pack_result m
      | start ↦ base_value
      | cmd_stop ↦ base_value
      | _ ↦ none
    ]
