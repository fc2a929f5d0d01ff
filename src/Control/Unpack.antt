-- ===== src/Control/Unpack.antt =====
-- What `process_input` makes of the value that msgpack unpacks:
-- src/easyprospect-service-control/epprocess-message.cpp.
use text.Mathlib.Text.{◌==◌ as str_eq}
use easyprospect_service.Prelude.{
  ℕ, ◌-◌, ◌^◌, Bool, Option, none, some, List, String, ltb, if◌then◌else◌, take,
}
use easyprospect_service.Prelude.Int.{ℤ, pos, negsuc}
use easyprospect_service.Control.{
  Base, Entries, Message, MessageType, Value, cmd_result, cmd_stop, dict, entry, int, none_left,
  result_message, start, startup, stop_message, type_code, type_of_code,
}

-- A key's value in a map, the first.
unfoldable pub value_at : String → Entries → Option Value
value_at k none_left = none
value_at k (entry j v es) = let rest = value_at k es in if str_eq j k then some v else rest

-- The conversions to the members throw (`none`) out of their ranges.
abbrev pub fits : ℕ → ℤ → Bool
fits w (pos n) = ltb n (2 ^ (w - 1))
fits w (negsuc n) = ltb n (2 ^ (w - 1))

unfoldable pub as_int : ℕ → Value → Option ℤ
as_int w (int n) = if fits w n then some n else none
as_int w (dict es) = none

unfoldable pub as_uint64 : Value → Option ℕ
as_uint64 (int (pos n)) = if ltb n (2 ^ 64) then some n else none
as_uint64 _ = none

-- A member that the map does not have keeps its value.
unfoldable pub member {ℓ} : {A : Type ℓ} → (Value → Option A) → Option Value → A → Option A
member read none d = some d
member read (some v) d = read v

infixl 5 ◌>>=◌
abbrev pub ◌>>=◌ {ℓ κ} : {A : Type ℓ} {B : Type κ} → Option A → (A → Option B) → Option B
none >>= f = none
some a >>= f = f a

-- `long` has 64 bits (on Windows 32, which is narrower than the pids that are sent).
unfoldable pub convert_base : Entries → Base → Option Base
unfolding value_at as_int as_uint64 member type_of_code
convert_base es b = do
  ty ← member (as_int 32) (value_at "type" es) (type_code b.type)
  pi ← member (as_int 64) (value_at "pid" es) b.pid
  po ← member (as_int 32) (value_at "port" es) b.port
  i1 ← member as_uint64 (value_at "id1" es) b.id1
  i2 ← member as_uint64 (value_at "id2" es) b.id2
  ct ← member (as_int 64) (value_at "current_time" es) b.current_time
  some (record {
    type = type_of_code ty;
    pid = pi;
    port = po;
    id1 = i1;
    id2 = i2;
    current_time = ct;
  })

unfoldable pub as_base : Base → Value → Option Base
unfolding convert_base
as_base b (int n) = none
as_base b (dict es) = convert_base es b

unfoldable pub convert_result : Entries → Base → MessageType → ℤ → Option Message
unfolding as_base type_of_code
convert_result es b tc rs = do
  c ← member (as_base b) (value_at "process_message_base" es) b
  t ← member (as_int 32) (value_at "type_cmd" es) (type_code tc)
  r ← member (as_int 32) (value_at "result" es) rs
  some (result_message c (type_of_code t) r)

-- What `process_input` returns: a message, the null pointer, an exception, or undefined behaviour for
-- a value that is no map.
pub data Processed : Type 0 where
  message : Message → Processed
  nothing threw undefined : Processed

abbrev pub converted : Option Message → Processed
converted none = threw
converted (some m) = message m

-- The class that a type asks for, filled from the whole map; other types go on to the next key.
unfoldable pub convert_as : Base → MessageType → ℤ → Entries → MessageType → Processed → Processed
unfolding convert_base convert_result
convert_as fresh tc rs es start next =
    converted
      (do b ← convert_base es (record fresh { type = start; port = pos 0 }); some (startup b))
convert_as fresh tc rs es cmd_stop next =
    converted (do b ← convert_base es (record fresh { type = cmd_stop }); some (stop_message b))
convert_as fresh tc rs es cmd_result next =
    converted (convert_result es (record fresh { type = cmd_result }) tc rs)
convert_as fresh tc rs es ty next = next

-- `fresh` is the base as it is constructed, `tc` and `rs` what the members without an initialiser
-- hold.
module _ (fresh : Base) (tc : MessageType) (rs : ℤ) where
  unfoldable pub process_type : Entries → Option MessageType → Processed → Processed
  unfolding convert_as
  process_type es none next = threw
  process_type es (some ty) next = convert_as fresh tc rs es ty next

  unfoldable pub type_of : Option Base → Option MessageType
  type_of none = none
  type_of (some b) = some b.type

  unfoldable pub code_type : Option ℤ → Option MessageType
  unfolding type_of_code
  code_type none = none
  code_type (some n) = some (type_of_code n)

  -- The loop over the keys of the map `es`.
  unfoldable pub process_keys : Entries → Entries → Processed
  unfolding process_type type_of code_type as_int as_base
  process_keys es none_left = nothing
  process_keys es (entry k v rest) =
      let next = process_keys es rest in
      if str_eq k "type"
      then process_type es (code_type (as_int 32 v)) next
      else if str_eq k "process_message_base"
      then process_type es (type_of (as_base fresh v)) next
      else next

  unfoldable pub process_value : Value → Processed
  unfolding process_keys
  process_value (int n) = undefined
  process_value (dict es) = process_keys es es

  -- `unpack` is msgpack's, on the bytes that were read.
  module _ (unpack : List ℕ → Option Value) where
    unfoldable pub process_input : List ℕ → ℕ → Processed
    unfolding process_value
    process_input bytes n =
        if ltb n 1
        then threw
        else (elim (unpack (take n bytes)) [ none ↦ threw | some v ↦ process_value v ])
