-- ===== src/Control/RoundTrip.antt =====
-- A message that is packed is read back.
use easyprospect_service.Prelude.{
  ℕ, ◌<◌, ◌≤◌, ◌^◌, ◌≡◌, refl, ap, ◌∙◌, ◌⊎◌, inl, inr, true, false, Option, none, some, List, take,
  ltb, arith, if◌then◌else◌, lt→ltb,
}
use easyprospect_service.Prelude.Int.{ℤ, pos}
use easyprospect_service.Control.{
  MessageType, no_type, base, start, cmd_stop, cmd_result, type_code, type_of_code, Base, Message,
  plain, startup, stop_message, result_message, Value, int, dict, Entries, entry, none_left,
  base_entries, other_entries, base_of, pack, pack_result,
}
use easyprospect_service.Control.Unpack.{
  value_at, fits, as_int, as_uint64, member, convert_base, as_base, convert_result, Processed,
  message, nothing, convert_as, process_type, type_of, code_type, process_keys, process_value,
  process_input,
}

-- The ranges of the members, as their C++ types have them.
pub record InRange (b : Base) : Type 0 where
  pub type : fits 32 (type_code b.type) ≡ true
  pub known : type_of_code (type_code b.type) ≡ b.type
  pub pid : fits 64 b.pid ≡ true
  pub port : fits 32 b.port ≡ true
  pub id1 : b.id1 < 2 ^ 64
  pub id2 : b.id2 < 2 ^ 64
  pub current_time : fits 64 b.current_time ≡ true

as_int-int : (w : ℕ) (n : ℤ) → fits w n ≡ true → as_int w (int n) ≡ some n
unfolding as_int
as_int-int w n h = ap (λ b. if b then some n else none) h

as_uint64-int : (n : ℕ) → n < 2 ^ 64 → as_uint64 (int (pos n)) ≡ some n
unfolding as_uint64
as_uint64-int n h = ap (λ b. if b then some n else none) (lt→ltb n (2 ^ 64) h)

convert_base-base_entries : (b d : Base) → InRange b → convert_base (base_entries b) d ≡ some b
unfolding convert_base base_entries other_entries value_at member
convert_base-base_entries b d r =
    rw
      (
        as_int-int 32 (type_code b.type) r.type,
        as_int-int 64 b.pid r.pid,
        as_int-int 32 b.port r.port,
        as_uint64-int b.id1 r.id1,
        as_uint64-int b.id2 r.id2,
        as_int-int 64 b.current_time r.current_time,
      )
      (ap (λ ty. some (record b { type = ty })) r.known)

-- The messages as their classes make them, and what the receiver gets.
pub data Sends : Message → Processed → Type 0 where
  sends_start : (b : Base) → b.type ≡ start → Sends (startup b) (message (startup b))
  sends_stop : (b : Base) → b.type ≡ cmd_stop → Sends (stop_message b) (message (stop_message b))
  sends_result :
      (b : Base) (tc : MessageType) (rs : ℤ)
      → b.type ≡ cmd_result
      → fits 32 (type_code tc) ≡ true
      → type_of_code (type_code tc) ≡ tc
      → fits 32 rs ≡ true
      → Sends (result_message b tc rs) (message (result_message b tc rs))
  sends_plain : (b : Base) → (b.type ≡ no_type) ⊎ (b.type ≡ base) → Sends (plain b) nothing

module _ (fresh : Base) (tc : MessageType) (rs : ℤ) where
  -- What is sent as a value, and what the value is read back as.
  abbrev Trip : Message → Processed → Type 0
  Trip m p = (v : Value) × (pack m ≡ some v) × (process_value fresh tc rs v ≡ p)

  process_keys-type :
      (es rest : Entries) (v : Value) (ty : MessageType)
      → code_type fresh tc rs (as_int 32 v) ≡ some ty
      → process_keys fresh tc rs es (entry "type" v rest)
        ≡ convert_as fresh tc rs es ty (process_keys fresh tc rs es rest)
  unfolding process_keys process_type
  process_keys-type es rest v ty h =
      ap (λ o. process_type fresh tc rs es o (process_keys fresh tc rs es rest)) h

  process_keys-base :
      (es rest : Entries) (v : Value) (b : Base)
      → as_base fresh v ≡ some b
      → process_keys fresh tc rs es (entry "process_message_base" v rest)
        ≡ convert_as fresh tc rs es b.type (process_keys fresh tc rs es rest)
  unfolding process_keys process_type type_of
  process_keys-base es rest v b h =
      ap
        (λ o.
          process_type fresh tc rs es (type_of fresh tc rs o) (process_keys fresh tc rs es rest))
        h

  code_type-known :
      (ty : MessageType)
      → fits 32 (type_code ty) ≡ true
      → type_of_code (type_code ty) ≡ ty
      → code_type fresh tc rs (as_int 32 (int (type_code ty))) ≡ some ty
  unfolding code_type
  code_type-known ty h k = rw (as_int-int 32 (type_code ty) h) (ap some k)

  base-keys :
      (b : Base)
      → InRange b
      → process_value fresh tc rs (dict (base_entries b))
        ≡ convert_as fresh tc rs
            (base_entries b)
            b.type
            (process_keys fresh tc rs (base_entries b) (other_entries b))
  unfolding process_value base_entries
  base-keys b r =
      process_keys-type (base_entries b) (other_entries b) (int (type_code b.type)) b.type
        (code_type-known b.type r.type r.known)

  start-Trip : (b : Base) → InRange b → b.type ≡ start → Trip (startup b) (message (startup b))
  unfolding pack convert_as
  start-Trip b r e =
      let next = process_keys fresh tc rs (base_entries b) (other_entries b) in
      (
        dict (base_entries b),
        rw e refl,
        base-keys b r
            ∙ (ap (λ ty. convert_as fresh tc rs (base_entries b) ty next) e
                ∙ rw (convert_base-base_entries b (record fresh { type = start; port = pos 0 }) r)
                    refl),
      )

  stop-Trip :
      (b : Base) → InRange b → b.type ≡ cmd_stop → Trip (stop_message b) (message (stop_message b))
  unfolding pack convert_as
  stop-Trip b r e =
      let next = process_keys fresh tc rs (base_entries b) (other_entries b) in
      (
        dict (base_entries b),
        rw e refl,
        base-keys b r
            ∙ (ap (λ ty. convert_as fresh tc rs (base_entries b) ty next) e
                ∙ rw (convert_base-base_entries b (record fresh { type = cmd_stop }) r) refl),
      )

  no_more_keys : (es : Entries) (b : Base) → process_keys fresh tc rs es (other_entries b) ≡ nothing
  unfolding process_keys other_entries
  no_more_keys es b = refl

  plain-Trip :
      (b : Base) → InRange b → (b.type ≡ no_type) ⊎ (b.type ≡ base) → Trip (plain b) nothing
  unfolding pack convert_as
  plain-Trip b r (inl e) = (
    dict (base_entries b),
    rw e refl,
    base-keys b r
        ∙ (ap
              (λ ty.
                convert_as fresh tc rs (base_entries b) ty
                  (process_keys fresh tc rs (base_entries b) (other_entries b)))
              e
            ∙ no_more_keys (base_entries b) b),
  )
  plain-Trip b r (inr e) = (
    dict (base_entries b),
    rw e refl,
    base-keys b r
        ∙ (ap
              (λ ty.
                convert_as fresh tc rs (base_entries b) ty
                  (process_keys fresh tc rs (base_entries b) (other_entries b)))
              e
            ∙ no_more_keys (base_entries b) b),
  )

  abbrev result_entries : Base → MessageType → ℤ → Entries
  result_entries b t n =
      entry "process_message_base" (dict (base_entries b))
        (entry "type_cmd" (int (type_code t)) (entry "result" (int n) none_left))

  convert_result-result_entries :
      (b d : Base) (t : MessageType) (n : ℤ)
      → InRange b
      → fits 32 (type_code t) ≡ true
      → type_of_code (type_code t) ≡ t
      → fits 32 n ≡ true
      → convert_result (result_entries b t n) d tc rs ≡ some (result_message b t n)
  unfolding convert_result value_at member as_base
  convert_result-result_entries b d t n r ft kt fn =
      rw (convert_base-base_entries b d r, as_int-int 32 (type_code t) ft, as_int-int 32 n fn)
        (ap (λ u. some (result_message b u n)) kt)

  result-Trip :
      (b : Base) (t : MessageType) (n : ℤ)
      → InRange b
      → b.type ≡ cmd_result
      → fits 32 (type_code t) ≡ true
      → type_of_code (type_code t) ≡ t
      → fits 32 n ≡ true
      → Trip (result_message b t n) (message (result_message b t n))
  unfolding pack pack_result process_value convert_as as_base
  result-Trip b t n r e ft kt fn =
      let es = result_entries b t n in
      let rest = entry "type_cmd" (int (type_code t)) (entry "result" (int n) none_left) in
      (
        dict es,
        rw e refl,
        process_keys-base es rest (dict (base_entries b)) b (convert_base-base_entries b fresh r)
            ∙ (ap (λ ty. convert_as fresh tc rs es ty (process_keys fresh tc rs es rest)) e
                ∙ rw
                    (convert_result-result_entries b (record fresh { type = cmd_result }) t n r ft
                      kt fn)
                    refl),
      )

  sent-Trip : (m : Message) (p : Processed) → InRange (base_of m) → Sends m p → Trip m p
  sent-Trip m p r (sends_start b e) = start-Trip b r e
  sent-Trip m p r (sends_stop b e) = stop-Trip b r e
  sent-Trip m p r (sends_result b t n e ft kt fn) = result-Trip b t n r e ft kt fn
  sent-Trip m p r (sends_plain b e) = plain-Trip b r e

  -- A message that a worker or the control process makes, with members in the ranges of their types,
  -- can be packed, and `process_input` reads it back whole, as a message of the same class, when
  -- msgpack unpacks what was packed; a plain message is read back as a null pointer.
  pub pack-process_input :
      (unpack : List ℕ → Option Value) (m : Message) (p : Processed)
      → InRange (base_of m)
      → Sends m p
      → (v : Value) × (pack m ≡ some v)
        × ((bytes : List ℕ) (n : ℕ)
            → 1 ≤ n
            → unpack (take n bytes) ≡ some v
            → process_input fresh tc rs unpack bytes n ≡ p)
  unfolding process_input
  pack-process_input unpack m p r s =
      let (v, packed, read) = sent-Trip m p r s in
      (
        v,
        packed,
        λ bytes n h u. let some_bytes : ltb n 1 ≡ false = ground arith in rw (some_bytes, u) read,
      )
