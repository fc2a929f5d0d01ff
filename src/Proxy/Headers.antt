-- ===== src/Proxy/Headers.antt =====
-- Which fields a forwarded request has.
use Prim.Native.String.{[] as empty, ◌∷◌ as cons}
use Prim.Native.Char.{code}
use easyprospect_service.Prelude.{
  ℕ, ◌≡◌, refl, sym, ap, ◌∙◌, Bool, true, false, ◌&&◌, inl, inr, Option, none, some, [], ◌∷◌, ◌++◌,
  String, ◌==◌, ==_iff, if◌then◌else◌, Bool-cases, arith,
}
use easyprospect_service.Http.Mime.{lower, iequals}
use easyprospect_service.Http.Mime.LastDot.{iequals-same}
use easyprospect_service.Proxy.Request.{
  Fields, builder_of, Parsed, find_field, builder_of_parser, to_request, BeastRequest, remove_field,
  set_field, set_fields, session_fields, to_beast_request, forwarded,
}

==_comm : (m n : ℕ) → (m == n) ≡ (n == m)
==_comm m n = elim (Bool-cases (m == n)) [
  | inl same ↦ ground (arith, ==_iff m n)
  | inr differs ↦ ground (arith, ==_iff m n)
]

iequals_comm : (s t : String) → iequals s t ≡ iequals t s
unfolding iequals
iequals_comm empty empty = refl
iequals_comm empty (cons d t) = refl
iequals_comm (cons c s) empty = refl
iequals_comm (cons c s) (cons d t) =
    λ i. ==_comm (lower (code c)) (lower (code d)) i && iequals_comm s t i

-- A name is equal to the same names as one that is equal to it.
iequals-other : (s t u : String) → iequals s t ≡ true → iequals u s ≡ iequals u t
iequals-other s t u h = iequals_comm u s ∙ iequals-same s t u h ∙ iequals_comm t u

-- The last of the values that a name is given.
abbrev pub or_else : Option String → Option String → Option String
or_else none w = w
or_else (some v) w = some v

abbrev pub last_value : String → Fields → Option String
last_value n [] = none
last_value n ((k, v) ∷ fs) = or_else (last_value n fs) (if iequals k n then some v else none)

or_else_assoc : (a b c : Option String) → or_else (or_else a b) c ≡ or_else a (or_else b c)
or_else_assoc none b c = refl
or_else_assoc (some v) b c = refl

or_else-none : (a : Option String) → or_else a none ≡ a
or_else-none none = refl
or_else-none (some v) = refl

find_field-append :
    (n k v : String) (fs : Fields)
    → find_field n (fs ++ (k, v) ∷ [])
      ≡ or_else (find_field n fs) (if iequals k n then some v else none)
unfolding find_field
find_field-append n k v [] = refl
find_field-append n k v ((l, w) ∷ fs) = elim (Bool-cases (iequals l n)) [
  | inl same ↦ rw same
  | inr differs ↦ rw differs (find_field-append n k v fs)
]

-- The name `m` is gone, and every other stays.
find_field-remove_same :
    (m n : String) (fs : Fields) → iequals m n ≡ true → find_field n (remove_field m fs) ≡ none
unfolding find_field remove_field
find_field-remove_same m n [] h = refl
find_field-remove_same m n ((k, v) ∷ fs) h = elim (Bool-cases (iequals k m)) [
  | inl same ↦ rw same (find_field-remove_same m n fs h)
  | inr differs ↦
      let other : iequals k n ≡ false = sym (iequals-other m n k h) ∙ differs in
      rw (differs, other) (find_field-remove_same m n fs h)
]

find_field-remove_other :
    (m n : String) (fs : Fields)
    → iequals m n ≡ false
    → find_field n (remove_field m fs) ≡ find_field n fs
unfolding find_field remove_field
find_field-remove_other m n [] h = refl
find_field-remove_other m n ((k, v) ∷ fs) h = elim (Bool-cases (iequals k m)) [
  | inl same ↦
      let other : iequals k n ≡ false = iequals-same k m n same ∙ h in
      rw (same, other) (find_field-remove_other m n fs h)
  | inr differs ↦
      rw differs (ap (λ r. if iequals k n then some v else r) (find_field-remove_other m n fs h))
]

find_field-set_field :
    (n k v : String) (fs : Fields)
    → find_field n (set_field k v fs)
      ≡ or_else (if iequals k n then some v else none) (find_field n fs)
unfolding set_field
find_field-set_field n k v fs =
    find_field-append n k v (remove_field k fs) ∙ elim (Bool-cases (iequals k n)) [
      | inl same ↦ rw (same, find_field-remove_same k n fs same) refl
      | inr differs ↦ rw differs (or_else-none _ ∙ find_field-remove_other k n fs differs)
    ]

find_field-set_fields :
    (n : String) (hs fs : Fields)
    → find_field n (set_fields hs fs) ≡ or_else (last_value n hs) (find_field n fs)
unfolding set_fields
find_field-set_fields n [] fs = refl
find_field-set_fields n ((k, v) ∷ hs) fs =
    find_field-set_fields n hs (set_field k v fs)
    ∙ ap (or_else (last_value n hs)) (find_field-set_field n k v fs)
    ∙ sym (or_else_assoc (last_value n hs) (if iequals k n then some v else none) (find_field n fs))

abbrev pub session_header : String
session_header = "X-EP-SESSION-ID"

module _ (uuid_string : ℕ → String) where
  -- The value of a field of a request with the headers `hs` for the session `s`.
  abbrev pub relayed_value : String → Fields → ℕ → Option String
  relayed_value n hs s =
      or_else (last_value n hs)
        (if s == 0 then none else if iequals session_header n then some (uuid_string s) else none)

  find_field-session_fields :
      (n : String) (s : ℕ)
      → find_field n (session_fields uuid_string s)
        ≡ (if s == 0 then none else if iequals session_header n then some (uuid_string s) else none)
  unfolding session_fields find_field
  find_field-session_fields n s = elim (Bool-cases (s == 0)) [
    | inl nil ↦ rw nil refl
    | inr made ↦ rw made (find_field-set_field n session_header (uuid_string s) [] ∙ or_else-none _)
  ]

  module _ (known_verb : String → Bool) where
    -- What becomes of a request with the method, target and headers: nothing is written if the method is
    -- unknown.
    abbrev pub Relays : String → String → Fields → ℕ → Option BeastRequest → Type 0
    Relays m t hs s none = known_verb m ≡ false
    Relays m t hs s (some r) =
        (known_verb m ≡ true)
        × (r.method ≡ m)
        × (r.target ≡ t)
        × (r.version ≡ 11)
        × (r.body ≡ "")
        × ((n : String) → find_field n r.fields ≡ relayed_value n hs s)

    -- A message from a client that comes without a session is relayed with its own method and target and an
    -- empty body, or not at all if Beast does not know the method. A field has the last value that the
    -- client gave it in any spelling; the session id stands only where the client sent no such field.
    pub forwarded-Relays :
        (fresh : ℕ) (m : Parsed) (is_done is_header_done : Bool)
        → Relays m.method m.target m.fields fresh (
            forwarded uuid_string known_verb
              (to_request (builder_of_parser fresh 0 m is_done is_header_done)))
    unfolding forwarded to_beast_request to_request builder_of builder_of_parser
    forwarded-Relays fresh m is_done is_header_done = elim (Bool-cases (known_verb m.method)) [
      | inl known ↦ rw known (
        known,
        refl,
        refl,
        refl,
        refl,
        λ n.
            find_field-set_fields n m.fields (session_fields uuid_string fresh)
            ∙ ap (or_else (last_value n m.fields)) (find_field-session_fields n fresh),
      )
      | inr unknown ↦ rw unknown unknown
    ]
