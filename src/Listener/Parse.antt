-- ===== src/Listener/Parse.antt =====
-- What `parse` reads.
use text.Mathlib.Text.{◌==◌ as str_eq, is_eq}
use text.Mathlib.TextEquality.{path_by_compare}
use Prim.Native.String.{compare}
use Prim.Native.Nat.{Ordering}
use easyprospect_service.Prelude.{
  subst, ℕ, ◌+◌, ◌<◌, ◌≡◌, refl, ap, ◌∙◌, inl, inr, true, false, Option, none, some, List, [], ◌∷◌,
  String, ltb, arith, if◌then◌else◌, length, Bool-cases,
}
use easyprospect_service.Listener.Pair.{parts, split_pair-parts}
use easyprospect_service.Listener.{
  Conf, empty_conf, split_pair, set_field, set_pair, set_fields, parse_args, kind_text,
  kind_of_text, ListenerKind,
}

same_text : (s t : String) → str_eq s t ≡ true → s ≡ t
same_text s t h = path_by_compare s t (equal (compare s t) h)
  where
    equal : (o : Ordering) → is_eq o ≡ true → o ≡ Ordering.eq
    equal Ordering.lt e = cc
    equal Ordering.eq e = refl
    equal Ordering.gt e = cc

-- What one argument makes of the value of a name.
abbrev pub value_by : String → Option (String × String) → String → String
value_by n none d = d
value_by n (some (m, v)) d = if str_eq m n then v else d

-- The last value that the arguments give to a name, or `d`.
abbrev pub last_value : String → List String → String → String
last_value n [] d = d
last_value n (a ∷ args) d = last_value n args (value_by n (parts a) d)

abbrev Sets : Option (String × String) → Conf → Conf → Type 0
Sets p c d =
    (d.name ≡ value_by "name" p c.name)
    × (d.address ≡ value_by "address" p c.address)
    × (d.port ≡ value_by "port" p c.port)
    × (d.min_port ≡ value_by "min-port" p c.min_port)
    × (d.max_port ≡ value_by "max-port" p c.max_port)
    × (d.kind ≡ value_by "kind" p c.kind)

set_field-Sets : (n v : String) (c : Conf) → Sets (some (n, v)) c (set_field n v c)
unfolding set_field
set_field-Sets n v c = elim (Bool-cases (str_eq n "name")) [
  | inl e ↦ rw (same_text n "name" e) (refl, refl, refl, refl, refl, refl)
  | inr e1 ↦ elim (Bool-cases (str_eq n "address")) [
    | inl e ↦ rw (same_text n "address" e) (refl, refl, refl, refl, refl, refl)
    | inr e2 ↦ elim (Bool-cases (str_eq n "port")) [
      | inl e ↦ rw (same_text n "port" e) (refl, refl, refl, refl, refl, refl)
      | inr e3 ↦ elim (Bool-cases (str_eq n "min-port")) [
        | inl e ↦ rw (same_text n "min-port" e) (refl, refl, refl, refl, refl, refl)
        | inr e4 ↦ elim (Bool-cases (str_eq n "max-port")) [
          | inl e ↦ rw (same_text n "max-port" e) (refl, refl, refl, refl, refl, refl)
          | inr e5 ↦ elim (Bool-cases (str_eq n "kind")) [
            | inl e ↦ rw (same_text n "kind" e) (refl, refl, refl, refl, refl, refl)
            | inr e6 ↦ rw (e1, e2, e3, e4, e5, e6, set_field) (refl, refl, refl, refl, refl, refl)
          ]
        ]
      ]
    ]
  ]
]

set_pair-Sets : (p : Option (String × String)) (c : Conf) → Sets p c (set_pair p c)
unfolding set_pair
set_pair-Sets none c = (refl, refl, refl, refl, refl, refl)
set_pair-Sets (some (n, v)) c = set_field-Sets n v c

-- The conf that holds the last values, or those of `c`.
abbrev pub Reads : List String → Conf → Conf → Type 0
Reads args c d =
    (d.name ≡ last_value "name" args c.name)
    × (d.address ≡ last_value "address" args c.address)
    × (d.port ≡ last_value "port" args c.port)
    × (d.min_port ≡ last_value "min-port" args c.min_port)
    × (d.max_port ≡ last_value "max-port" args c.max_port)
    × (d.kind ≡ last_value "kind" args c.kind)

set_fields-Reads : (args : List String) (c : Conf) → Reads args c (set_fields args c)
unfolding set_fields
set_fields-Reads [] c = (refl, refl, refl, refl, refl, refl)
set_fields-Reads (a ∷ args) c =
    let (n, ad, p, lo, hi, k) = set_fields-Reads args (set_pair (split_pair a) c) in
    let (n', ad', p', lo', hi', k') =
      subst (λ q. Sets q c (set_pair (split_pair a) c)) (split_pair-parts a)
        (set_pair-Sets (split_pair a) c) in
    (
      n ∙ ap (last_value "name" args) n',
      ad ∙ ap (last_value "address" args) ad',
      p ∙ ap (last_value "port" args) p',
      lo ∙ ap (last_value "min-port" args) lo',
      hi ∙ ap (last_value "max-port" args) hi',
      k ∙ ap (last_value "kind" args) k',
    )

-- A listener is refused if it has fewer than three arguments, whatever they say; else each of its six
-- parts is the last value that an argument gives to its name, and empty if none does, where an
-- argument gives what stands behind its first `=` to the name that stands in front of it. Arguments
-- without `=` and with other names count and are ignored.
pub parse_args-Reads :
    (args : List String)
    → (length args < 3 → parse_args args ≡ none)
      × (((n : ℕ) × (length args ≡ n + 3))
          → (d : Conf) × (parse_args args ≡ some d) × Reads args empty_conf d)
unfolding parse_args
parse_args-Reads args = (
  λ h. ground arith,
  λ h.
      let few : ltb (length args) 3 ≡ false = ground (arith, h.1) in
      (set_fields args empty_conf, rw few refl, set_fields-Reads args empty_conf),
)

-- A kind is read back from its text.
pub kind_of_text-kind_text : (k : ListenerKind) → kind_of_text (kind_text k) ≡ k
unfolding kind_of_text kind_text
kind_of_text-kind_text ListenerKind.no_kind = refl
kind_of_text-kind_text ListenerKind.no_tls = refl
kind_of_text-kind_text ListenerKind.allow_tls = refl
kind_of_text-kind_text ListenerKind.require_tls = refl
