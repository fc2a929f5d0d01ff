-- ===== src/Rpc/Report.antt =====
-- What `extract` reports.
use easyprospect_service.Prelude.{
  ℕ, ◌≡◌, refl, ◌⊎◌, inl, inr, true, Option, none, some, String, arith, Option-cases, Bool, false,
  Bool-cases, if◌then◌else◌,
}
use easyprospect_service.Prelude.Int.{ℤ, pos, negsuc}
use easyprospect_service.Json.{Json, is_object, is_array, find, get_int, get_string}
use easyprospect_service.Rpc.{
  is_version_2, RpcCode, expected_object, unknown_version, invalid_null_id,
  expected_structured_params, missing_params, expected_array_params, RpcCall, Float, one, two,
  other, returned, at_key, extract_params, extract_method, check_id, extract_version, extract,
}
use easyprospect_service.Rpc.Extract.{Names}

-- What is wrong with the parameters, by the code, for a request of version 2 or not.
abbrev pub ParamsWrong : Json → Bool → RpcCode → Type 0
ParamsWrong j second e =
    ((e ≡ expected_structured_params)
      × (second ≡ true)
      × ((v : Json) × (find j "params" ≡ some v) × (is_object v ≡ false) × (is_array v ≡ false)))
    ⊎ (((e ≡ missing_params) × (second ≡ false) × (find j "params" ≡ none))
        ⊎ ((e ≡ expected_array_params)
            × (second ≡ false)
            × ((v : Json) × (find j "params" ≡ some v) × (is_array v ≡ false))))

-- What is wrong with the id or the parameters.
abbrev pub IdWrong : Json → Bool → ℤ → RpcCode → Type 0
IdWrong j second i e =
    ((e ≡ invalid_null_id) × (second ≡ true) × ((n : ℕ) × (i ≡ negsuc n))) ⊎ ParamsWrong j second e

params-reports :
    (j : Json) (c d : RpcCall) (e : RpcCode)
    → extract_params j c ≡ returned d (some e)
    → ParamsWrong j (is_version_2 c.version) e
unfolding extract_params
params-reports j c d e h = elim (Option-cases (find j "params")) [
  | inl miss ↦ elim (Bool-cases (is_version_2 c.version)) [
    | inl new ↦ absurd (ground arith)
    | inr old ↦ inr (inl (ground arith, old, miss))
  ]
  | inr (v, hit) ↦ elim (Bool-cases (is_version_2 c.version)) [
    | inl new ↦ elim (Bool-cases (is_object v)) [
      | inl o ↦ absurd (ground arith)
      | inr o ↦ elim (Bool-cases (is_array v)) [
        | inl a ↦ absurd (ground arith)
        | inr a ↦ inl (ground arith, new, (v, hit, o, a))
      ]
    ]
    | inr old ↦ elim (Bool-cases (is_array v)) [
      | inl a ↦ absurd (ground arith)
      | inr a ↦ inr (inr (ground arith, old, (v, hit, a)))
    ]
  ]
]

method-reports :
    (j : Json) (c d : RpcCall) (e : RpcCode)
    → extract_method j c ≡ returned d (some e)
    → ParamsWrong j (is_version_2 c.version) e
unfolding extract_method
method-reports j c d e h = elim (Option-cases (get_string (at_key j "method"))) [
  | inl miss ↦ absurd (ground arith)
  | inr (m, hit) ↦ params-reports j (record c { method = m }) d e (ground arith)
]

check-reports :
    (j : Json) (c d : RpcCall) (i : ℤ) (e : RpcCode)
    → c.id ≡ some i
    → check_id j c ≡ returned d (some e)
    → IdWrong j (is_version_2 c.version) i e
unfolding check_id
check-reports j c d (pos n) e k h = inr (method-reports j c d e (ground arith))
check-reports j c d (negsuc n) e k h = elim (Bool-cases (is_version_2 c.version)) [
  | inl new ↦ inl (ground arith, new, (n, refl))
  | inr old ↦ inr (method-reports j c d e (ground arith))
]

module _ (stof : String → Option Float) where
  -- What is wrong with a request that is reported with a code.
  abbrev pub Reported : Json → RpcCode → Type 0
  Reported j e =
      ((e ≡ expected_object) × (is_object j ≡ false))
      ⊎ (((e ≡ unknown_version)
            × ((s : String) × (get_string (at_key j "jsonrpc") ≡ some s) × (stof s ≡ some other)))
          ⊎ ((second : Bool) × Names stof j (if second then 2 else 1)
              × ((i : ℤ) × (get_int (at_key j "id") ≡ some i) × IdWrong j second i e)))

  version-reports :
      (j : Json) (c d : RpcCall) (i : ℤ) (e : RpcCode)
      → c.id ≡ some i
      → get_int (at_key j "id") ≡ some i
      → extract_version stof j c ≡ returned d (some e)
      → Reported j e
  unfolding extract_version
  version-reports j c d i e k g h = elim (Option-cases (get_string (at_key j "jsonrpc"))) [
    | inl miss ↦ absurd (ground arith)
    | inr (s, hit) ↦ elim (Option-cases (stof s)) [
      | inl miss ↦ absurd (ground arith)
      | inr (one, v) ↦
          let wrong = check-reports j (record c { version = 1 }) d i e k (ground arith) in
          inr (inr (false, (s, hit, inl (v, refl)), (i, g, wrong)))
      | inr (two, v) ↦
          let wrong = check-reports j (record c { version = 2 }) d i e k (ground arith) in
          inr (inr (true, (s, hit, inr (v, refl)), (i, g, wrong)))
      | inr (other, v) ↦ inr (inl (ground arith, (s, hit, v)))
    ]
  ]

  -- A code that `extract` reports is one of six, and says what is wrong: the request is no object;
  -- or the version that it names is neither 1 nor 2; or, for a request that names version 1 or 2 and
  -- has an id that `get<int>` reads, the id is negative in version 2, the parameters are there in
  -- version 2 and are neither object nor array, or they are missing, or no array, in version 1. So
  -- `expected_string_version`, `expected_strnum_id`, `expected_id`, `missing_method` and
  -- `expected_string_method` are never reported.
  pub extract-Reported :
      (j : Json) (c d : RpcCall) (e : RpcCode)
      → extract stof j c ≡ returned d (some e)
      → Reported j e
  unfolding extract
  extract-Reported j c d e h = elim (Bool-cases (is_object j)) [
    | inr x ↦ inl (ground arith, x)
    | inl o ↦ elim (Option-cases (get_int (at_key j "id"))) [
      | inl miss ↦ absurd (ground arith)
      | inr (i, hit) ↦ version-reports j (record c { id = some i }) d i e refl hit (ground arith)
    ]
  ]
