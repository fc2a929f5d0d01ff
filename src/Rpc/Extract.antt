-- ===== src/Rpc/Extract.antt =====
-- What `extract` accepts.
use easyprospect_service.Prelude.{
  ℕ, ◌≡◌, refl, sym, ◌∙◌, ◌⊎◌, inl, inr, true, Option, none, some, String, arith, Option-cases,
}
use easyprospect_service.Prelude.Int.{ℤ, pos, negsuc}
use easyprospect_service.Json.{Json, is_object, is_array, find, get_int, get_string}
use easyprospect_service.Rpc.{
  RpcCall, Float, one, two, other, returned, at_key, extract_params, extract_method, check_id,
  extract_version, extract,
}

-- The parameters that a version allows, given what the request has under "params".
abbrev pub ParamsOk : RpcCall → Option Json → Type 0
ParamsOk c none = c.version ≡ 2
ParamsOk c (some v) =
    (c.params ≡ v) × ((is_array v ≡ true) ⊎ ((c.version ≡ 2) × (is_object v ≡ true)))

params-accepts :
    (j : Json) (c d : RpcCall)
    → extract_params j c ≡ returned d none
    → (d.id ≡ c.id) × (d.version ≡ c.version) × (d.method ≡ c.method) × ParamsOk d (find j "params")
unfolding extract_params
params-accepts j c d e = elim (Option-cases (find j "params")) [
  | inl miss ↦ rw miss (ground arith)
  | inr (v, hit) ↦ rw hit (ground arith)
]

method-accepts :
    (j : Json) (c d : RpcCall)
    → extract_method j c ≡ returned d none
    → (d.id ≡ c.id)
      × (d.version ≡ c.version)
      × (get_string (at_key j "method") ≡ some d.method)
      × ParamsOk d (find j "params")
unfolding extract_method
method-accepts j c d e = elim (Option-cases (get_string (at_key j "method"))) [
  | inl miss ↦ absurd (unfold extract_method in cc)
  | inr (m, hit) ↦
      let (i, v, n, p) = params-accepts j (record c { method = m }) d (ground arith) in
      (i, v, ground arith, p)
]

-- The id that a version allows.
abbrev pub IdOk : ℕ → ℤ → Type 0
IdOk version i = (version ≡ 1) ⊎ ((version ≡ 2) × ((n : ℕ) × (i ≡ pos n)))

check-accepts :
    (j : Json) (c d : RpcCall) (i : ℤ)
    → c.id ≡ some i
    → (c.version ≡ 1) ⊎ (c.version ≡ 2)
    → check_id j c ≡ returned d none
    → (d.id ≡ some i)
      × (d.version ≡ c.version)
      × IdOk d.version i
      × (get_string (at_key j "method") ≡ some d.method)
      × ParamsOk d (find j "params")
unfolding check_id
check-accepts j c d (pos n) h v e =
    let (i, w, m, p) = method-accepts j c d (ground arith) in
    let b : IdOk d.version (pos n) = ground (arith, w, v) in (ground (arith, i), w, b, m, p)
check-accepts j c d (negsuc n) h v e =
    let (i, w, m, p) = method-accepts j c d (ground arith) in
    let b : IdOk d.version (negsuc n) = ground (arith, w, v) in (ground (arith, i), w, b, m, p)

module _ (stof : String → Option Float) where
  -- The version that the request names.
  abbrev pub Names : Json → ℕ → Type 0
  Names j v =
      (s : String) × (get_string (at_key j "jsonrpc") ≡ some s)
      × (((stof s ≡ some one) × (v ≡ 1)) ⊎ ((stof s ≡ some two) × (v ≡ 2)))

  -- What holds of an accepted request.
  pub record Accepted (j : Json) (c : RpcCall) : Type 0 where
    pub id_read : c.id ≡ get_int (at_key j "id")
    pub id_ok : (i : ℤ) × (c.id ≡ some i) × IdOk c.version i
    pub version_read : Names j c.version
    pub method_read : get_string (at_key j "method") ≡ some c.method
    pub params_ok : ParamsOk c (find j "params")

  version-accepts :
      (j : Json) (c d : RpcCall) (i : ℤ)
      → c.id ≡ some i
      → get_int (at_key j "id") ≡ some i
      → extract_version stof j c ≡ returned d none
      → Accepted j d
  unfolding extract_version
  version-accepts j c d i h g e = elim (Option-cases (get_string (at_key j "jsonrpc"))) [
    | inl miss ↦ absurd (ground arith)
    | inr (s, hit) ↦ elim (Option-cases (stof s)) [
      | inl miss ↦ absurd (ground arith)
      | inr (one, v) ↦
          done s hit 1 (record c { version = 1 }) refl h (inl refl) (inl (v, refl)) (ground arith)
      | inr (two, v) ↦
          done s hit 2 (record c { version = 2 }) refl h (inr refl) (inr (v, refl)) (ground arith)
      | inr (other, v) ↦ absurd (ground arith)
    ]
  ]
    where
      done :
          (s : String)
          → get_string (at_key j "jsonrpc") ≡ some s
          → (v : ℕ) (b : RpcCall) → b.version ≡ v
          → b.id ≡ some i
          → (v ≡ 1) ⊎ (v ≡ 2)
          → ((stof s ≡ some one) × (v ≡ 1)) ⊎ ((stof s ≡ some two) × (v ≡ 2))
          → check_id j b ≡ returned d none
          → Accepted j d
      done s hit v b same k two_ways name r =
          let (di, dv, dk, dm, dp) = check-accepts j b d i k (ground arith) r in
          record {
            id_read = di ∙ sym g;
            id_ok = (i, di, dk);
            version_read = (s, hit, ground arith);
            method_read = dm;
            params_ok = dp;
          }

  -- A request that `extract` accepts is an object whose version is 1 or 2, with an id (not negative
  -- in version 2), a method and parameters that its version allows; and the call holds what the
  -- request says.
  pub extract-Accepted :
      (j : Json) (c d : RpcCall)
      → extract stof j c ≡ returned d none
      → (is_object j ≡ true) × Accepted j d
  unfolding extract
  extract-Accepted j c d e = elim (Option-cases (get_int (at_key j "id"))) [
    | inl miss ↦ absurd (ground arith)
    | inr (i, hit) ↦
        (ground arith, version-accepts j (record c { id = some i }) d i refl hit (ground arith))
  ]
