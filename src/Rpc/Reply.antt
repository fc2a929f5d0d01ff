-- ===== src/Rpc/Reply.antt =====
-- Requests as a client writes them, and the replies to them.
use easyprospect_service.Prelude.{
  ℕ, ◌<◌, ◌^◌, ◌≡◌, refl, ◌⊎◌, true, Option, none, some, String, arith, ltb, if◌then◌else◌,
}
use easyprospect_service.Prelude.Int.{ℤ, pos, negsuc}
use easyprospect_service.Json.{
  Json, null, integer, string, object, end, field, lookup, assign, is_object, is_array, find,
  get_int, get_string, to_int32,
}
use easyprospect_service.Rpc.{
  RpcCall, RpcError, Float, one, two, returned, extract_params, extract_method, check_id,
  extract_version, extract, empty_call, to_json, complete, complete_error,
}

-- The request object of JSON-RPC for a call.
abbrev pub version_text : ℕ → String
version_text v = if ltb v 2 then "1.0" else "2.0"

abbrev pub request : RpcCall → ℕ → Json
request c n = object (
    field "jsonrpc" (string (version_text c.version)) (
      field "id" (integer (pos n))
        (field "method" (string c.method) (field "params" c.params end))))

to_int32-small : (n : ℕ) → n < 2 ^ 31 → to_int32 (pos n) ≡ pos n
unfolding to_int32
to_int32-small n h = ground arith

module _ (stof : String → Option Float) where
  -- A request that is written as JSON-RPC says is read back as the call that it was made from: in
  -- version 2 with an array or an object of parameters, in version 1 with an array. `stof` must read
  -- the two version texts.
  pub extract-request :
      (c : RpcCall) (n : ℕ)
      → stof "1.0" ≡ some one
      → stof "2.0" ≡ some two
      → n < 2 ^ 31
      → ((c.version ≡ 2) × (is_object c.params ≡ true))
        ⊎ (((c.version ≡ 1) ⊎ (c.version ≡ 2)) × (is_array c.params ≡ true))
      → extract stof (request c n) empty_call
        ≡ returned (record c { id = some (pos n); result = null }) none
  unfolding extract extract_version check_id extract_method extract_params empty_call lookup get_int
      get_string
  extract-request c n h1 h2 small shape = ground (arith, to_int32-small n)

-- A call is answered exactly if its id was read. A result carries that id, an error carries it
-- unless it is negative, and a reply has a result or an error, never both.
complete-replies :
    (c : RpcCall) (e : RpcError)
    → (c.id ≡ none → (complete c ≡ none) × (complete_error c e ≡ none))
      × ((i : ℤ)
          → c.id ≡ some i
          → (r : Json) × (x : Json) × (complete c ≡ some r)
            × (complete_error c e ≡ some x)
            × (find r "id" ≡ some (integer i))
            × (find r "result" ≡ some c.result)
            × (find r "error" ≡ none)
            × (find x "result" ≡ none)
            × ((err : Json) × (find x "error" ≡ some err)
                × (find err "code" ≡ some (integer e.code))
                × (find err "message" ≡ some (string e.msg)))
            × ((n : ℕ) → i ≡ pos n → find x "id" ≡ some (integer i)))
unfolding complete complete_error assign lookup
complete-replies c e = ((λ h. ground arith), λ i h. replies i h)
  where
    replies :
        (i : ℤ)
        → c.id ≡ some i
        → (r : Json) × (x : Json) × (complete c ≡ some r)
          × (complete_error c e ≡ some x)
          × (find r "id" ≡ some (integer i))
          × (find r "result" ≡ some c.result)
          × (find r "error" ≡ none)
          × (find x "result" ≡ none)
          × ((err : Json) × (find x "error" ≡ some err)
              × (find err "code" ≡ some (integer e.code))
              × (find err "message" ≡ some (string e.msg)))
          × ((n : ℕ) → i ≡ pos n → find x "id" ≡ some (integer i))
    replies (pos n) h = (
      object (assign "result" c.result (assign "id" (integer (pos n)) end)),
      to_json e (pos n),
      ground arith,
      ground arith,
      refl,
      refl,
      refl,
      refl,
      (_, refl, refl, refl),
      λ m k. refl,
    )
    replies (negsuc n) h = (
      object (assign "result" c.result (assign "id" (integer (negsuc n)) end)),
      to_json e (negsuc n),
      ground arith,
      ground arith,
      refl,
      refl,
      refl,
      refl,
      (_, refl, refl, refl),
      λ m k. cc,
    )
