-- ===== src/Rpc.antt =====
-- JSON-RPC requests: src/easyprospect-service-shared/rpc.cpp and
-- include/easyprospect-service-shared/rpc.hpp.
-- `std::stof` is a parameter: the code only asks if the number is 1 or 2, and `none` is one of the
-- exceptions `invalid_argument` and `out_of_range`.
pub mod Extract
pub mod Report
pub mod Reply
use easyprospect_service.Prelude.{
  ℕ, ◌≡◌, refl, ◌⊎◌, inl, inr, Bool, true, false, Option, none, some, String, ltb, if◌then◌else◌,
  not, ◌==◌, ◌&&◌,
}
use easyprospect_service.Prelude.Int.{ℤ, pos, negsuc}
use Prim.Native.String.{◌++◌}
use easyprospect_service.Json.{
  Json, Fields, null, integer, string, array, object, end, lookup, assign, is_object, is_array,
  find, get_int, get_string,
}

pub data RpcCode : Type 0 where
  parse_error invalid_request method_not_found invalid_params internal_error : RpcCode
  expected_object expected_string_version unknown_version invalid_null_id : RpcCode
  expected_strnum_id expected_id missing_method expected_string_method : RpcCode
  expected_structured_params missing_params expected_array_params : RpcCode

-- The value of the enumerator; `negsuc n` is -(n + 1).
unfoldable pub code_value : RpcCode → ℤ
code_value parse_error = negsuc 32699
code_value invalid_request = negsuc 32599
code_value method_not_found = negsuc 32600
code_value invalid_params = negsuc 32601
code_value internal_error = negsuc 32602
code_value expected_object = pos 1
code_value expected_string_version = pos 2
code_value unknown_version = pos 3
code_value invalid_null_id = pos 4
code_value expected_strnum_id = pos 5
code_value expected_id = pos 6
code_value missing_method = pos 7
code_value expected_string_method = pos 8
code_value expected_structured_params = pos 9
code_value missing_params = pos 10
code_value expected_array_params = pos 11

-- `rpc_error_codes::message` at an enumerator.
unfoldable pub message : RpcCode → String
message parse_error = "An error occurred on the server while parsing the JSON text."
message invalid_request = "The JSON sent is not a valid Request object"
message method_not_found = "The method does not exist or is not available"
message invalid_params = "Invalid method parameters"
message internal_error = "Internal JSON-RPC error"
message expected_object = "Expected object in JSON-RPC request"
message expected_string_version = "Expected string version in JSON-RPC request"
message unknown_version = "Unknown version in JSON-RPC request"
message invalid_null_id = "Invalid null id in JSON-RPC request"
message expected_strnum_id = "Expected string or number id in JSON-RPC request"
message expected_id = "Missing id in JSON-RPC request version 1"
message missing_method = "Missing method in JSON-RPC request"
message expected_string_method = "Expected string method in JSON-RPC request"
message expected_structured_params = "Expected structured params in JSON-RPC request version 2"
message missing_params = "Missing params in JSON-RPC request version 1"
message expected_array_params = "Expected array params in JSON-RPC request version 1"

-- `rpc_error`, and its constructors from a code, from a text, and from both.
pub record RpcError : Type 0 where
  pub code : ℤ
  pub msg : String

unfoldable pub error_with : RpcCode → String → RpcError
unfolding code_value
error_with ev msg = record { code = code_value ev; msg = msg }

unfoldable pub error_of_code : RpcCode → RpcError
unfolding error_with message
error_of_code ev = error_with ev (message ev)

unfoldable pub error_of_text : String → RpcError
unfolding error_with
error_of_text msg = error_with invalid_params msg

-- `rpc_error::to_json`
unfoldable pub to_json : RpcError → ℤ → Json
to_json e id =
    let err = object (assign "message" (string e.msg) (assign "code" (integer e.code) end)) in
    let jv = assign "jsonrpc" (string "2.0") end in
    let with_id : Fields = elim id [ pos n ↦ assign "id" (integer (pos n)) jv | negsuc n ↦ jv ] in
    object (assign "error" err with_id)

pub record RpcCall : Type 0 where
  pub id : Option ℤ
  pub version : ℕ
  pub method : String
  pub params : Json
  pub result : Json

unfoldable pub empty_call : RpcCall
empty_call = record { id = none; version = 2; method = ""; params = null; result = null }

-- What `std::stof` returns.
pub data Float : Type 0 where
  one two other : Float

pub data Exception : Type 0 where
  type_error stof_error : Exception

-- `extract` returns with an error code in `ec`, or `none` if it leaves `ec` as it was; or an
-- exception leaves it.
pub data Extracted : Type 0 where
  returned : RpcCall → Option RpcCode → Extracted
  threw : RpcCall → Exception → Extracted

-- `jv[key]` on a value that is not const: a missing key reads as null.
unfoldable pub at_key : Json → String → Json
at_key j k = elim (find j k) [ none ↦ null | some v ↦ v ]

abbrev pub is_version_2 : ℕ → Bool
is_version_2 v = v == 2

-- The block "extract params".
unfoldable pub extract_params : Json → RpcCall → Extracted
extract_params j c = elim (find j "params") [
  | none ↦ if is_version_2 c.version then returned c none else returned c (some missing_params)
  | some v ↦
      if is_version_2 c.version
      then (if not (is_object v) && not (is_array v)
          then returned c (some expected_structured_params)
          else returned (record c { params = v }) none)
      else (if not (is_array v)
          then returned c (some expected_array_params)
          else returned (record c { params = v }) none)
]

-- The block "extract method": a missing key reads as null, so `get` throws a `type_error`, which the
-- handler for `out_of_range` does not catch.
unfoldable pub extract_method : Json → RpcCall → Extracted
unfolding extract_params at_key get_string
extract_method j c = elim (get_string (at_key j "method")) [
  | none ↦ threw c type_error
  | some m ↦ extract_params j (record c { method = m })
]

-- The block "validate the extracted id".
unfoldable pub check_id : Json → RpcCall → Extracted
unfolding extract_method
check_id j c =
    if is_version_2 c.version
    then (elim c.id [
      | none ↦ extract_method j c
      | some (negsuc n) ↦ returned c (some invalid_null_id)
      | some (pos n) ↦ extract_method j c
    ])
    else (elim c.id [ none ↦ returned c (some expected_id) | some i ↦ extract_method j c ])

module _ (stof : String → Option Float) where
  -- The block "now check the version".
  unfoldable pub extract_version : Json → RpcCall → Extracted
  unfolding check_id at_key get_string
  extract_version j c0 =
      let c = record c0 { version = 1 } in
      elim (get_string (at_key j "jsonrpc")) [
        | none ↦ threw c type_error
        | some s ↦ elim (stof s) [
          | none ↦ threw c stof_error
          | some one ↦ check_id j c
          | some two ↦ check_id j (record c { version = 2 })
          | some other ↦ returned c (some unknown_version)
        ]
      ]

  unfoldable pub extract : Json → RpcCall → Extracted
  unfolding extract_version at_key get_int
  extract j c =
      if not (is_object j)
      then returned c (some expected_object)
      else (elim (get_int (at_key j "id")) [
        | none ↦ threw c type_error
        | some i ↦ extract_version j (record c { id = some i })
      ])

-- `complete` with the result, and with an error: the reply handed to `f`, if there is one.
unfoldable pub complete : RpcCall → Option Json
complete c = elim c.id [
  | none ↦ none
  | some i ↦ some (object (assign "result" c.result (assign "id" (integer i) end)))
]

unfoldable pub complete_error : RpcCall → RpcError → Option Json
unfolding to_json
complete_error c e = elim c.id [ none ↦ none | some i ↦ some (to_json e i) ]

-- `checked_object`, `checked_value` and `checked_string`: a value, or the `rpc_error` thrown.
pub data Checked {ℓ} (A : Type ℓ) : Type ℓ where
  ok : A → Checked A
  fail : RpcError → Checked A

infixl 5 ◌>>=◌
abbrev pub ◌>>=◌ {ℓ κ} : {A : Type ℓ} {B : Type κ} → Checked A → (A → Checked B) → Checked B
ok a >>= f = f a
fail e >>= f = fail e

unfoldable pub checked_object : Json → Checked Json
unfolding error_of_text
checked_object j = if not (is_object j) then fail (error_of_text "expected object") else ok j

-- The message is "key '" + key + "' not found".
unfoldable pub checked_value : Json → String → Checked Json
unfolding checked_object error_of_text
checked_value j key = do
  obj ← checked_object j
  elim (find obj key) [
    | none ↦ fail (error_of_text ("key '" ++ key ++ "' not found"))
    | some v ↦ ok v
  ]

unfoldable pub checked_text : Json → Checked String
unfolding error_of_text get_string
checked_text j = elim (get_string j) [
  | none ↦ fail (error_of_text "expected string")
  | some s ↦ ok s
]

unfoldable pub checked_string : Json → String → Checked String
unfolding checked_value checked_text
checked_string j key = do v ← checked_value j key; checked_text v

-- To split on a check and keep the equation.
pub Checked-cases {ℓ} :
    {A : Type ℓ} (c : Checked A) → ((e : RpcError) × (c ≡ fail e)) ⊎ ((a : A) × (c ≡ ok a))
Checked-cases (ok a) = inr (a, refl)
Checked-cases (fail e) = inl (e, refl)
