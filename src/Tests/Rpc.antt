-- ===== src/Tests/Rpc.antt =====
-- Requests of src/easyprospect-service-shared/rpc.cpp at concrete values.
use easyprospect_service.Prelude.{
  ◌≡◌, refl, inl, true, Option, none, some, String, arith, if◌then◌else◌,
}
use easyprospect_service.Prelude.Int.{pos}
use easyprospect_service.Json.{
  Json, null, integer, string, object, end, field, lookup, is_object, get_int, get_string, to_int32,
}
use text.Mathlib.Text.{◌==◌ as str_eq}
use easyprospect_service.Rpc.{
  unknown_version, RpcCall, empty_call, Float, one, two, other, returned, extract_params,
  extract_method, check_id, extract_version, extract,
}
use easyprospect_service.Rpc.Extract.{Accepted, extract-Accepted}
use easyprospect_service.Rpc.Report.{Reported, extract-Reported}
use easyprospect_service.Rpc.Reply.{request, extract-request}

-- `std::stof` at the texts of the tests.
abbrev read_version : String → Option Float
read_version s =
    if str_eq s "1.0"
    then some one
    else if str_eq s "2.0"
    then some two
    else if str_eq s "3.0"
    then some other
    else none

abbrev say_call : RpcCall
say_call = record {
  id = some (pos 7);
  version = 2;
  method = "say";
  params = object (field "cid" (integer (pos 2)) end);
  result = null;
}

say_extracted : extract read_version (request say_call 7) empty_call ≡ returned say_call none
unfolding extract extract_version check_id extract_method extract_params empty_call lookup get_int
    get_string to_int32
say_extracted = refl

extract-Accepted_example :
    (is_object (request say_call 7) ≡ true) × Accepted read_version (request say_call 7) say_call
extract-Accepted_example =
    extract-Accepted read_version (request say_call 7) empty_call say_call say_extracted

abbrev version_3 : Json
version_3 = object (field "id" (integer (pos 7)) (field "jsonrpc" (string "3.0") end))

abbrev version_3_call : RpcCall
version_3_call = record {
  id = some (pos 7);
  version = 1;
  method = "";
  params = null;
  result = null;
}

version_3_reported :
    extract read_version version_3 empty_call ≡ returned version_3_call (some unknown_version)
unfolding extract extract_version empty_call lookup get_int get_string to_int32
version_3_reported = refl

extract-Reported_example : Reported read_version version_3 unknown_version
extract-Reported_example =
    extract-Reported read_version version_3 empty_call version_3_call unknown_version
      version_3_reported

extract-request_example :
    extract read_version (request say_call 7) empty_call
    ≡ returned (record say_call { id = some (pos 7); result = null }) none
extract-request_example =
    extract-request read_version say_call 7 refl refl (omega arith) (inl (refl, refl))
