-- ===== src/Http.antt =====
-- How a worker answers an HTTP request: `handle_request` of
-- include/easyprospect-service-shared/session.hpp.
-- Paths are joined by `boost::filesystem`, files are opened by Boost.Beast and scripts are run by the
-- callback that the worker sets: these are parameters.
pub mod Mime
pub mod Answer
use text.Mathlib.Text.{◌==◌ as str_eq, find?}
use Prim.Native.String.{◌++◌, len, slice}
use easyprospect_service.Prelude.{
  ℕ, ◌-◌, Bool, true, false, Option, none, some, List, [], ◌∷◌, String, not, ◌&&◌, ◌||◌,
  if◌then◌else◌,
}
use easyprospect_service.Http.Mime.{mime_type}

pub data Method : Type 0 where
  get head other_method : Method

pub record Request : Type 0 where
  pub method : Method
  pub target : String
  pub version : ℕ
  pub keep_alive : Bool

pub data Status : Type 0 where
  ok bad_request not_found internal_server_error : Status

-- `file_body` is the body that is read from the file at a path.
pub data Body : Type 0 where
  string_body : String → Body
  file_body : String → Body
  empty_body : Body

pub record Response : Type 0 where
  pub status : Status
  pub version : ℕ
  pub keep_alive : Bool
  pub content_type : Option String
  -- The length that is set by hand; otherwise the body's.
  pub content_length : Option ℕ
  pub body : Body

-- `body.open`: the size of the file, an error that no such file exists, or another error's message.
pub data FileResult : Type 0 where
  opened : ℕ → FileResult
  missing : FileResult
  failed : String → FileResult

-- A response is sent, or a `logic_error` is thrown.
pub data Answered : Type 0 where
  sends : Response → Answered
  threw : Answered

unfoldable pub error_response : Request → Status → String → Response
error_response r s t = record {
  status = s;
  version = r.version;
  keep_alive = r.keep_alive;
  content_type = some "text/html";
  content_length = none;
  body = string_body t;
}

abbrev pub starts_slash : String → Bool
starts_slash t = str_eq (slice t 0 1) "/"

abbrev pub ends_slash : String → Bool
ends_slash t = str_eq (slice t (len t - 1) (len t)) "/"

abbrev pub has_dots : String → Bool
has_dots t = elim (find? t "..") [ none ↦ false | some p ↦ true ]

-- The test of the request path.
unfoldable pub is_legal : String → Bool
is_legal t = not (str_eq t "" || not (starts_slash t) || has_dots t)

unfoldable pub any_matches : List (String → Bool) → String → Bool
any_matches [] path = false
any_matches (r ∷ rs) path = let rest = any_matches rs path in if r path then true else rest

-- A HEAD request gets the fields of a file's response only.
unfoldable pub without_body : Method → Response → Response
without_body head res = record res { body = empty_body }
without_body get res = res
without_body other_method res = res

module _ (join : String → String → String) (open_file : String → FileResult)
    (doc_root : String) where
  unfoldable pub path_of : String → String
  path_of target =
      let path = join doc_root target in if ends_slash target then join path "index.html" else path

  unfoldable pub file_response : Request → String → ℕ → Response
  unfolding mime_type without_body
  file_response r path size =
      let res : Response = record {
        status = ok;
        version = r.version;
        keep_alive = r.keep_alive;
        content_type = some (mime_type path);
        content_length = some size;
        body = file_body path;
      } in
      without_body r.method res

  -- What is sent of a file that was opened, or not.
  unfoldable pub answer_file : Request → String → FileResult → Response
  unfolding error_response
  answer_file r path missing =
      error_response r not_found ("The resource '" ++ r.target ++ "' was not found.")
  answer_file r path (failed what) =
      error_response r internal_server_error ("An error occurred: '" ++ what ++ "'")
  answer_file r path (opened size) = file_response r path size

  unfoldable pub serve_file : Request → String → Response
  unfolding answer_file
  serve_file r path = answer_file r path (open_file path)

  -- The script at a path, run by the callback.
  unfoldable pub run_by : Option (String → String → String → String) → Request → String → Answered
  run_by none r path = threw
  run_by (some p) r path = sends (record {
    status = ok;
    version = r.version;
    keep_alive = r.keep_alive;
    content_type = none;
    content_length = none;
    body = string_body (p path doc_root r.target);
  })

  module _ (extensions : List (String → Bool))
      (process : Option (String → String → String → String)) where
    unfoldable pub serve : Request → Answered
    unfolding is_legal path_of any_matches run_by serve_file error_response
    serve r =
        if is_legal r.target
        then (let path = path_of r.target in
            if any_matches extensions path
            then run_by process r path
            else sends (serve_file r path))
        else sends (error_response r bad_request "Illegal request-target")

    unfoldable pub handle_as : Method → Request → Answered
    unfolding serve error_response
    handle_as other_method r = sends (error_response r bad_request "Unknown HTTP-method")
    handle_as get r = serve r
    handle_as head r = serve r

    unfoldable pub handle_request : Request → Answered
    unfolding handle_as
    handle_request r = handle_as r.method r
