-- ===== src/Proxy/Request.antt =====
-- `easyprospect_http_request`, its builder and the continuation of
-- include/easyprospect-service-shared/easyprospect-http-request.h.
-- A session id is a number, and 0 the nil id; `uuid_string` prints it. The names of a message's fields
-- are compared without regard to case, as Beast does. `known_verb` says whether Beast knows a method.
use easyprospect_service.Prelude.{
  ℕ, Bool, false, Option, none, some, List, [], ◌∷◌, ◌++◌, String, ◌==◌, if◌then◌else◌,
}
use easyprospect_service.Http.Mime.{iequals}

abbrev pub Fields : Type 0
Fields = List (String × String)

pub record HttpRequest : Type 0 where
  pub content_length : Option ℕ
  pub body : Option String
  pub raw : Option String
  pub content_type : Option String
  pub url : String
  pub host : String
  pub method : String
  pub headers : Fields
  pub done : Bool
  pub session_id : ℕ

-- The constructor: the host stays empty.
unfoldable pub make_request :
    Option ℕ
    → Option String
    → Option String
    → Option String
    → String
    → String
    → Bool
    → ℕ
    → Fields
    → HttpRequest
make_request cl b r ct u m d s h = record {
  content_length = cl;
  body = b;
  raw = r;
  content_type = ct;
  url = u;
  host = "";
  method = m;
  headers = h;
  done = d;
  session_id = s;
}

pub record Builder : Type 0 where
  pub content_length : Option ℕ
  pub body : Option String
  pub raw : Option String
  pub content_type : Option String
  pub url : String
  pub host : String
  pub method : String
  pub headers : Fields
  pub header_done : Bool
  pub done : Bool
  pub session_id : ℕ

-- The builder of a request: neither the body nor the raw request is copied.
unfoldable pub builder_of : HttpRequest → Builder
builder_of req = record {
  content_length = req.content_length;
  body = none;
  raw = none;
  content_type = req.content_type;
  url = req.url;
  host = req.host;
  method = req.method;
  headers = req.headers;
  header_done = false;
  done = req.done;
  session_id = req.session_id;
}

-- A message whose header was parsed.
pub record Parsed : Type 0 where
  pub content_length : Option ℕ
  pub method : String
  pub target : String
  pub fields : Fields

-- `req[name]`: the first field with the name, or the empty string.
unfoldable pub find_field : String → Fields → Option String
find_field n [] = none
find_field n ((k, v) ∷ fs) = let rest = find_field n fs in if iequals k n then some v else rest

unfoldable pub or_empty : Option String → String
or_empty none = ""
or_empty (some v) = v

-- The builder of a parsed message; a nil id is replaced by a new one.
unfoldable pub builder_of_parser : ℕ → ℕ → Parsed → (is_done is_header_done : Bool) → Builder
unfolding find_field or_empty
builder_of_parser fresh s m is_done is_header_done = record {
  content_length = m.content_length;
  body = none;
  raw = none;
  content_type = some (or_empty (find_field "Content-Type" m.fields));
  url = m.target;
  host = or_empty (find_field "Host" m.fields);
  method = m.method;
  headers = m.fields;
  header_done = is_header_done;
  done = is_done;
  session_id = if s == 0 then fresh else s;
}

unfoldable pub to_request : Builder → HttpRequest
unfolding make_request
to_request b =
    make_request b.content_length b.body b.raw b.content_type b.url b.method b.done b.session_id
      b.headers

pub record BeastRequest : Type 0 where
  pub method : String
  pub target : String
  pub version : ℕ
  pub fields : Fields
  pub body : String

-- `set`: the fields with the name are removed, and the new one is put at the end.
unfoldable pub remove_field : String → Fields → Fields
remove_field n [] = []
remove_field n ((k, v) ∷ fs) =
    let rest = remove_field n fs in if iequals k n then rest else (k, v) ∷ rest

unfoldable pub set_field : String → String → Fields → Fields
unfolding remove_field
set_field n v fs = remove_field n fs ++ (n, v) ∷ []

unfoldable pub set_fields : Fields → Fields → Fields
unfolding set_field
set_fields [] fs = fs
set_fields ((k, v) ∷ hs) fs = set_fields hs (set_field k v fs)

module _ (uuid_string : ℕ → String) where
  unfoldable pub session_fields : ℕ → Fields
  unfolding set_field
  session_fields s = if s == 0 then [] else set_field "X-EP-SESSION-ID" (uuid_string s) []

  module _ (known_verb : String → Bool) where
    -- Nothing if `method` throws on an unknown verb.
    unfoldable pub to_beast_request : HttpRequest → Option BeastRequest
    unfolding set_fields session_fields or_empty
    to_beast_request req =
        if known_verb req.method
        then some (record {
          method = req.method;
          target = req.url;
          version = 11;
          fields = set_fields req.headers (session_fields req.session_id);
          body = or_empty req.body;
        })
        else none

    -- What `start_request` writes to the worker for the first package.
    unfoldable pub forwarded : HttpRequest → Option BeastRequest
    unfolding to_beast_request to_request builder_of
    forwarded req = to_beast_request (to_request (builder_of req))

pub record Continuation : Type 0 where
  pub request : Option HttpRequest
  pub buffer : List ℕ
  pub done : Bool
