-- ===== src/Proxy/Session.antt =====
-- The session that reads requests from a client: `http_session_base::operator()` of
-- src/easyprospect-service-shared/http-session-base.cpp.
-- The parser of Beast is a parameter, and what the completed calls of the network bring are the events.
-- The session does one thing for each event; the coroutine ends when `operator()` returns without a
-- `yield`, and then does nothing any more.
use easyprospect_service.Prelude.{
  ℕ, Bool, Option, none, some, List, [], ◌∷◌, ◌++◌, leb, if◌then◌else◌, take, drop, replicate,
}
use easyprospect_service.Proxy.Request.{
  HttpRequest, Parsed, builder_of_parser, to_request, Continuation,
}

-- What `put` makes of the bytes of the buffer: the parser, the number of octets that it processed, and
-- what it wrote to the buffer of the body.
pub record Put (P : Type 0) : Type 0 where
  pub parser : P
  pub processed : ℕ
  pub body : List ℕ

pub record Parser (P : Type 0) : Type 0 where
  pub fresh : P
  pub put : P → List ℕ → Put P
  pub is_header_done : P → Bool
  pub is_done : P → Bool
  pub message : P → Parsed
  pub is_upgrade : P → Bool

-- The arguments of `handle_worker_request`.
pub record Package : Type 0 where
  pub first : Option HttpRequest
  pub position : ℕ
  pub more : Option Continuation

-- What the coroutine waits for: a read for the header or for the body of a request to a worker, a
-- request that it serves itself, or the write of the response. It has `ended`, or its state is
-- undefined: `broken`.
pub data Stage : Type 0 where
  header body request response ended broken : Stage

-- What is done with the connection.
pub data Act : Type 0 where
  closed failed upgraded handled : Act

pub record Session (P : Type 0) : Type 0 where
  pub parser : P
  pub storage : List ℕ
  pub current_req : Option HttpRequest
  pub sent : List Package
  pub acts : List Act
  pub stage : Stage

pub data Error : Type 0 where
  no_error end_of_stream other_error : Error

-- The completion of a read of some bytes, with a random session id for the request; of the read of a
-- whole request, with the parser that it leaves; and of the write of a response, with `need_eof`.
pub data Event (P : Type 0) : Type 0 where
  read_some : List ℕ → ℕ → Event P
  read_request : Error → P → Event P
  written : Error → Bool → Event P

-- `sizeof(pr_buffer_)`
abbrev pub buffer_size : ℕ
buffer_size = 4096

-- The first `n` octets of the buffer, which holds what was written to it and then zeros; nothing if
-- they would reach past its end.
unfoldable pub octets : ℕ → List ℕ → Option (List ℕ)
octets n out =
    if leb n buffer_size
    then some (take n (take buffer_size out ++ replicate buffer_size 0))
    else none

unfoldable pub act : {P : Type 0} → Act → Session P → Session P
act a s = record s { acts = s.acts ++ a ∷ []; stage = ended }

unfoldable pub stage_after : Bool → Stage
stage_after is_done = if is_done then ended else body

module _ {P : Type 0} (lib : Parser P) where
  unfoldable pub new_session : Bool → Session P
  new_session is_proxy = record {
    parser = lib.fresh;
    storage = [];
    current_req = none;
    sent = [];
    acts = [];
    stage = if is_proxy then header else request;
  }

  -- `storage_.consume` after `put`.
  unfoldable pub parsed : Put P → List ℕ → Session P → Session P
  parsed r bytes s = record s { parser = r.parser; storage = drop r.processed bytes }

  -- The request without its body is sent at once; the loop for the body is entered if it is not done.
  unfoldable pub send_first : ℕ → Session P → Session P
  unfolding stage_after builder_of_parser to_request
  send_first id s =
      let is_done = lib.is_done s.parser in
      let req =
        to_request
          (builder_of_parser id 0 (lib.message s.parser) is_done (lib.is_header_done s.parser)) in
      record s {
        current_req = some req;
        sent = s.sent ++ record { first = some req; position = 0; more = none } ∷ [];
        stage = stage_after is_done;
      }

  unfoldable pub on_header_read : ℕ → List ℕ → Session P → Session P
  unfolding parsed send_first
  on_header_read id bytes s =
      let t = parsed (lib.put s.parser bytes) bytes s in
      if lib.is_header_done t.parser then send_first id t else t

  -- Each call of the coroutine starts `current_pos` at 1 again.
  unfoldable pub send_continuation : Option (List ℕ) → Session P → Session P
  unfolding stage_after
  send_continuation none s = record s { stage = broken }
  send_continuation (some buffer) s =
      let is_done = lib.is_done s.parser in
      let more : Continuation = record {
        request = s.current_req;
        buffer = buffer;
        done = is_done;
      } in
      record s {
        sent = s.sent ++ record { first = none; position = 1; more = some more } ∷ [];
        stage = stage_after is_done;
      }

  unfoldable pub on_body_read : List ℕ → Session P → Session P
  unfolding parsed send_continuation octets
  on_body_read bytes s =
      let r = lib.put s.parser bytes in
      send_continuation (octets r.processed r.body) (parsed r bytes s)

  -- A request that is not for a worker: an upgrade to a WebSocket, or the response is written.
  unfoldable pub on_request : Error → Session P → Session P
  unfolding act
  on_request end_of_stream s = act closed s
  on_request other_error s = act failed s
  on_request no_error s =
      if lib.is_upgrade s.parser
      then act upgraded s
      else record s { acts = s.acts ++ handled ∷ []; stage = response }

  -- The coroutine ends after the write of the response.
  unfoldable pub on_response : Error → Bool → Session P → Session P
  unfolding act
  on_response no_error need_eof s = if need_eof then act closed s else record s { stage = ended }
  on_response end_of_stream need_eof s = act failed s
  on_response other_error need_eof s = act failed s

  unfoldable pub step_in : Stage → Event P → Session P → Session P
  unfolding on_header_read on_body_read on_request on_response
  step_in header (read_some bytes id) s = on_header_read id (s.storage ++ bytes) s
  step_in body (read_some bytes id) s = on_body_read (s.storage ++ bytes) s
  step_in request (read_request e p) s = on_request e (record s { parser = p })
  step_in response (written e need_eof) s = on_response e need_eof s
  step_in k e s = s

  unfoldable pub run : List (Event P) → Session P → Session P
  unfolding step_in
  run [] s = s
  run (e ∷ es) s = run es (step_in s.stage e s)
