-- ===== src/Tests/Proxy.antt =====
-- The requests of the proxy at concrete inputs.
use easyprospect_service.Prelude.{
  ℕ, ◌-◌, ◌≤◌, ◌≡◌, refl, Bool, true, false, ◌&&◌, ◌==◌, leb, if◌then◌else◌, some, List, [], ◌∷◌,
  ◌++◌, String, length, take, arith,
}
use easyprospect_service.Proxy.Request.{Parsed, forwarded, to_request, builder_of_parser}
use easyprospect_service.Proxy.Headers.{Relays, forwarded-Relays}
use easyprospect_service.Proxy.Session.{
  Put, Parser, Event, read_some, written, no_error, new_session, run,
}
use easyprospect_service.Downstream
use easyprospect_service.Downstream.Serve
use easyprospect_service.Downstream.{Backend, empty_downstream}
use easyprospect_service.Downstream.Serve.{Net, sent, returned}
use easyprospect_service.Proxy.Relay.{relay, new_relay}
use easyprospect_service.Proxy.Answers.{session-answered}
use easyprospect_service.Proxy.Packages.{Sends, bodies}
use easyprospect_service.Proxy.Body.{CopiesBody, all_header_octets, all_bytes_read, run-Forwards}

abbrev upload : Parsed
upload = record {
  content_length = some 3;
  method = "POST";
  target = "/upload";
  fields = ("Host", "example.org") ∷ ("X-Tag", "one") ∷ ("x-tag", "two") ∷ [];
}

abbrev uuid_string : ℕ → String
uuid_string n = "00000000-0000-0000-0000-000000000007"

abbrev any_verb : String → Bool
any_verb m = true

forwarded-Relays_example :
    Relays uuid_string any_verb "POST" "/upload" upload.fields 7
      (forwarded uuid_string any_verb (to_request (builder_of_parser 7 0 upload false true)))
forwarded-Relays_example = forwarded-Relays uuid_string any_verb 7 upload false true

-- A parser of messages with a header of two octets; it holds whether it has the header, and how many
-- octets of the body are left.
record Counter : Type 0 where
  has_header : Bool
  left : ℕ

abbrev at_most : ℕ → ℕ → ℕ
at_most m n = if leb m n then m else n

at_most_lem : (m n : ℕ) → (at_most m n ≤ m) × (at_most m n ≤ n)
at_most_lem m n = (ground arith, ground arith)

abbrev takes : Counter → List ℕ → ℕ
takes p xs = at_most (length xs) (at_most p.left 4096)

abbrev put_counter : Counter → List ℕ → Put Counter
put_counter p xs =
    if p.has_header
    then record {
      parser = record p { left = p.left - takes p xs };
      processed = takes p xs;
      body = take (takes p xs) xs;
    }
    else record { parser = record p { has_header = true }; processed = 2; body = [] }

abbrev counter : Parser Counter
counter = record {
  fresh = record { has_header = false; left = 3 };
  put = put_counter;
  is_header_done = λ p. p.has_header;
  is_done = λ p. p.has_header && (p.left == 0);
  message = λ p. upload;
  is_upgrade = λ p. false;
}

counter-CopiesBody : CopiesBody counter
counter-CopiesBody = record {
  copies = λ p xs h. rw h refl;
  bounded = λ p xs h. rw h ((at_most_lem (length xs) (at_most p.left 4096)).0);
  fits = λ p xs h. rw h (
      omega
        (arith, (at_most_lem (length xs) (at_most p.left 4096)).1, (at_most_lem p.left 4096).1));
  stays = λ p xs h. rw h refl;
}

abbrev pieces : List (Event Counter)
pieces =
    read_some (1 ∷ 2 ∷ 3 ∷ []) 7
    ∷ read_some (4 ∷ []) 0
    ∷ read_some (5 ∷ 6 ∷ []) 0
    ∷ written no_error false
    ∷ []

-- The part of the body that came with the header waits for the next read; what follows the end is
-- not taken.
pieces_forwarded : bodies (run counter pieces (new_session counter true)).sent ≡ 3 ∷ 4 ∷ 5 ∷ []
unfolding run new_session
pieces_forwarded = refl

run-Forwards_example :
    let s = new_session counter true in
    let t = run counter pieces s in
    Sends t.stage t.current_req t.sent
    × (all_header_octets counter pieces s ++ (bodies t.sent ++ t.storage)
        ≡ all_bytes_read counter pieces s)
run-Forwards_example = run-Forwards counter counter-CopiesBody pieces

-- A worker that answers the request.
abbrev answers_ok : ℕ → Net String
answers_ok n = record { resolved = true; connected = true; written = true; read = some "ok" }

abbrev one_backend : Backend
one_backend = record { name = "be1"; address = "127.0.0.1"; port = "9101" }

abbrev one_pool : Downstream.Downstream
one_pool = record empty_downstream { connections = [] ∷ []; backends = one_backend ∷ [] }

session-answered_example :
    let s = run counter pieces (new_session counter true) in
    (relay (λ n. n) answers_ok s.sent (new_relay one_pool)).answers
    ≡ returned ∷ returned ∷ sent "ok" ∷ []
unfolding run new_session Serve.answer_of
session-answered_example =
    session-answered (λ n. n) answers_ok counter pieces one_pool counter-CopiesBody (λ n. refl)
      (record { con = []; backend = one_backend; pool = refl; entry = refl })
