-- ===== src/Tests/Channels.antt =====
-- Channels at concrete sessions and messages.
use easyprospect_service.Prelude.{
  ℕ, ◌+◌, ◌≡◌, refl, ◌⊎◌, true, false, Option, none, some, List, [], ◌∷◌, String, if◌then◌else◌,
  ◌==◌, arith,
}
use easyprospect_service.Prelude.Int.{pos}
use easyprospect_service.Json.{
  Json, null, integer, string, object, end, field, lookup, get_int, get_string, to_int32,
}
use text.Mathlib.Text.{◌==◌ as str_eq}
use easyprospect_service.Rpc.{
  RpcCall, RpcError, empty_call, Float, two, other, extract, extract_version, extract_method,
  extract_params, check_id, returned,
}
use easyprospect_service.Channels.{room, table, World, Site, Job, failed, done, insert, erase}
use easyprospect_service.Channels.Dispatch.{do_say, job_of, table_dispatch}
use easyprospect_service.Channels.Hub.{Hub, undefined, first_channels, receive, receive_all}
use easyprospect_service.Channels.Answers.{answers}
use easyprospect_service.Channels.Receive.{went_on, receive-answers}
use easyprospect_service.Channels.Kept.{Grew}
use easyprospect_service.Channels.History.{IsGood, receive_all-IsGood, receive_all-Grew}
use easyprospect_service.Channels.Deliver.{hears, Said, Unfit, do_say-Said}
use easyprospect_service.Channels.Members.{Inserted, Erased, insert-erase-members}
use easyprospect_service.Channels.Deaf.{table_dispatch_deafens}

abbrev read_two : String → Option Float
read_two s = if str_eq s "2.0" then some two else some other

abbrev say_request : Json
say_request = object (
    field "jsonrpc" (string "2.0") (
      field "id" (integer (pos 7)) (
        field "method" (string "say") (
          field "params"
            (object (field "cid" (integer (pos 2)) (field "message" (string "hello") end))) end))))

-- The parser of the tests.
abbrev read_text : String → Option Json
read_text s = if str_eq s "say" then some say_request else none

abbrev say_call : RpcCall
say_call = record {
  id = some (pos 7);
  version = 2;
  method = "say";
  params = object (field "cid" (integer (pos 2)) (field "message" (string "hello") end));
  result = null;
}

abbrev new_world : World
new_world = record {
  names = λ u. "";
  alive = λ s. true;
  moved = λ s. false;
  outbox = [];
  asked = [];
  posted = [];
}

abbrev new_hub : Hub
new_hub = record { channels = first_channels; world = new_world }

extracted_say : extract read_two say_request empty_call ≡ returned say_call none
unfolding extract extract_version check_id extract_method extract_params empty_call lookup get_int
    get_string to_int32
extracted_say = refl

receive-answers_example :
    answers (receive read_two read_text 5 "say" new_hub).0.world
    ≡ 0 + went_on (receive read_two read_text 5 "say" new_hub).1
receive-answers_example =
    receive-answers read_two read_text 5 7 "say" new_hub say_request say_call none refl
      extracted_say refl

abbrev two_messages : List (ℕ × String)
two_messages = (5, "say") ∷ (6, "other") ∷ []

receive_all-IsGood_example : IsGood (receive_all read_two read_text two_messages new_hub)
receive_all-IsGood_example =
    receive_all-IsGood read_two read_text two_messages new_world (λ u. refl)

abbrev named_world : World
named_world = record new_world {
  names = λ u. if u == 5 then "Ann" else if u == 6 then "Bob" else "";
}

abbrev named_hub : Hub
named_hub = record new_hub { world = named_world }

receive_all-Grew_example :
    Grew named_hub.world (receive_all read_two read_text two_messages named_hub).world
receive_all-Grew_example = receive_all-Grew read_two read_text two_messages named_hub

abbrev lobby : Site
lobby = record {
  channel = record { kind = room; cid = 2; name = "General"; sessions = 5 ∷ 8 ∷ [] };
  world = named_world;
}

do_say-Said_example :
    (Unfit say_call 5 5 lobby × ((e : RpcError) × (do_say say_call 5 5 lobby ≡ (lobby, failed e))))
    ⊎ ((text : String) × Said say_call 5 5 text lobby (do_say say_call 5 5 lobby).0
        × ((do_say say_call 5 5 lobby).1 ≡ done))
do_say-Said_example = do_say-Said say_call 5 5 lobby refl

insert-erase-members_example :
    Inserted 6 5 lobby (insert 6 6 lobby) × Erased 6 5 lobby (erase 6 6 lobby)
insert-erase-members_example = insert-erase-members 6 6 5 lobby ((omega arith, tt), (tt, tt))

abbrev bet_call : RpcCall
bet_call = record say_call { method = "bet" }

abbrev blackjack : Site
blackjack = record lobby {
  channel = record { kind = table; cid = 3; name = "Blackjack"; sessions = 5 ∷ [] };
}

bet_job : job_of bet_call.method ≡ some Job.bet
unfolding job_of
bet_job = refl

abbrev after_bet : Hub
after_bet = record new_hub { world = (table_dispatch bet_call 5 5 blackjack).0.world }

table_dispatch_deafens_example :
    (after_bet.world.names 5 ≡ "")
    × (hears (receive_all read_two read_text two_messages after_bet).world 5 ≡ false)
    × ((text : String) (jv : Json) (next : RpcCall)
        → read_text text ≡ some jv
        → extract read_two jv empty_call ≡ returned next none
        → receive read_two read_text 5 text (receive_all read_two read_text two_messages after_bet)
          ≡ (receive_all read_two read_text two_messages after_bet, undefined))
table_dispatch_deafens_example =
    table_dispatch_deafens read_two read_text bet_call 5 5 blackjack Job.bet after_bet two_messages
      bet_job refl
