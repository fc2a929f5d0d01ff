-- ===== src/Tests/Service.antt =====
-- The life cycle, the listeners and the control messages at concrete inputs.
use easyprospect_service.Prelude.{
  ℕ, ◌+◌, ◌<◌, ◌≤◌, ◌≡◌, refl, Bool, true, false, Option, none, some, List, [], ◌∷◌, String, arith,
  ltb, take, if◌then◌else◌,
}
use easyprospect_service.Prelude.Int.{ℤ, pos, negsuc}
use easyprospect_service.Lifecycle.{Server, running_server, shutdown, step, asked_shutdown, timer}
use easyprospect_service.Lifecycle.Countdown.{fires, shutdown-stops}
use easyprospect_service.Lifecycle.InTime.{step-in_time}
use easyprospect_service.Listener.{
  Conf, empty_conf, Listener, make_listener, open_range, answer, threw, parse_args,
}
use easyprospect_service.Listener.Parse.{Reads, parse_args-Reads}
use easyprospect_service.Listener.Open.{bound_to, open_range-least}
use easyprospect_service.Control.{
  cmd_stop, Base, stop_message, Value, int, dict, entry, none_left, base_entries, other_entries,
  pack, type_code, type_of_code,
}
use easyprospect_service.Control.Unpack.{message, process_input}
use easyprospect_service.Control.RoundTrip.{InRange, sends_stop, pack-process_input}
use easyprospect_service.Http.{Request, get, handle_request, opened, missing, FileResult}
use easyprospect_service.Http.Answer.{FitsAnswer, handle_request-Fits}
use text.Mathlib.Text.{◌==◌ as str_eq}
use Prim.Native.String.{◌++◌}

shutdown-stops_example : (fires (0 ∷ 500 ∷ 0 ∷ []) (shutdown 1000 30 running_server)).stopped ≡ true
shutdown-stops_example =
    shutdown-stops 1000 30 (0 ∷ 500 ∷ 0 ∷ []) running_server refl (omega arith) (omega arith)

-- A server that was asked at 0 to stop within 30 seconds.
abbrev stopping : Server
stopping = record running_server {
  shutdown_time = some 30000000000;
  expiry = some 10000000000;
  waiting = true;
  said = 30 ∷ [];
}

step-in_time_example :
    (step 10000000000 (asked_shutdown 5) stopping ≡ stopping)
    × ((step 10000000000 timer stopping).shutdown_time ≡ some 30000000000)
    × (10000000000 < 30000000000 → (step 10000000000 timer stopping).stopped ≡ false)
step-in_time_example = step-in_time 10000000000 30000000000 10000000000 5 stopping refl refl

abbrev arguments : List String
arguments = "name=web" ∷ "port=8080" ∷ "kind=no_tls" ∷ "port=8081" ∷ []

parse_args-Reads_example :
    (4 < 3 → parse_args arguments ≡ none)
    × (((n : ℕ) × (4 ≡ n + 3))
        → (d : Conf) × (parse_args arguments ≡ some d) × Reads arguments empty_conf d)
parse_args-Reads_example = parse_args-Reads arguments

-- Only ports above 8000 are free.
abbrev free_port : ℤ → Bool
free_port (pos n) = ltb 8000 n
free_port (negsuc n) = false

abbrev listener : Listener
listener = make_listener empty_conf

listener_is_shut : listener.is_open ≡ false
unfolding make_listener
listener_is_shut = refl

open_range-least_example :
    (true ≡ true
      → free_port (pos 8000) ≡ true
      → open_range true free_port (λ b. true) (pos 8000) (pos (8000 + 10)) listener
        ≡ (bound_to true free_port (λ b. true) (pos 8000) listener, answer true))
    × (free_port (pos 8000) ≡ false
        → (open_range true free_port (λ b. true) (pos 8000) (pos (8000 + 10)) listener).1 ≡ threw)
open_range-least_example =
    open_range-least true free_port (λ b. true) 8000 10 listener listener_is_shut (omega arith)
      (omega arith)

abbrev stop_base : Base
stop_base = record {
  type = cmd_stop;
  pid = pos 4711;
  port = pos 0;
  id1 = 17;
  id2 = 18;
  current_time = pos 1600000000000;
}

stop_base-InRange : InRange stop_base
unfolding type_code type_of_code
stop_base-InRange = record {
  type = refl;
  known = refl;
  pid = refl;
  port = refl;
  id1 = omega arith;
  id2 = omega arith;
  current_time = refl;
}

-- What msgpack reads from the bytes of the stop message.
abbrev unpack_stop : List ℕ → Option Value
unpack_stop bytes = some (
    dict (
      entry "type" (int (pos 5)) (
        entry "pid" (int (pos 4711)) (
          entry "port" (int (pos 0)) (
            entry "id1" (int (pos 17)) (
              entry "id2" (int (pos 18))
                (entry "current_time" (int (pos 1600000000000)) none_left)))))))

packed_stop : pack (stop_message stop_base) ≡ unpack_stop []
unfolding pack base_entries other_entries type_code
packed_stop = refl

pack-process_input_example :
    (v : Value) × (pack (stop_message stop_base) ≡ some v)
    × ((bytes : List ℕ) (n : ℕ)
        → 1 ≤ n
        → unpack_stop (take n bytes) ≡ some v
        → process_input stop_base cmd_stop (pos 0) unpack_stop bytes n
          ≡ message (stop_message stop_base))
pack-process_input_example =
    pack-process_input stop_base cmd_stop (pos 0) unpack_stop (stop_message stop_base)
      (message (stop_message stop_base)) stop_base-InRange (sends_stop stop_base refl)

abbrev join_slash : String → String → String
join_slash a b = a ++ b

abbrev one_file : String → FileResult
one_file p = if str_eq p "/www/a.html" then opened 12 else missing

abbrev get_page : Request
get_page = record { method = get; target = "/a.html"; version = 11; keep_alive = true }

handle_request-Fits_example :
    FitsAnswer join_slash one_file "/www" [] none get_page
      (handle_request join_slash one_file "/www" [] none get_page)
handle_request-Fits_example = handle_request-Fits join_slash one_file "/www" [] none get_page
