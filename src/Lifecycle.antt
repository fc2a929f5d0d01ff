-- ===== src/Lifecycle.antt =====
-- How the worker stops: `shutdown`, `on_timer`, `on_signal` and `stop` of
-- include/easyprospect-web-worker/worker-server-app.h. They all run on the strand of the timer; the
-- proxy has the same code in src/easyprospect-web/server.cpp, without the announcement.
-- A time is a number of nanoseconds, and the clock does not overflow.
pub mod Countdown
pub mod InTime
use easyprospect_service.Prelude.{
  ℕ, ◌+◌, ◌-◌, ◌*◌, ◌/◌, Bool, true, false, Option, none, some, List, [], ◌∷◌, ◌++◌, ltb, ◌==◌,
  if◌then◌else◌,
}

-- `expiry` is `none` at `never()`; `waiting` says if `on_timer` waits for the timer, and
-- `capturing` if `on_signal` waits for a signal; `said` lists the seconds that were announced.
pub record Server : Type 0 where
  pub shutdown_time : Option ℕ
  pub expiry : Option ℕ
  pub waiting : Bool
  pub capturing : Bool
  pub stopped : Bool
  pub said : List ℕ

-- The constructor, and `run` up to the wait for `stop_`.
abbrev pub running_server : Server
running_server = record {
  shutdown_time = none;
  expiry = none;
  waiting = false;
  capturing = true;
  stopped = false;
  said = [];
}

abbrev pub second : ℕ
second = 1000000000

-- `ceil<seconds>`: the seconds until `t`, rounded up; a time that has passed is 0 here.
unfoldable pub ceil_seconds : ℕ → ℕ
ceil_seconds d = let t = d / second in if ltb (t * second) d then t + 1 else t

-- `on_timer` only runs once `shutdown_time_` is set; before that it is `never()`.
unfoldable pub remain : ℕ → Server → Option ℕ
unfolding ceil_seconds
remain now v = elim v.shutdown_time [ none ↦ none | some t ↦ some (ceil_seconds (t - now)) ]

-- `stop`
unfoldable pub stop : Server → Server
stop v = if v.stopped then v else record v { stopped = true; waiting = false; capturing = false }

abbrev pub at_most_10 : ℕ → ℕ
at_most_10 n = if ltb 10 n then 10 else n

-- `on_timer` without an error.
unfoldable pub announce : ℕ → ℕ → Server → Server
announce now left v = record v {
  said = v.said ++ left ∷ [];
  expiry = some (now + at_most_10 left * second);
  waiting = true;
}

unfoldable pub on_remain : ℕ → Option ℕ → Server → Server
unfolding stop announce
on_remain now none v = v
on_remain now (some left) v = if left == 0 then stop v else announce now left v

unfoldable pub on_timer : ℕ → Server → Server
unfolding remain on_remain
on_timer now v = on_remain now (remain now v) v

-- `shutdown`, by the expiry of the timer.
unfoldable pub begin : Option ℕ → ℕ → ℕ → Server → Server
unfolding on_timer
begin (some t) now cooldown v = v
begin none now cooldown v =
    on_timer now (record v { shutdown_time = some (now + cooldown * second) })

unfoldable pub shutdown : ℕ → ℕ → Server → Server
unfolding begin
shutdown now cooldown v = begin v.expiry now cooldown v

-- `on_signal` without an error: a signal that was waited for ends the wait.
unfoldable pub signalled : Option ℕ → ℕ → Server → Server
unfolding shutdown stop
signalled none now v = shutdown now 30 (record v { capturing = true })
signalled (some t) now v = stop v

unfoldable pub on_signal : ℕ → Server → Server
unfolding signalled
on_signal now v = signalled v.expiry now v

-- What happens on the strand, each at a time.
pub data Event : Type 0 where
  asked_shutdown : (cooldown : ℕ) → Event
  asked_stop : Event
  timer : Event
  signal : Event

-- An event that nothing waits for does nothing; a wait that was cancelled ends in `on_timer` or
-- `on_signal` with `operation_aborted`, which returns.
unfoldable pub step : ℕ → Event → Server → Server
unfolding shutdown stop on_timer on_signal
step now (asked_shutdown cooldown) v = shutdown now cooldown v
step now asked_stop v = stop v
step now timer v = if v.waiting then on_timer now (record v { waiting = false }) else v
step now signal v = if v.capturing then on_signal now (record v { capturing = false }) else v

unfoldable pub run : List (ℕ × Event) → Server → Server
unfolding step
run [] v = v
run ((now, e) ∷ es) v = run es (step now e v)
