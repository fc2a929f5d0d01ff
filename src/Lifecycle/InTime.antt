-- ===== src/Lifecycle/InTime.antt =====
-- A server does not stop before its time, and once it has stopped it stays so.
use easyprospect_service.Prelude.{
  subst, sym, if-both, ℕ, ◌+◌, ◌-◌, ◌*◌, ◌<◌, ◌≡◌, refl, ap, ◌∙◌, true, false, Option, none, some,
  List, [], ◌∷◌, ◌==◌, if◌then◌else◌, arith,
}
use easyprospect_service.Lifecycle.{
  Server, second, ceil_seconds, remain, on_remain, stop, announce, on_timer, begin, shutdown,
  signalled, on_signal, Event, asked_shutdown, asked_stop, timer, signal, step, run,
}
use easyprospect_service.Lifecycle.Countdown.{
  ceil_seconds-zero, remain-some, on_timer-stopped, stop-stopped, unwait,
}

early :
    (now t : ℕ) (v : Server)
    → v.shutdown_time ≡ some t
    → now < t
    → (on_timer now v).stopped ≡ v.stopped
unfolding on_timer on_remain announce
early now t v e lt =
    let left = ceil_seconds (t - now) in
    let some_left : (left == 0) ≡ false = ground (arith, ceil_seconds-zero (t - now)) in
    subst (λ r. (on_remain now r v).stopped ≡ v.stopped) (sym (remain-some now t v e))
      (ap (λ b. (if b then stop v else announce now left v).stopped) some_left)

on_timer-shutdown_time : (now : ℕ) (v : Server) → (on_timer now v).shutdown_time ≡ v.shutdown_time
unfolding on_timer on_remain announce stop
on_timer-shutdown_time now v = same (remain now v)
  where
    same : (r : Option ℕ) → (on_remain now r v).shutdown_time ≡ v.shutdown_time
    same none = refl
    same (some left) =
        if-both (λ u. u.shutdown_time ≡ v.shutdown_time) (left == 0) {x = stop v}
          {y = announce now left v}
          (if-both (λ u. u.shutdown_time ≡ v.shutdown_time) v.stopped {x = v}
            {y = record v { stopped = true; waiting = false; capturing = false }} refl refl)
          refl

-- Without a signal and without a call of `stop`, a server whose shutdown is under way does not stop
-- before the time it was given, and neither another call of `shutdown` nor the timer moves that time.
pub step-in_time :
    (now t x cooldown : ℕ) (v : Server)
    → v.expiry ≡ some x
    → v.shutdown_time ≡ some t
    → (step now (asked_shutdown cooldown) v ≡ v)
      × ((step now timer v).shutdown_time ≡ some t)
      × (now < t → (step now timer v).stopped ≡ v.stopped)
unfolding step shutdown begin
step-in_time now t x cooldown v e s = (
  ap (λ o. begin o now cooldown v) e,
  if-both (λ u. u.shutdown_time ≡ some t) v.waiting {x = on_timer now (unwait v)} {y = v}
      (on_timer-shutdown_time now (unwait v) ∙ s) s,
  λ lt.
      if-both (λ u. u.stopped ≡ v.stopped) v.waiting {x = on_timer now (unwait v)} {y = v}
        (early now t (unwait v) s lt) refl,
)

shutdown-stopped : (now c : ℕ) (v : Server) → v.stopped ≡ true → (shutdown now c v).stopped ≡ true
unfolding shutdown begin
shutdown-stopped now c v h = stays v.expiry
  where
    stays : (o : Option ℕ) → (begin o now c v).stopped ≡ true
    stays (some y) = h
    stays none = on_timer-stopped now (record v { shutdown_time = some (now + c * second) }) h

on_signal-stopped : (now : ℕ) (v : Server) → v.stopped ≡ true → (on_signal now v).stopped ≡ true
unfolding on_signal signalled
on_signal-stopped now v h = stays v.expiry
  where
    stays : (o : Option ℕ) → (signalled o now v).stopped ≡ true
    stays none = shutdown-stopped now 30 (record v { capturing = true }) h
    stays (some t) = stop-stopped v

step-stopped : (now : ℕ) (e : Event) (v : Server) → v.stopped ≡ true → (step now e v).stopped ≡ true
unfolding step
step-stopped now (asked_shutdown c) v h = shutdown-stopped now c v h
step-stopped now asked_stop v h = stop-stopped v
step-stopped now timer v h =
    if-both (λ u. u.stopped ≡ true) v.waiting {x = on_timer now (unwait v)} {y = v}
      (on_timer-stopped now (unwait v) h) h
step-stopped now signal v h =
    let w : Server = record v { capturing = false } in
    if-both (λ u. u.stopped ≡ true) v.capturing {x = on_signal now w} {y = v}
      (on_signal-stopped now w h) h

run-stopped : (es : List (ℕ × Event)) (v : Server) → v.stopped ≡ true → (run es v).stopped ≡ true
unfolding run
run-stopped [] v h = h
run-stopped ((now, e) ∷ es) v h = run-stopped es (step now e v) (step-stopped now e v h)

-- A call of `stop` on the strand stops the server at once and for good, as the second signal does
-- while a shutdown is under way, whatever follows.
stop-final :
    (now x : ℕ) (es : List (ℕ × Event)) (v : Server)
    → v.expiry ≡ some x
    → v.capturing ≡ true
    → ((run ((now, asked_stop) ∷ es) v).stopped ≡ true)
      × ((run ((now, signal) ∷ es) v).stopped ≡ true)
unfolding run step on_signal signalled
stop-final now x es v e c =
    let w : Server = record v { capturing = false } in
    (
      run-stopped es (stop v) (stop-stopped v),
      run-stopped es (step now signal v) (
          subst (λ b. (if b then on_signal now w else v).stopped ≡ true) (sym c)
            (subst (λ o. (signalled o now w).stopped ≡ true) (sym e) (stop-stopped w))),
    )
