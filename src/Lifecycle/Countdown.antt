-- ===== src/Lifecycle/Countdown.antt =====
-- A shutdown ends after finitely many rounds of the timer.
use easyprospect_service.Prelude.{
  subst, sym, if-both, ℕ, zero, suc, ◌+◌, ◌-◌, ◌*◌, ◌≤◌, ◌<◌, ◌≡◌, refl, ap, ◌∙◌, ◌⊎◌, inl, inr,
  true, false, Option, none, some, List, [], ◌∷◌, ltb, ◌==◌, if◌then◌else◌, arith, length,
  Bool-cases,
}
use easyprospect_service.Lifecycle.{
  Server, second, ceil_seconds, remain, on_remain, stop, at_most_10, announce, on_timer, begin,
  shutdown, timer, step,
}

ceil_seconds_bounds :
    (d : ℕ) → (d ≤ ceil_seconds d * second) × (ceil_seconds d * second < d + second)
unfolding ceil_seconds
ceil_seconds_bounds d = ground arith

-- The timer fires, late by `d`.
unfoldable pub fire_at : Option ℕ → ℕ → Server → Server
unfolding step
fire_at none d v = v
fire_at (some x) d v = step (x + d) timer v

unfoldable pub fire : ℕ → Server → Server
unfolding fire_at
fire d v = fire_at v.expiry d v

unfoldable pub fires : List ℕ → Server → Server
unfolding fire
fires [] v = v
fires (d ∷ ds) v = fires ds (fire d v)

ceil_seconds-le : (d n : ℕ) → d ≤ n * second → ceil_seconds d ≤ n
ceil_seconds-le d n h = omega (arith, ceil_seconds_bounds d)

pub ceil_seconds-zero : (d : ℕ) → ceil_seconds d ≡ 0 → d ≡ 0
ceil_seconds-zero d h = omega (arith, ceil_seconds_bounds d)

-- The server has stopped, or its timer waits and `left` seconds at most are left when it fires.
abbrev Counting : ℕ → ℕ → Server → Type 0
Counting t left v =
    (v.stopped ≡ true)
    ⊎ ((v.shutdown_time ≡ some t)
        × (v.waiting ≡ true)
        × ((x : ℕ) × (v.expiry ≡ some x) × (t ≤ x + left * second)))

announce-Counting :
    (now t n : ℕ) (v : Server)
    → v.shutdown_time ≡ some t
    → t ≤ now + n * second
    → Counting t (n - 10) (announce now (ceil_seconds (t - now)) v)
unfolding announce
announce-Counting now t n v e h =
    let left = ceil_seconds (t - now) in
    let le : left ≤ n = ceil_seconds-le (t - now) n (omega arith) in
    let (up, down) = ceil_seconds_bounds (t - now) in
    inr (e, refl, (now + at_most_10 left * second, refl, within left le up))
  where
    within :
        (left : ℕ)
        → left ≤ n
        → t - now ≤ left * second
        → t ≤ now + at_most_10 left * second + (n - 10) * second
    within left le up = elim (Bool-cases (ltb 10 left)) [
      | inl big ↦ rw (big, at_most_10) (ground arith)
      | inr small ↦ rw (small, at_most_10) (omega arith)
    ]

pub stop-stopped : (v : Server) → (stop v).stopped ≡ true
unfolding stop
stop-stopped v = elim (Bool-cases v.stopped) [
  | inl h ↦
      ap
        (λ b.
          (if b
            then v
            else record v { stopped = true; waiting = false; capturing = false }).stopped)
        h
      ∙ h
  | inr h ↦
      ap
        (λ b.
          (if b
            then v
            else record v { stopped = true; waiting = false; capturing = false }).stopped)
        h
]

pub remain-some :
    (now t : ℕ) (v : Server)
    → v.shutdown_time ≡ some t
    → remain now v ≡ some (ceil_seconds (t - now))
unfolding remain
remain-some now t v e = ap (λ o. elim o [ none ↦ none | some x ↦ some (ceil_seconds (x - now)) ]) e

on_timer-Counting :
    (now t n : ℕ) (v : Server)
    → v.shutdown_time ≡ some t
    → t ≤ now + n * second
    → Counting t (n - 10) (on_timer now v)
unfolding on_timer on_remain
on_timer-Counting now t n v e h =
    let left = ceil_seconds (t - now) in
    subst (λ r. Counting t (n - 10) (on_remain now r v)) (sym (remain-some now t v e))
      (if-both (Counting t (n - 10)) (left == 0) {x = stop v} {y = announce now left v}
        (inl (stop-stopped v)) (announce-Counting now t n v e h))

pub on_timer-stopped : (now : ℕ) (v : Server) → v.stopped ≡ true → (on_timer now v).stopped ≡ true
unfolding on_timer on_remain announce
on_timer-stopped now v h = stays (remain now v)
  where
    stays : (r : Option ℕ) → (on_remain now r v).stopped ≡ true
    stays none = h
    stays (some left) =
        if-both (λ u. u.stopped ≡ true) (left == 0) {x = stop v} {y = announce now left v}
          (stop-stopped v) h

abbrev pub unwait : Server → Server
unwait v = record v { waiting = false }

fire-stopped : (d : ℕ) (v : Server) → v.stopped ≡ true → (fire d v).stopped ≡ true
unfolding fire fire_at step
fire-stopped d v h = stays v.expiry
  where
    stays : (o : Option ℕ) → (fire_at o d v).stopped ≡ true
    stays none = h
    stays (some x) =
        if-both (λ u. u.stopped ≡ true) v.waiting {x = on_timer (x + d) (unwait v)} {y = v}
          (on_timer-stopped (x + d) (unwait v) h) h

fires-stopped : (ds : List ℕ) (v : Server) → v.stopped ≡ true → (fires ds v).stopped ≡ true
unfolding fires
fires-stopped [] v h = h
fires-stopped (d ∷ ds) v h = fires-stopped ds (fire d v) (fire-stopped d v h)

fire-Counting : (d t n : ℕ) (v : Server) → Counting t n v → Counting t (n - 10) (fire d v)
unfolding fire fire_at step
fire-Counting d t n v (inl h) = inl (fire-stopped d v h)
fire-Counting d t n v (inr (e, w, (x, p, le))) =
    subst (λ o. Counting t (n - 10) (fire_at o d v)) (sym p)
      (subst (λ b. Counting t (n - 10) (if b then on_timer (x + d) (unwait v) else v)) (sym w)
        (on_timer-Counting (x + d) t n (unwait v) e (omega arith)))

last_fire : (d t : ℕ) (v : Server) → Counting t 0 v → (fire d v).stopped ≡ true
unfolding fire fire_at step on_timer on_remain
last_fire d t v (inl h) = fire-stopped d v h
last_fire d t v (inr (e, w, (x, p, le))) =
    let past : ceil_seconds (t - (x + d)) ≡ 0 =
      omega (arith, ceil_seconds-le (t - (x + d)) 0 (omega arith)) in
    subst (λ o. (fire_at o d v).stopped ≡ true) (sym p)
      (subst (λ b. (if b then on_timer (x + d) (unwait v) else v).stopped ≡ true) (sym w)
        (subst (λ r. (on_remain (x + d) r (unwait v)).stopped ≡ true)
          (sym (remain-some (x + d) t (unwait v) e ∙ ap some past)) (stop-stopped (unwait v))))

fires-Counting :
    (ds : List ℕ) (t n : ℕ) (v : Server)
    → Counting t n v
    → n + 10 ≤ 10 * length ds
    → (fires ds v).stopped ≡ true
unfolding fires
fires-Counting [] t n v c h = absurd (omega arith)
fires-Counting (d ∷ ds) t zero v c h = fires-stopped ds (fire d v) (last_fire d t v c)
fires-Counting (d ∷ ds) t (suc n) v c h =
    fires-Counting ds t (suc n - 10) (fire d v) (fire-Counting d t (suc n) v c) (omega arith)

shutdown-none :
    (now c : ℕ) (v : Server)
    → v.expiry ≡ none
    → shutdown now c v ≡ on_timer now (record v { shutdown_time = some (now + c * second) })
unfolding shutdown begin
shutdown-none now c v e = ap (λ o. begin o now c v) e

-- A shutdown ends: once it is asked for with a cooldown of `c` seconds, the server has stopped when
-- the timer has fired at least once and at least `c / 10` times, rounded up, however late it fires.
pub shutdown-stops :
    (now c : ℕ) (ds : List ℕ) (v : Server)
    → v.expiry ≡ none
    → 1 ≤ length ds
    → c ≤ 10 * length ds
    → (fires ds (shutdown now c v)).stopped ≡ true
shutdown-stops now c ds v e one h =
    let asked : Server = record v { shutdown_time = some (now + c * second) } in
    rw (shutdown-none now c v e) (
      fires-Counting ds (now + c * second) (c - 10) (on_timer now asked)
        (on_timer-Counting now (now + c * second) c asked refl (omega arith)) (omega arith))
