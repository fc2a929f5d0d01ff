-- ===== src/WsSession/SendQueue/Order.antt =====
-- In which order the messages that wait behind a write are written.
use mathlib.Core.List.{
  reverse, reverse-cons, reverse-append, reverse-reverse, append_assoc, append-nil,
}
use easyprospect_service.Prelude.{
  map, suc, ◌+◌, ◌-◌, ◌≡◌, refl, sym, ap, ◌∙◌, Bool, true, false, none, some, List, [], ◌∷◌, ◌++◌,
  arith, ◌==◌, length, get_elem?, set, take, replicate, length-append,
}
use easyprospect_service.WsSession.SendQueue.{
  Queue, written, do_write, do_send, enqueue, empty, Event, send, swap, remove, write_next,
  on_write, step, run,
}

module _ {ℓ} {A : Type ℓ} where
  length-reverse : (xs : List A) → length (reverse xs) ≡ length xs
  length-reverse [] = refl
  length-reverse (x ∷ xs) =
      omega (
        arith,
        ap length (reverse-cons x xs),
        length-append (reverse xs) (x ∷ []),
        length-reverse xs,
      )

  take-append_length : (xs ys : List A) → take (length xs) (xs ++ ys) ≡ xs
  take-append_length [] ys = refl
  take-append_length (x ∷ xs) ys = ap (◌∷◌ x) (take-append_length xs ys)

  get_elem?-append_length : (xs ys : List A) (y : A) → get_elem? (xs ++ y ∷ ys) (length xs) ≡ some y
  get_elem?-append_length [] ys y = refl
  get_elem?-append_length (x ∷ xs) ys y = get_elem?-append_length xs ys y

  set-append_length : (xs ys : List A) (y v : A) → set (xs ++ y ∷ ys) (length xs) v ≡ xs ++ v ∷ ys
  set-append_length [] ys y v = refl
  set-append_length (x ∷ xs) ys y v = ap (◌∷◌ x) (set-append_length xs ys y v)

  -- The queue once `do_write` has started on the last message.
  abbrev at_last : Bool → List A → List A → Queue A
  at_last o [] done = record { is_open = o; mq = []; in_flight = none; sent = done }
  at_last o (y ∷ rs) done = record {
    is_open = o;
    mq = reverse rs ++ y ∷ [];
    in_flight = some (length rs, y);
    sent = done;
  }

  snoc-last : (xs : List A) (y : A) → length (xs ++ y ∷ []) - 1 ≡ length xs
  snoc-last xs y = omega (arith, length-append xs (y ∷ []))

  do_write-snoc :
      (o : Bool) (xs : List A) (y : A) (done : List A)
      → do_write (record { is_open = o; mq = xs ++ y ∷ []; in_flight = none; sent = done })
        ≡ record { is_open = o; mq = xs ++ y ∷ []; in_flight = some (length xs, y); sent = done }
  unfolding do_write
  do_write-snoc o xs y done =
      let last : get_elem? (xs ++ y ∷ []) (length (xs ++ y ∷ []) - 1) ≡ some y =
        rw (snoc-last xs y) (get_elem?-append_length xs [] y) in
      rw (last, do_write)
        (ap (λ k. record { is_open = o; mq = xs ++ y ∷ []; in_flight = some (k, y); sent = done })
          (snoc-last xs y))

  write_next-snoc :
      (o : Bool) (xs : List A) (y : A) (done : List A)
      → write_next (record { is_open = o; mq = xs ++ y ∷ []; in_flight = none; sent = done })
        ≡ record { is_open = o; mq = xs ++ y ∷ []; in_flight = some (length xs, y); sent = done }
  unfolding write_next
  write_next-snoc o [] y done = do_write-snoc o [] y done
  write_next-snoc o (x ∷ xs) y done = do_write-snoc o (x ∷ xs) y done

  write_next-at_last :
      (o : Bool) (rs done : List A)
      → write_next (record { is_open = o; mq = reverse rs; in_flight = none; sent = done })
        ≡ at_last o rs done
  unfolding write_next do_write
  write_next-at_last o [] done = refl
  write_next-at_last o (y ∷ rs) done =
      rw (reverse-cons y rs, ← length-reverse rs) (write_next-snoc o (reverse rs) y done)

  remove-snoc : (xs : List A) (y : A) → remove (xs ++ y ∷ []) (length xs) ≡ xs
  unfolding remove
  remove-snoc xs y =
      let same : (length xs == length xs) ≡ true = ground arith in
      rw (snoc-last xs y, same, remove) (take-append_length xs (y ∷ []))

  step-at_last :
      (o : Bool) (y : A) (rs done : List A)
      → step (at_last o (y ∷ rs) done) (written false) ≡ at_last o rs (done ++ y ∷ [])
  unfolding step on_write remove
  step-at_last o y rs done =
      rw (← length-reverse rs, remove-snoc (reverse rs) y)
        (write_next-at_last o rs (done ++ y ∷ []))

  run-at_last :
      (o : Bool) (rs done : List A)
      → run (at_last o rs done) (replicate (length rs) (written false)) ≡ at_last o [] (done ++ rs)
  unfolding run
  run-at_last o [] done = rw (append-nil done) refl
  run-at_last o (y ∷ rs) done =
      rw (step-at_last o y rs done, run)
        (run-at_last o rs (done ++ y ∷ []) ∙ ap (at_last o []) (append_assoc done (y ∷ []) rs))

  swap-first :
      (m z : A) (ms : List A) → swap (m ∷ (ms ++ z ∷ [])) 0 (suc (length ms)) ≡ z ∷ (ms ++ m ∷ [])
  unfolding swap
  swap-first m z ms =
      rw (get_elem?-append_length ms [] z, swap) (ap (◌∷◌ z) (set-append_length ms [] z m))

  remove-first : (m z : A) (ms : List A) → remove (m ∷ (ms ++ z ∷ [])) 0 ≡ z ∷ ms
  unfolding remove
  remove-first m z ms =
      let last : suc (length (ms ++ z ∷ [])) - 1 ≡ suc (length ms) =
        omega (arith, length-append ms (z ∷ [])) in
      let other : (0 == suc (length ms)) ≡ false = ground arith in
      rw (last, other, remove, swap-first m z ms) (take-append_length (z ∷ ms) (m ∷ []))

  step-first :
      (o : Bool) (m z : A) (ms done : List A)
      → step
          (record { is_open = o; mq = m ∷ (ms ++ z ∷ []); in_flight = some (0, m); sent = done })
          (written false)
        ≡ at_last o (reverse ms ++ z ∷ []) (done ++ m ∷ [])
  unfolding step on_write
  step-first o m z ms done =
      let rs = reverse ms ++ z ∷ [] in
      let back : reverse rs ≡ z ∷ ms =
        reverse-append (reverse ms) (z ∷ []) ∙ ap (◌∷◌ z) (reverse-reverse ms) in
      ap
        (λ xs.
          write_next (record { is_open = o; mq = xs; in_flight = none; sent = done ++ m ∷ [] }))
        (remove-first m z ms ∙ sym back)
      ∙ write_next-at_last o rs (done ++ m ∷ [])

  run-finish :
      (o : Bool) (m z : A) (ms done : List A)
      → run
          (record { is_open = o; mq = m ∷ (ms ++ z ∷ []); in_flight = some (0, m); sent = done })
          (replicate (length ms + 2) (written false))
        ≡ at_last o [] (done ++ m ∷ (reverse ms ++ z ∷ []))
  unfolding run
  run-finish o m z ms done =
      let rs = reverse ms ++ z ∷ [] in
      let count : length ms + 2 ≡ suc (length rs) =
        omega (arith, length-append (reverse ms) (z ∷ []), length-reverse ms) in
      rw (count, run, step-first o m z ms done)
        (run-at_last o rs (done ++ m ∷ []) ∙ ap (at_last o []) (append_assoc done (m ∷ []) rs))

  step-send :
      (m y : A) (xs : List A)
      → step (record { is_open = true; mq = m ∷ xs; in_flight = some (0, m); sent = [] }) (send y)
        ≡ record { is_open = true; mq = m ∷ (xs ++ y ∷ []); in_flight = some (0, m); sent = [] }
  unfolding step do_send enqueue
  step-send m y xs =
      let more : (suc (length (xs ++ y ∷ [])) == 1) ≡ false =
        ground (arith, length-append xs (y ∷ [])) in
      rw more refl

  step-empty :
      (m : A)
      → step empty (send m)
        ≡ record { is_open = true; mq = m ∷ []; in_flight = some (0, m); sent = [] }
  unfolding empty step do_send enqueue do_write
  step-empty m = refl

  run-sends :
      (m : A) (xs ys : List A) (es : List (Event A))
      → run
          (record { is_open = true; mq = m ∷ xs; in_flight = some (0, m); sent = [] })
          (map send ys ++ es)
        ≡ run
            (record { is_open = true; mq = m ∷ (xs ++ ys); in_flight = some (0, m); sent = [] })
            es
  unfolding run
  run-sends m xs [] es = rw (append-nil xs) refl
  run-sends m xs (y ∷ ys) es =
      rw (step-send m y xs, run)
        (rw (run-sends m (xs ++ y ∷ []) ys es, append_assoc xs (y ∷ []) ys) refl)

  -- Messages sent in the order `m`, `ms`, `z` before the first write has ended are written, once the
  -- writes end without an error, in another order: `m`, then `ms` in reverse, then `z`.
  pub run-reverses :
      (m z : A) (ms : List A)
      → (run empty
          (map send (m ∷ (ms ++ z ∷ [])) ++ replicate (length ms + 2) (written false))).sent
        ≡ m ∷ (reverse ms ++ z ∷ [])
  unfolding run
  run-reverses m z ms =
      rw
        (
          run,
          step-empty m,
          run-sends m [] (ms ++ z ∷ []) (replicate (length ms + 2) (written false)),
          run-finish true m z ms [],
        )
        refl
