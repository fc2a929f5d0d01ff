-- ===== src/WsSession/SendQueue/Conserve.antt =====
-- No message is lost or doubled, and one write at most is in flight.
use mathlib.Core.List.{Perm, perm_append_comm, append_assoc, append-nil}
use mathlib.Core.List.Perm
use easyprospect_service.Prelude.{
  ℕ, zero, suc, ◌-◌, ◌<◌, ◌≡◌, refl, ap, subst, ◌∙◌, ◌⊎◌, inl, inr, ◌≢◌, Bool, true, false, Option,
  none, some, List, [], ◌∷◌, ◌++◌, arith, ◌==◌, if◌then◌else◌, Bool-cases, ==_iff, Option-cases,
  length, get_elem?, set, take, length-set, get_elem?-set_self, get_elem?-set_ne,
}
use easyprospect_service.Prelude.Perms.{set-perm, take-snoc, get_elem?-lt}
use easyprospect_service.WsSession.SendQueue.{
  Queue, Event, send, written, stop, empty, do_write, do_send, enqueue, swap, remove, write_next,
  on_write, step, run, accepted,
}

module _ {ℓ} {A : Type ℓ} where
  -- What is in flight is the message at its index, and a queue is empty or being written unless a
  -- write has failed.
  abbrev pub Flight : List A → Option (ℕ × A) → Type ℓ
  Flight mq none = Unit
  Flight mq (some (i, m)) = get_elem? mq i ≡ some m

  get_elem?-append :
      (xs ys : List A) (i : ℕ) {x : A} → get_elem? xs i ≡ some x → get_elem? (xs ++ ys) i ≡ some x
  get_elem?-append [] ys i h = cc
  get_elem?-append (y ∷ xs) ys zero h = h
  get_elem?-append (y ∷ xs) ys (suc i) h = get_elem?-append xs ys i h

  get_elem?-some : (xs : List A) (i : ℕ) {x : A} → get_elem? xs i ≡ some x → i < length xs
  get_elem?-some [] i h = cc
  get_elem?-some (y ∷ xs) zero h = omega arith
  get_elem?-some (y ∷ xs) (suc i) h = omega (arith, get_elem?-some xs i h)

  do_write-Flight :
      (q : Queue A) → Flight q.mq q.in_flight → Flight (do_write q).mq (do_write q).in_flight
  unfolding do_write
  do_write-Flight q f = elim (Option-cases (get_elem? q.mq (length q.mq - 1))) [
    | inl e ↦ rw (e, do_write) f
    | inr (m, e) ↦ rw (e, do_write) e
  ]

  same-parts : (q : Queue A) → ((do_write q).mq ≡ q.mq) × ((do_write q).sent ≡ q.sent)
  unfolding do_write
  same-parts q = ground arith

  write_next-Flight :
      (q : Queue A) → Flight q.mq q.in_flight → Flight (write_next q).mq (write_next q).in_flight
  unfolding write_next
  write_next-Flight q f = go q.mq refl
    where
      go : (xs : List A) → q.mq ≡ xs → Flight (write_next q).mq (write_next q).in_flight
      go [] e = rw (e, write_next) f
      go (x ∷ xs) e = rw (e, write_next) (do_write-Flight q f)

  write_next-parts : (q : Queue A) → ((write_next q).mq ≡ q.mq) × ((write_next q).sent ≡ q.sent)
  unfolding write_next
  write_next-parts q = ground (arith, same-parts q)

  swap-perm :
      (xs : List A) (i j : ℕ) (x y : A)
      → get_elem? xs i ≡ some x
      → get_elem? xs j ≡ some y
      → Perm (swap xs i j) xs
  unfolding swap
  swap-perm xs i j x y hi hj =
      rw (hi, hj, swap)
        (Perm.cons_inv {a = y} (
          Perm.trans (set-perm (set xs i y) j y x (kept (Bool-cases (i == j))))
            (set-perm xs i x y hi)))
    where
      kept : ((i == j) ≡ true) ⊎ ((i == j) ≡ false) → get_elem? (set xs i y) j ≡ some y
      kept (inl e) = rw (← (==_iff i j).0 e) (get_elem?-set_self xs i y (get_elem?-some xs i hi))
      kept (inr e) = let ne : i ≢ j = ground arith in get_elem?-set_ne xs y ne ∙ hj

  swap-length : (xs : List A) (i j : ℕ) → length (swap xs i j) ≡ length xs
  unfolding swap
  swap-length xs i j = elim (Option-cases (get_elem? xs i)) [
    | inl e ↦ rw (e, swap) refl
    | inr (x, e) ↦ elim (Option-cases (get_elem? xs j)) [
      | inl f ↦ rw (e, f, swap) refl
      | inr (y, f) ↦ rw (e, f, swap) (length-set (set xs i y) j x ∙ length-set xs i y)
    ]
  ]

  swap-last :
      (xs : List A) (i j : ℕ) (x y : A)
      → get_elem? xs i ≡ some x
      → get_elem? xs j ≡ some y
      → get_elem? (swap xs i j) j ≡ some x
  unfolding swap
  swap-last xs i j x y hi hj =
      rw (hi, hj, swap)
        (get_elem?-set_self (set xs i y) j x
          (omega (arith, length-set xs i y, get_elem?-some xs j hj)))

  -- Taking a message out leaves the others.
  pub remove-perm :
      (mq : List A) (i : ℕ) (m : A) → get_elem? mq i ≡ some m → Perm mq (m ∷ remove mq i)
  unfolding remove
  remove-perm mq i m h =
      let last = length mq - 1 in
      let lt = get_elem?-some mq i h in
      let (y, hy) = get_elem?-lt mq last (omega arith) in
      elim (Bool-cases (i == last)) [
        | inl e ↦
            rw (e, remove)
              (Perm.trans
                (Perm_of (take-snoc last mq m (omega arith) (rw ((==_iff i last).0 e) at h)))
                (perm_append_comm (take last mq) (m ∷ [])))
        | inr e ↦
            let ys = swap mq i last in
            rw (e, remove)
              (Perm.trans (Perm.symm (swap-perm mq i last m y h hy)) (
                Perm.trans
                  (Perm_of (
                    take-snoc last ys m (swap-length mq i last ∙ omega arith)
                      (swap-last mq i last m y h hy)))
                  (perm_append_comm (take last ys) (m ∷ []))))
      ]
    where
      Perm_of : {xs ys : List A} → xs ≡ ys → Perm xs ys
      Perm_of {xs} e = rw (← e) (Perm.refl xs)

  append-Flight : (mq : List A) (m : A) (f : Option (ℕ × A)) → Flight mq f → Flight (mq ++ m ∷ []) f
  append-Flight mq m none h = tt
  append-Flight mq m (some (i, x)) h = get_elem?-append mq (m ∷ []) i h

  enqueue-parts :
      (q : Queue A) (m : A)
      → Flight q.mq q.in_flight
      → Flight (enqueue q m).mq (enqueue q m).in_flight
        × ((enqueue q m).mq ≡ q.mq ++ m ∷ [])
        × ((enqueue q m).sent ≡ q.sent)
  unfolding enqueue
  enqueue-parts q m f =
      let r : Queue A = record q { mq = q.mq ++ m ∷ [] } in
      let g : Flight r.mq r.in_flight = append-Flight q.mq m q.in_flight f in
      elim (Bool-cases (length (q.mq ++ m ∷ []) == 1)) [
        | inl e ↦ rw (e, enqueue) (do_write-Flight r g, (same-parts r).0, (same-parts r).1)
        | inr e ↦ rw (e, enqueue) (g, refl, refl)
      ]

  do_send-open : (q : Queue A) (m : A) → q.is_open ≡ true → do_send q m ≡ enqueue q m
  unfolding do_send
  do_send-open q m o = ap (λ b. if b then enqueue q m else q) o

  do_send-closed : (q : Queue A) (m : A) → q.is_open ≡ false → do_send q m ≡ q
  unfolding do_send
  do_send-closed q m o = ap (λ b. if b then enqueue q m else q) o

  step-Flight :
      (q : Queue A) (e : Event A)
      → Flight q.mq q.in_flight
      → Flight (step q e).mq (step q e).in_flight
  unfolding step on_write
  step-Flight q (send m) f = elim (Bool-cases q.is_open) [
    | inl o ↦ rw (do_send-open q m o) (enqueue-parts q m f).0
    | inr o ↦ rw (do_send-closed q m o) f
  ]
  step-Flight q (written failed) f = elim (Option-cases q.in_flight) [
    | inl e ↦ rw (e, step) f
    | inr ((i, m), e) ↦ rw (e, step) (ended i m failed)
  ]
    where
      ended : (i : ℕ) (m : A) (b : Bool) → Flight (on_write q i m b).mq (on_write q i m b).in_flight
      ended i m true = tt
      ended i m false =
          write_next-Flight
            (record q { mq = remove q.mq i; in_flight = none; sent = q.sent ++ m ∷ [] }) tt
  step-Flight q stop f = f

  -- What a step adds to the messages that were written or wait.
  step-perm :
      (q : Queue A) (e : Event A)
      → Flight q.mq q.in_flight
      → Perm ((step q e).sent ++ (step q e).mq) ((q.sent ++ q.mq) ++ accepted q (e ∷ []))
  unfolding step on_write accepted
  step-perm q (send m) f = elim (Bool-cases q.is_open) [
    | inl o ↦
        let (g, waits, done) = enqueue-parts q m f in
        rw (do_send-open q m o, waits, done, o, append_assoc q.sent q.mq (m ∷ [])) (Perm.refl _)
    | inr o ↦ rw (do_send-closed q m o, o, append-nil (q.sent ++ q.mq)) (Perm.refl _)
  ]
  step-perm q (written failed) f =
      rw (append-nil (q.sent ++ q.mq)) (elim (Option-cases q.in_flight) [
        | inl e ↦ rw (e, step) (Perm.refl _)
        | inr ((i, m), e) ↦ rw (e, step) (ended i m failed (flying i m e))
      ])
    where
      flying : (i : ℕ) (m : A) → q.in_flight ≡ some (i, m) → get_elem? q.mq i ≡ some m
      flying i m e = subst (Flight q.mq) e f

      ended :
          (i : ℕ) (m : A) (b : Bool)
          → get_elem? q.mq i ≡ some m
          → Perm ((on_write q i m b).sent ++ (on_write q i m b).mq) (q.sent ++ q.mq)
      ended i m true h = Perm.refl _
      ended i m false h =
          let r : Queue A = record q {
            mq = remove q.mq i;
            in_flight = none;
            sent = q.sent ++ m ∷ [];
          } in
          let (waits, done) = write_next-parts r in
          rw (waits, done, append_assoc q.sent (m ∷ []) (remove q.mq i))
            (Perm.append_left q.sent (Perm.symm (remove-perm q.mq i m h)))
  step-perm q stop f = rw (append-nil (q.sent ++ q.mq)) (Perm.refl _)

  accepted-cons :
      (q : Queue A) (e : Event A) (es : List (Event A))
      → accepted q (e ∷ es) ≡ accepted q (e ∷ []) ++ accepted (step q e) es
  unfolding accepted
  accepted-cons q (send m) es = ground arith
  accepted-cons q (written failed) es = refl
  accepted-cons q stop es = refl

  run-perm :
      (q : Queue A) (es : List (Event A))
      → Flight q.mq q.in_flight
      → Perm ((run q es).sent ++ (run q es).mq) ((q.sent ++ q.mq) ++ accepted q es)
  unfolding run accepted
  run-perm q [] f = rw (append-nil (q.sent ++ q.mq)) (Perm.refl _)
  run-perm q (e ∷ es) f = Perm.trans (run-perm (step q e) es (step-Flight q e f)) (
      rw
        (
          accepted-cons q e es,
          ← append_assoc (q.sent ++ q.mq) (accepted q (e ∷ [])) (accepted (step q e) es),
        )
        (Perm.append_right (accepted (step q e) es) (step-perm q e f)))

  -- Over any events from the empty queue, the messages written and those that still wait are
  -- together the messages that were accepted, each as often.
  pub run-conserves :
      (es : List (Event A)) → Perm ((run empty es).sent ++ (run empty es).mq) (accepted empty es)
  unfolding empty
  run-conserves es = run-perm empty es tt
