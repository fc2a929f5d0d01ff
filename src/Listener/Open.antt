-- ===== src/Listener/Open.antt =====
-- Which port `open` gets.
use easyprospect_service.Prelude.{
  ℕ, zero, suc, ◌+◌, ◌-◌, ◌≤◌, ◌<◌, ◌≡◌, refl, ap, ◌∙◌, inl, inr, Bool, true, false, Option, some,
  [], ◌∷◌, ltb, leb, arith, if◌then◌else◌, not, ◌||◌, Bool-cases,
}
use easyprospect_service.Prelude.Int.{ℤ, pos}
use easyprospect_service.Listener.{
  Listener, answer, threw, max_uint16, open_port, scan, listen, open_range,
}

module _ (opens : Bool) (binds : ℤ → Bool) (listens : Option ℤ → Bool) where
  -- The listener that is bound to a port, and the one whose acceptor is open and not bound.
  abbrev pub bound_to : ℤ → Listener → Listener
  bound_to port l = record l { is_open = true; bound = some port; ports = port ∷ [] }

  abbrev pub opened : Listener → Listener
  opened l = record l { is_open = true }

  abbrev port_by : Bool → ℤ → Listener → Listener × Bool
  port_by b port l =
      if b || not opens
      then (l, false)
      else if binds port
      then (bound_to port l, true)
      else (opened l, false)

  open_port-shut :
      (port : ℤ) (l : Listener)
      → l.is_open ≡ false
      → open_port opens binds listens port l ≡ port_by false port l
  unfolding open_port
  open_port-shut port l h = ap (λ b. port_by b port l) h

  open_port-again :
      (port : ℤ) (l : Listener)
      → l.is_open ≡ true
      → open_port opens binds listens port l ≡ (l, false)
  unfolding open_port
  open_port-again port l h = ap (λ b. port_by b port l) h

  scan_fails :
      (n port : ℕ) (l : Listener)
      → ((p : ℕ) → open_port opens binds listens (pos p) l ≡ (l, false))
      → scan opens binds listens n port l ≡ (l, port + n)
  unfolding scan
  scan_fails zero port l h = ap (λ p. (l, p)) (omega arith)
  scan_fails (suc n) port l h =
      rw (h port, scan) (scan_fails n (port + 1) l h ∙ ap (λ p. (l, p)) (omega arith))

  scan-suc :
      (n lo : ℕ) (l : Listener) (r : Listener × Bool)
      → open_port opens binds listens (pos lo) l ≡ r
      → scan opens binds listens (suc n) lo l
        ≡ (if r.1 then (r.0, lo) else scan opens binds listens n (lo + 1) r.0)
  unfolding scan
  scan-suc n lo l r e =
      ap (λ q. if q.1 then (q.0, lo) else scan opens binds listens n (lo + 1) q.0) e

  open_port-bound :
      (lo : ℕ) (l : Listener)
      → l.is_open ≡ false
      → opens ≡ true
      → binds (pos lo) ≡ true
      → open_port opens binds listens (pos lo) l ≡ (bound_to (pos lo) l, true)
  open_port-bound lo l h o b =
      open_port-shut (pos lo) l h
      ∙ (ap
            (λ x.
              if not x
              then (l, false)
              else if binds (pos lo)
              then (bound_to (pos lo) l, true)
              else (opened l, false))
            o
          ∙ ap (λ x. if x then (bound_to (pos lo) l, true) else (opened l, false)) b)

  -- A port that cannot be had leaves a listener that gets no other port.
  open_port-lost :
      (lo : ℕ) (l : Listener)
      → l.is_open ≡ false
      → binds (pos lo) ≡ false
      → (m : Listener) × (open_port opens binds listens (pos lo) l ≡ (m, false))
        × ((n p : ℕ) → scan opens binds listens n p m ≡ (m, p + n))
  open_port-lost lo l h b = elim (Bool-cases opens) [
    | inl o ↦ (
      opened l,
      open_port-shut (pos lo) l h
          ∙ (ap
                (λ x.
                  if not x
                  then (l, false)
                  else if binds (pos lo)
                  then (bound_to (pos lo) l, true)
                  else (opened l, false))
                o
              ∙ ap (λ x. if x then (bound_to (pos lo) l, true) else (opened l, false)) b),
      λ n p. scan_fails n p (opened l) (λ q. open_port-again (pos q) (opened l) refl),
    )
    | inr o ↦ (l, closed lo o, λ n p. scan_fails n p l (λ q. closed q o))
  ]
    where
      closed : (q : ℕ) → opens ≡ false → open_port opens binds listens (pos q) l ≡ (l, false)
      closed q o =
          open_port-shut (pos q) l h
          ∙ ap
              (λ x.
                if not x
                then (l, false)
                else if binds (pos q)
                then (bound_to (pos q) l, true)
                else (opened l, false))
              o

  open_range-valid :
      (lo n port : ℕ) (l m : Listener)
      → 1 ≤ lo
      → lo + n < max_uint16
      → scan opens binds listens (suc n) lo l ≡ (m, port)
      → open_range opens binds listens (pos lo) (pos (lo + n)) l
        ≡ (if ltb (lo + n) port then (m, threw) else listen opens binds listens m)
  unfolding open_range
  open_range-valid lo n port l m one lt e =
      let low : (ltb lo 1 || leb max_uint16 lo) ≡ false = ground arith in
      let high : (ltb (lo + n) lo || leb max_uint16 (lo + n)) ≡ false = ground arith in
      let count : lo + n + 1 - lo ≡ suc n = omega arith in rw (low, high, count, e) refl

  -- With a valid range of ports a new listener gets the least one or none: if it can be opened and
  -- bound, `open` listens on it, and if it cannot be bound, `open` throws, whatever other ports of the
  -- range are free.
  pub open_range-least :
      (lo n : ℕ) (l : Listener)
      → l.is_open ≡ false
      → 1 ≤ lo
      → lo + n < max_uint16
      → (opens ≡ true
          → binds (pos lo) ≡ true
          → open_range opens binds listens (pos lo) (pos (lo + n)) l
            ≡ (bound_to (pos lo) l, answer (listens (some (pos lo)))))
        × (binds (pos lo) ≡ false
            → (open_range opens binds listens (pos lo) (pos (lo + n)) l).1 ≡ threw)
  open_range-least lo n l h one lt = (
    λ o b.
        let e = scan-suc n lo l (bound_to (pos lo) l, true) (open_port-bound lo l h o b) in
        let fits : ltb (lo + n) lo ≡ false = ground arith in
        open_range-valid lo n lo l (bound_to (pos lo) l) one lt e ∙ rw fits (unfold listen in refl),
    λ b.
        let (m, p, q) = open_port-lost lo l h b in
        let e = scan-suc n lo l (m, false) p ∙ q n (lo + 1) in
        let over : ltb (lo + n) (lo + 1 + n) ≡ true = ground arith in
        ap (λ r. r.1) (open_range-valid lo n (lo + 1 + n) l m one lt e) ∙ rw over refl,
  )
