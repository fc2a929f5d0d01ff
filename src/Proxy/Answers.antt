-- ===== src/Proxy/Answers.antt =====
-- What a worker is asked for, and what it answers.
use easyprospect_service.Prelude.{
  ℕ, zero, suc, ◌≡◌, refl, sym, ap, ◌∙◌, Bool, true, false, Option, none, some, List, [], ◌∷◌, ◌++◌,
  length, length-append, replicate, arith, if◌then◌else◌, subst,
}
use easyprospect_service.Downstream
use easyprospect_service.Downstream.Serve
use easyprospect_service.Downstream.Serve.{
  Net, Sent, returned, answer_of, forward, current, start_request,
}
use easyprospect_service.Downstream.Forwards.{Known, start_request-Forwards}
use easyprospect_service.Proxy.Request.{HttpRequest}
use easyprospect_service.Proxy.Session.{
  Package, Stage, body, ended, stage_after, Parser, Event, new_session, run,
}
use easyprospect_service.Proxy.Packages.{
  first_package, next_package, Sends, waits, begins, continues,
}
use easyprospect_service.Proxy.Body.{CopiesBody, run-Forwards}
use easyprospect_service.Proxy.Relay.{
  first_of, more_of, Relay, send_worker_req, new_relay, relay_one, relay,
}

module _ {R : Type 0} (fresh : ℕ → ℕ) (nets : ℕ → Net R) where
  relay-append :
      (ps : List Package) (p : Package) (r : Relay R)
      → relay fresh nets (ps ++ p ∷ []) r ≡ relay_one fresh nets p (relay fresh nets ps r)
  unfolding relay
  relay-append [] p r = refl
  relay-append (q ∷ ps) p r = relay-append ps p (relay_one fresh nets q r)

  -- The answers that `n` packages get: none, but for the last package of a request that is complete.
  abbrev pub expected : Stage → ℕ → List (Sent R)
  expected ended (suc n) = replicate n returned ++ answer_of (nets n).read ∷ []
  expected k n = replicate n returned

  abbrev silent : Sent R
  silent = returned

  replicate-snoc : (n : ℕ) → replicate n silent ++ silent ∷ [] ≡ replicate (suc n) silent
  replicate-snoc zero = refl
  replicate-snoc (suc n) = ap (λ l. silent ∷ l) (replicate-snoc n)

  -- The answer to one more package of a request, by whether it is the last.
  expected-snoc :
      (d : Bool) (n : ℕ)
      → replicate n silent ++ (if d then answer_of (nets n).read else silent) ∷ []
        ≡ expected (stage_after d) (suc n)
  unfolding stage_after
  expected-snoc true n = refl
  expected-snoc false n = replicate-snoc n

  forward-first :
      (s : ℕ) (d : Bool) (net : Net R)
      → net.written ≡ true
      → forward (some (record { session = s; done = d })) none net
        ≡ (if d then answer_of net.read else silent)
  unfolding forward
  forward-first s true net w = rw w refl
  forward-first s false net w = rw w refl

  forward-next :
      (s : ℕ) (d : Bool) (net : Net R)
      → net.written ≡ true
      → forward none (some (record { session = s; done = d })) net
        ≡ (if d then answer_of net.read else silent)
  unfolding forward
  forward-next s true net w = rw w refl
  forward-next s false net w = rw w refl

  record IsRelayed (k : Stage) (n : ℕ) (r : Relay R) : Type 0 where
    known : Known 0 r.downstream
    counted : r.count ≡ n
    answered : r.answers ≡ expected k n

  -- One more package, after some that got no answer.
  relay_one-IsRelayed :
      (p : Package) (q : Serve.Package) (d : Bool) (n : ℕ) (r : Relay R)
      → current (first_of p.first) (more_of p.more) ≡ some q
      → forward (first_of p.first) (more_of p.more) (nets n)
        ≡ (if d then answer_of (nets n).read else silent)
      → IsRelayed body n r
      → IsRelayed (stage_after d) (suc n) (relay_one fresh nets p r)
  unfolding relay_one send_worker_req
  relay_one-IsRelayed p q d n r is_current answer h =
      let (forwards, known) =
        start_request-Forwards (fresh r.count) 0 (first_of p.first) (more_of p.more) (nets r.count)
          r.downstream q is_current h.known in
      record {
        known = known;
        counted = ap suc h.counted;
        answered =
            ap (λ a. r.answers ++ a ∷ [])
              (forwards
                ∙ ap (λ m. forward (first_of p.first) (more_of p.more) (nets m)) h.counted
                ∙ answer)
            ∙ ap (λ l. l ++ (if d then answer_of (nets n).read else silent) ∷ []) h.answered
            ∙ expected-snoc d n;
      }

  relay-IsRelayed :
      {k : Stage} {c : Option HttpRequest} {ps : List Package} (d : Downstream.Downstream)
      → Sends k c ps
      → ((n : ℕ) → (nets n).written ≡ true)
      → Known 0 d
      → IsRelayed k (length ps) (relay fresh nets ps (new_relay d))
  unfolding relay new_relay first_of more_of
  relay-IsRelayed d waits w k = record { known = k; counted = refl; answered = refl }
  relay-IsRelayed d (begins req) w k =
      relay_one-IsRelayed (first_package req) _ req.done 0 (new_relay d) refl
        (forward-first req.session_id req.done (nets 0) (w 0))
        (record { known = k; counted = refl; answered = refl })
  relay-IsRelayed d (continues req ps b e r) w k =
      let p : Package = next_package req b e in
      let before : Relay R = relay fresh nets ps (new_relay d) in
      let one : IsRelayed (stage_after e) (suc (length ps)) (relay_one fresh nets p before) =
        relay_one-IsRelayed p _ e (length ps) before refl
          (forward-next req.session_id e (nets (length ps)) (w (length ps)))
          (relay-IsRelayed d r w k) in
      let longer : suc (length ps) ≡ length (ps ++ p ∷ []) =
        omega (arith, length-append ps (p ∷ [])) in
      subst (λ n. IsRelayed (stage_after e) n (relay fresh nets (ps ++ p ∷ []) (new_relay d)))
        longer
        (subst (IsRelayed (stage_after e) (suc (length ps))) (sym (relay-append ps p (new_relay d)))
          one)

  -- The packages that a session made of a request with a content length are sent to a backend that is known
  -- and takes what is written. Then no package but the last of a complete request is answered, and that
  -- one with what is read from the worker: a client gets at most one response to its request, and none
  -- before the request is complete.
  pub session-answered :
      {P : Type 0} (lib : Parser P) (es : List (Event P)) (d : Downstream.Downstream)
      → CopiesBody lib
      → ((n : ℕ) → (nets n).written ≡ true)
      → Known 0 d
      → let s = run lib es (new_session lib true) in
        (relay fresh nets s.sent (new_relay d)).answers ≡ expected s.stage (length s.sent)
  session-answered lib es d law w k = (relay-IsRelayed d (run-Forwards lib law es).0 w k).answered
