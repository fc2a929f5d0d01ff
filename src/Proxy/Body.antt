-- ===== src/Proxy/Body.antt =====
-- A request is handed to the worker whole, in order and once.
use mathlib.Core.List.{append-nil, append_assoc}
use easyprospect_service.Prelude.{
  ℕ, ◌≤◌, ◌≡◌, refl, sym, ap, ◌∙◌, subst, inl, inr, true, none, some, List, [], ◌∷◌, ◌++◌, take,
  drop, length, if-split,
}
use easyprospect_service.Proxy.Request.{HttpRequest, builder_of_parser, make_request, to_request}
use easyprospect_service.Proxy.Session.{
  Put, Parser, Stage, header, body, ended, Session, Event, read_some, read_request, written,
  buffer_size, octets, stage_after, new_session, parsed, send_first, on_header_read,
  send_continuation, on_body_read, step_in, run,
}
use easyprospect_service.Proxy.Octets.{take-drop, append-chain, octets-take}
use easyprospect_service.Proxy.Packages.{
  bodies, bodies-append, first_package, Sends, waits, begins, continues, Sends-header, Sends-body,
  Sends-stage,
}

module _ {P : Type 0} (lib : Parser P) where
  -- The octets that the parser takes for the header.
  abbrev pub header_octets : Stage → Event P → Session P → List ℕ
  header_octets header (read_some bytes id) s =
      let all = s.storage ++ bytes in take (lib.put s.parser all).processed all
  header_octets k e s = []

  -- The bytes that a session reads.
  abbrev pub bytes_read : Stage → Event P → List ℕ
  bytes_read header (read_some bytes id) = bytes
  bytes_read body (read_some bytes id) = bytes
  bytes_read k e = []

  abbrev pub all_header_octets : List (Event P) → Session P → List ℕ
  all_header_octets [] s = []
  all_header_octets (e ∷ es) s =
      header_octets s.stage e s ++ all_header_octets es (step_in lib s.stage e s)

  abbrev pub all_bytes_read : List (Event P) → Session P → List ℕ
  all_bytes_read [] s = []
  all_bytes_read (e ∷ es) s = bytes_read s.stage e ++ all_bytes_read es (step_in lib s.stage e s)

  -- In the body of a request with a content length Beast's parser copies what it takes to the buffer, at most
  -- what is there and what fits.
  pub record CopiesBody : Type 0 where
    pub copies :
        (p : P) (xs : List ℕ)
        → lib.is_header_done p ≡ true
        → (lib.put p xs).body ≡ take (lib.put p xs).processed xs
    pub bounded :
        (p : P) (xs : List ℕ) → lib.is_header_done p ≡ true → (lib.put p xs).processed ≤ length xs
    pub fits :
        (p : P) (xs : List ℕ) → lib.is_header_done p ≡ true → (lib.put p xs).processed ≤ buffer_size
    pub stays :
        (p : P) (xs : List ℕ)
        → lib.is_header_done p ≡ true
        → lib.is_header_done (lib.put p xs).parser ≡ true

  record IsGood (s : Session P) : Type 0 where
    sends : Sends s.stage s.current_req s.sent
    parsed_header : s.stage ≡ body → lib.is_header_done s.parser ≡ true

  record Steps (k : Stage) (e : Event P) (s t : Session P) : Type 0 where
    good : IsGood t
    kept :
        header_octets k e s ++ (bodies t.sent ++ t.storage)
        ≡ bodies s.sent ++ (s.storage ++ bytes_read k e)

  send_first-Steps :
      (id : ℕ) (t : Session P)
      → t.sent ≡ []
      → lib.is_header_done t.parser ≡ true
      → IsGood (send_first lib id t) × (bodies (send_first lib id t).sent ≡ [])
  unfolding send_first to_request make_request builder_of_parser
  send_first-Steps id t nothing done =
      let is_done = lib.is_done t.parser in
      let req : HttpRequest =
        to_request
          (builder_of_parser id 0 (lib.message t.parser) is_done (lib.is_header_done t.parser)) in
      (
        record {
          sends =
              subst (λ ps. Sends (stage_after is_done) (some req) (ps ++ first_package req ∷ []))
                (sym nothing) (begins req);
          parsed_header = λ e. done;
        },
        ap (λ ps. bodies (ps ++ first_package req ∷ [])) nothing,
      )

  header-Steps :
      (id : ℕ) (bytes : List ℕ) (s : Session P)
      → s.stage ≡ header
      → IsGood s
      → Steps header (read_some bytes id) s (on_header_read lib id (s.storage ++ bytes) s)
  unfolding on_header_read parsed send_first
  header-Steps id bytes s h g =
      let (no_req, nothing) = Sends-header g.sends h in
      let all : List ℕ = s.storage ++ bytes in
      let r : Put P = lib.put s.parser all in
      let t : Session P = parsed lib r all s in
      let none_sent : bodies s.sent ≡ [] = ap bodies nothing in
      let kept : bodies s.sent ++ (s.storage ++ bytes) ≡ all = ap (λ b. b ++ all) none_sent in
      let left : List ℕ → List ℕ = λ b. take r.processed all ++ (b ++ drop r.processed all) in
      if-split (Steps header (read_some bytes id) s) (lib.is_header_done r.parser)
        (λ done.
          let (good, empty) = send_first-Steps id t nothing done in
          record { good = good; kept = ap left empty ∙ take-drop r.processed all ∙ sym kept })
        (λ waiting. record {
          good = record { sends = g.sends; parsed_header = λ e. absurd cc };
          kept = ap left none_sent ∙ take-drop r.processed all ∙ sym kept;
        })

  send_continuation-Steps :
      (b : List ℕ) (t : Session P)
      → t.stage ≡ body
      → Sends t.stage t.current_req t.sent
      → lib.is_header_done t.parser ≡ true
      → IsGood (send_continuation lib (some b) t)
  unfolding send_continuation
  send_continuation-Steps b t h r done =
      let (req, is_req) = Sends-body r h in
      let d = lib.is_done t.parser in
      let in_body : Sends body (some req) t.sent =
        subst (λ c. Sends body c t.sent) is_req (subst (λ k. Sends k t.current_req t.sent) h r) in
      record {
        sends =
            subst
              (λ c. Sends (stage_after d) c (
                t.sent
                ++ record {
                  first = none;
                  position = 1;
                  more = some (record { request = c; buffer = b; done = d });
                }
                  ∷ []))
              (sym is_req) (continues req t.sent b d in_body);
        parsed_header = λ e. done;
      }

  body-Steps :
      CopiesBody
      → (id : ℕ) (bytes : List ℕ) (s : Session P) → s.stage ≡ body
      → IsGood s
      → Steps body (read_some bytes id) s (on_body_read lib (s.storage ++ bytes) s)
  unfolding on_body_read parsed send_continuation
  body-Steps law id bytes s h g =
      let all : List ℕ = s.storage ++ bytes in
      let r : Put P = lib.put s.parser all in
      let done = g.parsed_header h in
      let t : Session P = parsed lib r all s in
      let out : octets r.processed r.body ≡ some (take r.processed all) =
        ap (octets r.processed) (law.copies s.parser all done)
        ∙ octets-take r.processed all (law.bounded s.parser all done)
            (law.fits s.parser all done) in
      subst (λ o. Steps body (read_some bytes id) s (send_continuation lib o t)) (sym out)
        (record {
          good =
              send_continuation-Steps (take r.processed all) t h g.sends
                (law.stays s.parser all done);
          kept =
              ap (λ b. b ++ drop r.processed all) (bodies-append s.sent _)
              ∙ append_assoc (bodies s.sent) (take r.processed all) (drop r.processed all)
              ∙ ap (λ b. bodies s.sent ++ b) (take-drop r.processed all);
        })

  -- Where nothing is read nothing happens.
  idle-Steps :
      (k : Stage) (e : Event P) (s : Session P)
      → header_octets k e s ≡ []
      → bytes_read k e ≡ []
      → IsGood s
      → Steps k e s s
  idle-Steps k e s no_header no_bytes g = record {
    good = g;
    kept =
        ap (λ h. h ++ (bodies s.sent ++ s.storage)) no_header
        ∙ ap (λ b. bodies s.sent ++ b) (sym (append-nil s.storage))
        ∙ ap (λ b. bodies s.sent ++ (s.storage ++ b)) (sym no_bytes);
  }

  step_in-Steps :
      CopiesBody
      → (e : Event P) (s : Session P) → IsGood s
      → Steps s.stage e s (step_in lib s.stage e s)
  unfolding step_in
  step_in-Steps law e s g =
      let moves : Stage → Type 0 = λ k. Steps k e s (step_in lib k e s) in
      elim (Sends-stage g.sends) [
        | inl h ↦ subst moves (sym h) (elim e as (λ k. Steps header k s (step_in lib header k s)) [
          | read_some bytes id ↦ header-Steps id bytes s h g
          | read_request x p ↦ idle-Steps header _ s refl refl g
          | written x n ↦ idle-Steps header _ s refl refl g
        ])
        | inr (inl h) ↦ subst moves (sym h) (idle-Steps ended e s refl refl g)
        | inr (inr h) ↦
            subst moves (sym h) (elim e as (λ k. Steps body k s (step_in lib body k s)) [
              | read_some bytes id ↦ body-Steps law id bytes s h g
              | read_request x p ↦ idle-Steps body _ s refl refl g
              | written x n ↦ idle-Steps body _ s refl refl g
            ])
      ]

  run_from-Forwards :
      CopiesBody
      → (es : List (Event P)) (s : Session P) → IsGood s
      → IsGood (run lib es s)
        × (all_header_octets es s ++ (bodies (run lib es s).sent ++ (run lib es s).storage)
            ≡ bodies s.sent ++ (s.storage ++ all_bytes_read es s))
  unfolding run
  run_from-Forwards law [] s g = (g, ap (λ b. bodies s.sent ++ b) (sym (append-nil s.storage)))
  run_from-Forwards law (e ∷ es) s g =
      let t : Session P = step_in lib s.stage e s in
      let st : Steps s.stage e s t = step_in-Steps law e s g in
      let (good, kept) = run_from-Forwards law es t st.good in
      (
        good,
        append-chain (header_octets s.stage e s) (all_header_octets es t)
            (bodies (run lib es t).sent ++ (run lib es t).storage) (bodies t.sent) t.storage
            (all_bytes_read es t) (bodies s.sent) s.storage (bytes_read s.stage e) kept st.kept,
      )

  -- Whatever pieces a request with a content length comes in, the session hands the worker first the
  -- request itself and then parts of its body, at position 1 and with the same request, until one is marked as
  -- the end, with which the session ends. The octets that the parser took for the header, those of the parts
  -- and those that still wait are together what was read, in order and once.
  pub run-Forwards :
      CopiesBody
      → (es : List (Event P))
      → let s = new_session lib true in
        let t = run lib es s in
        Sends t.stage t.current_req t.sent
        × (all_header_octets es s ++ (bodies t.sent ++ t.storage) ≡ all_bytes_read es s)
  unfolding new_session
  run-Forwards law es =
      let (good, kept) =
        run_from-Forwards law es (new_session lib true)
          (record { sends = waits; parsed_header = λ e. absurd cc }) in
      (good.sends, kept)
