-- ===== src/Http/Answer.antt =====
-- What a request gets.
use text.Mathlib.Text.{◌==◌ as str_eq}
use text.Mathlib.TextEquality.{eq_iff}
use easyprospect_service.Prelude.{
  ℕ, ◌≡◌, refl, ap, ◌∙◌, ◌⊎◌, inl, inr, ◌≢◌, Bool, true, false, Option, none, some, List, String,
  sym, Bool-cases, arith, if-both, if-split,
}
use easyprospect_service.Http.{
  Method, get, head, other_method, Request, Status, ok, bad_request, file_body, Response,
  FileResult, opened, missing, failed, Answered, sends, threw, error_response, starts_slash,
  has_dots, is_legal, any_matches, path_of, file_response, without_body, answer_file, serve_file,
  run_by, serve, handle_as, handle_request,
}

-- A request for something below the root: GET or HEAD of an absolute target without "..".
pub record Allowed (r : Request) : Type 0 where
  pub method : r.method ≢ other_method
  pub absolute : starts_slash r.target ≡ true
  pub no_dots : has_dots r.target ≡ false

legal-Allowed : (r : Request) → r.method ≢ other_method → is_legal r.target ≡ true → Allowed r
unfolding is_legal
legal-Allowed r m h = record { method = m; absolute = ground arith; no_dots = ground arith }

not_empty : (t : String) → starts_slash t ≡ true → str_eq t "" ≡ false
not_empty t h = elim (Bool-cases (str_eq t "")) [
  | inr differs ↦ differs
  | inl same ↦
      let e : t ≡ "" = (eq_iff t "").0 same in
      let bad : starts_slash "" ≡ true = ap starts_slash (sym e) ∙ h in cc
]

Allowed-legal : (r : Request) → Allowed r → is_legal r.target ≡ true
unfolding is_legal
Allowed-legal r a = let e = not_empty r.target a.absolute in ground arith

-- A request is refused exactly if it is not allowed.
abbrev Refuses : Request → Status → Type 0
Refuses r s = ((s ≡ bad_request) × (Allowed r → ⊥)) ⊎ ((s ≢ bad_request) × Allowed r)

module _ (join : String → String → String) (open_file : String → FileResult)
    (doc_root : String) where
  abbrev OpensFile : Request → Response → Type 0
  OpensFile r res =
      (p : String)
      → res.body ≡ file_body p
      → (p ≡ path_of join open_file doc_root r.target)
        × (r.method ≢ head)
        × ((size : ℕ) × (open_file p ≡ opened size) × (res.content_length ≡ some size))

  module _ (extensions : List (String → Bool))
      (process : Option (String → String → String → String)) where
    -- A response that fits its request.
    pub record Fits (r : Request) (res : Response) : Type 0 where
      pub version : res.version ≡ r.version
      pub keep_alive : res.keep_alive ≡ r.keep_alive
      pub allowed : Refuses r res.status
      pub opens : OpensFile r res

    abbrev pub FitsAnswer : Request → Answered → Type 0
    FitsAnswer r (sends res) = Fits r res
    FitsAnswer r threw = Allowed r × (process ≡ none)

    error-Fits :
        (r : Request) (s : Status) (t : String) → Refuses r s → Fits r (error_response r s t)
    unfolding error_response
    error-Fits r s t a = record {
      version = refl;
      keep_alive = refl;
      allowed = a;
      opens = λ p e. cc;
    }

    -- What is sent of a file, whose response is `res` but for the method.
    without_body-Fits :
        (r : Request)
        → Allowed r
        → (m : Method) → r.method ≡ m
        → (res : Response) (size : ℕ)
        → open_file (path_of join open_file doc_root r.target) ≡ opened size
        → res.status ≡ ok
        → res.version ≡ r.version
        → res.keep_alive ≡ r.keep_alive
        → res.content_length ≡ some size
        → res.body ≡ file_body (path_of join open_file doc_root r.target)
        → Fits r (without_body m res)
    unfolding without_body
    without_body-Fits r a head e res size o st v k l b = record {
      version = v;
      keep_alive = k;
      allowed = inr ((λ h. cc), a);
      opens = λ p h. cc;
    }
    without_body-Fits r a get e res size o st v k l b = record {
      version = v;
      keep_alive = k;
      allowed = inr ((λ h. cc), a);
      opens = λ p h.
          let same : p ≡ path_of join open_file doc_root r.target = cc in
          (same, (λ h. cc), (size, ap open_file same ∙ o, l));
    }
    without_body-Fits r a other_method e res size o st v k l b = absurd (a.method e)

    answer_file-Fits :
        (r : Request)
        → Allowed r
        → (f : FileResult) → open_file (path_of join open_file doc_root r.target) ≡ f
        → Fits r
            (answer_file join open_file doc_root r (path_of join open_file doc_root r.target) f)
    unfolding answer_file file_response
    answer_file-Fits r a missing e = error-Fits r _ _ (inr ((λ h. cc), a))
    answer_file-Fits r a (failed what) e = error-Fits r _ _ (inr ((λ h. cc), a))
    answer_file-Fits r a (opened size) e =
        without_body-Fits r a r.method refl _ size e refl refl refl refl refl

    run_by-Fits :
        (r : Request) (path : String)
        → Allowed r
        → (p : Option (String → String → String → String)) → process ≡ p
        → FitsAnswer r (run_by join open_file doc_root p r path)
    unfolding run_by
    run_by-Fits r path a none e = (a, e)
    run_by-Fits r path a (some q) e = record {
      version = refl;
      keep_alive = refl;
      allowed = inr ((λ h. cc), a);
      opens = λ p h. cc;
    }

    serve-Fits :
        (r : Request)
        → r.method ≢ other_method
        → FitsAnswer r (serve join open_file doc_root extensions process r)
    unfolding serve serve_file
    serve-Fits r m =
        if-split (FitsAnswer r) (is_legal r.target)
          (λ h.
            let a : Allowed r = legal-Allowed r m h in
            if-both (FitsAnswer r)
              (any_matches extensions (path_of join open_file doc_root r.target))
              (run_by-Fits r _ a process refl) (answer_file-Fits r a _ refl))
          (λ h. error-Fits r _ _ (inl (refl, (λ a. let l = Allowed-legal r a in cc))))

    handle_as-Fits :
        (r : Request) (m : Method)
        → r.method ≡ m
        → FitsAnswer r (handle_as join open_file doc_root extensions process m r)
    unfolding handle_as
    handle_as-Fits r other_method e = error-Fits r _ _ (inl (refl, (λ a. a.method e)))
    handle_as-Fits r get e = serve-Fits r (λ h. cc)
    handle_as-Fits r head e = serve-Fits r (λ h. cc)

    -- A request is answered with its own version and keep-alive. Only GET and HEAD of an absolute
    -- target without ".." get more than `bad_request`, the file that is sent is the one at the target
    -- below the root, with its size, and only for GET; the handler throws only if no callback is set.
    pub handle_request-Fits :
        (r : Request) → FitsAnswer r (handle_request join open_file doc_root extensions process r)
    unfolding handle_request
    handle_request-Fits r = handle_as-Fits r r.method refl
