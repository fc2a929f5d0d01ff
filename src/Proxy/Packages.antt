-- ===== src/Proxy/Packages.antt =====
-- The packages of one request.
use mathlib.Core.List.{append-nil, append_assoc}
use easyprospect_service.Prelude.{
  ℕ, ◌≡◌, refl, sym, ap, ◌∙◌, ◌⊎◌, inl, inr, Bool, true, false, Option, none, some, List, [], ◌∷◌,
  ◌++◌,
}
use easyprospect_service.Proxy.Request.{HttpRequest, Continuation}
use easyprospect_service.Proxy.Session.{Package, Stage, header, body, ended, stage_after}

-- What a package carries of the body.
abbrev pub carried : Option Continuation → List ℕ
carried none = []
carried (some c) = c.buffer

abbrev pub bodies : List Package → List ℕ
bodies [] = []
bodies (p ∷ ps) = carried p.more ++ bodies ps

pub bodies-append :
    (ps : List Package) (p : Package) → bodies (ps ++ p ∷ []) ≡ bodies ps ++ carried p.more
bodies-append [] p = append-nil _
bodies-append (q ∷ ps) p =
    ap (λ l. carried q.more ++ l) (bodies-append ps p)
    ∙ sym (append_assoc (carried q.more) (bodies ps) (carried p.more))

abbrev pub first_package : HttpRequest → Package
first_package req = record { first = some req; position = 0; more = none }

abbrev pub next_package : HttpRequest → List ℕ → Bool → Package
next_package req b d = record {
  first = none;
  position = 1;
  more = some (record { request = some req; buffer = b; done = d });
}

-- The packages that may have been sent in a stage: first the request, then parts of its body for as long as
-- the last package was not the end of the request.
pub data Sends : Stage → Option HttpRequest → List Package → Type 0 where
  waits : Sends header none []
  begins : (req : HttpRequest) → Sends (stage_after req.done) (some req) (first_package req ∷ [])
  continues :
      (req : HttpRequest) (ps : List Package) (b : List ℕ) (d : Bool)
      → Sends body (some req) ps
      → Sends (stage_after d) (some req) (ps ++ next_package req b d ∷ [])

stage_after-cases : (d : Bool) → (stage_after d ≡ ended) ⊎ (stage_after d ≡ body)
unfolding stage_after
stage_after-cases true = inl refl
stage_after-cases false = inr refl

-- A session that waits for the header has sent nothing.
pub Sends-header :
    {k : Stage} {c : Option HttpRequest} {ps : List Package}
    → Sends k c ps
    → k ≡ header
    → (c ≡ none) × (ps ≡ [])
Sends-header waits h = (refl, refl)
Sends-header (begins req) h = elim (stage_after-cases req.done) [
  | inl e ↦ absurd cc
  | inr e ↦ absurd cc
]
Sends-header (continues req ps b d r) h = elim (stage_after-cases d) [
  | inl e ↦ absurd cc
  | inr e ↦ absurd cc
]

pub Sends-body :
    {k : Stage} {c : Option HttpRequest} {ps : List Package}
    → Sends k c ps
    → k ≡ body
    → (req : HttpRequest) × (c ≡ some req)
Sends-body waits h = absurd cc
Sends-body (begins req) h = (req, refl)
Sends-body (continues req ps b d r) h = (req, refl)

pub Sends-stage :
    {k : Stage} {c : Option HttpRequest} {ps : List Package}
    → Sends k c ps
    → (k ≡ header) ⊎ ((k ≡ ended) ⊎ (k ≡ body))
Sends-stage waits = inl refl
Sends-stage (begins req) = inr (stage_after-cases req.done)
Sends-stage (continues req ps b d r) = inr (stage_after-cases d)
