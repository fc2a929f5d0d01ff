-- ===== src/Http/Mime/LastDot.antt =====
-- What the type of a path depends on.
use Prim.Native.String.{[], ◌∷◌, ◌++◌}
use Prim.Native.String.append
use Prim.Native.String.compare
use Prim.Native.Char.{Char, code}
use text.Mathlib.Text.{◌==◌ as str_eq, is_eq}
use easyprospect_service.Prelude.{
  ◌≡◌, refl, sym, ap, ◌∙◌, Bool, true, false, String, ◌==◌, ◌&&◌, ◌||◌, arith,
}
use easyprospect_service.Http.Mime.{extension, lower, iequals, mime_by, mime_of, mime_type}

abbrev pub has_dot : String → Bool
has_dot [] = false
has_dot (c ∷ s) = let rest = has_dot s in code c == 46 || rest

-- A dot and what follows it.
abbrev pub dotted : String → String
dotted e = "." ∷ e

not_empty : (c : Char) (s : String) → str_eq (c ∷ s) "" ≡ false
not_empty c s = ap is_eq (compare.cons-nil c s)

extension-no_dot : (e : String) → has_dot e ≡ false → extension e ≡ ""
unfolding extension
extension-no_dot [] h = refl
extension-no_dot (c ∷ s) h =
    let other : (code c == 46) ≡ false = ground arith in
    let rest : extension s ≡ "" = extension-no_dot s (ground arith) in rw rest (rw other refl)

extension-append : (p e : String) → has_dot e ≡ false → extension (p ++ dotted e) ≡ dotted e
unfolding extension
extension-append [] e h = ap extension (append.nil (dotted e)) ∙ rw (extension-no_dot e h)
extension-append (c ∷ p) e h =
    let rest : extension (p ++ dotted e) ≡ dotted e = extension-append p e h in
    ap extension (append.cons c p (dotted e)) ∙ rw rest (rw (not_empty _ _) refl)

pub iequals-same : (e f t : String) → iequals e f ≡ true → iequals e t ≡ iequals f t
unfolding iequals
iequals-same [] [] t h = refl
iequals-same [] (d ∷ f) t h = cc
iequals-same (c ∷ e) [] t h = cc
iequals-same (c ∷ e) (d ∷ f) [] h = refl
iequals-same (c ∷ e) (d ∷ f) (b ∷ t) h =
    let first : lower (code c) ≡ lower (code d) = ground arith in
    let rest : iequals e t ≡ iequals f t = iequals-same e f t (ground arith) in
    λ i. (first i == lower (code b)) && rest i

mime_of-same : (e f : String) → iequals e f ≡ true → mime_of e ≡ mime_of f
unfolding mime_of
mime_of-same e f h = λ i. mime_by (λ t. iequals-same e f t h i)

-- The type of a path depends only on what follows its last dot, in upper or lower case.
mime_type-last_dot :
    (p q e f : String)
    → has_dot e ≡ false
    → has_dot f ≡ false
    → iequals e f ≡ true
    → mime_type (p ++ dotted e) ≡ mime_type (q ++ dotted f)
unfolding mime_type iequals
mime_type-last_dot p q e f h k same =
    ap mime_of (extension-append p e h)
    ∙ mime_of-same (dotted e) (dotted f) same
    ∙ ap mime_of (sym (extension-append q f k))
