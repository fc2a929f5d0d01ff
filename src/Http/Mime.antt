-- ===== src/Http/Mime.antt =====
-- `mime_type` of src/easyprospect-service-shared/session.cpp.
pub mod LastDot
use text.Mathlib.Text.{◌==◌ as str_eq}
use Prim.Native.String.{[], ◌∷◌}
use Prim.Native.Char.{code}
use easyprospect_service.Prelude.{
  ℕ, ◌+◌, Bool, true, false, String, leb, ◌&&◌, ◌==◌, if◌then◌else◌, ◌≡◌, refl,
}

-- The text from the last dot (character 46) on; empty if there is none.
unfoldable pub extension : String → String
extension [] = []
extension (c ∷ s) =
    let rest = extension s in if str_eq rest "" then if code c == 46 then c ∷ s else [] else rest

abbrev pub lower : ℕ → ℕ
lower n = if leb 65 n && leb n 90 then n + 32 else n

-- `iequals`
unfoldable pub iequals : String → String → Bool
iequals [] [] = true
iequals [] (d ∷ t) = false
iequals (c ∷ s) [] = false
iequals (c ∷ s) (d ∷ t) = let rest = iequals s t in lower (code c) == lower (code d) && rest

-- The types, for a test whether the extension is a given one.
unfoldable pub mime_by : (String → Bool) → String
mime_by is =
    if is ".htm"
    then "text/html"
    else if is ".html"
    then "text/html"
    else if is ".php"
    then "text/html"
    else if is ".css"
    then "text/css"
    else if is ".txt"
    then "text/plain"
    else if is ".js"
    then "application/javascript"
    else if is ".json"
    then "application/json"
    else if is ".xml"
    then "application/xml"
    else if is ".swf"
    then "application/x-shockwave-flash"
    else if is ".flv"
    then "video/x-flv"
    else if is ".png"
    then "image/png"
    else if is ".jpe"
    then "image/jpeg"
    else if is ".jpeg"
    then "image/jpeg"
    else if is ".jpg"
    then "image/jpeg"
    else if is ".gif"
    then "image/gif"
    else if is ".bmp"
    then "image/bmp"
    else if is ".ico"
    then "image/vnd.microsoft.icon"
    else if is ".tiff"
    then "image/tiff"
    else if is ".tif"
    then "image/tiff"
    else if is ".svg"
    then "image/svg+xml"
    else if is ".svgz"
    then "image/svg+xml"
    else "application/text"

unfoldable pub mime_of : String → String
unfolding iequals mime_by
mime_of ext = mime_by (iequals ext)

unfoldable pub mime_type : String → String
unfolding extension mime_of
mime_type path = mime_of (extension path)

upper_page : mime_type "/www/site.v2/Index.HTML" ≡ "text/html"
unfolding mime_type extension mime_of mime_by iequals
upper_page = refl
