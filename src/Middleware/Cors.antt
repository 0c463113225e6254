-- ===== src/Middleware/Cors.antt =====
-- internal/httpapi/middleware_cors.go
use rdoc_cam_hub.Common.{
  Text, bytes, false, List, [], ◌∷◌, ◌++◌, ◌==◌, text_eq, any, if◌then◌else◌, ◌≡◌, refl,
}
use rdoc_cam_hub.Http.{Request, Handler, header_get, write_status, with_headers, csrf_header_name}

-- The headers of an allowed origin.
abbrev pub cors_headers : Text → List (Text × Text)
cors_headers origin =
    (bytes "Access-Control-Allow-Origin", origin)
    ∷ (bytes "Access-Control-Allow-Credentials", bytes "true")
    ∷ (bytes "Vary", bytes "Origin")
    ∷ []

abbrev pub preflight_headers : List (Text × Text)
preflight_headers =
    (bytes "Access-Control-Allow-Methods", bytes "GET, POST, OPTIONS")
    ∷ (bytes "Access-Control-Allow-Headers", bytes "Content-Type, " ++ csrf_header_name)
    ∷ (bytes "Access-Control-Max-Age", bytes "600")
    ∷ []

unfoldable pub cors_allowed : {S : Type 0} → Handler S → Handler S
cors_allowed next r w =
    let origin = header_get r (bytes "Origin") in
    let (res, w') = next r w in
    if r.method == bytes "OPTIONS"
    then (with_headers (cors_headers origin ++ preflight_headers) (write_status 204), w)
    else (with_headers (cors_headers origin) res, w')

-- CORS
unfoldable pub cors : {S : Type 0} → List Text → Handler S → Handler S
unfolding any
cors [] next r w = next r w
cors (o ∷ os) next r w =
    if any (λ a. header_get r (bytes "Origin") == a) (o ∷ os)
    then cors_allowed next r w
    else next r w

module _ {S : Type 0} (next : Handler S) (allowed : List Text) (r : Request) (w : S) where
  -- A request whose Origin is not listed is handled as if there were no CORS middleware.
  pub cors_unlisted :
      any (λ a. header_get r (bytes "Origin") == a) allowed ≡ false
      → cors allowed next r w ≡ next r w
  unfolding cors
  cors_unlisted h = at allowed h
    where
      at :
          (l : List Text)
          → any (λ a. header_get r (bytes "Origin") == a) l ≡ false
          → cors l next r w ≡ next r w
      at [] h = refl
      at (o ∷ os) h = rw h
