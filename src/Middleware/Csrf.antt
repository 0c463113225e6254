-- ===== src/Middleware/Csrf.antt =====
-- internal/httpapi/middleware_csrf.go: the double-submit token and the origin allow-list.
-- `parse_url` is url.Parse: the scheme and the host, or none where it fails.
use rdoc_cam_hub.Common.{
  Text, bytes, Bool, true, false, not, ◌&&◌, ◌||◌, Option, none, some, List, [], ◌∷◌, ◌++◌, ◌==◌,
  text_eq, any, has_prefix, if◌then◌else◌, ◌≡◌, ◌≢◌, ◌⊎◌, inl, inr, refl, arith, text_beq_iff,
  Bool-cases, Option-cases, In, sym,
}
use rdoc_cam_hub.Http.{
  Request, Response, Handler, header_get, cookie_value, write_error, csrf_cookie_name,
  csrf_header_name,
}

unfoldable pub is_safe_method : Text → Bool
is_safe_method m = m == bytes "GET" || m == bytes "HEAD" || m == bytes "OPTIONS"

unfoldable pub is_bearer_auth : Request → Bool
unfolding header_get has_prefix
is_bearer_auth r = has_prefix (header_get r (bytes "Authorization")) (bytes "Bearer ")

unfoldable pub origin_of_url : Option (Text × Text) → Text
origin_of_url none = []
origin_of_url (some (scheme, host)) =
    if scheme == [] || host == [] then [] else scheme ++ (bytes "://" ++ host)

-- The Origin header, or else the origin of the Referer, or else ''.
unfoldable pub request_origin : (Text → Option (Text × Text)) → Request → Text
unfolding header_get origin_of_url
request_origin parse_url r =
    if not (header_get r (bytes "Origin") == [])
    then header_get r (bytes "Origin")
    else if header_get r (bytes "Referer") == []
    then []
    else origin_of_url (parse_url (header_get r (bytes "Referer")))

unfoldable pub request_origin_allowed : (Text → Option (Text × Text)) → List Text → Request → Bool
unfolding request_origin any
request_origin_allowed parse_url [] r = true
request_origin_allowed parse_url (o ∷ os) r =
    not (request_origin parse_url r == []) && any (λ a. request_origin parse_url r == a) (o ∷ os)

-- What a request that needs the token is refused with, if it is.
unfoldable pub csrf_refusal : (Text → Option (Text × Text)) → List Text → Request → Option Response
unfolding request_origin_allowed cookie_value header_get
csrf_refusal parse_url allowed_origins r =
    if not (request_origin_allowed parse_url allowed_origins r)
    then some (write_error 403 "csrf_origin" "origin not allowed")
    else if cookie_value r csrf_cookie_name == []
    then some (write_error 403 "csrf_missing" "csrf cookie missing")
    else if header_get r csrf_header_name == []
    then some (write_error 403 "csrf_missing" "csrf header missing")
    else if not (cookie_value r csrf_cookie_name == header_get r csrf_header_name)
    then some (write_error 403 "csrf_mismatch" "csrf token mismatch")
    else none

-- RequireCSRF
unfoldable pub require_csrf :
    {S : Type 0} → (Text → Option (Text × Text)) → List Text → Handler S → Handler S
require_csrf parse_url allowed_origins next r w =
    if is_safe_method r.method
    then next r w
    else if is_bearer_auth r
    then next r w
    else elim (csrf_refusal parse_url allowed_origins r) [ none ↦ next r w | some res ↦ (res, w) ]

any-of_In : (o : Text) (allowed : List Text) → In o allowed → any (λ a. o == a) allowed ≡ true
unfolding any
any-of_In o [] h = absurd h
any-of_In o (a ∷ rest) (inl e) = ground (arith, text_beq_iff o a)
any-of_In o (a ∷ rest) (inr h) = ground (arith, any-of_In o rest h)

In-of_any : (o : Text) (allowed : List Text) → any (λ a. o == a) allowed ≡ true → In o allowed
unfolding any
In-of_any o [] h = cc
In-of_any o (a ∷ rest) h = elim (Bool-cases (o == a)) [
  | inl hit ↦ inl (sym ((text_beq_iff o a).0 hit))
  | inr miss ↦ inr (In-of_any o rest (rw miss at h))
]

module _ (parse_url : Text → Option (Text × Text)) where
  -- The origin test: no list is set, or the request names an origin of the list.
  abbrev pub HasOrigin : List Text → Request → Type 0
  HasOrigin allowed r =
      (allowed ≡ []) ⊎ ((request_origin parse_url r ≢ []) × In (request_origin parse_url r) allowed)

  HasOrigin-of_allowed :
      (allowed : List Text) (r : Request)
      → request_origin_allowed parse_url allowed r ≡ true
      → HasOrigin allowed r
  unfolding request_origin_allowed
  HasOrigin-of_allowed [] r h = inl refl
  HasOrigin-of_allowed (o ∷ os) r h = inr (
    ground (arith, text_beq_iff (request_origin parse_url r) []),
    In-of_any (request_origin parse_url r) (o ∷ os) (ground arith),
  )

  allowed-of_HasOrigin :
      (allowed : List Text) (r : Request)
      → HasOrigin allowed r
      → request_origin_allowed parse_url allowed r ≡ true
  unfolding request_origin_allowed
  allowed-of_HasOrigin [] r h = refl
  allowed-of_HasOrigin (o ∷ os) r (inl e) = cc
  allowed-of_HasOrigin (o ∷ os) r (inr (named, listed)) = ground (
    arith,
    text_beq_iff (request_origin parse_url r) [],
    any-of_In (request_origin parse_url r) (o ∷ os) listed,
  )

  -- What a request must carry to change state by its cookie.
  pub record HasToken (allowed : List Text) (r : Request) : Type 0 where
    pub origin : HasOrigin allowed r
    pub cookie : cookie_value r csrf_cookie_name ≢ []
    pub echoed : header_get r csrf_header_name ≡ cookie_value r csrf_cookie_name

  module _ (allowed : List Text) (r : Request) where
    pub HasToken-of_accepted : csrf_refusal parse_url allowed r ≡ none → HasToken allowed r
    unfolding csrf_refusal
    HasToken-of_accepted h = record {
      origin = HasOrigin-of_allowed allowed r (ground arith);
      cookie = ground (arith, text_beq_iff (cookie_value r csrf_cookie_name) []);
      echoed =
          ground
            (arith, text_beq_iff (cookie_value r csrf_cookie_name) (header_get r csrf_header_name));
    }

    accepted-of_HasToken : HasToken allowed r → csrf_refusal parse_url allowed r ≡ none
    unfolding csrf_refusal
    accepted-of_HasToken t = ground (
      arith,
      t.cookie,
      t.echoed,
      allowed-of_HasOrigin allowed r t.origin,
      text_beq_iff (cookie_value r csrf_cookie_name) [],
      text_beq_iff (header_get r csrf_header_name) [],
      text_beq_iff (cookie_value r csrf_cookie_name) (header_get r csrf_header_name),
    )

    pub refusal_status :
        (res : Response) → csrf_refusal parse_url allowed r ≡ some res → res.status ≡ 403
    unfolding csrf_refusal
    refusal_status res h = ground arith

    module _ {S : Type 0} (next : Handler S) (w : S) (unsafe : is_safe_method r.method ≡ false)
        (by_cookie : is_bearer_auth r ≡ false) where
      -- A request that is not of a safe method and has no bearer header reaches the next handler
      -- if it has the token in cookie and header alike, and an allowed origin.
      pub require_csrf_passes :
          HasToken allowed r → require_csrf parse_url allowed next r w ≡ next r w
      unfolding require_csrf
      require_csrf_passes t = ground (arith, accepted-of_HasToken t)

      -- A request that is not of a safe method and has no bearer header is answered 403 and leaves
      -- the state as it is, if it lacks the token or an allowed origin.
      pub require_csrf_stops :
          ¬ HasToken allowed r
          → ((require_csrf parse_url allowed next r w).0.status ≡ 403)
            × ((require_csrf parse_url allowed next r w).1 ≡ w)
      unfolding require_csrf
      require_csrf_stops missing = elim (Option-cases (csrf_refusal parse_url allowed r)) [
        | inl accepted ↦ absurd (missing (HasToken-of_accepted accepted))
        | inr (res, refused) ↦
            let forbidden = refusal_status res refused in (ground arith, ground arith)
      ]
