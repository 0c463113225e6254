-- ===== src/Handlers/Admin.antt =====
-- internal/httpapi/admin_enrollment.go
--
-- `ttl_hours` is a float: its type is a parameter, with the comparison to 0 and the conversion
-- `time.Duration(f * float64(time.Hour))`. `random` is the result of auth.NewEnrollmentToken.
pub mod Minted
pub mod Enrols
mod Examples
use rdoc_cam_hub.Common.{
  ℕ, ◌*◌, Text, bytes, Bool, true, false, not, ◌||◌, Option, none, some, [], ◌∷◌, ◌==◌, text_eq,
  if◌then◌else◌, length, ltb,
}
use rdoc_cam_hub.Common.Int.{ℤ, pos, ltb_ℤ}
use rdoc_cam_hub.Http.{
  Principal, Request, Response, Handler, header_get, write_error, write_json, hour, text, number,
}
use rdoc_cam_hub.Store.{Database, EnrollmentToken, Env, Result, ok, err}
use rdoc_cam_hub.Store.Tokens.{token_create}
use rdoc_cam_hub.Handlers.{Decoded, body_too_large, bad_json, decoded, Parsed, refused, parsed}

abbrev pub enrollment_tokens_max_body : ℕ
enrollment_tokens_max_body = 4 * 1024

abbrev pub max_note_len : ℕ
max_note_len = 512

abbrev pub default_enrollment_ttl : ℤ
default_enrollment_ttl = pos (24 * hour)

abbrev pub max_enrollment_ttl : ℤ
max_enrollment_ttl = pos (7 * 24 * hour)

-- float64, as far as the handler uses it.
pub record Hours (F : Type 0) : Type 0 where
  pub is_positive : F → Bool
  pub to_duration : F → ℤ

-- mintEnrollmentReq
pub record MintEnrollmentReq (F : Type 0) : Type 0 where
  pub ttl_hours : Option F
  pub note : Text

module _ {F : Type 0} (hours : Hours F) where
  -- The lifetime that a request asks for.
  unfoldable pub mint_ttl : Option F → Parsed ℤ
  mint_ttl none = parsed default_enrollment_ttl
  mint_ttl (some h) =
      if not (hours.is_positive h)
      then refused (write_error 400 "bad_request" "ttl_hours must be > 0")
      else if ltb_ℤ max_enrollment_ttl (hours.to_duration h)
      then refused (write_error 400 "bad_request" "ttl_hours exceeds 168 (7-day) cap")
      else parsed (hours.to_duration h)

  -- mintEnrollmentToken behind Create
  unfoldable pub mint_created : Text → Result EnrollmentToken × Database → Response × Database
  mint_created raw (err e, d) = (write_error 500 "internal" "persist failed", d)
  mint_created raw (ok t, d) = (
    write_json 201 (
        ("token", text raw)
        ∷ ("id", number t.id)
        ∷ ("expires_at", number t.expires_at)
        ∷ ("created_by", number t.created_by)
        ∷ []),
    d,
  )

  -- mintEnrollmentToken behind NewEnrollmentToken
  unfoldable pub mint_random :
      Env → Principal → ℤ → Text → Database → Option (Text × Text) → Response × Database
  unfolding mint_created
  mint_random env p ttl note d none = (write_error 500 "internal" "mint failed", d)
  mint_random env p ttl note d (some (raw, hash)) =
      mint_created raw (token_create env d hash p.user_id ttl note)

  -- mintEnrollmentToken behind the check of the lifetime
  unfoldable pub mint_parsed :
      Env → Option (Text × Text) → Principal → Text → Database → Parsed ℤ → Response × Database
  unfolding mint_random
  mint_parsed env random p note d (refused res) = (res, d)
  mint_parsed env random p note d (parsed ttl) =
      if ltb max_note_len (length note)
      then (write_error 400 "bad_request" "note exceeds length limit", d)
      else mint_random env p ttl note d random

  -- mintEnrollmentToken behind the decoding
  unfoldable pub mint_decoded :
      Env
      → Option (Text × Text)
      → Principal
      → Database
      → Decoded (MintEnrollmentReq F)
      → Response × Database
  unfolding mint_parsed mint_ttl
  mint_decoded env random p d body_too_large =
      (write_error 413 "body_too_large" "request body exceeds size limit", d)
  mint_decoded env random p d bad_json = (write_error 400 "bad_request" "invalid JSON body", d)
  mint_decoded env random p d (decoded req) =
      mint_parsed env random p req.note d (mint_ttl req.ttl_hours)

  -- The body is read if there is a sign of one.
  unfoldable pub mint_body :
      (ℕ → Text → Decoded (MintEnrollmentReq F)) → Request → Decoded (MintEnrollmentReq F)
  unfolding header_get
  mint_body decode r =
      if ltb_ℤ (pos 0) r.content_length || not (header_get r (bytes "Content-Type") == [])
      then decode enrollment_tokens_max_body r.body
      else decoded (record { ttl_hours = none; note = [] })

  -- mintEnrollmentToken behind PrincipalFrom
  unfoldable pub mint_for :
      Env
      → Option (Text × Text)
      → Decoded (MintEnrollmentReq F)
      → Database
      → Option Principal
      → Response × Database
  unfolding mint_decoded
  mint_for env random body d none = (write_error 401 "unauthorized" "no session", d)
  mint_for env random body d (some p) = mint_decoded env random p d body

  -- mintEnrollmentToken
  unfoldable pub mint_enrollment_token :
      (ℕ → Text → Decoded (MintEnrollmentReq F)) → Env → Option (Text × Text) → Handler Database
  unfolding mint_for mint_body
  mint_enrollment_token decode env random r d =
      mint_for env random (mint_body decode r) d r.principal
