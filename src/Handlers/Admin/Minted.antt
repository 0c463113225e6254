-- ===== src/Handlers/Admin/Minted.antt =====
-- What a mint stores and answers.
use rdoc_cam_hub.Common.{
  ℕ, ◌≤◌, Text, false, Option, none, some, [], ◌∷◌, ◌++◌, ◌==◌, text_eq, ◌≡◌, ◌≢◌, inl, inr, refl,
  sym, ◌∙◌, arith, length, any, Bool-cases, ltb,
}
use rdoc_cam_hub.Common.Int.{ℤ, pos, negsuc, ◌+ℤ◌, pos_part, ltb_ℤ}
use rdoc_cam_hub.Http.{Principal, Request, Response, json, text, number}
use rdoc_cam_hub.Store.{Database, EnrollmentToken, Env, query}
use rdoc_cam_hub.Store.Tokens.{token_create, token_refused}
use rdoc_cam_hub.Handlers.{Decoded, body_too_large, bad_json, decoded, Parsed, refused, parsed}
use rdoc_cam_hub.Handlers.Admin.{
  MintEnrollmentReq, Hours, mint_ttl, mint_created, mint_random, mint_parsed, mint_decoded,
  mint_body, mint_for, mint_enrollment_token, max_note_len, max_enrollment_ttl,
}

-- One open token of the principal is appended, under a hash that no token had; the answer shows its
-- raw form.
pub record IsMinted (env : Env) (random : Option (Text × Text)) (p : Principal) (ttl : ℤ)
    (note : Text) (d : Database) (reply : Response × Database) : Type 0 where
  pub row : EnrollmentToken
  pub raw : Text
  pub drawn : random ≡ some (raw, row.hash)
  pub stored : reply.1.tokens ≡ d.tokens ++ row ∷ []
  pub fresh : any (λ (t : EnrollmentToken). t.hash == row.hash) d.tokens ≡ false
  pub created_by : row.created_by ≡ p.user_id
  pub expires_at : row.expires_at ≡ pos_part (pos env.app_now +ℤ ttl)
  pub is_open : row.consumed_at ≡ none
  pub note_kept : row.note ≡ note
  pub answer :
      reply.0.body
      ≡ json (
          ("token", text raw)
          ∷ ("id", number row.id)
          ∷ ("expires_at", number row.expires_at)
          ∷ ("created_by", number p.user_id)
          ∷ [])

module _ {F : Type 0} (hours : Hours F) (env : Env) (random : Option (Text × Text)) where
  mint_random-IsMinted :
      (p : Principal) (ttl : ℤ) (note : Text) (d : Database) (draw : Option (Text × Text))
      → (mint_random hours env p ttl note d draw).0.status ≡ 201
      → IsMinted env draw p ttl note d (mint_random hours env p ttl note d draw)
  unfolding mint_random mint_created token_create token_refused query
  mint_random-IsMinted p ttl note d none ok = absurd (ground arith)
  mint_random-IsMinted p ttl note d (some (raw, hash)) ok = record {
    row = record {
      id = d.token_serial;
      hash = hash;
      created_by = p.user_id;
      created_at = env.db_now;
      expires_at = pos_part (pos env.app_now +ℤ ttl);
      consumed_at = none;
      consumed_by_device_id = none;
      note = note;
    };
    raw = raw;
    drawn = refl;
    stored = ground arith;
    fresh = ground arith;
    created_by = refl;
    expires_at = refl;
    is_open = refl;
    note_kept = refl;
    answer = ground arith;
  }

  mint_random_keeps :
      (p : Principal) (ttl : ℤ) (note : Text) (d : Database) (draw : Option (Text × Text))
      → (mint_random hours env p ttl note d draw).0.status ≢ 201
      → (mint_random hours env p ttl note d draw).1.tokens ≡ d.tokens
  unfolding mint_random mint_created token_create query
  mint_random_keeps p ttl note d draw bad = ground arith

  -- The principal, lifetime and note of a mint that is let through, and what it stores.
  pub record IsAdmitted (given : Option Principal) (body : Decoded (MintEnrollmentReq F))
      (d : Database) (reply : Response × Database) : Type 0 where
    pub principal : Principal
    pub req : MintEnrollmentReq F
    pub ttl : ℤ
    pub signed_in : given ≡ some principal
    pub asked : body ≡ decoded req
    pub lifetime : mint_ttl hours req.ttl_hours ≡ parsed ttl
    pub capped : ltb_ℤ max_enrollment_ttl ttl ≡ false
    pub short_note : length req.note ≤ max_note_len
    pub minted : IsMinted env random principal ttl req.note d reply

  mint_ttl_capped :
      (h : Option F) (ttl : ℤ)
      → mint_ttl hours h ≡ parsed ttl
      → ltb_ℤ max_enrollment_ttl ttl ≡ false
  unfolding mint_ttl
  mint_ttl_capped h ttl e = ground arith

  mint_parsed-IsAdmitted :
      (p : Principal) (req : MintEnrollmentReq F) (d : Database) (lifetime : Parsed ℤ)
      → mint_ttl hours req.ttl_hours ≡ lifetime
      → (mint_parsed hours env random p req.note d lifetime).0.status ≡ 201
      → IsAdmitted (some p) (decoded req) d (mint_parsed hours env random p req.note d lifetime)
  unfolding mint_parsed mint_ttl
  mint_parsed-IsAdmitted p req d (refused res) e created = absurd (ground arith)
  mint_parsed-IsAdmitted p req d (parsed ttl) e created =
      elim (Bool-cases (ltb max_note_len (length req.note))) [
        | inl long ↦ absurd (ground arith)
        | inr short ↦ rw short (record {
          principal = p;
          req = req;
          ttl = ttl;
          signed_in = refl;
          asked = refl;
          lifetime = e;
          capped = mint_ttl_capped req.ttl_hours ttl e;
          short_note = ground arith;
          minted = mint_random-IsMinted p ttl req.note d random (ground arith);
        })
      ]

  mint_parsed_keeps :
      (p : Principal) (note : Text) (d : Database) (lifetime : Parsed ℤ)
      → (mint_parsed hours env random p note d lifetime).0.status ≢ 201
      → (mint_parsed hours env random p note d lifetime).1.tokens ≡ d.tokens
  unfolding mint_parsed
  mint_parsed_keeps p note d (refused res) bad = refl
  mint_parsed_keeps p note d (parsed ttl) bad =
      ground (arith, mint_random_keeps p ttl note d random)

  mint_for-IsAdmitted :
      (body : Decoded (MintEnrollmentReq F)) (d : Database) (given : Option Principal)
      → (mint_for hours env random body d given).0.status ≡ 201
      → IsAdmitted given body d (mint_for hours env random body d given)
  unfolding mint_for mint_decoded
  mint_for-IsAdmitted body d none created = absurd (ground arith)
  mint_for-IsAdmitted body_too_large d (some p) created = absurd (ground arith)
  mint_for-IsAdmitted bad_json d (some p) created = absurd (ground arith)
  mint_for-IsAdmitted (decoded req) d (some p) created =
      mint_parsed-IsAdmitted p req d (mint_ttl hours req.ttl_hours) refl created

  mint_for_keeps :
      (body : Decoded (MintEnrollmentReq F)) (d : Database) (given : Option Principal)
      → (mint_for hours env random body d given).0.status ≢ 201
      → (mint_for hours env random body d given).1.tokens ≡ d.tokens
  unfolding mint_for mint_decoded
  mint_for_keeps body d none bad = refl
  mint_for_keeps body_too_large d (some p) bad = refl
  mint_for_keeps bad_json d (some p) bad = refl
  mint_for_keeps (decoded req) d (some p) bad =
      mint_parsed_keeps p req.note d (mint_ttl hours req.ttl_hours) bad

  -- A mint is answered 201 only for a principal whose request is within the caps, and then one
  -- open token is appended under the hash of the raw token in the answer, with the expiry that was
  -- asked for; any other answer leaves the tokens as they are.
  pub mint_enrollment_token-IsAdmitted :
      (decode : ℕ → Text → Decoded (MintEnrollmentReq F)) (r : Request) (d : Database)
      → ((mint_enrollment_token hours decode env random r d).0.status ≡ 201
          → IsAdmitted r.principal
              (mint_body hours decode r)
              d
              (mint_enrollment_token hours decode env random r d))
        × ((mint_enrollment_token hours decode env random r d).0.status ≢ 201
            → (mint_enrollment_token hours decode env random r d).1.tokens ≡ d.tokens)
  unfolding mint_enrollment_token
  mint_enrollment_token-IsAdmitted decode r d = (
    mint_for-IsAdmitted (mint_body hours decode r) d r.principal,
    mint_for_keeps (mint_body hours decode r) d r.principal,
  )

  expired_by : (now : ℕ) (ttl : ℤ) → ltb_ℤ (pos 0) ttl ≡ false → pos_part (pos now +ℤ ttl) ≤ now
  expired_by now (pos n) h = ground arith
  expired_by now (negsuc n) h = ground arith

  mint_ttl_given :
      (given : Option F) (h : F) (ttl : ℤ)
      → given ≡ some h
      → mint_ttl hours given ≡ parsed ttl
      → ttl ≡ hours.to_duration h
  unfolding mint_ttl
  mint_ttl_given given h ttl asked e = ground arith

  decoded_ttl : (a b : MintEnrollmentReq F) → decoded a ≡ decoded b → a.ttl_hours ≡ b.ttl_hours
  decoded_ttl a b e = ground (arith, e)

  -- A mint whose ttl_hours converts to a duration of zero or less and that is answered 201 has
  -- stored a token that has expired by the hub's own clock.
  pub mint_expired :
      (p : Principal) (req : MintEnrollmentReq F) (h : F) (d : Database)
      → req.ttl_hours ≡ some h
      → ltb_ℤ (pos 0) (hours.to_duration h) ≡ false
      → (mint_decoded hours env random p d (decoded req)).0.status ≡ 201
      → (row : EnrollmentToken) × ((mint_decoded hours env random p d (decoded req)).1.tokens
          ≡ d.tokens ++ row ∷ [])
        × (row.expires_at ≤ env.app_now)
  unfolding mint_decoded
  mint_expired p req h d asked tiny created =
      let admitted = mint_parsed-IsAdmitted p req d (mint_ttl hours req.ttl_hours) refl created in
      let row = admitted.minted.row in
      (
        row,
        admitted.minted.stored,
        ground (
          arith,
          admitted.minted.expires_at,
          mint_ttl_given admitted.req.ttl_hours h admitted.ttl
              (sym (decoded_ttl req admitted.req admitted.asked) ∙ asked) admitted.lifetime,
          expired_by env.app_now admitted.ttl,
        ),
      )
