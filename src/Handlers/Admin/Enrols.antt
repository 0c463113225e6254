-- ===== src/Handlers/Admin/Enrols.antt =====
-- From the mint to the enrolment: the token that an admin is shown is the one that a device can spend.
use rdoc_cam_hub.Common.{
  ℕ, ◌<◌, Text, Bool, true, none, some, List, [], ◌∷◌, ◌++◌, text_eq, text_beq_iff, ◌∙◌, ◌≡◌, refl,
  ap, subst, sym, arith, any, some_injective,
}
use rdoc_cam_hub.Common.Int.{ℤ, pos, ◌+ℤ◌, pos_part}
use rdoc_cam_hub.Http.{Request}
use rdoc_cam_hub.Store.{Database, EnrollmentToken, Env, ok, query}
use rdoc_cam_hub.Store.Tokens.{consume, usable}
use rdoc_cam_hub.Handlers.{Decoded, decoded, parsed}
use rdoc_cam_hub.Handlers.Admin.{
  Hours, MintEnrollmentReq, mint_body, mint_ttl, mint_enrollment_token,
}
use rdoc_cam_hub.Handlers.Admin.Minted.{mint_enrollment_token-IsAdmitted}

any-last :
    (p : EnrollmentToken → Bool) (rows : List EnrollmentToken) (row : EnrollmentToken)
    → p row ≡ true
    → any p (rows ++ row ∷ []) ≡ true
unfolding any
any-last p [] row hit = ground (arith, hit)
any-last p (t ∷ rows) row hit = ground (arith, any-last p rows row hit)

consume-usable :
    (env : Env) (d : Database) (hash device_id : Text)
    → env.db_up d.statements ≡ true
    → any (usable env.db_now hash) d.tokens ≡ true
    → (consume env d hash device_id).0 ≡ ok tt
unfolding consume query
consume-usable env d hash device_id up hit = rw (up, hit) refl

usable_row :
    (now : ℕ) (hash : Text) (row : EnrollmentToken)
    → row.hash ≡ hash
    → row.consumed_at ≡ none
    → now < row.expires_at
    → usable now hash row ≡ true
usable_row now hash row named unspent early =
    ground (arith, named, unspent, early, text_beq_iff row.hash hash)

decoded_same :
    {F : Type 0} (a b : MintEnrollmentReq F) → decoded a ≡ decoded b → a.ttl_hours ≡ b.ttl_hours
decoded_same a b e = ground (arith, e)

parsed_same : (a b : ℤ) → parsed a ≡ parsed b → a ≡ b
parsed_same a b e = ground (arith, e)

drawn_same : (draw draw' : Text × Text) → some draw ≡ some draw' → draw'.1 ≡ draw.1
drawn_same draw draw' e = ap (λ (x : Text × Text). x.1) (sym (some_injective draw draw' e))

module _ {F : Type 0} (hours : Hours F) (env : Env) (raw hash : Text) where
  -- The token of a mint that is answered 201 can be spent by a device: a consumption of its hash
  -- succeeds while the database's clock is before the expiry that was asked for, from the state
  -- that the mint left, if the database carries its statement out.
  pub mint_then_consume :
      (decode : ℕ → Text → Decoded (MintEnrollmentReq F)) (r : Request) (d : Database)
      (req : MintEnrollmentReq F) (ttl : ℤ)
      → mint_body hours decode r ≡ decoded req
      → mint_ttl hours req.ttl_hours ≡ parsed ttl
      → (mint_enrollment_token hours decode env (some (raw, hash)) r d).0.status ≡ 201
      → (later : Env) (device_id : Text) → later.db_now < pos_part (pos env.app_now +ℤ ttl)
      → later.db_up (mint_enrollment_token hours decode env (some (raw, hash)) r d).1.statements
        ≡ true
      → (consume later
          (mint_enrollment_token hours decode env (some (raw, hash)) r d).1
          hash
          device_id).0
        ≡ ok tt
  mint_then_consume decode r d req ttl asked lifetime created later device_id early up =
      let admitted =
        (mint_enrollment_token-IsAdmitted hours env (some (raw, hash)) decode r d).0 created in
      let minted = admitted.minted in
      let same_ttl : admitted.ttl ≡ ttl = parsed_same admitted.ttl ttl (
        sym admitted.lifetime
        ∙ ap (mint_ttl hours) (decoded_same admitted.req req (sym admitted.asked ∙ asked))
        ∙ lifetime) in
      let same_hash : minted.row.hash ≡ hash =
        drawn_same (raw, hash) (minted.raw, minted.row.hash) minted.drawn in
      let expiry : later.db_now < minted.row.expires_at =
        subst (λ e. later.db_now < e)
          (sym (minted.expires_at ∙ ap (λ t. pos_part (pos env.app_now +ℤ t)) same_ttl)) early in
      consume-usable later (mint_enrollment_token hours decode env (some (raw, hash)) r d).1 hash
        device_id up
        (subst (λ l. any (usable later.db_now hash) l ≡ true) (sym minted.stored)
          (any-last (usable later.db_now hash) d.tokens minted.row
            (usable_row later.db_now hash minted.row same_hash minted.is_open expiry)))
