-- ===== src/Store/Tokens.antt =====
-- internal/db/enrollment_tokens.go
pub mod History
pub mod Single
mod Examples
use rdoc_cam_hub.Common.{
  ℕ, ◌+◌, Text, Bool, true, false, Option, none, some, List, ◌∷◌, ◌++◌, [], ◌==◌, ◌&&◌, ◌||◌, not,
  if◌then◌else◌, any, find, text_eq, nat_eq, ltb, update_where,
}
use rdoc_cam_hub.Common.Int.{ℤ, pos, pos_part, ◌+ℤ◌}
use rdoc_cam_hub.Store.{
  User, EnrollmentToken, Database, Env, Result, ok, err, failed, not_found, query,
}

-- The hash is taken, or the user is unknown.
unfoldable pub token_refused : Database → Text → ℕ → Bool
unfolding any
token_refused d hash created_by =
    any (λ (t : EnrollmentToken). t.hash == hash) d.tokens
    || not (any (λ (u : User). u.id == created_by) d.users)

-- EnrollmentTokenStore.Create; enrollment_tokens.hash is UNIQUE and created_by references users. The
-- lifetime may be negative, and an expiry before 1970 is cut to 0.
unfoldable pub token_create :
    Env → Database → Text → ℕ → ℤ → Text → Result EnrollmentToken × Database
unfolding query token_refused
token_create env d hash created_by ttl note = query env d λ d.
    let d' : Database = record d { token_serial = d.token_serial + 1 } in
    let row : EnrollmentToken = record {
      id = d.token_serial;
      hash = hash;
      created_by = created_by;
      created_at = env.db_now;
      expires_at = pos_part (pos env.app_now +ℤ ttl);
      consumed_at = none;
      consumed_by_device_id = none;
      note = note;
    } in
    if token_refused d hash created_by
    then (err failed, d')
    else (ok row, record d' { tokens = d.tokens ++ row ∷ [] })

abbrev pub is_open : EnrollmentToken → Bool
is_open t = elim t.consumed_at [ none ↦ true | some at ↦ false ]

-- hash = $1 AND consumed_at IS NULL AND expires_at > now()
abbrev pub usable : ℕ → Text → EnrollmentToken → Bool
usable now hash t = t.hash == hash && is_open t && ltb now t.expires_at

abbrev pub consumed : ℕ → Text → EnrollmentToken → EnrollmentToken
consumed now device_id t = record t {
  consumed_at = some now;
  consumed_by_device_id = some device_id;
}

-- EnrollmentTokenStore.Consume: one UPDATE … RETURNING id
unfoldable pub consume : Env → Database → Text → Text → Result (Unit {0}) × Database
unfolding query any update_where
consume env d hash device_id = query env d λ d.
    if any (usable env.db_now hash) d.tokens
    then (
      ok tt,
      record d {
        tokens = update_where (usable env.db_now hash) (consumed env.db_now device_id) d.tokens;
      },
    )
    else (err not_found, d)

abbrev pub revocable : ℕ → EnrollmentToken → Bool
revocable id t = t.id == id && is_open t

abbrev pub revoked : ℕ → EnrollmentToken → EnrollmentToken
revoked now t = record t { consumed_at = some now }

-- EnrollmentTokenStore.Revoke
unfoldable pub revoke : Env → Database → ℕ → Result (Unit {0}) × Database
unfolding query any update_where
revoke env d id = query env d λ d.
    if any (revocable id) d.tokens
    then (ok tt, record d { tokens = update_where (revocable id) (revoked env.db_now) d.tokens })
    else (err not_found, d)
