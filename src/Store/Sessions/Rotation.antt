-- ===== src/Store/Sessions/Rotation.antt =====
-- What a rotation of a session id does: all of it or nothing.
use rdoc_cam_hub.Common.{
  ℕ, ◌+◌, ◌≤◌, ◌<◌, ◌≡◌, ◌≢◌, refl, sym, ap, ◌∙◌, Text, Bool, true, false, List, [], ◌∷◌, arith,
  find, any, update_where, delete_where, Option-cases, Bool-cases, inl, inr, some, none,
  text_beq_iff, text_eq, ==-refl, All, Distinct, All-of_find_unique, lt→ltb,
}
use rdoc_cam_hub.Store.{Session, Database, Env, ok, err, commit, DbError}
use rdoc_cam_hub.Store.Sessions.{
  has_id, id_clash, is_expired, purge_expired, rotate, rotate_begun, rotate_found, rotate_update,
  renewed, begin, session_get,
}

-- What a successful rotation has found and done.
pub record Rotated (env : Env) (d d' : Database) (old_id new_id : Text) (ttl window : ℕ)
    (s s' : Session) : Type 0 where
  pub found : find (has_id old_id) d.sessions ≡ some s
  pub recent : env.app_now ≤ s.created_at + window
  pub free : id_clash d old_id new_id ≡ false
  pub result : s' ≡ renewed env new_id ttl s
  pub table : d'.sessions ≡ update_where (has_id old_id) (renewed env new_id ttl) d.sessions

find-update_id_self :
    (rows : List Session) (old_id new_id : Text) (f : Session → Session) (s : Session)
    → ((r : Session) → (f r).id ≡ new_id)
    → any (has_id new_id) rows ≡ false
    → find (has_id old_id) rows ≡ some s
    → find (has_id new_id) (update_where (has_id old_id) f rows) ≡ some (f s)
unfolding find any update_where
find-update_id_self [] old_id new_id f s sets fresh e = cc
find-update_id_self (r ∷ rows) old_id new_id f s sets fresh e = ground (
  arith,
  sets r,
  ==-refl new_id,
  text_beq_iff r.id old_id,
  text_beq_iff (f r).id new_id,
  find-update_id_self rows old_id new_id f s sets,
)

find-update_id_old :
    (rows : List Session) (old_id new_id : Text) (f : Session → Session)
    → ((r : Session) → (f r).id ≡ new_id)
    → old_id ≢ new_id
    → find (has_id old_id) (update_where (has_id old_id) f rows) ≡ none
unfolding find update_where
find-update_id_old [] old_id new_id f sets ne = refl
find-update_id_old (r ∷ rows) old_id new_id f sets ne =
    ground
      (arith, sets r, text_beq_iff (f r).id old_id, find-update_id_old rows old_id new_id f sets ne)

module _ (env : Env) (d : Database) (old_id new_id : Text) (ttl window : ℕ) where
  clash_of_sessions :
      (d' : Database)
      → d'.sessions ≡ d.sessions
      → id_clash d' old_id new_id ≡ id_clash d old_id new_id
  unfolding id_clash
  clash_of_sessions d' e = ground arith

  rotate_ok :
      (s s' : Session)
      → find (has_id old_id) d.sessions ≡ some s
      → (rotate env d old_id new_id ttl window).0 ≡ ok s'
      → Rotated env d (rotate env d old_id new_id ttl window).1 old_id new_id ttl window s s'
  unfolding rotate rotate_begun rotate_found rotate_update commit session_get begin id_clash
  rotate_ok s s' here e = ground arith

  not_found_of_absent :
      find (has_id old_id) d.sessions ≡ none
      → (s' : Session) → (rotate env d old_id new_id ttl window).0 ≢ ok s'
  unfolding rotate rotate_begun rotate_found rotate_update commit session_get begin
  not_found_of_absent absent s' e = ground arith

  fresh_of_free :
      old_id ≢ new_id → id_clash d old_id new_id ≡ false → any (has_id new_id) d.sessions ≡ false
  unfolding id_clash
  fresh_of_free ne free = ground (arith, text_beq_iff old_id new_id)

  -- A rotation that fails, in whatever way, leaves every session as it was.
  pub rotate_error_keeps :
      (x : DbError)
      → (rotate env d old_id new_id ttl window).0 ≡ err x
      → (rotate env d old_id new_id ttl window).1.sessions ≡ d.sessions
  unfolding rotate rotate_begun rotate_found rotate_update commit session_get begin
  rotate_error_keeps x e = ground arith

  Rotated-cases :
      (s' : Session)
      → (rotate env d old_id new_id ttl window).0 ≡ ok s'
      → (s : Session) × Rotated env d
          (rotate env d old_id new_id ttl window).1
          old_id
          new_id
          ttl
          window
          s
          s'
  Rotated-cases s' e = elim (Option-cases (find (has_id old_id) d.sessions)) [
    | inl absent ↦ absurd (not_found_of_absent absent s' e)
    | inr (s, here) ↦ (s, rotate_ok s s' here e)
  ]

  -- After a successful rotation to another id the old id names no session, and the new id names
  -- the session that the old one did: the same user and the same creation time, with a fresh
  -- expiry.
  pub rotate_swaps :
      (s' : Session)
      → old_id ≢ new_id
      → (rotate env d old_id new_id ttl window).0 ≡ ok s'
      → let after = (rotate env d old_id new_id ttl window).1.sessions in
        (find (has_id old_id) after ≡ none)
        × (find (has_id new_id) after ≡ some s')
        × ((s : Session) × (find (has_id old_id) d.sessions ≡ some s)
            × (s'.user_id ≡ s.user_id)
            × (s'.created_at ≡ s.created_at)
            × (s'.expires_at ≡ env.app_now + ttl))
  rotate_swaps s' ne e =
      let (s, r) = Rotated-cases s' e in
      let absent : any (has_id new_id) d.sessions ≡ false = fresh_of_free ne r.free in
      (
        rw r.table (find-update_id_old d.sessions old_id new_id _ (λ r. refl) ne),
        rw r.table (
            find-update_id_self d.sessions old_id new_id _ s (λ r. refl) absent r.found
            ∙ ap some (sym r.result)),
        (
          s,
          r.found,
          ap (λ (x : Session). x.user_id) r.result,
          ap (λ (x : Session). x.created_at) r.result,
          ap (λ (x : Session). x.expires_at) r.result,
        ),
      )

  -- A session that is older than the refresh window cannot be rotated.
  pub rotate_window_closed :
      (s : Session)
      → find (has_id old_id) d.sessions ≡ some s
      → s.created_at + window < env.app_now
      → (s' : Session) → (rotate env d old_id new_id ttl window).0 ≢ ok s'
  rotate_window_closed s here late s' e =
      let r = rotate_ok s s' here e in let recent = r.recent in absurd (omega arith)

purged_table :
    (env : Env) (d : Database) (n : ℕ)
    → (purge_expired env d).0 ≡ ok n
    → (purge_expired env d).1.sessions ≡ delete_where (is_expired env.db_now) d.sessions
unfolding purge_expired
purged_table env d n e = ground arith

find_gone :
    (rows : List Session) (id : Text) (p : Session → Bool)
    → All (λ r. has_id id r ≡ true → p r ≡ true) rows
    → find (has_id id) (delete_where p rows) ≡ none
unfolding find delete_where
find_gone [] id p h = refl
find_gone (r ∷ rows) id p (h, hs) = elim (Bool-cases (p r)) [
  | inl gone ↦ rw gone (find_gone rows id p hs)
  | inr kept ↦ rw kept (ground (arith, λ (hit : has_id id r ≡ true). h hit, find_gone rows id p hs))
]

-- In a table with distinct ids, after a successful PurgeExpired a session whose access TTL had run
-- out cannot be refreshed, however much of its refresh window is left.
pub purge_blocks_refresh :
    (env later : Env) (d : Database) (id new_id : Text) (ttl window : ℕ) (s s' : Session) (n : ℕ)
    → Distinct (λ (r : Session). r.id) d.sessions
    → find (has_id id) d.sessions ≡ some s
    → s.expires_at < env.db_now
    → (purge_expired env d).0 ≡ ok n
    → (rotate later (purge_expired env d).1 id new_id ttl window).0 ≢ ok s'
purge_blocks_refresh env later d id new_id ttl window s s' n u here expired purged =
    not_found_of_absent later (purge_expired env d).1 id new_id ttl window
      (rw (purged_table env d n purged) (
        find_gone d.sessions id (is_expired env.db_now) (
          All-of_find_unique (λ (r : Session). r.id) (λ r. is_expired env.db_now r ≡ true) id
            d.sessions s u here (lt→ltb _ _ expired))))
      s'
