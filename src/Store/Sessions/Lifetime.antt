-- ===== src/Store/Sessions/Lifetime.antt =====
-- How long a session can live: no history of refreshes carries it past the window and one TTL.
use rdoc_cam_hub.Common.{
  ℕ, ◌+◌, ◌≤◌, ◌<◌, ◌≡◌, refl, Text, Bool, true, false, List, [], ◌∷◌, All, All-append, arith, find,
  delete_where, update_where, All-delete_where, All-update_where, All-of_find, Distinct,
  Distinct-append, Distinct-delete_where, Distinct-update_key, Distinct-update_where, All-ne_of_any,
  All-of_find_unique, text_beq_iff, ◌≢◌, ap, subst, sym, ◌∙◌, All-map, Option-cases, find-test,
  All-zip, Bool-cases, inl, inr, ltb, some, any, ◌==◌, text_eq, nat_eq, ◌&&◌,
}
use rdoc_cam_hub.Netip.{Addr}
use rdoc_cam_hub.Store.{User, Session, Database, Env, Result, ok, err, commit}
use rdoc_cam_hub.Store.Sessions.{
  SessionWithUser, has_id, session_refused, id_clash, is_expired, session_create, session_delete,
  purge_expired, rotate, renewed, rotate_found, rotate_update, session_get, begin, rotate_begun,
  get_active_with_user, join_user,
}

-- The calls that change the table, with the arguments that the handlers choose.
pub data Call : Type 0 where
  creates : (id : Text) (user_id : ℕ) (ua : Text) (ip : Addr) → Call
  rotates : (old_id new_id : Text) → Call
  deletes : (id : Text) → Call
  purges : Call

absent_of_accepted :
    (d : Database) (id : Text) (user_id : ℕ)
    → session_refused d id user_id ≡ false
    → All (λ (s : Session). s.id ≢ id) d.sessions
unfolding session_refused
absent_of_accepted d id user_id h = All-ne_of_any _ id d.sessions (ground arith)

-- The UPDATE of a rotation keeps the ids distinct, also where it sets the same id again.
rotated-Distinct :
    (env : Env) (d : Database) (old_id new_id : Text) (ttl : ℕ)
    → id_clash d old_id new_id ≡ false
    → Distinct (λ (s : Session). s.id) d.sessions
    → Distinct
        (λ (s : Session). s.id)
        (update_where (has_id old_id) (renewed env new_id ttl) d.sessions)
unfolding id_clash
rotated-Distinct env d old_id new_id ttl free u =
    elim (Bool-cases (any (has_id new_id) d.sessions)) [
      | inr absent ↦
          Distinct-update_key _ old_id new_id _ (λ s. refl) d.sessions
            (All-ne_of_any _ new_id d.sessions absent) u
      | inl present ↦
          let same : old_id ≡ new_id = ground (arith, text_beq_iff old_id new_id) in
          Distinct-update_where _ (has_id old_id) _
            (λ s hit. sym same ∙ sym ((text_beq_iff s.id old_id).0 hit)) d.sessions u
    ]

session_get_found :
    (env : Env) (d : Database) (id : Text) (s : Session)
    → (session_get env d id).0 ≡ ok s
    → find (has_id id) d.sessions ≡ some s
unfolding session_get
session_get_found env d id s e = ground arith

sessions-session_get :
    (env : Env) (d : Database) (id : Text) → (session_get env d id).1.sessions ≡ d.sessions
unfolding session_get
sessions-session_get env d id = ground arith

sessions-begin : (env : Env) (d : Database) → (begin env d).1.sessions ≡ d.sessions
unfolding begin
sessions-begin env d = ground arith

join_user-session :
    (users : List User) (s : Session) (found : SessionWithUser)
    → join_user users s ≡ some found
    → found.session ≡ s
unfolding join_user
join_user-session users s found e = ground arith

abbrev is_live : Env → Text → Session → Bool
is_live env id s = s.id == id && ltb env.db_now s.expires_at

module _ (ttl window : ℕ) where
  unfoldable pub step : Database → Env × Call → Database
  step d (env, creates id user_id ua ip) = (session_create env d id user_id ttl ua ip).1
  step d (env, rotates old_id new_id) = (rotate env d old_id new_id ttl window).1
  step d (env, deletes id) = (session_delete env d id).1
  step d (env, purges) = (purge_expired env d).1

  unfoldable pub run : Database → List (Env × Call) → Database
  run d [] = d
  run d (c ∷ calls) = run (step d c) calls

  abbrev pub IsCapped : Session → Type 0
  IsCapped s = s.expires_at ≤ s.created_at + window + ttl

  -- The hub's clock is not ahead of the database's by more than the refresh window.
  abbrev pub IsNear : Env × Call → Type 0
  IsNear c = c.0.app_now ≤ c.0.db_now + window

  -- Session ids are distinct, and no session outlives its window by more than one TTL.
  pub record IsValid (d : Database) : Type 0 where
    pub distinct : Distinct (λ (s : Session). s.id) d.sessions
    pub capped : All IsCapped d.sessions

  create-IsValid :
      (env : Env) (d : Database) (id : Text) (user_id : ℕ) (ua : Text) (ip : Addr)
      → env.app_now ≤ env.db_now + window
      → IsValid d
      → IsValid (session_create env d id user_id ttl ua ip).1
  unfolding session_create
  create-IsValid env d id user_id ua ip near v = elim (Bool-cases (env.db_up d.statements)) [
    | inr down ↦ rw down (record { distinct = v.distinct; capped = v.capped })
    | inl up ↦ elim (Bool-cases (session_refused d id user_id)) [
      | inl refused ↦ rw (up, refused) (record { distinct = v.distinct; capped = v.capped })
      | inr fresh ↦
          rw (up, fresh)
            (record {
              distinct =
                  Distinct-append _ d.sessions _ (absent_of_accepted d id user_id fresh) v.distinct;
              capped = All-append IsCapped d.sessions _ v.capped (omega arith, tt);
            })
    ]
  ]

  delete_where-IsValid :
      (d : Database) (n : ℕ) (p : Session → Bool)
      → IsValid d
      → IsValid (record d { sessions = delete_where p d.sessions; statements = n })
  delete_where-IsValid d n p v = record {
    distinct = Distinct-delete_where _ p d.sessions v.distinct;
    capped = All-delete_where IsCapped p d.sessions v.capped;
  }

  delete-IsValid :
      (env : Env) (d : Database) (id : Text) → IsValid d → IsValid (session_delete env d id).1
  unfolding session_delete
  delete-IsValid env d id v = elim (Bool-cases (env.db_up d.statements)) [
    | inr down ↦ rw down (record { distinct = v.distinct; capped = v.capped })
    | inl up ↦ rw up (delete_where-IsValid d _ (has_id id) v)
  ]

  purge-IsValid : (env : Env) (d : Database) → IsValid d → IsValid (purge_expired env d).1
  unfolding purge_expired
  purge-IsValid env d v = elim (Bool-cases (env.db_up d.statements)) [
    | inr down ↦ rw down (record { distinct = v.distinct; capped = v.capped })
    | inl up ↦ rw up (delete_where-IsValid d _ (is_expired env.db_now) v)
  ]

  statements-IsValid : (d : Database) (n : ℕ) → IsValid d → IsValid (record d { statements = n })
  statements-IsValid d n v = record { distinct = v.distinct; capped = v.capped }

  commit-IsValid :
      {A : Type 0} (env : Env) (before : Database) (r : Result A × Database)
      → IsValid before
      → IsValid r.1
      → IsValid (commit env before r).1
  unfolding commit
  commit-IsValid env before (err e, d) v w = statements-IsValid before _ v
  commit-IsValid env before (ok a, d) v w = elim (Bool-cases (env.db_up d.statements)) [
    | inl up ↦ rw up (statements-IsValid d _ w)
    | inr down ↦ rw down (statements-IsValid before _ v)
  ]

  -- A row that Rotate updates was created within the refresh window.
  renewed-IsCapped :
      (env : Env) (old_id new_id : Text) (rows : List Session)
      → All (λ r. has_id old_id r ≡ true → env.app_now ≤ r.created_at + window) rows
      → All IsCapped rows
      → All IsCapped (update_where (has_id old_id) (renewed env new_id ttl) rows)
  renewed-IsCapped env old_id new_id rows recent capped =
      All-map _ IsCapped _ (λ r h. h.0)
        (All-update_where
          (λ r. IsCapped r × (has_id old_id r ≡ true → env.app_now ≤ r.created_at + window))
          (has_id old_id) (renewed env new_id ttl) rows
          (λ r hit h. let near = h.1 hit in (omega arith, λ _. near))
          (All-zip IsCapped _ rows capped recent))

  rotate_update-IsValid :
      (env : Env) (d : Database) (old_id new_id : Text) (s : Session)
      → find (has_id old_id) d.sessions ≡ some s
      → env.app_now ≤ s.created_at + window
      → IsValid d
      → IsValid (rotate_update env d old_id new_id ttl s).1
  unfolding rotate_update
  rotate_update-IsValid env d old_id new_id s found recent v =
      elim (Bool-cases (env.db_up d.statements)) [
        | inr down ↦ rw down (statements-IsValid d _ v)
        | inl up ↦ elim (Bool-cases (id_clash d old_id new_id)) [
          | inl clash ↦ rw (up, clash) (statements-IsValid d _ v)
          | inr free ↦
              rw (up, free)
                (record {
                  distinct = rotated-Distinct env d old_id new_id ttl free v.distinct;
                  capped =
                      renewed-IsCapped env old_id new_id d.sessions
                        (All-of_find_unique (λ (s : Session). s.id)
                          (λ (r : Session). env.app_now ≤ r.created_at + window) old_id d.sessions s
                          v.distinct found recent)
                        v.capped;
                })
        ]
      ]

  rotate_found-IsValid :
      (env : Env) (d : Database) (old_id new_id : Text) (r : Result Session)
      → ((s : Session) → r ≡ ok s → find (has_id old_id) d.sessions ≡ some s)
      → IsValid d
      → IsValid (rotate_found env d old_id new_id ttl window r).1
  unfolding rotate_found
  rotate_found-IsValid env d old_id new_id (err e) found v = v
  rotate_found-IsValid env d old_id new_id (ok s) found v =
      elim (Bool-cases (ltb (s.created_at + window) env.app_now)) [
        | inl old ↦ rw old v
        | inr young ↦
            let recent : env.app_now ≤ s.created_at + window = ground arith in
            rw young (
              commit-IsValid env d _ v
                (rotate_update-IsValid env d old_id new_id s (found s refl) recent v))
      ]

  same_sessions-IsValid : {d d' : Database} → d'.sessions ≡ d.sessions → IsValid d → IsValid d'
  same_sessions-IsValid {d} {d'} e v = record {
    distinct = subst (Distinct (λ (s : Session). s.id)) (sym e) v.distinct;
    capped = subst (All IsCapped) (sym e) v.capped;
  }

  rotate_begun-IsValid :
      (env : Env) (d : Database) (old_id new_id : Text) (began : Result Unit)
      → IsValid d
      → IsValid (rotate_begun env d old_id new_id ttl window began).1
  unfolding rotate_begun
  rotate_begun-IsValid env d old_id new_id (err e) v = v
  rotate_begun-IsValid env d old_id new_id (ok u) v =
      rotate_found-IsValid env (session_get env d old_id).1 old_id new_id _
        (λ s e.
          ap (find (has_id old_id)) (sessions-session_get env d old_id)
          ∙ session_get_found env d old_id s e)
        (same_sessions-IsValid (sessions-session_get env d old_id) v)

  rotate-IsValid :
      (env : Env) (d : Database) (old_id new_id : Text)
      → IsValid d
      → IsValid (rotate env d old_id new_id ttl window).1
  unfolding rotate
  rotate-IsValid env d old_id new_id v =
      rotate_begun-IsValid env (begin env d).1 old_id new_id (begin env d).0
        (same_sessions-IsValid (sessions-begin env d) v)

  active_capped :
      (env : Env) (d : Database) (id : Text) (found : SessionWithUser)
      → IsValid d
      → (get_active_with_user env d id).0 ≡ ok found
      → env.db_now < found.session.created_at + window + ttl
  unfolding get_active_with_user
  active_capped env d id found v e = elim (Option-cases (find (is_live env id) d.sessions)) [
    | inl absent ↦ absurd (ground arith)
    | inr (s, here) ↦
        let same : found.session ≡ s = join_user-session d.users s found (ground arith) in
        let capped = All-of_find IsCapped (is_live env id) d.sessions s v.capped here in
        let live = find-test (is_live env id) d.sessions s here in rw same (ground arith)
  ]

  -- Whatever the hub does with the table, session ids stay distinct, and no session's expiry
  -- passes its login by more than the refresh window and one access TTL.
  pub step-IsValid : (d : Database) (c : Env × Call) → IsNear c → IsValid d → IsValid (step d c)
  unfolding step
  step-IsValid d (env, creates id user_id ua ip) near v =
      create-IsValid env d id user_id ua ip near v
  step-IsValid d (env, rotates old_id new_id) near v = rotate-IsValid env d old_id new_id v
  step-IsValid d (env, deletes id) near v = delete-IsValid env d id v
  step-IsValid d (env, purges) near v = purge-IsValid env d v

  pub run-IsValid :
      (d : Database) (calls : List (Env × Call))
      → All IsNear calls
      → IsValid d
      → IsValid (run d calls)
  unfolding run
  run-IsValid d [] near v = v
  run-IsValid d (c ∷ calls) (near, rest) v =
      run-IsValid (step d c) calls rest (step-IsValid d c near v)

  -- Whatever calls change a valid session table, a session that is found active was created less
  -- than the refresh window and one access TTL ago, where the hub's clock is at no call ahead of
  -- the database's by more than the window.
  pub active_is_recent :
      (d : Database) (calls : List (Env × Call)) (env : Env) (id : Text) (found : SessionWithUser)
      → IsValid d
      → All IsNear calls
      → (get_active_with_user env (run d calls) id).0 ≡ ok found
      → env.db_now < found.session.created_at + window + ttl
  active_is_recent d calls env id found v near e =
      active_capped env (run d calls) id found (run-IsValid d calls near v) e
