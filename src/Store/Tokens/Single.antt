-- ===== src/Store/Tokens/Single.antt =====
-- An enrollment token is good for one enrollment.
use rdoc_cam_hub.Common.{
  ℕ, ◌≤◌, ◌≡◌, ◌≢◌, refl, sym, ap, ◌∙◌, subst, Text, Bool, true, false, List, [], ◌∷◌, arith, any,
  update_where, Bool-cases, inl, inr, text_beq_iff, text_eq, ◌==◌, All, All-append,
  All-update_where, Distinct, All-map, ◌++◌,
}
use rdoc_cam_hub.Common.Int.{ℤ}
use rdoc_cam_hub.Store.{EnrollmentToken, Database, Env}
use rdoc_cam_hub.Store.Tokens.{
  token_create, token_refused, consume, revoke, usable, consumed, revoked, is_open, revocable,
}
use rdoc_cam_hub.Store.Tokens.History.{
  Call, creates, consumes, revokes, step, wins, enrolments, hash_of, IsUnique, step-IsUnique,
}

-- A row with the hash is there, and all such rows are closed.
pub record IsSpent (hash : Text) (d : Database) : Type 0 where
  pub present : any (λ t. hash_of t == hash) d.tokens ≡ true
  pub closed : All (λ t. (hash_of t == hash) ≡ true → is_open t ≡ false) d.tokens

any_hash-update :
    (hash : Text) (p : EnrollmentToken → Bool) (f : EnrollmentToken → EnrollmentToken)
    → ((t : EnrollmentToken) → hash_of (f t) ≡ hash_of t)
    → (rows : List EnrollmentToken)
    → any (λ t. hash_of t == hash) (update_where p f rows) ≡ any (λ t. hash_of t == hash) rows
unfolding any update_where
any_hash-update hash p f keep [] = refl
any_hash-update hash p f keep (t ∷ rows) =
    ground (arith, keep t, any_hash-update hash p f keep rows)

any_snoc :
    (hash : Text) (rows : List EnrollmentToken) (t : EnrollmentToken)
    → any (λ t. hash_of t == hash) rows ≡ true
    → any (λ t. hash_of t == hash) (rows ++ t ∷ []) ≡ true
unfolding any
any_snoc hash [] t h = cc
any_snoc hash (r ∷ rows) t h = ground (arith, any_snoc hash rows t)

update-IsSpent :
    (hash : Text) (d : Database) (p : EnrollmentToken → Bool)
    (f : EnrollmentToken → EnrollmentToken) (n : ℕ)
    → ((t : EnrollmentToken) → hash_of (f t) ≡ hash_of t)
    → ((t : EnrollmentToken) → is_open (f t) ≡ false)
    → IsSpent hash d
    → IsSpent hash (record d { tokens = update_where p f d.tokens; statements = n })
update-IsSpent hash d p f n keep closes s = record {
  present = any_hash-update hash p f keep d.tokens ∙ s.present;
  closed = All-update_where _ p f d.tokens (λ t hit h _. closes t) s.closed;
}

-- A hash that a new token may have is not one that the table holds.
other_hash :
    (h hash : Text) (rows : List EnrollmentToken)
    → any (λ t. hash_of t == h) rows ≡ false
    → any (λ t. hash_of t == hash) rows ≡ true
    → (h == hash) ≡ true
    → ⊥
other_hash h hash rows fresh present hit =
    let e : h ≡ hash = (text_beq_iff h hash).0 hit in
    cc (subst (λ x. any (λ t. hash_of t == x) rows ≡ false) e fresh)

token_create-IsSpent :
    (hash : Text) (env : Env) (d : Database) (h : Text) (created_by : ℕ) (ttl : ℤ) (note : Text)
    → IsSpent hash d
    → IsSpent hash (token_create env d h created_by ttl note).1
unfolding token_create token_refused
token_create-IsSpent hash env d h created_by ttl note s =
    elim (Bool-cases (env.db_up d.statements)) [
      | inr down ↦ rw down (record { present = s.present; closed = s.closed })
      | inl up ↦ elim (Bool-cases (token_refused d h created_by)) [
        | inl taken ↦ rw (up, taken) (record { present = s.present; closed = s.closed })
        | inr fresh ↦
            rw (up, fresh)
              (record {
                present = any_snoc hash d.tokens _ s.present;
                closed = All-append _ d.tokens _ s.closed (
                  (λ hit.
                      absurd (other_hash h hash d.tokens (ground (arith, fresh)) s.present hit)),
                  tt,
                );
              })
      ]
    ]

consume-IsSpent :
    (hash : Text) (env : Env) (d : Database) (h device_id : Text)
    → IsSpent hash d
    → IsSpent hash (consume env d h device_id).1
unfolding consume
consume-IsSpent hash env d h device_id s = elim (Bool-cases (env.db_up d.statements)) [
  | inr down ↦ rw down (record { present = s.present; closed = s.closed })
  | inl up ↦ elim (Bool-cases (any (usable env.db_now h) d.tokens)) [
    | inr unusable ↦ rw (up, unusable) (record { present = s.present; closed = s.closed })
    | inl found ↦
        rw (up, found)
          (update-IsSpent hash d (usable env.db_now h) (consumed env.db_now device_id) _ (λ t. refl)
            (λ t. refl) s)
  ]
]

revoke-IsSpent :
    (hash : Text) (env : Env) (d : Database) (id : ℕ)
    → IsSpent hash d
    → IsSpent hash (revoke env d id).1
unfolding revoke
revoke-IsSpent hash env d id s = elim (Bool-cases (env.db_up d.statements)) [
  | inr down ↦ rw down (record { present = s.present; closed = s.closed })
  | inl up ↦ elim (Bool-cases (any (revocable id) d.tokens)) [
    | inr unusable ↦ rw (up, unusable) (record { present = s.present; closed = s.closed })
    | inl found ↦
        rw (up, found)
          (update-IsSpent hash d (revocable id) (revoked env.db_now) _ (λ t. refl) (λ t. refl) s)
  ]
]

step-IsSpent :
    (hash : Text) (d : Database) (c : Env × Call) → IsSpent hash d → IsSpent hash (step d c)
unfolding step
step-IsSpent hash d (env, creates h created_by ttl note) s =
    token_create-IsSpent hash env d h created_by ttl note s
step-IsSpent hash d (env, consumes h device_id) s = consume-IsSpent hash env d h device_id s
step-IsSpent hash d (env, revokes id) s = revoke-IsSpent hash env d id s

-- A spent token cannot be consumed.
unusable_of_closed :
    (now : ℕ) (hash : Text) (rows : List EnrollmentToken)
    → All (λ t. (hash_of t == hash) ≡ true → is_open t ≡ false) rows
    → any (usable now hash) rows ≡ false
unfolding any
unusable_of_closed now hash [] h = refl
unusable_of_closed now hash (t ∷ rows) (h, hs) =
    ground (arith, λ (e : (hash_of t == hash) ≡ true). h e, unusable_of_closed now hash rows hs)

wins_of_IsSpent :
    (hash : Text) (d : Database) (c : Env × Call) → IsSpent hash d → wins hash d c ≡ false
unfolding wins consume
wins_of_IsSpent hash d (env, creates h created_by ttl note) s = refl
wins_of_IsSpent hash d (env, revokes id) s = refl
wins_of_IsSpent hash d (env, consumes h device_id) s = elim (Bool-cases (h == hash)) [
  | inr other ↦ rw other refl
  | inl same ↦
      let e : h ≡ hash = (text_beq_iff h hash).0 same in
      let unusable = unusable_of_closed env.db_now hash d.tokens s.closed in
      rw (same, e) (ground (arith, unusable))
]

any-hash_of-usable :
    (now : ℕ) (hash : Text) (rows : List EnrollmentToken)
    → any (usable now hash) rows ≡ true
    → any (λ t. hash_of t == hash) rows ≡ true
unfolding any
any-hash_of-usable now hash [] h = h
any-hash_of-usable now hash (t ∷ rows) h = ground (arith, any-hash_of-usable now hash rows)

-- The usable row is the only one with its hash.
not_first :
    (now : ℕ) (hash : Text) (t : EnrollmentToken) (rows : List EnrollmentToken)
    → All (λ q. hash_of q ≢ hash_of t) rows
    → (hash_of t == hash) ≡ true
    → any (usable now hash) rows ≡ true
    → ⊥
unfolding any
not_first now hash t [] fresh same h = cc
not_first now hash t (q ∷ rows) (ne, fresh) same h = ground (
  arith,
  text_beq_iff t.hash hash,
  text_beq_iff q.hash hash,
  not_first now hash t rows fresh same,
)

closed_by_consume :
    (now : ℕ) (hash device_id : Text) (rows : List EnrollmentToken)
    → Distinct hash_of rows
    → any (usable now hash) rows ≡ true
    → All
        (λ t. (hash_of t == hash) ≡ true → is_open t ≡ false)
        (update_where (usable now hash) (consumed now device_id) rows)
unfolding any update_where
closed_by_consume now hash device_id [] u h = tt
closed_by_consume now hash device_id (t ∷ rows) (fresh, u) h =
    elim (Bool-cases (usable now hash t)) [
      | inl hit ↦
          let e : hash_of t ≡ hash = ground (arith, text_beq_iff t.hash hash) in
          rw hit (
            (λ _. refl),
            All-update_where (λ q. (hash_of q == hash) ≡ true → is_open q ≡ false) (usable now hash)
                (consumed now device_id) rows (λ q _ _ _. refl)
                (All-map _ _ rows
                  (λ q ne same. absurd (ne ((text_beq_iff q.hash hash).0 same ∙ sym e))) fresh),
          )
      | inr miss ↦
          let later : any (usable now hash) rows ≡ true = ground arith in
          rw miss (
            (λ same. absurd (not_first now hash t rows fresh same later)),
            closed_by_consume now hash device_id rows u later,
          )
    ]

consume-table :
    (env : Env) (d : Database) (hash device_id : Text)
    → env.db_up d.statements ≡ true
    → any (usable env.db_now hash) d.tokens ≡ true
    → (consume env d hash device_id).1.tokens
      ≡ update_where (usable env.db_now hash) (consumed env.db_now device_id) d.tokens
unfolding consume
consume-table env d hash device_id up found = ground arith

-- A consumption spends the token.
IsSpent-of_wins :
    (hash : Text) (d : Database) (c : Env × Call)
    → IsUnique d
    → wins hash d c ≡ true
    → IsSpent hash (step d c)
unfolding wins consume step
IsSpent-of_wins hash d (env, creates h created_by ttl note) u w = cc
IsSpent-of_wins hash d (env, revokes id) u w = cc
IsSpent-of_wins hash d (env, consumes h device_id) u w =
    let same : h ≡ hash = ground (arith, text_beq_iff h hash) in
    let up : env.db_up d.statements ≡ true = ground arith in
    let found : any (usable env.db_now h) d.tokens ≡ true = ground arith in
    let table = consume-table env d h device_id up found in
    let rows =
      subst
        (λ x.
          All (λ t. (hash_of t == x) ≡ true → is_open t ≡ false)
            (update_where (usable env.db_now h) (consumed env.db_now device_id) d.tokens))
        same (closed_by_consume env.db_now h device_id d.tokens u found) in
    (record {
      present =
          ap (any (λ t. hash_of t == hash)) table
          ∙ any_hash-update hash (usable env.db_now h) (consumed env.db_now device_id) (λ t. refl)
              d.tokens
          ∙ any-hash_of-usable env.db_now hash d.tokens
              (subst (λ x. any (usable env.db_now x) d.tokens ≡ true) same found);
      closed = subst (All (λ t. (hash_of t == hash) ≡ true → is_open t ≡ false)) (sym table) rows;
    })

enrolments_of_IsSpent :
    (hash : Text) (d : Database) (calls : List (Env × Call))
    → IsSpent hash d
    → enrolments hash d calls ≡ 0
unfolding enrolments
enrolments_of_IsSpent hash d [] s = refl
enrolments_of_IsSpent hash d (c ∷ calls) s = rw (
  wins_of_IsSpent hash d c s,
  enrolments_of_IsSpent hash (step d c) calls (step-IsSpent hash d c s),
)

-- Over any history of mints, consumptions and revocations, whatever their outcomes, the
-- consumptions of a token that succeed are at most one, where the stored hashes are distinct to
-- begin with.
pub enrolments-le-one :
    (hash : Text) (d : Database) (calls : List (Env × Call))
    → IsUnique d
    → enrolments hash d calls ≤ 1
unfolding enrolments
enrolments-le-one hash d [] u = omega arith
enrolments-le-one hash d (c ∷ calls) u = elim (Bool-cases (wins hash d c)) [
  | inl won ↦
      rw (won, enrolments_of_IsSpent hash (step d c) calls (IsSpent-of_wins hash d c u won))
        (omega arith)
  | inr lost ↦
      rw lost (omega (arith, enrolments-le-one hash (step d c) calls (step-IsUnique d c u)))
]
