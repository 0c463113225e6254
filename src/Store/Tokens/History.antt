-- ===== src/Store/Tokens/History.antt =====
-- Histories of calls of the token store: mints, consumptions and revocations.
use rdoc_cam_hub.Common.{
  arith, ℕ, ◌+◌, refl, Text, Bool, true, false, List, [], ◌∷◌, any, Bool-cases, inl, inr, text_eq,
  ◌==◌, ◌&&◌, Distinct, Distinct-append, Distinct-update_where, All-ne_of_any, if◌then◌else◌,
}
use rdoc_cam_hub.Common.Int.{ℤ}
use rdoc_cam_hub.Store.{EnrollmentToken, Database, Env, Result, ok, err}
use rdoc_cam_hub.Store.Tokens.{
  token_create, token_refused, consume, revoke, usable, consumed, revoked, revocable,
}

pub data Call : Type 0 where
  creates : (hash : Text) (created_by : ℕ) (ttl : ℤ) (note : Text) → Call
  consumes : (hash device_id : Text) → Call
  revokes : (id : ℕ) → Call

abbrev pub succeeded {ℓ} : {A : Type ℓ} → Result A → Bool
succeeded (ok a) = true
succeeded (err e) = false

unfoldable pub step : Database → Env × Call → Database
step d (env, creates hash created_by ttl note) = (token_create env d hash created_by ttl note).1
step d (env, consumes hash device_id) = (consume env d hash device_id).1
step d (env, revokes id) = (revoke env d id).1

-- Whether a call consumes the token with a hash.
unfoldable pub wins : Text → Database → Env × Call → Bool
wins hash d (env, consumes h device_id) = h == hash && succeeded (consume env d h device_id).0
wins hash d _ = false

-- How many calls of a history enrolled a device with the hash.
unfoldable pub enrolments : Text → Database → List (Env × Call) → ℕ
enrolments hash d [] = 0
enrolments hash d (c ∷ calls) = (if wins hash d c then 1 else 0) + enrolments hash (step d c) calls

abbrev pub hash_of : EnrollmentToken → Text
hash_of t = t.hash

abbrev pub IsUnique : Database → Type 0
IsUnique d = Distinct hash_of d.tokens

token_create-IsUnique :
    (env : Env) (d : Database) (hash : Text) (created_by : ℕ) (ttl : ℤ) (note : Text)
    → IsUnique d
    → IsUnique (token_create env d hash created_by ttl note).1
unfolding token_create token_refused
token_create-IsUnique env d hash created_by ttl note u =
    elim (Bool-cases (env.db_up d.statements)) [
      | inr down ↦ rw down u
      | inl up ↦ elim (Bool-cases (token_refused d hash created_by)) [
        | inl taken ↦ rw (up, taken) u
        | inr fresh ↦
            rw (up, fresh)
              (Distinct-append hash_of d.tokens _
                (All-ne_of_any hash_of hash d.tokens (ground (arith, fresh))) u)
      ]
    ]

consume-IsUnique :
    (env : Env) (d : Database) (hash device_id : Text)
    → IsUnique d
    → IsUnique (consume env d hash device_id).1
unfolding consume
consume-IsUnique env d hash device_id u = elim (Bool-cases (env.db_up d.statements)) [
  | inr down ↦ rw down u
  | inl up ↦ elim (Bool-cases (any (usable env.db_now hash) d.tokens)) [
    | inr unusable ↦ rw (up, unusable) u
    | inl found ↦
        rw (up, found)
          (Distinct-update_where hash_of (usable env.db_now hash) (consumed env.db_now device_id)
            (λ t h. refl) d.tokens u)
  ]
]

revoke-IsUnique : (env : Env) (d : Database) (id : ℕ) → IsUnique d → IsUnique (revoke env d id).1
unfolding revoke
revoke-IsUnique env d id u = elim (Bool-cases (env.db_up d.statements)) [
  | inr down ↦ rw down u
  | inl up ↦ elim (Bool-cases (any (revocable id) d.tokens)) [
    | inr unusable ↦ rw (up, unusable) u
    | inl found ↦
        rw (up, found)
          (Distinct-update_where hash_of (revocable id) (revoked env.db_now) (λ t h. refl) d.tokens
            u)
  ]
]

pub step-IsUnique : (d : Database) (c : Env × Call) → IsUnique d → IsUnique (step d c)
unfolding step
step-IsUnique d (env, creates hash created_by ttl note) u =
    token_create-IsUnique env d hash created_by ttl note u
step-IsUnique d (env, consumes hash device_id) u = consume-IsUnique env d hash device_id u
step-IsUnique d (env, revokes id) u = revoke-IsUnique env d id u
