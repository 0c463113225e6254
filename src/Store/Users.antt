-- ===== src/Store/Users.antt =====
-- internal/db/users.go
use rdoc_cam_hub.Common.{◌+◌, Text, ◌∷◌, ◌++◌, [], ◌==◌, if◌then◌else◌, any, find, text_eq}
use rdoc_cam_hub.Store.{Role, User, Database, Env, Result, ok, err, failed, query, row_or_not_found}

-- UserStore.Create; users.email is UNIQUE
unfoldable pub user_create : Env → Database → Text → Text → Role → Result User × Database
unfolding query any
user_create env d email password_hash role = query env d λ d.
    let d' : Database = record d { user_serial = d.user_serial + 1 } in
    let row : User = record {
      id = d.user_serial;
      email = email;
      password_hash = password_hash;
      role = role;
      created_at = env.db_now;
    } in
    if any (λ (u : User). u.email == email) d.users
    then (err failed, d')
    else (ok row, record d' { users = d.users ++ row ∷ [] })

-- UserStore.ByEmail
unfoldable pub by_email : Env → Database → Text → Result User × Database
unfolding query row_or_not_found find
by_email env d email =
    query env d λ d. (row_or_not_found (find (λ (u : User). u.email == email) d.users), d)
