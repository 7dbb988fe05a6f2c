-- ===== src/Storage/Users.antt =====
-- The `users` table: `CreateUser` to `UserUsageStats` of storage.go.
pub mod Usage
pub mod Names
pub mod Lookups
use proxywi.Common.{
  ℕ, ◌+◌, ◌&&◌, not, Option, none, some, List, [], ◌∷◌, map, ltb, ◌==◌, if◌then◌else◌, keep, first,
  any, Bytes, same, is_empty,
}
use proxywi.Common.Map.{Map, nat_eq, get, put}
use proxywi.Storage.Rows.{Db, User, EventRow}
use proxywi.Storage.Query.{Query, query, exec, pure, unique}

-- INSERT INTO users; `username` is UNIQUE.
abbrev pub insert_user : Bytes → Bytes → ℕ → Db → Option (ℕ × Db)
insert_user username password_hash now db =
    if any (λ u. same u.username username) db.users
    then none
    else some (
      db.next_user,
      record db {
        users =
            record {
              id = db.next_user;
              username = username;
              password_hash = password_hash;
              created_at = now;
            }
            ∷ db.users;
        next_user = db.next_user + 1;
      },
    )

unfoldable pub create_user : Bytes → Bytes → ℕ → Query ℕ
unfolding exec
create_user username password_hash now = exec (insert_user username password_hash now)

unfoldable pub user_by_username : Bytes → Query (Option User)
unfolding query
user_by_username username = query (λ db. first (λ u. same u.username username) db.users)

unfoldable pub user_by_id : ℕ → Query (Option User)
unfolding query
user_by_id id = query (λ db. first (λ u. u.id == id) db.users)

-- ORDER BY id DESC
unfoldable pub list_users : Query (List User)
unfolding query
list_users = query (λ db. db.users)

abbrev pub set_columns : Bytes → Bytes → User → User
set_columns [] [] u = u
set_columns [] (c ∷ p) u = record u { password_hash = c ∷ p }
set_columns (c ∷ n) [] u = record u { username = c ∷ n }
set_columns (c ∷ n) (d ∷ p) u = record u { username = c ∷ n; password_hash = d ∷ p }

abbrev pub update_users : ℕ → Bytes → Bytes → List User → List User
update_users id name hash users = map (λ u. if u.id == id then set_columns name hash u else u) users

abbrev pub write_columns : ℕ → Bytes → Bytes → Db → Option (Unit {0} × Db)
write_columns id name hash db =
    let rows = update_users id name hash db.users in
    if unique (map (λ u. u.username) rows) then some (tt, record db { users = rows }) else none

unfoldable pub update_user : ℕ → Bytes → Bytes → Query (Unit {0})
unfolding exec
update_user id new_username new_password_hash =
    if is_empty new_username && is_empty new_password_hash
    then pure tt
    else exec (write_columns id new_username new_password_hash)

abbrev pub without_user : ℕ → Db → Option (Unit {0} × Db)
without_user id db = some (tt, record db { users = keep (λ u. not (u.id == id)) db.users })

unfoldable pub delete_user : ℕ → Query (Unit {0})
unfolding exec
delete_user id = exec (without_user id)

pub record UserUsage : Type 0 where
  pub count : ℕ
  pub last_used : ℕ

-- One row of the GROUP BY: COUNT(*) and MAX(ts).
abbrev pub add_use : Option UserUsage → ℕ → UserUsage
add_use none ts = record { count = 1; last_used = ts }
add_use (some u) ts = record {
  count = u.count + 1;
  last_used = if ltb u.last_used ts then ts else u.last_used;
}

unfoldable pub usage_stats : List EventRow → Map ℕ UserUsage
usage_stats [] = []
usage_stats (e ∷ events) =
    let rest = usage_stats events in
    elim e.user_id [ none ↦ rest | some id ↦ put rest id (add_use (get rest id) e.ts) ]

unfoldable pub user_usage_stats : Query (Map ℕ UserUsage)
unfolding query usage_stats
user_usage_stats = query (λ db. usage_stats db.proxy_events)
