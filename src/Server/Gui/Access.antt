-- ===== src/Server/Gui/Access.antt =====
-- internal/server/gui/handlers.go: the page of the proxy's users, and what it does to them.
pub mod Credentials
use proxywi.Common.{
  ℕ, ◌/◌, ◌&&◌, ◌||◌, Option, none, some, List, [], ◌∷◌, map, ltb, if◌then◌else◌, Bytes, codes,
  is_empty, trim_space, Result, ok, err,
}
use proxywi.Common.Integers.{ℤ, pos, negsuc, parse_int}
use proxywi.Common.Map.{Map, nat_eq, get}
use proxywi.Storage.Rows.{Db, DbError, User}
use proxywi.Storage.Query.{Query, query, pure}
use proxywi.Storage.Users.{
  create_user, update_user, delete_user, list_users, user_usage_stats, UserUsage,
}
use proxywi.Server.Gui.Sessions.{Reply, redirected, failed}
use proxywi.Server.Gui.Clients.{at_id}
use proxywi.Server.Gui.View.{listed, admin_name}

-- A row of the page; `last_used` is none where the page shows a dash.
pub record AccessView : Type 0 where
  pub id : ℕ
  pub username : Bytes
  pub last_used : Option ℕ
  pub used_count : ℕ

-- The entry of a map, and the zero value where there is none.
abbrev pub usage_of : Option UserUsage → UserUsage
usage_of none = record { count = 0; last_used = 0 }
usage_of (some u) = u

abbrev pub view_user : Map ℕ UserUsage → User → AccessView
view_user usage u =
    let used = usage_of (get usage u.id) in
    record {
      id = u.id;
      username = u.username;
      last_used = if ltb 0 used.count then some used.last_used else none;
      used_count = used.count;
    }

-- The map is nil where the query failed.
abbrev pub usage_or_nil : Result DbError (Map ℕ UserUsage) → Map ℕ UserUsage
usage_or_nil (ok m) = m
usage_or_nil (err e) = []

-- The rows, and the name of the admin with the given id.
unfoldable pub get_access : ℕ → Db → (List AccessView × Bytes) × Db
unfolding admin_name
get_access admin db =
    let (users, db') = list_users db in
    let (usage, db'') = user_usage_stats db' in
    let (user, after) = admin_name admin db'' in
    ((map (view_user (usage_or_nil usage)) (listed users), user), after)

-- With the error of the statement.
abbrev pub to_access : {A : Type 0} → Result DbError A → Reply
to_access (ok a) = redirected (codes "/access")
to_access (err e) = failed 500

-- `hash` is bcrypt's, where it makes one; the fields of the form.
unfoldable pub post_new_access : (Bytes → Option Bytes) → Bytes → Bytes → ℕ → Db → Reply × Db
post_new_access hash form_username password now db =
    let username = trim_space form_username in
    if is_empty username || is_empty password then (failed 400, db) else elim (hash password) [
      | none ↦ (failed 500, db)
      | some h ↦ let (r, db') = create_user username h now db in (to_access r, db')
    ]

-- `newHash`: empty where the password is to stay.
abbrev pub new_hash : (Bytes → Option Bytes) → Bytes → Option Bytes
new_hash hash [] = some []
new_hash hash (c ∷ password) = hash (c ∷ password)

-- No row has a negative id.
abbrev pub update_at : ℤ → Bytes → Bytes → Query (Unit {0})
update_at (pos id) username password_hash = update_user id username password_hash
update_at (negsuc n) username password_hash =
    if is_empty username && is_empty password_hash then pure tt else query (λ db. tt)

unfoldable pub post_edit_access : (Bytes → Option Bytes) → Bytes → Bytes → Bytes → Db → Reply × Db
post_edit_access hash param form_username password db = elim (parse_int param) [
  | none ↦ (failed 400, db)
  | some id ↦ elim (new_hash hash password) [
    | none ↦ (failed 500, db)
    | some h ↦ let (r, db') = update_at id (trim_space form_username) h db in (to_access r, db')
  ]
]

-- The error of the deletion is dropped.
unfoldable pub post_delete_access : Bytes → Db → Reply × Db
post_delete_access param db = elim (parse_int param) [
  | none ↦ (failed 400, db)
  | some id ↦ let (r, db') = at_id id delete_user tt db in (redirected (codes "/access"), db')
]
