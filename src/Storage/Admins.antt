-- ===== src/Storage/Admins.antt =====
-- The `admins` table: `AdminByUsername` to `UpdateAdmin` of storage.go.
pub mod FirstAdmin
pub mod Names
use proxywi.Common.{
  ℕ, ◌+◌, ◌&&◌, Option, none, some, List, [], ◌∷◌, map, ltb, ◌==◌, if◌then◌else◌, length, first,
  any, Bytes, same, is_empty,
}
use proxywi.Storage.Rows.{Db, Admin, DbError, already_configured}
use proxywi.Storage.Query.{Query, query, exec, transaction, pure, raise, unique, ◌>>=◌, ◌>>◌}
use mathlib.Core.List.{reverse}

unfoldable pub admin_by_username : Bytes → Query (Option Admin)
unfolding query
admin_by_username username = query (λ db. first (λ a. same a.username username) db.admins)

unfoldable pub count_admins : Query ℕ
unfolding query
count_admins = query (λ db. length db.admins)

-- INSERT INTO admins; `username` is UNIQUE.
unfoldable pub insert_admin : Bytes → Bytes → Bytes → ℕ → Db → Option (Unit {0} × Db)
insert_admin username email password_hash now db =
    if any (λ a. same a.username username) db.admins
    then none
    else some (
      tt,
      record db {
        admins =
            record {
              id = db.next_admin;
              username = username;
              email = email;
              password_hash = password_hash;
              created_at = now;
            }
            ∷ db.admins;
        next_admin = db.next_admin + 1;
      },
    )

unfoldable pub create_admin : Bytes → Bytes → Bytes → ℕ → Query (Unit {0})
unfolding exec insert_admin
create_admin username email password_hash now = exec (insert_admin username email password_hash now)

-- BeginTx and Commit are statements that can fail too.
unfoldable pub create_first_admin : Bytes → Bytes → Bytes → ℕ → Query (Unit {0})
unfolding exec query transaction insert_admin
create_first_admin username email password_hash now = transaction (do
  query (λ db. tt)
  n ← query (λ db. length db.admins)
  if ltb 0 n
      then raise already_configured
      else do exec (insert_admin username email password_hash now); query (λ db. tt))

-- ORDER BY id
unfoldable pub list_admins : Query (List Admin)
unfolding query
list_admins = query (λ db. reverse db.admins)

-- SET username = ?, … : a column stays where the new value is "".
abbrev pub or_old : Bytes → Bytes → Bytes
or_old [] old = old
or_old (c ∷ s) old = c ∷ s

unfoldable pub rewrite_admins : ℕ → Bytes → Bytes → Bytes → List Admin → List Admin
rewrite_admins id u e p [] = []
rewrite_admins id u e p (a ∷ admins) =
    (if a.id == id
      then record a {
        username = or_old u a.username;
        email = or_old e a.email;
        password_hash = or_old p a.password_hash;
      }
      else a)
    ∷ rewrite_admins id u e p admins

abbrev pub write_admin : ℕ → Bytes → Bytes → Bytes → Db → Option (Unit {0} × Db)
write_admin id u e p db =
    let rows = rewrite_admins id u e p db.admins in
    if unique (map (λ a. a.username) rows) then some (tt, record db { admins = rows }) else none

unfoldable pub update_admin : ℕ → Bytes → Bytes → Bytes → Query (Unit {0})
unfolding exec rewrite_admins
update_admin id new_username new_email new_password_hash =
    if is_empty new_username && is_empty new_email && is_empty new_password_hash
    then pure tt
    else exec (write_admin id new_username new_email new_password_hash)
