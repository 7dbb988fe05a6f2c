-- ===== src/Command/AdminSet.antt =====
-- cmd/proxywi-server/admin.go: `runAdminSet`, after the flags are parsed and the database is open.
pub mod Rewriting
pub mod Login
use proxywi.Common.{
  ◌&&◌, Option, none, some, List, [], ◌∷◌, map, ltb, if◌then◌else◌, length, Bytes, is_empty, Result,
  ok, err,
}
use proxywi.Storage.Rows.{Db, DbError, Admin}
use proxywi.Storage.Query.{Query}
use proxywi.Storage.Admins.{admin_by_username, list_admins, update_admin}

pub record Flags : Type 0 where
  pub target : Bytes
  pub username : Bytes
  pub email : Bytes
  pub password : Bytes

-- `several_admins` carries the names that the message lists.
pub data AdminSetError : Type 0 where
  nothing_to_change no_such_admin no_admin_yet short_password hash_failed : AdminSetError
  several_admins : List Bytes → AdminSetError
  store_failed update_failed : DbError → AdminSetError

abbrev pub named_admin : Result DbError (Option Admin) → Result AdminSetError Admin
named_admin (ok (some a)) = ok a
named_admin (ok none) = err no_such_admin
named_admin (err e) = err (store_failed e)

abbrev pub only_admin : Result DbError (List Admin) → Result AdminSetError Admin
only_admin (ok []) = err no_admin_yet
only_admin (ok (a ∷ [])) = ok a
only_admin (ok (a ∷ b ∷ rest)) = err (several_admins (map (λ a. a.username) (a ∷ b ∷ rest)))
only_admin (err e) = err (store_failed e)

unfoldable pub pick_admin : Bytes → Db → Result AdminSetError Admin × Db
pick_admin [] db = let (r, db') = list_admins db in (only_admin r, db')
pick_admin (c ∷ target) db =
    let (r, db') = admin_by_username (c ∷ target) db in (named_admin r, db')

abbrev pub hashed : Option Bytes → Result AdminSetError Bytes
hashed none = err hash_failed
hashed (some h) = ok h

-- `passHash`: empty where the password is to stay.
abbrev pub pass_hash : (Bytes → Option Bytes) → Bytes → Result AdminSetError Bytes
pass_hash hash [] = ok []
pass_hash hash (c ∷ password) =
    if ltb (length (c ∷ password)) 8 then err short_password else hashed (hash (c ∷ password))

abbrev pub updated : Admin → Result DbError (Unit {0}) → Result AdminSetError Admin
updated a (ok done) = ok a
updated a (err e) = err (update_failed e)

-- With the answer of `pick_admin`.
abbrev pub set_admin :
    (Bytes → Option Bytes)
    → Flags
    → Result AdminSetError Admin
    → Db
    → Result AdminSetError Admin × Db
set_admin hash f (err e) db = (err e, db)
set_admin hash f (ok a) db = elim (pass_hash hash f.password) [
  | err e ↦ (err e, db)
  | ok h ↦ let (r, db') = update_admin a.id f.username f.email h db in (updated a r, db')
]

-- `hash` is bcrypt's, where it makes one. The answer is the admin as it was before.
unfoldable pub run_admin_set : (Bytes → Option Bytes) → Flags → Db → Result AdminSetError Admin × Db
unfolding pick_admin
run_admin_set hash f db =
    let (r, db') = pick_admin f.target db in
    if is_empty f.username && is_empty f.email && is_empty f.password
    then (err nothing_to_change, db)
    else set_admin hash f r db'
