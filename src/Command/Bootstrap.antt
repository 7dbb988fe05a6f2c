-- ===== src/Command/Bootstrap.antt =====
-- cmd/proxywi-server/main.go: what `run` does to the database before it serves.
pub mod FirstLogin
use proxywi.Common.{
  ℕ, zero, suc, ◌+◌, ◌||◌, not, Option, none, some, [], ◌++◌, ◌==◌, if◌then◌else◌, any, Bytes,
  codes, is_empty, Result, ok, err,
}
use proxywi.Storage.Rows.{Db, DbError}
use proxywi.Storage.Query.{Query}
use proxywi.Storage.Admins.{count_admins, create_first_admin}
use proxywi.Storage.Clients.{normalize_legacy_client_names}

pub data BootError : Type 0 where
  no_credentials hash_failed : BootError
  create_failed : DbError → BootError

-- email := cfg.AdminUsername, with a host where there is no "@".
unfoldable pub first_email : Bytes → Bytes
first_email username =
    if not (any (λ c. c == b'@') username) then username ++ codes "@localhost" else username

abbrev pub created : Result DbError (Unit {0}) → Result BootError (Unit {0})
created (ok done) = ok tt
created (err e) = err (create_failed e)

-- Where there is no admin.
unfoldable pub first_admin :
    (Bytes → Option Bytes) → Bytes → Bytes → ℕ → Db → Result BootError (Unit {0}) × Db
unfolding first_email
first_admin hash username password now db =
    if is_empty username || is_empty password
    then (err no_credentials, db)
    else elim (hash password) [
      | none ↦ (err hash_failed, db)
      | some h ↦
          let (r, db') = create_first_admin username (first_email username) h now db in
          (created r, db')
    ]

-- With the answer of `CountAdmins`, whose error is dropped.
abbrev pub unless_admins :
    Result DbError ℕ → Result BootError (Unit {0}) × Db → Db → Result BootError (Unit {0}) × Db
unless_admins (err e) made db = (ok tt, db)
unless_admins (ok zero) made db = made
unless_admins (ok (suc n)) made db = (ok tt, db)

-- The names are `petname`'s from the draw on; an error of their normalisation is logged.
unfoldable pub bootstrap :
    (Bytes → Option Bytes)
    → (ℕ → Bytes)
    → ℕ
    → Bytes
    → Bytes
    → ℕ
    → Db
    → Result BootError (Unit {0}) × Db
unfolding first_admin
bootstrap hash petname draw username password now db =
    let (r, db') = normalize_legacy_client_names petname draw db in
    let (n, db'') = count_admins db' in
    unless_admins n (first_admin hash username password now db'') db''
