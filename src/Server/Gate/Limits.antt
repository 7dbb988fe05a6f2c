-- ===== src/Server/Gate/Limits.antt =====
-- Whom the gate of security.go lets in.
use proxywi.Common.{◌≡◌, true, some, arith, first, Bytes, same}
use proxywi.Storage.Rows.{Db, User}
use proxywi.Server.Gate.{Compare, verify_credentials}

-- Credentials pass only where the database answers with a user of that name whose hash the
-- password has; whatever the driver does, nobody else passes.
pub verify_credentials_sound :
    (compare : Compare) (username password : Bytes) (db : Db)
    → (verify_credentials compare username password db).0.1 ≡ true
    → (u : User) × ((verify_credentials compare username password db).0.0 ≡ some u)
      × (first (λ v. same v.username username) db.users ≡ some u)
      × (compare u.password_hash password ≡ true)
unfolding verify_credentials
verify_credentials_sound compare username password db h = ground arith
