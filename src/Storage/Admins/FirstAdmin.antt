-- ===== src/Storage/Admins/FirstAdmin.antt =====
-- What `CreateFirstAdmin` of storage.go promises.
use proxywi.Common.{ℕ, ◌≡◌, ◌≢◌, [], ◌∷◌, arith, Bytes, ok, err}
use proxywi.Storage.Rows.{Db, already_configured}
use proxywi.Storage.Query.{SameTables}
use proxywi.Storage.Admins.{create_first_admin}

-- On success there was no admin before, and there is exactly the new one, with the next id.
pub create_first_admin-creates :
    (u e p : Bytes) (now : ℕ) (db : Db)
    → (create_first_admin u e p now db).0 ≡ ok tt
    → (db.admins ≡ [])
      × ((create_first_admin u e p now db).1.admins
          ≡ record {
            id = db.next_admin;
            username = u;
            email = e;
            password_hash = p;
            created_at = now;
          }
            ∷ [])
unfolding create_first_admin
create_first_admin-creates u e p now db h = ground arith

-- Where an admin exists, the call fails and leaves the tables as they are, whatever the driver does;
-- with a working driver the error is `ErrAlreadyConfigured`.
pub create_first_admin-refuses :
    (u e p : Bytes) (now : ℕ) (db : Db)
    → db.admins ≢ []
    → ((create_first_admin u e p now db).0 ≢ ok tt)
      × SameTables (create_first_admin u e p now db).1 db
      × (db.faults ≡ [] → (create_first_admin u e p now db).0 ≡ err already_configured)
unfolding create_first_admin
create_first_admin-refuses u e p now db h =
    let refused = λ (done : (create_first_admin u e p now db).0 ≡ ok tt).
      h (create_first_admin-creates u e p now db done).0 in
    (refused, unfold create_first_admin in ground arith, ground arith)

-- A failure of any kind leaves the tables as they are.
pub create_first_admin-atomic :
    (u e p : Bytes) (now : ℕ) (db : Db)
    → (create_first_admin u e p now db).0 ≢ ok tt
    → SameTables (create_first_admin u e p now db).1 db
unfolding create_first_admin
create_first_admin-atomic u e p now db h = ground arith
