-- ===== src/Storage/Clients/Renaming.antt =====
-- What `NormalizeLegacyClientNames` of storage.go leaves alone.
use proxywi.Common.{ℕ, ◌≡◌, refl, ap, ◌∙◌, inl, inr, List, [], ◌∷◌, Bytes, ok, err, Result-cases}
use proxywi.Storage.Rows.{Db}
use proxywi.Storage.Clients.{generate_unique_client_name, rename_all, normalize_legacy_client_names}
use proxywi.Storage.Clients.Names.{
  generate_unique_client_name-Generates, normalize_lem, rename_all-cons, rename_all-failed, renamed,
  legacy_ids,
}

-- The tables apart from `clients`.
abbrev pub SameBeside : Db → Db → Type 0
SameBeside d db = record d { clients = [] } ≡ record db { clients = [] }

module _ (petname : ℕ → Bytes) where
  rename_all-SameBeside :
      (ids : List ℕ) (draw : ℕ) (db : Db)
      → db.faults ≡ []
      → SameBeside (rename_all petname ids draw db).1 db
  rename_all-SameBeside [] draw db h = unfold rename_all in refl
  rename_all-SameBeside (id ∷ ids) draw db h =
      let (g, same_db) = generate_unique_client_name-Generates petname draw db h in
      let (drawn, left) = generate_unique_client_name petname draw db in
      elim (Result-cases drawn) [
        | inr (e, q) ↦
            let failed : generate_unique_client_name petname draw db ≡ (err e, db) =
              ap (λ r. (r, left)) q ∙ ap (λ d. (err e, d)) same_db in
            rw (rename_all-failed petname id ids draw db e failed) refl
        | inl ((name, next), q) ↦
            let made : generate_unique_client_name petname draw db ≡ (ok (name, next), db) =
              ap (λ r. (r, left)) q ∙ ap (λ d. (ok (name, next), d)) same_db in
            rw (rename_all-cons petname id ids draw db name next h made)
              (rename_all-SameBeside ids next (renamed id name db) h)
      ]

  -- With a working driver no table but that of the clients changes.
  pub normalize-SameBeside :
      (draw : ℕ) (db : Db)
      → db.faults ≡ []
      → SameBeside (normalize_legacy_client_names petname draw db).1 db
  normalize-SameBeside draw db h =
      rw (normalize_lem petname draw db h) (rename_all-SameBeside (legacy_ids db.clients) draw db h)
