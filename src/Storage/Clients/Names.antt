-- ===== src/Storage/Clients/Names.antt =====
-- The names that the server gives to clients.
use proxywi.Common.{
  ℕ, zero, suc, ◌+◌, ◌-◌, ◌≤◌, ◌<◌, ◌≡◌, refl, sym, ap, ◌∙◌, ◌⊎◌, inl, inr, Bool, true, false, not,
  some, List, [], ◌∷◌, map, arith, ltb, ◌==◌, if◌then◌else◌, Bool-cases, length, keep, any, All,
  Bytes, same, Result, ok, err,
}
use native.Mathlib.Decide.{dec_lt}
use mathlib.Core.Path.{subst}
use proxywi.Storage.Rows.{Db, Client, DbError, no_unique_name}
use proxywi.Storage.Query.{continue, query_lem, exec_lem}
use proxywi.Storage.Clients.{
  client_name_exists, draw_name, generate_unique_client_name, matches_client_name,
  normalize_legacy_client_names, update_client_name, rename_all, update_clients,
}

abbrev pub taken : Bytes → Db → Bool
taken name db = any (λ c. same c.name name) db.clients

count-taken :
    (name : Bytes) (clients : List Client)
    → ltb 0 (length (keep (λ c. same c.name name) clients)) ≡ any (λ c. same c.name name) clients
count-taken name [] = ground arith
count-taken name (c ∷ clients) = ground (arith, count-taken name clients)

client_name_exists_lem :
    (name : Bytes) (db : Db)
    → db.faults ≡ []
    → client_name_exists name db ≡ (ok (taken name db), db)
unfolding client_name_exists
client_name_exists_lem name db h =
    query_lem (λ db. ltb 0 (length (keep (λ c. same c.name name) db.clients))) db h
    ∙ ap (λ b. (ok b, db)) (count-taken name db.clients)

module _ (petname : ℕ → Bytes) where
  -- With a working driver: a name that `generate_unique_client_name` returns is one that was drawn
  -- and that no client has; the only error is `no_unique_name`, and then all of the fifty names that
  -- were drawn are taken. The database stays as it is.
  abbrev pub Generates : ℕ → ℕ → Db → Result DbError (Bytes × ℕ) → Type 0
  Generates rounds draw db (ok (name, next)) =
      (draw < next) × (next ≤ draw + rounds) × (name ≡ petname (next - 1)) × (taken name db ≡ false)
  Generates rounds draw db (err e) =
      (e ≡ no_unique_name) × ((k : ℕ) → draw ≤ k → k < draw + rounds → taken (petname k) db ≡ true)

  draw_name-suc :
      (rounds draw : ℕ) (db : Db)
      → db.faults ≡ []
      → draw_name petname (suc rounds) draw db ≡ (
          if taken (petname draw) db
          then draw_name petname rounds (draw + 1) db
          else (ok (petname draw, draw + 1), db))
  unfolding draw_name
  draw_name-suc rounds draw db h = elim (Bool-cases (taken (petname draw) db)) [
    | inl t ↦ rw (client_name_exists_lem (petname draw) db h, t)
    | inr f ↦ rw (client_name_exists_lem (petname draw) db h, f)
  ]

  one_more :
      (rounds draw : ℕ) (db : Db) (r : Result DbError (Bytes × ℕ))
      → taken (petname draw) db ≡ true
      → Generates rounds (draw + 1) db r
      → Generates (suc rounds) draw db r
  one_more rounds draw db (ok (name, next)) t g = (omega arith, omega arith, g.2, g.3)
  one_more rounds draw db (err e) t g = (
    g.0,
    λ k low high. elim (dec_lt draw k) [
      | yes lt ↦ g.1 k (omega arith) (omega arith)
      | no ge ↦ subst (λ j. taken (petname j) db ≡ true) (omega arith) t
    ],
  )

  draw_name-Generates :
      (rounds draw : ℕ) (db : Db)
      → db.faults ≡ []
      → Generates rounds draw db (draw_name petname rounds draw db).0
        × ((draw_name petname rounds draw db).1 ≡ db)
  draw_name-Generates zero draw db h =
      unfold draw_name in ((refl, λ k a b. absurd (omega arith)), refl)
  draw_name-Generates (suc rounds) draw db h = elim (Bool-cases (taken (petname draw) db)) [
    | inl t ↦
        let (g, same_db) = draw_name-Generates rounds (draw + 1) db h in
        rw (draw_name-suc rounds draw db h, t)
          (one_more rounds draw db (draw_name petname rounds (draw + 1) db).0 t g, same_db)
    | inr f ↦
        rw (draw_name-suc rounds draw db h, f)
          ((omega arith, omega arith, ap petname (omega arith), f), refl)
  ]

  -- With a working driver: a name that `GenerateUniqueClientName` returns is one of the next fifty
  -- that are drawn, and no client has it; the only error is that of no unique name, and then all of
  -- those fifty names are taken. The database stays as it is.
  pub generate_unique_client_name-Generates :
      (draw : ℕ) (db : Db)
      → db.faults ≡ []
      → Generates 50 draw db (generate_unique_client_name petname draw db).0
        × ((generate_unique_client_name petname draw db).1 ≡ db)
  unfolding generate_unique_client_name
  generate_unique_client_name-Generates draw db h = draw_name-Generates 50 draw db h

  -- A client whose name has the generated form, or that is still to be renamed.
  abbrev Pending : List ℕ → List Client → Type 0
  Pending ids clients =
      All (λ c. (matches_client_name c.name ≡ true) ⊎ (any (λ id. c.id == id) ids ≡ true)) clients

  rename-Pending :
      (id : ℕ) (ids : List ℕ) (name : Bytes) (clients : List Client)
      → matches_client_name name ≡ true
      → Pending (id ∷ ids) clients
      → Pending ids (update_clients id (λ c. record c { name = name }) clients)
  rename-Pending id ids name [] m p = tt
  rename-Pending id ids name (c ∷ clients) m p =
      (ground arith, rename-Pending id ids name clients m p.1)

pub update_client_name_lem :
    (id : ℕ) (name : Bytes) (db : Db)
    → db.faults ≡ []
    → update_client_name id name db ≡ (
      ok tt,
      record db { clients = update_clients id (λ c. record c { name = name }) db.clients },
    )
unfolding update_client_name
update_client_name_lem id name db h =
    exec_lem
      (λ d.
        some
          (tt, record d { clients = update_clients id (λ c. record c { name = name }) d.clients }))
      db h

abbrev pub Named : List Client → Type 0
Named clients = All (λ c. matches_client_name c.name ≡ true) clients

Pending-nil :
    (clients : List Client)
    → All (λ c. (matches_client_name c.name ≡ true) ⊎ (false ≡ true)) clients
    → Named clients
Pending-nil [] p = tt
Pending-nil (c ∷ clients) p = (ground arith, Pending-nil clients p.1)

abbrev pub renamed : ℕ → Bytes → Db → Db
renamed id name db = record db {
  clients = update_clients id (λ c. record c { name = name }) db.clients;
}

module _ (petname : ℕ → Bytes) where
  pub rename_all-cons :
      (id : ℕ) (ids : List ℕ) (draw : ℕ) (db : Db) (name : Bytes) (next : ℕ)
      → db.faults ≡ []
      → generate_unique_client_name petname draw db ≡ (ok (name, next), db)
      → rename_all petname (id ∷ ids) draw db ≡ rename_all petname ids next (renamed id name db)
  unfolding rename_all
  rename_all-cons id ids draw db name next h e = rw e (rw (update_client_name_lem id name db h))

  pub rename_all-failed :
      (id : ℕ) (ids : List ℕ) (draw : ℕ) (db : Db) (e : DbError)
      → generate_unique_client_name petname draw db ≡ (err e, db)
      → rename_all petname (id ∷ ids) draw db ≡ (err e, db)
  unfolding rename_all
  rename_all-failed id ids draw db e q = rw q

  module _ (generated : (k : ℕ) → matches_client_name (petname k) ≡ true) where
    rename_all-Named :
        (ids : List ℕ) (draw : ℕ) (db : Db)
        → db.faults ≡ []
        → Pending petname ids db.clients
        → (rename_all petname ids draw db).0 ≡ ok tt
        → Named (rename_all petname ids draw db).1.clients
    rename_all-Named [] draw db h p done = unfold rename_all in Pending-nil db.clients p
    rename_all-Named (id ∷ ids) draw db h p done =
        let (g, same_db) = generate_unique_client_name-Generates petname draw db h in
        one (rename_all-Named ids) (generate_unique_client_name petname draw db).0 g
          (ap (λ d. ((generate_unique_client_name petname draw db).0, d)) same_db)
      where
        one :
            ((draw : ℕ) (db : Db)
              → db.faults ≡ []
              → Pending petname ids db.clients
              → (rename_all petname ids draw db).0 ≡ ok tt
              → Named (rename_all petname ids draw db).1.clients)
            → (r : Result DbError (Bytes × ℕ)) → Generates petname 50 draw db r
            → generate_unique_client_name petname draw db ≡ (r, db)
            → Named (rename_all petname (id ∷ ids) draw db).1.clients
        one later (ok (name, next)) g e =
            let step = rename_all-cons id ids draw db name next h e in
            let ready =
              rename-Pending petname id ids name db.clients (rw g.2 (generated (next - 1))) p in
            rw step (later next (renamed id name db) h ready (rw step at done))
        one later (err q) g e = cc (rename_all-failed id ids draw db q e, done)

abbrev pub legacy_ids : List Client → List ℕ
legacy_ids clients = map (λ c. c.id) (keep (λ c. not (matches_client_name c.name)) clients)

legacy_ids-named :
    (c : Client) (clients : List Client)
    → matches_client_name c.name ≡ true
    → legacy_ids (c ∷ clients) ≡ legacy_ids clients
legacy_ids-named c clients m = rw m

legacy_ids-legacy :
    (c : Client) (clients : List Client)
    → matches_client_name c.name ≡ false
    → legacy_ids (c ∷ clients) ≡ c.id ∷ legacy_ids clients
legacy_ids-legacy c clients n = rw n

module _ (petname : ℕ → Bytes) where
  Pending-more :
      (id : ℕ) (ids : List ℕ) (clients : List Client)
      → Pending petname ids clients
      → Pending petname (id ∷ ids) clients
  Pending-more id ids [] p = tt
  Pending-more id ids (c ∷ clients) p = (ground arith, Pending-more id ids clients p.1)

  legacy_ids-Pending : (clients : List Client) → Pending petname (legacy_ids clients) clients
  legacy_ids-Pending [] = tt
  legacy_ids-Pending (c ∷ clients) = elim (Bool-cases (matches_client_name c.name)) [
    | inl m ↦
        subst (λ ids. Pending petname ids (c ∷ clients)) (sym (legacy_ids-named c clients m))
          (inl m, legacy_ids-Pending clients)
    | inr n ↦
        subst (λ ids. Pending petname ids (c ∷ clients)) (sym (legacy_ids-legacy c clients n))
          (
            inr (ground arith),
            Pending-more c.id (legacy_ids clients) clients (legacy_ids-Pending clients),
          )
  ]

legacy_ids-nil : (clients : List Client) → Named clients → legacy_ids clients ≡ []
legacy_ids-nil [] n = refl
legacy_ids-nil (c ∷ clients) n = rw n.0 (legacy_ids-nil clients n.1)

pub normalize_lem :
    (petname : ℕ → Bytes) (draw : ℕ) (db : Db)
    → db.faults ≡ []
    → normalize_legacy_client_names petname draw db
      ≡ rename_all petname (legacy_ids db.clients) draw db
unfolding normalize_legacy_client_names
normalize_lem petname draw db h =
    ap (λ r. continue r.0 (λ legacy. rename_all petname legacy draw) r.1)
      (query_lem (λ d. legacy_ids d.clients) db h)

-- Where the generator draws names of the generated form and the driver works, a successful
-- `NormalizeLegacyClientNames` leaves every client with a name of that form; where they all have
-- one already, it succeeds and changes nothing.
pub normalize_legacy_client_names-Named :
    (petname : ℕ → Bytes) (draw : ℕ) (db : Db)
    → ((k : ℕ) → matches_client_name (petname k) ≡ true)
    → db.faults ≡ []
    → ((normalize_legacy_client_names petname draw db).0 ≡ ok tt
        → Named (normalize_legacy_client_names petname draw db).1.clients)
      × (Named db.clients → normalize_legacy_client_names petname draw db ≡ (ok tt, db))
normalize_legacy_client_names-Named petname draw db generated h = (
  λ done. rw (normalize_lem petname draw db h) (
      rename_all-Named petname generated (legacy_ids db.clients) draw db h
        (legacy_ids-Pending petname db.clients) (rw (normalize_lem petname draw db h) at done)),
  λ n. normalize_lem petname draw db h ∙ nothing n,
)
  where
    nothing : Named db.clients → rename_all petname (legacy_ids db.clients) draw db ≡ (ok tt, db)
    nothing n = rw (legacy_ids-nil db.clients n) (unfold rename_all in refl)
