-- ===== src/Storage/Admins/Names.antt =====
-- The columns `id` and `username` of the `admins` table of storage.go.
use proxywi.Common.{
  ℕ, ◌+◌, ◌<◌, ◌≡◌, refl, ap, ◌≢◌, inl, inr, Bool, true, ◌&&◌, Option, some, List, [], ◌∷◌, map,
  arith, ◌==◌, ==_iff, ==_refl, Bool-cases, first, any, All, Bytes, same, same_iff, is_empty, ok,
  Result-cases,
}
use proxywi.Storage.Rows.{Db, Admin}
use proxywi.Storage.Query.{unique, exec-Writes, spent, SameTables}
use proxywi.Storage.Admins.{
  create_admin, update_admin, insert_admin, rewrite_admins, or_old, create_first_admin, write_admin,
}
use proxywi.Storage.Admins.FirstAdmin.{create_first_admin-atomic, create_first_admin-creates}

-- The newest row first: ids fall.
abbrev pub Falling : List Admin → Type 0
Falling [] = Unit
Falling (a ∷ admins) = All (λ (b : Admin). b.id < a.id) admins × Falling admins

-- No two admins have the same name, and ids fall from the one that is given out next.
pub record IsValid (db : Db) : Type 0 where
  pub distinct : unique (map (λ (a : Admin). a.username) db.admins) ≡ true
  pub below : All (λ (a : Admin). a.id < db.next_admin) db.admins
  pub falling : Falling db.admins

abbrev pub rewritten : Bytes → Bytes → Bytes → Admin → Admin
rewritten u e p a = record a {
  username = or_old u a.username;
  email = or_old e a.email;
  password_hash = or_old p a.password_hash;
}

abbrev pub by_id : ℕ → List Admin → Option Admin
by_id id admins = first (λ a. a.id == id) admins

module _ (id : ℕ) (u e p : Bytes) where
  All-rewrite :
      (n : ℕ) (admins : List Admin)
      → All (λ a. a.id < n) admins
      → All (λ a. a.id < n) (rewrite_admins id u e p admins)
  unfolding rewrite_admins
  All-rewrite n [] h = tt
  All-rewrite n (a ∷ admins) h = ground (arith, All-rewrite n admins h.1)

  rewrite-Falling :
      (admins : List Admin) → Falling admins → Falling (rewrite_admins id u e p admins)
  unfolding rewrite_admins
  rewrite-Falling [] h = tt
  rewrite-Falling (a ∷ admins) h = elim (Bool-cases (a.id == id)) [
    | inl q ↦ rw q (All-rewrite a.id admins h.0, rewrite-Falling admins h.1)
    | inr q ↦ rw q (All-rewrite a.id admins h.0, rewrite-Falling admins h.1)
  ]

  -- The row of the id is rewritten.
  pub by_id-rewrite :
      (admins : List Admin) (a : Admin)
      → by_id id admins ≡ some a
      → by_id id (rewrite_admins id u e p admins) ≡ some (rewritten u e p a)
  unfolding rewrite_admins
  by_id-rewrite [] a h = absurd cc
  by_id-rewrite (b ∷ admins) a h = ground (arith, by_id-rewrite admins a)

  -- The rows of other ids stay.
  pub by_id-rewrite_other :
      (j : ℕ) (admins : List Admin)
      → j ≢ id
      → by_id j (rewrite_admins id u e p admins) ≡ by_id j admins
  unfolding rewrite_admins
  by_id-rewrite_other j [] ne = refl
  by_id-rewrite_other j (b ∷ admins) ne =
      ground (arith, by_id-rewrite_other j admins ne, ==_iff b.id id, ==_iff b.id j)

any-names :
    (name : Bytes) (admins : List Admin)
    → any (λ a. same a.username name) admins ≡ any (same name) (map (λ a. a.username) admins)
any-names name [] = refl
any-names name (a ∷ admins) =
    ground (arith, any-names name admins, same_iff a.username name, same_iff name a.username)

below-suc :
    (n : ℕ) (admins : List Admin) → All (λ a. a.id < n) admins → All (λ a. a.id < n + 1) admins
below-suc n [] h = tt
below-suc n (a ∷ admins) h = (omega (arith, h.0), below-suc n admins h.1)

-- Where ids fall, a row is the first of its id.
pub by_id-first :
    (q : Admin → Bool) (admins : List Admin) (a : Admin)
    → Falling admins
    → first q admins ≡ some a
    → by_id a.id admins ≡ some a
by_id-first q [] a f h = absurd cc
by_id-first q (b ∷ admins) a f h = elim (Bool-cases (q b)) [
  | inl e ↦ let here : b ≡ a = cc (rw e at h) in rw (here, ==_refl a.id) refl
  | inr e ↦
      let behind : first q admins ≡ some a = rw e at h in
      let low = smaller b.id admins f.0 behind in
      ground (arith, by_id-first q admins a f.1 behind, ==_iff b.id a.id)
]
  where
    smaller :
        (n : ℕ) (admins : List Admin)
        → All (λ c. c.id < n) admins
        → first q admins ≡ some a
        → a.id < n
    smaller n [] l h = absurd cc
    smaller n (c ∷ admins) l h = ground (arith, smaller n admins l.1)

inserted :
    (username email hash : Bytes) (now : ℕ) (db : Db)
    → IsValid db
    → IsValid (create_admin username email hash now db).1
unfolding create_admin insert_admin
inserted username email hash now db v =
    let kept : IsValid (spent db) = record {
      distinct = v.distinct;
      below = v.below;
      falling = v.falling;
    } in
    let named = any-names username db.admins in
    exec-Writes IsValid (insert_admin username email hash now) db kept
      (elim (Bool-cases (any (λ a. same a.username username) db.admins)) [
        | inl e ↦ rw e tt
        | inr e ↦ rw e (record {
          distinct = ground (arith, named, v.distinct);
          below = (omega arith, below-suc db.next_admin db.admins v.below);
          falling = (v.below, v.falling);
        })
      ])

changed : (id : ℕ) (u e p : Bytes) (db : Db) → IsValid db → IsValid (update_admin id u e p db).1
unfolding update_admin
changed id u e p db v =
    let kept : IsValid (spent db) = record {
      distinct = v.distinct;
      below = v.below;
      falling = v.falling;
    } in
    let rows = rewrite_admins id u e p db.admins in
    elim (Bool-cases (is_empty u && is_empty e && is_empty p)) [
      | inl q ↦ rw q v
      | inr q ↦ rw q (
          exec-Writes IsValid (write_admin id u e p) db kept
            (elim (Bool-cases (unique (map (λ a. a.username) rows))) [
              | inr k ↦ rw k tt
              | inl k ↦ rw k (record {
                distinct = k;
                below = All-rewrite id u e p db.next_admin db.admins v.below;
                falling = rewrite-Falling id u e p db.admins v.falling;
              })
            ]))
    ]

same_tables : (d db : Db) → SameTables d db → IsValid db → IsValid d
same_tables d db e v =
    let rows : d.admins ≡ db.admins = ap (λ (x : Db). x.admins) e in
    let given : d.next_admin ≡ db.next_admin = ap (λ (x : Db). x.next_admin) e in
    record {
      distinct = rw rows v.distinct;
      below = rw (rows, given) v.below;
      falling = rw rows v.falling;
    }

first_next :
    (u e p : Bytes) (now : ℕ) (db : Db)
    → (create_first_admin u e p now db).0 ≡ ok tt
    → (create_first_admin u e p now db).1.next_admin ≡ db.next_admin + 1
unfolding create_first_admin insert_admin
first_next u e p now db h = ground arith

first_made :
    (u e p : Bytes) (now : ℕ) (db : Db) → IsValid db → IsValid (create_first_admin u e p now db).1
first_made u e p now db v = elim (Result-cases (create_first_admin u e p now db).0) [
  | inr (f, q) ↦
      same_tables (create_first_admin u e p now db).1 db
        (create_first_admin-atomic u e p now db (λ done. absurd cc)) v
  | inl (done, q) ↦
      let (none_before, made) = create_first_admin-creates u e p now db q in
      record {
        distinct = rw made refl;
        below = rw (made, first_next u e p now db q) (omega arith, tt);
        falling = rw made (tt, tt);
      }
]

-- `CreateAdmin`, `CreateFirstAdmin` and `UpdateAdmin` keep the names different, the ids different and
-- below the next one, whatever the driver does.
pub admins-IsValid :
    (username email password_hash : Bytes) (now id : ℕ) (db : Db)
    → IsValid db
    → IsValid (create_admin username email password_hash now db).1
      × IsValid (create_first_admin username email password_hash now db).1
      × IsValid (update_admin id username email password_hash db).1
admins-IsValid username email password_hash now id db v = (
  inserted username email password_hash now db v,
  first_made username email password_hash now db v,
  changed id username email password_hash db v,
)
