-- ===== src/Storage/Query.antt =====
-- Statements on the database: what storage.go does through `database/sql`.
use proxywi.Common.{
  ◌≡◌, ap, ◌∙◌, Bool, true, false, ◌&&◌, not, Option, none, some, List, [], ◌∷◌, arith,
  if◌then◌else◌, any, Bytes, same, Result, ok, err, inl, inr, Bool-cases,
}
use proxywi.Storage.Rows.{Db, DbError, driver, constraint}

-- An action on the database: its value or error, and the database after it.
abbrev pub Query : Type 0 → Type 0
Query A = Db → Result DbError A × Db

abbrev pub pure : {A : Type 0} → A → Query A
pure a db = (ok a, db)

abbrev pub raise : {A : Type 0} → DbError → Query A
raise e db = (err e, db)

abbrev pub continue : {A B : Type 0} → Result DbError A → (A → Query B) → Query B
continue (ok a) f db = f a db
continue (err e) f db = (err e, db)

infixl 5 ◌>>=◌ ◌>>◌
abbrev pub ◌>>=◌ : {A B : Type 0} → Query A → (A → Query B) → Query B
◌>>=◌ m f db = let (r, db') = m db in continue r f db'

abbrev pub ◌>>◌ : {A B : Type 0} → Query A → Query B → Query B
m >> n = m >>= λ _. n

-- The driver's verdict on the next statement: whether it fails.
abbrev pub next_fault : Db → Bool
next_fault db = elim db.faults [ [] ↦ false | b ∷ rest ↦ b ]

abbrev pub spent : Db → Db
spent db = record db { faults = elim db.faults [ [] ↦ [] | b ∷ rest ↦ rest ] }

-- A SELECT.
unfoldable pub query : {A : Type 0} → (Db → A) → Query A
query f db = if next_fault db then (err driver, spent db) else (ok (f db), spent db)

abbrev pub written : {A : Type 0} → Option (A × Db) → Db → Result DbError A × Db
written none db = (err constraint, db)
written (some (a, db')) db = (ok a, db')

-- A write, which gives a value and the new tables, or breaks a constraint.
unfoldable pub exec : {A : Type 0} → (Db → Option (A × Db)) → Query A
exec f db = if next_fault db then (err driver, spent db) else written (f (spent db)) (spent db)

-- A transaction: an error takes the tables back to where they were.
unfoldable pub transaction : {A : Type 0} → Query A → Query A
transaction m db =
    let (r, db') = m db in
    elim r [ ok a ↦ (ok a, db') | err e ↦ (err e, record db { faults = db'.faults }) ]

-- The tables apart from the driver's faults.
abbrev pub SameTables : Db → Db → Type 0
SameTables a b = record a { faults = [] } ≡ record b { faults = [] }

-- A column whose values are all different.
abbrev pub unique : List Bytes → Bool
unique [] = true
unique (x ∷ xs) = not (any (same x) xs) && unique xs

-- With a working driver a statement does what its function says.
pub spent_lem : (db : Db) → db.faults ≡ [] → spent db ≡ db
spent_lem db h = ground arith

next_fault_lem : (db : Db) → db.faults ≡ [] → next_fault db ≡ false
next_fault_lem db h = ground arith

pub query_lem : {A : Type 0} (f : Db → A) (db : Db) → db.faults ≡ [] → query f db ≡ (ok (f db), db)
unfolding query
query_lem f db h =
    ap (λ b. if b then (err driver, spent db) else (ok (f db), spent db)) (next_fault_lem db h)
    ∙ ap (λ d. (ok (f db), d)) (spent_lem db h)

pub exec_lem :
    {A : Type 0} (f : Db → Option (A × Db)) (db : Db)
    → db.faults ≡ []
    → exec f db ≡ written (f db) db
unfolding exec
exec_lem f db h =
    ap (λ b. if b then (err driver, spent db) else written (f (spent db)) (spent db))
      (next_fault_lem db h)
    ∙ ap (λ d. written (f d) d) (spent_lem db h)

-- What is written, if it is, has a property.
abbrev pub Writes : {A : Type 0} → (Db → Type 0) → Option (A × Db) → Type 0
Writes P none = Unit
Writes P (some (a, db)) = P db

written-Writes :
    {A : Type 0} (P : Db → Type 0) (o : Option (A × Db)) (db : Db)
    → P db
    → Writes P o
    → P (written o db).1
written-Writes P none db kept h = kept
written-Writes P (some (a, d)) db kept h = h

-- What the tables have when the driver fails or a constraint is broken, and what is written has,
-- the tables have after a write.
pub exec-Writes :
    {A : Type 0} (P : Db → Type 0) (f : Db → Option (A × Db)) (db : Db)
    → P (spent db)
    → Writes P (f (spent db))
    → P (exec f db).1
unfolding exec
exec-Writes P f db kept h = elim (Bool-cases (next_fault db)) [
  | inl e ↦ rw e kept
  | inr e ↦ rw e (written-Writes P (f (spent db)) (spent db) kept h)
]
