-- ===== src/Command/AdminSet/Rewriting.antt =====
-- The rows of the admins after the command `admin-set`.
use proxywi.Common.{
  ℕ, ◌≡◌, refl, sym, ap, ◌∙◌, ◌⊎◌, inl, inr, true, ◌&&◌, Option, none, some, List, [], ◌∷◌, map,
  arith, ◌==◌, ==_iff, ==_refl, Bool-cases, first, Bytes, same, is_empty, Result, ok, err,
  Result-cases,
}
use proxywi.Storage.Rows.{Db, Admin, DbError}
use proxywi.Storage.Query.{query_lem, unique}
use proxywi.Storage.Unique.{first-column}
use proxywi.Storage.Admins.{admin_by_username, list_admins, update_admin, rewrite_admins}
use proxywi.Storage.Admins.Names.{
  IsValid, by_id, by_id-first, by_id-rewrite, by_id-rewrite_other, rewritten,
}
use proxywi.Command.AdminSet.{
  Flags, pick_admin, set_admin, run_admin_set, pass_hash, only_admin, named_admin, updated,
}
use mathlib.Core.List.{reverse, reverse-reverse}

-- An admin that `pick_admin` answers with is stored, and has the name that was asked for.
abbrev pub Picked : Bytes → Db → Admin → Type 0
Picked target db a =
    (by_id a.id db.admins ≡ some a)
    × ((target ≡ []) ⊎ (first (λ b. same b.username target) db.admins ≡ some a))

named_admin_lem : (o : Option Admin) (a : Admin) → named_admin (ok o) ≡ ok a → o ≡ some a
named_admin_lem none a e = absurd cc
named_admin_lem (some b) a e = cc

only_admin_lem : (l : List Admin) (a : Admin) → only_admin (ok l) ≡ ok a → l ≡ a ∷ []
only_admin_lem [] a e = absurd cc
only_admin_lem (b ∷ []) a e = cc
only_admin_lem (b ∷ c ∷ rest) a e = absurd cc

pick_only :
    (db : Db) → db.faults ≡ [] → pick_admin [] db ≡ (only_admin (ok (reverse db.admins)), db)
unfolding pick_admin list_admins
pick_only db h = ap (λ p. (only_admin p.0, p.1)) (query_lem (λ d. reverse d.admins) db h)

pick_named :
    (c : ℕ) (target : Bytes) (db : Db)
    → db.faults ≡ []
    → pick_admin (c ∷ target) db
      ≡ (named_admin (ok (first (λ b. same b.username (c ∷ target)) db.admins)), db)
unfolding pick_admin admin_by_username
pick_named c target db h =
    ap (λ p. (named_admin p.0, p.1))
      (query_lem (λ d. first (λ b. same b.username (c ∷ target)) d.admins) db h)

pick_admin-Picked :
    (target : Bytes) (db : Db) (a : Admin)
    → IsValid db
    → db.faults ≡ []
    → (pick_admin target db).0 ≡ ok a
    → Picked target db a
pick_admin-Picked [] db a v h e =
    let alone = only_admin_lem (reverse db.admins) a (rw (pick_only db h) at e) in
    let rows : db.admins ≡ a ∷ [] = sym (reverse-reverse db.admins) ∙ ap reverse alone in
    (rw (rows, ==_refl a.id) refl, inl refl)
pick_admin-Picked (c ∷ target) db a v h e =
    let row = named_admin_lem _ a (rw (pick_named c target db h) at e) in
    (by_id-first (λ b. same b.username (c ∷ target)) db.admins a v.falling row, inr row)

pick_admin-same : (target : Bytes) (db : Db) → db.faults ≡ [] → (pick_admin target db).1 ≡ db
pick_admin-same [] db h = ap (λ p. p.1) (pick_only db h)
pick_admin-same (c ∷ target) db h = ap (λ p. p.1) (pick_named c target db h)

-- What the command did: the row of the admin is rewritten and found by its name, others stay.
abbrev pub Rewrote : (Bytes → Option Bytes) → Flags → Admin → Db → Db → Type 0
Rewrote hash f a db after =
    (h : Bytes) × (pass_hash hash f.password ≡ ok h)
    × let b = rewritten f.username f.email h a in
      (after ≡ record db { admins = after.admins })
      × (first (λ c. same c.username b.username) after.admins ≡ some b)
      × (by_id a.id after.admins ≡ some b)
      × ((id : ℕ) → (id ≡ a.id) ⊎ (by_id id after.admins ≡ by_id id db.admins))

untouched : (id : ℕ) (admins : List Admin) → rewrite_admins id [] [] [] admins ≡ admins
unfolding rewrite_admins
untouched id [] = refl
untouched id (a ∷ admins) = ground (arith, untouched id admins)

abbrev Written : ℕ → Bytes → Bytes → Bytes → Db → Db → Type 0
Written id u e p db after =
    (after ≡ record db { admins = rewrite_admins id u e p db.admins })
    × (unique (map (λ (a : Admin). a.username) (rewrite_admins id u e p db.admins)) ≡ true)

update_admin_lem :
    (id : ℕ) (u e p : Bytes) (db : Db) (done : Unit {0})
    → IsValid db
    → db.faults ≡ []
    → (update_admin id u e p db).0 ≡ ok done
    → Written id u e p db (update_admin id u e p db).1
unfolding update_admin
update_admin_lem id [] [] [] db done v h ok_done =
    let same_rows = untouched id db.admins in
    (ap (λ rows. record db { admins = rows }) (sym same_rows), rw same_rows v.distinct)
update_admin_lem id (c ∷ u) e p db done v h ok_done = ground arith
update_admin_lem id [] (c ∷ e) p db done v h ok_done = ground arith
update_admin_lem id [] [] (c ∷ p) db done v h ok_done = ground arith

updated_lem :
    (a b : Admin) (r : Result DbError (Unit {0})) → updated b r ≡ ok a → (r ≡ ok tt) × (b ≡ a)
updated_lem a b (ok done) e = (refl, cc)
updated_lem a b (err q) e = absurd cc

set_admin-Rewrote :
    (hash : Bytes → Option Bytes) (f : Flags) (b a : Admin) (db : Db)
    → IsValid db
    → db.faults ≡ []
    → by_id b.id db.admins ≡ some b
    → (set_admin hash f (ok b) db).0 ≡ ok a
    → (b ≡ a) × Rewrote hash f a db (set_admin hash f (ok b) db).1
set_admin-Rewrote hash f b a db v h row made = elim (Result-cases (pass_hash hash f.password)) [
  | inr (e, q) ↦ absurd (cc (rw (set_admin, q) at made))
  | inl (p, q) ↦
      let done : updated b (update_admin b.id f.username f.email p db).0 ≡ ok a =
        rw (set_admin, q) at made in
      let (good, same_admin) = updated_lem a b (update_admin b.id f.username f.email p db).0 done in
      let (after, distinct) = update_admin_lem b.id f.username f.email p db tt v h good in
      let rows = rewrite_admins b.id f.username f.email p db.admins in
      let new_row = by_id-rewrite b.id f.username f.email p db.admins b row in
      let named =
        first-column (λ (c : Admin). c.username) (λ c. c.id == b.id) rows
          (rewritten f.username f.email p b) distinct new_row in
      let others : (j : ℕ) → (j ≡ b.id) ⊎ (by_id j rows ≡ by_id j db.admins) = λ j.
        elim (Bool-cases (j == b.id)) [
          | inl e ↦ inl ((==_iff j b.id).0 e)
          | inr e ↦ inr (
              by_id-rewrite_other b.id f.username f.email p j db.admins
                (λ s. absurd (ground (arith, e, s))))
        ] in
      rw (sym same_admin, set_admin, q, after) (refl, (p, refl, (refl, named, new_row, others)))
]

-- With a working driver, names and ids that are different, and a command that succeeds: the admin
-- that it answers with was stored, under the name that `-target` gives, if it gives one; its row
-- has the new name, e-mail address and hash where there are new ones and the old ones elsewhere,
-- and is the first of its name; the rows of the other admins and the other tables stay.
pub run_admin_set-Rewrote :
    (hash : Bytes → Option Bytes) (f : Flags) (a : Admin) (db : Db)
    → IsValid db
    → db.faults ≡ []
    → (run_admin_set hash f db).0 ≡ ok a
    → Picked f.target db a × Rewrote hash f a db (run_admin_set hash f db).1
unfolding run_admin_set
run_admin_set-Rewrote hash f a db v h made =
    let same_db = pick_admin-same f.target db h in
    elim (Bool-cases (is_empty f.username && is_empty f.email && is_empty f.password)) [
      | inl e ↦ absurd (cc (rw (run_admin_set, e) at made))
      | inr e ↦ elim (Result-cases (pick_admin f.target db).0) [
        | inr (q, r) ↦ absurd (cc (rw (run_admin_set, e, r) at made))
        | inl (b, r) ↦
            let picked = pick_admin-Picked f.target db b v h r in
            let done : (set_admin hash f (ok b) db).0 ≡ ok a =
              rw (run_admin_set, e, r, same_db) at made in
            let (same_admin, wrote) = set_admin-Rewrote hash f b a db v h picked.0 done in
            rw (run_admin_set, e, r, same_db) (rw same_admin at picked, wrote)
      ]
    ]
