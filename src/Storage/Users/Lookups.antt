-- ===== src/Storage/Users/Lookups.antt =====
-- Rows of the `users` table, found by id and by name.
use proxywi.Common.{
  ℕ, ◌≡◌, refl, inl, inr, true, false, not, Option, none, some, List, [], ◌∷◌, map, arith, ◌==◌,
  Bool-cases, keep, first, any, Bytes, same, same_iff,
}
use proxywi.Storage.Rows.{User}
use proxywi.Storage.Query.{unique}
use proxywi.Storage.Unique.{column-present, first-column}
use proxywi.Storage.Users.{update_users, set_columns}
use proxywi.Storage.Users.Names.{set_columns-id}

abbrev pub by_id : ℕ → List User → Option User
by_id id us = first (λ u. u.id == id) us

abbrev pub by_name : Bytes → List User → Option User
by_name name us = first (λ u. same u.username name) us

name-present :
    (id : ℕ) (us : List User) (u : User)
    → by_id id us ≡ some u
    → any (same u.username) (map (λ v. v.username) us) ≡ true
name-present id us u e = column-present (λ v. v.username) (λ v. v.id == id) us u e

-- Where the names are different, a row is the first of its name.
pub by_name-by_id :
    (id : ℕ) (us : List User) (u : User)
    → unique (map (λ v. v.username) us) ≡ true
    → by_id id us ≡ some u
    → by_name u.username us ≡ some u
by_name-by_id id us u distinct e = first-column (λ v. v.username) (λ v. v.id == id) us u distinct e

pub by_id-update :
    (id : ℕ) (name hash : Bytes) (us : List User) (u : User)
    → by_id id us ≡ some u
    → by_id id (update_users id name hash us) ≡ some (set_columns name hash u)
by_id-update id name hash [] u e = absurd cc
by_id-update id name hash (v ∷ us) u e = elim (Bool-cases (v.id == id)) [
  | inl q ↦ let here : v ≡ u = cc (rw q at e) in rw (q, set_columns-id name hash v, q, here) refl
  | inr q ↦ rw (q, q) (by_id-update id name hash us u (rw q at e))
]

pub untouched : (id : ℕ) (us : List User) → update_users id [] [] us ≡ us
untouched id [] = refl
untouched id (u ∷ us) = ground (arith, untouched id us)

none-named :
    (id : ℕ) (name : Bytes) (us : List User)
    → any (same name) (map (λ v. v.username) us) ≡ false
    → by_name name (keep (λ v. not (v.id == id)) us) ≡ none
none-named id name [] h = refl
none-named id name (v ∷ us) h =
    ground (arith, none-named id name us, same_iff v.username name, same_iff name v.username)

pub by_name-keep :
    (id : ℕ) (us : List User) (u : User)
    → unique (map (λ v. v.username) us) ≡ true
    → by_id id us ≡ some u
    → by_name u.username (keep (λ v. not (v.id == id)) us) ≡ none
by_name-keep id [] u distinct e = absurd cc
by_name-keep id (v ∷ us) u distinct e = elim (Bool-cases (v.id == id)) [
  | inl q ↦
      let here : v ≡ u = cc (rw q at e) in
      let alone : any (same v.username) (map (λ v. v.username) us) ≡ false = ground arith in
      rw q (none-named id u.username us (rw here at alone))
  | inr q ↦
      let behind : by_id id us ≡ some u = rw q at e in
      ground (
        arith,
        by_name-keep id us u,
        behind,
        name-present id us u behind,
        same_iff v.username u.username,
      )
]
