-- ===== src/Storage/Users/Names.antt =====
-- The UNIQUE column `username` of storage.go's `users` table.
use proxywi.Common.{
  ℕ, ◌+◌, ◌<◌, ◌≡◌, refl, inl, inr, Bool, true, false, ◌&&◌, not, List, [], ◌∷◌, map, arith, ◌==◌,
  Bool-cases, keep, any, All, All-keep, Bytes, same, same_iff, is_empty,
}
use proxywi.Storage.Rows.{Db, User}
use proxywi.Storage.Query.{unique, exec-Writes, spent}
use proxywi.Storage.Users.{
  create_user, update_user, delete_user, set_columns, update_users, insert_user, write_columns,
  without_user,
}

abbrev username_of : User → Bytes
username_of u = u.username

-- No two users have the same name, and ids are below the one that is given out next.
pub record IsValid (db : Db) : Type 0 where
  pub distinct : unique (map (λ (u : User). u.username) db.users) ≡ true
  pub below : All (λ (u : User). u.id < db.next_user) db.users

unique-keep :
    (p : User → Bool) (name : Bytes) (us : List User)
    → any (same name) (map username_of us) ≡ false
    → any (same name) (map username_of (keep p us)) ≡ false
unique-keep p name [] h = refl
unique-keep p name (u ∷ us) h = ground (arith, unique-keep p name us)

keep-unique :
    (p : User → Bool) (us : List User)
    → unique (map username_of us) ≡ true
    → unique (map username_of (keep p us)) ≡ true
keep-unique p [] h = refl
keep-unique p (u ∷ us) h = ground (arith, keep-unique p us, unique-keep p u.username us)

any-names :
    (name : Bytes) (us : List User)
    → any (λ u. same u.username name) us ≡ any (same name) (map username_of us)
any-names name [] = refl
any-names name (u ∷ us) =
    ground (arith, any-names name us, same_iff u.username name, same_iff name u.username)

below-suc : (n : ℕ) (us : List User) → All (λ u. u.id < n) us → All (λ u. u.id < n + 1) us
below-suc n [] h = tt
below-suc n (u ∷ us) h = (omega (arith, h.0), below-suc n us h.1)

pub set_columns-id : (name hash : Bytes) (u : User) → (set_columns name hash u).id ≡ u.id
set_columns-id [] [] u = refl
set_columns-id [] (c ∷ h) u = refl
set_columns-id (c ∷ n) [] u = refl
set_columns-id (c ∷ n) (d ∷ h) u = refl

below-update :
    (id n : ℕ) (name hash : Bytes) (us : List User)
    → All (λ u. u.id < n) us
    → All (λ u. u.id < n) (update_users id name hash us)
below-update id n name hash [] h = tt
below-update id n name hash (u ∷ us) h =
    ground (arith, below-update id n name hash us h.1, set_columns-id name hash u)

created :
    (username password_hash : Bytes) (now : ℕ) (db : Db)
    → IsValid db
    → IsValid (create_user username password_hash now db).1
unfolding create_user
created username password_hash now db v =
    let kept : IsValid (spent db) = record { distinct = v.distinct; below = v.below } in
    let named : any (λ u. same u.username username) db.users
        ≡ any (same username) (map username_of db.users) =
      any-names username db.users in
    exec-Writes IsValid (insert_user username password_hash now) db kept
      (elim (Bool-cases (any (λ u. same u.username username) db.users)) [
        | inl e ↦ rw e tt
        | inr e ↦ rw e (record {
          distinct = ground (arith, named, v.distinct);
          below = (omega arith, below-suc db.next_user db.users v.below);
        })
      ])

updated :
    (id : ℕ) (name hash : Bytes) (db : Db) → IsValid db → IsValid (update_user id name hash db).1
unfolding update_user
updated id name hash db v =
    let kept : IsValid (spent db) = record { distinct = v.distinct; below = v.below } in
    let rows = update_users id name hash db.users in
    elim (Bool-cases (is_empty name && is_empty hash)) [
      | inl e ↦ rw e v
      | inr e ↦ rw e (
          exec-Writes IsValid (write_columns id name hash) db kept
            (elim (Bool-cases (unique (map username_of rows))) [
              | inr u ↦ rw u tt
              | inl u ↦ rw u (record {
                distinct = u;
                below = below-update id db.next_user name hash db.users v.below;
              })
            ]))
    ]

deleted : (id : ℕ) (db : Db) → IsValid db → IsValid (delete_user id db).1
unfolding delete_user
deleted id db v =
    let kept : IsValid (spent db) = record { distinct = v.distinct; below = v.below } in
    let others = λ (u : User). not (u.id == id) in
    exec-Writes IsValid (without_user id) db kept (record {
      distinct = keep-unique others db.users v.distinct;
      below = All-keep (λ u. u.id < db.next_user) others db.users v.below;
    })

-- `CreateUser`, `UpdateUser` and `DeleteUser` keep the names different and the ids below the next
-- one, whatever the driver does.
pub users-IsValid :
    (username password_hash : Bytes) (now id : ℕ) (db : Db)
    → IsValid db
    → IsValid (create_user username password_hash now db).1
      × IsValid (update_user id username password_hash db).1
      × IsValid (delete_user id db).1
users-IsValid username password_hash now id db v = (
  created username password_hash now db v,
  updated id username password_hash db v,
  deleted id db v,
)
