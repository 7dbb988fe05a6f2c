-- ===== src/Server/Gui/Access/Credentials.antt =====
-- From the page of the proxy's users to the gate that lets them in.
use proxywi.Common.{
  ℕ, ◌≡◌, refl, sym, ap, inl, inr, true, false, ◌||◌, not, Option, none, some, [], ◌∷◌, map, arith,
  ◌==◌, Bool-cases, Option-cases, keep, any, Bytes, codes, same, same_refl, is_empty, trim_space,
  ok, err, Result-cases, ◌⊎◌,
}
use proxywi.Common.Integers.{pos, parse_int}
use proxywi.Storage.Rows.{Db, DbError, User}
use proxywi.Storage.Query.{query_lem, unique}
use proxywi.Storage.Users.{
  create_user, user_by_username, update_user, delete_user, update_users, set_columns,
}
use proxywi.Storage.Users.Names.{IsValid}
use proxywi.Storage.Users.Lookups.{
  by_id, by_name, by_name-by_id, by_id-update, by_name-keep, untouched,
}
use proxywi.Server.Gate.{Compare, verify_credentials}
use proxywi.Server.Gui.Sessions.{Reply, redirected, failed}
use proxywi.Server.Gui.Clients.Tokens.{Accepts}
use proxywi.Server.Gui.Access.{
  post_new_access, post_edit_access, post_delete_access, new_hash, to_access,
}

-- With a working driver: a user whom `postNewAccess` makes passes the gate, under the name without
-- the blanks around it, with the password of the form.
pub post_new_access-verify_credentials :
    (compare : Compare) (hash : Bytes → Option Bytes) (username password : Bytes) (now : ℕ)
    → (db : Db) → Accepts compare hash
    → db.faults ≡ []
    → (post_new_access hash username password now db).0 ≡ redirected (codes "/access")
    → (u : User) × ((verify_credentials compare
          (trim_space username)
          password
          (post_new_access hash username password now db).1).0
        ≡ (some u, true))
unfolding post_new_access create_user verify_credentials
post_new_access-verify_credentials compare hash username password now db law h made =
    let name = trim_space username in
    elim (Bool-cases (is_empty name || is_empty password)) [
      | inl e ↦ absurd (cc (rw (post_new_access, e) at made))
      | inr e ↦ elim (Option-cases (hash password)) [
        | inl q ↦ absurd (cc (rw (post_new_access, e, q) at made))
        | inr (g, q) ↦ elim (Bool-cases (any (λ u. same u.username name) db.users)) [
          | inl taken ↦ absurd (ground (arith, taken, e, q))
          | inr free ↦ (
            record { id = db.next_user; username = name; password_hash = g; created_at = now },
            ground (arith, e, q, free, same_refl name, law password g q),
          )
        ]
      ]
    ]

user_lem :
    (name : Bytes) (db : Db)
    → db.faults ≡ []
    → user_by_username name db ≡ (ok (by_name name db.users), db)
unfolding user_by_username
user_lem name db h = query_lem (λ d. by_name name d.users) db h

gate_lem :
    (compare : Compare) (name tried : Bytes) (db : Db)
    → db.faults ≡ []
    → (verify_credentials compare name tried db).0 ≡ elim (by_name name db.users) [
      | none ↦ (none, false)
      | some u ↦ (some u, compare u.password_hash tried)
    ]
unfolding verify_credentials
gate_lem compare name tried db h = elim (Option-cases (by_name name db.users)) [
  | inl q ↦ rw (verify_credentials, user_lem name db h, q) refl
  | inr (u, q) ↦ rw (verify_credentials, user_lem name db h, q) refl
]

-- The rows after an update that succeeded, which set columns or had none to set.
updated_lem :
    (id : ℕ) (name hash : Bytes) (db : Db)
    → IsValid db
    → db.faults ≡ []
    → to_access (update_user id name hash db).0 ≡ redirected (codes "/access")
    → ((update_user id name hash db).1 ≡ record db { users = update_users id name hash db.users })
      × (unique (map (λ u. u.username) (update_users id name hash db.users)) ≡ true)
unfolding update_user
updated_lem id [] [] db v h made =
    let same_rows = untouched id db.users in
    (ap (λ us. record db { users = us }) (sym same_rows), rw same_rows v.distinct)
updated_lem id [] (c ∷ g) db v h made = ground arith
updated_lem id (c ∷ n) g db v h made = ground arith

edited_lem :
    (compare : Compare) (name hash tried : Bytes) (id : ℕ) (u : User) (db : Db)
    → IsValid db
    → db.faults ≡ []
    → by_id id db.users ≡ some u
    → to_access (update_user id name hash db).0 ≡ redirected (codes "/access")
    → (verify_credentials compare
        (set_columns name hash u).username
        tried
        (update_user id name hash db).1).0
      ≡ (some (set_columns name hash u), compare (set_columns name hash u).password_hash tried)
edited_lem compare name hash tried id u db v h row made =
    let (after, distinct) = updated_lem id name hash db v h made in
    let rows = update_users id name hash db.users in
    let new_row = by_id-update id name hash db.users u row in
    let named = by_name-by_id id rows (set_columns name hash u) distinct new_row in
    rw
      (
        after,
        gate_lem compare (set_columns name hash u).username tried (record db { users = rows }) h,
        named,
      )
      refl

refused_lem :
    (id : ℕ) (name hash : Bytes) (db : Db) (e : DbError)
    → db.faults ≡ []
    → (update_user id name hash db).0 ≡ err e
    → (update_user id name hash db).1 ≡ db
unfolding update_user
refused_lem id [] [] db e h q = absurd cc
refused_lem id [] (c ∷ g) db e h q = ground arith
refused_lem id (c ∷ n) g db e h q = ground arith

-- What `postEditAccess` leaves behind: after its redirect the gate answers to the user's name as it
-- is now; after an error, nothing has changed.
abbrev pub Edited :
    Compare → (Bytes → Option Bytes) → Bytes → Bytes → Bytes → User → Db → Reply × Db → Type 0
Edited compare hash username password tried u db out =
    ((out.0 ≡ redirected (codes "/access"))
      × (h : Bytes) × (new_hash hash password ≡ some h)
      × let v = set_columns (trim_space username) h u in
        (verify_credentials compare v.username tried out.1).0
        ≡ (some v, compare v.password_hash tried))
    ⊎ ((out.0 ≡ failed 500) × (out.1 ≡ db))

-- With a working driver and names that are different, for a user who is there: either
-- `postEditAccess` redirects, and then the gate answers to the user's name, the new one if the
-- form has one, by the hash of the new password if the form has one, and else by the old hash; or
-- it answers with an error, as for a name that is taken, and then the database is as before.
pub post_edit_access-verify_credentials :
    (compare : Compare) (hash : Bytes → Option Bytes) (param username password tried : Bytes)
    → (id : ℕ) (u : User) (db : Db) → IsValid db
    → db.faults ≡ []
    → parse_int param ≡ some (pos id)
    → by_id id db.users ≡ some u
    → Edited compare hash username password tried u db
        (post_edit_access hash param username password db)
unfolding post_edit_access
post_edit_access-verify_credentials compare hash param username password tried id u db v h p row =
    elim (Option-cases (new_hash hash password)) [
      | inl q ↦ inr (rw (post_edit_access, p, q) refl, rw (post_edit_access, p, q) refl)
      | inr (g, q) ↦
          let name = trim_space username in
          elim (Result-cases (update_user id name g db).0) [
            | inl (done, r) ↦
                let made = ap to_access r in
                inl (
                  rw (post_edit_access, p, q) made,
                  g,
                  q,
                  rw (post_edit_access, p, q)
                      (edited_lem compare name g tried id u db v h row made),
                )
            | inr (e, r) ↦ inr (
              rw (post_edit_access, p, q) (ap to_access r),
              rw (post_edit_access, p, q) (refused_lem id name g db e h r),
            )
          ]
    ]

-- With a working driver: after `postDeleteAccess` of a user who is there, nobody passes the gate
-- under that user's name.
pub post_delete_access-verify_credentials :
    (compare : Compare) (param tried : Bytes) (id : ℕ) (u : User) (db : Db)
    → IsValid db
    → db.faults ≡ []
    → parse_int param ≡ some (pos id)
    → by_id id db.users ≡ some u
    → (verify_credentials compare u.username tried (post_delete_access param db).1).0
      ≡ (none, false)
unfolding post_delete_access
post_delete_access-verify_credentials compare param tried id u db v h p row =
    let rows = keep (λ v. not (v.id == id)) db.users in
    let gone : by_name u.username rows ≡ none = by_name-keep id db.users u v.distinct row in
    let after : (delete_user id db).1 ≡ record db { users = rows } =
      unfold delete_user in ground arith in
    rw
      (
        post_delete_access,
        p,
        after,
        gate_lem compare u.username tried (record db { users = rows }) h,
        gone,
      )
      refl
