-- ===== src/Server/Gui/Router/Kept.antt =====
-- The requests that leave the admins, the clients and the users alone.
use proxywi.Common.{
  ℕ, ◌≡◌, refl, ◌∙◌, inl, inr, Option, none, some, List, [], ◌∷◌, map, arith, ◌==◌, Bool-cases,
  first, Bytes, same, is_empty, trim_space, Result, ok, err, Result-cases,
}
use proxywi.Storage.Rows.{Db, DbError, Admin, Client}
use proxywi.Storage.Query.{query}
use proxywi.Storage.Admins.{admin_by_username}
use proxywi.Storage.Sessions.{
  create_session, delete_session, lookup_session, create_token_session, delete_token_session,
  lookup_token_session,
}
use proxywi.Storage.Clients.{
  client_by_token_id, client_by_id, all_client_token_hashes, token_id_from_token,
}
use proxywi.Server.Gate.{Compare}
use proxywi.Server.Gui.Sessions.{
  post_login, sign_in, post_logout, post_token_login, token_sign_in, post_token_logout,
  client_by_token, by_legacy_hash, require_auth, require_token_auth, legacy,
}

abbrev pub SameAccounts : Db → Db → Type 0
SameAccounts d db = (d.admins ≡ db.admins) × (d.clients ≡ db.clients) × (d.users ≡ db.users)

pub accounts_trans : (a b c : Db) → SameAccounts a b → SameAccounts b c → SameAccounts a c
accounts_trans a b c h k = (h.0 ∙ k.0, h.1 ∙ k.1, h.2 ∙ k.2)

pub query-SameAccounts : {A : Type 0} (f : Db → A) (db : Db) → SameAccounts (query f db).1 db
unfolding query
query-SameAccounts f db = ground arith

create_session-Same :
    (sid : Bytes) (id now ttl : ℕ) (db : Db) → SameAccounts (create_session sid id now ttl db).1 db
unfolding create_session
create_session-Same sid id now ttl db = ground arith

create_token_session-Same :
    (sid : Bytes) (id now ttl : ℕ) (db : Db)
    → SameAccounts (create_token_session sid id now ttl db).1 db
unfolding create_token_session
create_token_session-Same sid id now ttl db = ground arith

delete_session-Same : (sid : Bytes) (db : Db) → SameAccounts (delete_session sid db).1 db
unfolding delete_session
delete_session-Same sid db = ground arith

delete_token_session-Same :
    (sid : Bytes) (db : Db) → SameAccounts (delete_token_session sid db).1 db
unfolding delete_token_session
delete_token_session-Same sid db = ground arith

lookup_session-Same :
    (sid : Bytes) (now : ℕ) (db : Db) → SameAccounts (lookup_session sid now db).1 db
unfolding lookup_session
lookup_session-Same sid now db = ground arith

lookup_token_session-Same :
    (sid : Bytes) (now : ℕ) (db : Db) → SameAccounts (lookup_token_session sid now db).1 db
unfolding lookup_token_session
lookup_token_session-Same sid now db = ground arith

sign_in-Same :
    (compare : Compare) (sid password : Bytes) (now : ℕ) (r : Result DbError (Option Admin))
    (db : Db)
    → SameAccounts (sign_in compare sid password now r db).1 db
sign_in-Same compare sid password now (err e) db = (refl, refl, refl)
sign_in-Same compare sid password now (ok none) db = (refl, refl, refl)
sign_in-Same compare sid password now (ok (some a)) db =
    elim (Bool-cases (compare a.password_hash password)) [
      | inr e ↦ rw e (refl, refl, refl)
      | inl e ↦ rw e (create_session-Same sid a.id now 86_400 db)
    ]

pub post_login-Same :
    (compare : Compare) (sid username password : Bytes) (now : ℕ) (db : Db)
    → SameAccounts (post_login compare sid username password now db).1 db
unfolding post_login admin_by_username
post_login-Same compare sid username password now db =
    let q = query (λ d. first (λ a. same a.username (trim_space username)) d.admins) db in
    accounts_trans (sign_in compare sid password now q.0 q.1).1 q.1 db
      (sign_in-Same compare sid password now q.0 q.1)
      (query-SameAccounts (λ d. first (λ a. same a.username (trim_space username)) d.admins) db)

pub post_logout-Same : (c : Option Bytes) (db : Db) → SameAccounts (post_logout c db).1 db
unfolding post_logout
post_logout-Same none db = (refl, refl, refl)
post_logout-Same (some c) db = delete_session-Same c db

pub post_token_logout-Same :
    (c : Option Bytes) (db : Db) → SameAccounts (post_token_logout c db).1 db
unfolding post_token_logout
post_token_logout-Same none db = (refl, refl, refl)
post_token_logout-Same (some c) db = delete_token_session-Same c db

pub require_auth-Same :
    (c : Option Bytes) (now : ℕ) (db : Db) → SameAccounts (require_auth c now db).1 db
unfolding require_auth
require_auth-Same none now db = (refl, refl, refl)
require_auth-Same (some c) now db = lookup_session-Same c now db

pub require_token_auth-Same :
    (c : Option Bytes) (now : ℕ) (db : Db) → SameAccounts (require_token_auth c now db).1 db
unfolding require_token_auth
require_token_auth-Same none now db = (refl, refl, refl)
require_token_auth-Same (some c) now db = lookup_token_session-Same c now db

client_by_id-Same : (id : ℕ) (db : Db) → SameAccounts (client_by_id id db).1 db
unfolding client_by_id
client_by_id-Same id db = query-SameAccounts (λ d. first (λ c. c.id == id) d.clients) db

by_legacy_hash-Same :
    (compare : Compare) (token : Bytes) (hashes : List (ℕ × Bytes)) (db : Db)
    → SameAccounts (by_legacy_hash compare token hashes db).1 db
unfolding by_legacy_hash
by_legacy_hash-Same compare token [] db = (refl, refl, refl)
by_legacy_hash-Same compare token ((id, h) ∷ hashes) db = elim (Bool-cases (compare h token)) [
  | inl e ↦ rw e (client_by_id-Same id db)
  | inr e ↦ rw e (by_legacy_hash-Same compare token hashes db)
]

legacy-Same :
    (compare : Compare) (iterated : List (ℕ × Bytes) → List (ℕ × Bytes)) (token : Bytes) (db : Db)
    → SameAccounts (legacy compare iterated token db).1 db
unfolding all_client_token_hashes
legacy-Same compare iterated token db =
    let hashes : Db → List (ℕ × Bytes) = λ d. map (λ c. (c.id, c.token_hash)) d.clients in
    let (r, d) = query hashes db in
    let kept = query-SameAccounts hashes db in
    elim (Result-cases r) [
      | inr (e, q) ↦ rw (legacy, q) kept
      | inl (l, q) ↦
          rw (legacy, q)
            (accounts_trans (by_legacy_hash compare token (iterated l) d).1 d db
              (by_legacy_hash-Same compare token (iterated l) d) kept)
    ]

client_by_token-Same :
    (compare : Compare) (iterated : List (ℕ × Bytes) → List (ℕ × Bytes)) (token : Bytes) (db : Db)
    → SameAccounts (client_by_token compare iterated token db).1 db
unfolding client_by_token client_by_token_id
client_by_token-Same compare iterated form_token db =
    let token = trim_space form_token in
    let id = token_id_from_token token in
    let row = λ (d : Db). first (λ c. same c.token_id id) d.clients in
    let (r, d) = query row db in
    let kept = query-SameAccounts row db in
    let fallen =
      accounts_trans (legacy compare iterated token d).1 d db (legacy-Same compare iterated token d)
        kept in
    elim (Bool-cases (is_empty token)) [
      | inl e ↦ rw e (refl, refl, refl)
      | inr e ↦ elim (Bool-cases (is_empty id)) [
        | inl f ↦ rw (e, f) (legacy-Same compare iterated token db)
        | inr f ↦ elim (Result-cases r) [
          | inr (x, q) ↦ rw (e, f, q) kept
          | inl (none, q) ↦ rw (e, f, q) fallen
          | inl (some cl, q) ↦ elim (Bool-cases (compare cl.token_hash token)) [
            | inl g ↦ rw (e, f, q, g) kept
            | inr g ↦ rw (e, f, q, g) fallen
          ]
        ]
      ]
    ]

token_sign_in-Same :
    (sid : Bytes) (now : ℕ) (r : Result DbError (Option Client)) (db : Db)
    → SameAccounts (token_sign_in sid now r db).1 db
token_sign_in-Same sid now (err e) db = (refl, refl, refl)
token_sign_in-Same sid now (ok none) db = (refl, refl, refl)
token_sign_in-Same sid now (ok (some cl)) db = create_token_session-Same sid cl.id now 86_400 db

pub post_token_login-Same :
    (compare : Compare) (iterated : List (ℕ × Bytes) → List (ℕ × Bytes)) (sid token : Bytes)
    → (now : ℕ) (db : Db) → SameAccounts (post_token_login compare iterated sid token now db).1 db
unfolding post_token_login
post_token_login-Same compare iterated sid token now db =
    let (r, d) = client_by_token compare iterated token db in
    accounts_trans (token_sign_in sid now r d).1 d db (token_sign_in-Same sid now r d)
      (client_by_token-Same compare iterated token db)
