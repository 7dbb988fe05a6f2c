-- ===== src/Server/Gui/Sessions.antt =====
-- internal/server/gui/middleware.go, handlers.go and token.go: who is signed in. The page that a
-- handler answers with is its template's flash key; times are in seconds.
use proxywi.Common.{
  ℕ, not, Option, none, some, List, [], ◌∷◌, if◌then◌else◌, Bytes, codes, is_empty, trim_space,
  Result, ok, err,
}
use proxywi.Storage.Rows.{Db, DbError, Admin, Client}
use proxywi.Storage.Admins.{admin_by_username}
use proxywi.Storage.Sessions.{
  create_session, delete_session, lookup_session, create_token_session, delete_token_session,
  lookup_token_session, ignored,
}
use proxywi.Storage.Clients.{
  token_id_from_token, client_by_token_id, client_by_id, all_client_token_hashes,
}
use proxywi.Server.Gate.{Compare}

pub data Reply : Type 0 where
  redirected : Bytes → Reply
  failed : ℕ → Reply
  flashed : Bytes → Reply

-- What is answered, and the session cookie that is set: `some []` clears it.
pub record Answer : Type 0 where
  pub reply : Reply
  pub cookie : Option Bytes

abbrev pub redirect : Bytes → Answer
redirect path = record { reply = redirected path; cookie = none }

abbrev pub cleared : Bytes → Answer
cleared path = record { reply = redirected path; cookie = some [] }

abbrev pub fail : ℕ → Answer
fail status = record { reply = failed status; cookie = none }

abbrev pub day : ℕ
day = 86_400

-- What a middleware does with the answer of a lookup: the id for the handlers behind it.
abbrev pub guard : Bytes → Result DbError (Option ℕ) → Result Answer ℕ
guard path (ok (some id)) = ok id
guard path (ok none) = err (cleared path)
guard path (err e) = err (cleared path)

unfoldable pub require_auth : Option Bytes → ℕ → Db → Result Answer ℕ × Db
require_auth none now db = (err (redirect (codes "/login")), db)
require_auth (some c) now db =
    let (r, db') = lookup_session c now db in (guard (codes "/login") r, db')

unfoldable pub require_token_auth : Option Bytes → ℕ → Db → Result Answer ℕ × Db
require_token_auth none now db = (err (redirect (codes "/token-login")), db)
require_token_auth (some c) now db =
    let (r, db') = lookup_token_session c now db in (guard (codes "/token-login") r, db')

abbrev pub signed_in : Bytes → Result DbError Bytes → Answer
signed_in path (ok sid) = record { reply = redirected path; cookie = some sid }
signed_in path (err e) = fail 500

abbrev pub bad_credentials : Answer
bad_credentials = record { reply = flashed (codes "login.bad_credentials"); cookie = none }

abbrev pub sign_in : Compare → Bytes → Bytes → ℕ → Result DbError (Option Admin) → Db → Answer × Db
sign_in compare sid password now (err e) db = (fail 500, db)
sign_in compare sid password now (ok none) db = (bad_credentials, db)
sign_in compare sid password now (ok (some admin)) db =
    let (r, db') = create_session sid admin.id now day db in
    if not (compare admin.password_hash password)
    then (bad_credentials, db)
    else (signed_in (codes "/") r, db')

-- The fields of the form, and the id that `CreateSession` draws.
unfoldable pub post_login : Compare → Bytes → Bytes → Bytes → ℕ → Db → Answer × Db
post_login compare sid username password now db =
    let (r, db') = admin_by_username (trim_space username) db in
    sign_in compare sid password now r db'

unfoldable pub post_logout : Option Bytes → Db → Answer × Db
post_logout none db = (cleared (codes "/login"), db)
post_logout (some c) db = (cleared (codes "/login"), (ignored (delete_session c) db).1)

-- for id, h := range hashes: the client of the first hash that fits. The order is that of the map.
unfoldable pub by_legacy_hash :
    Compare → Bytes → List (ℕ × Bytes) → Db → Result DbError (Option Client) × Db
by_legacy_hash compare token [] db = (ok none, db)
by_legacy_hash compare token ((id, h) ∷ hashes) db =
    let rest = by_legacy_hash compare token hashes db in
    if compare h token then client_by_id id db else rest

-- The clients without a token id, in the order in which the map is iterated.
abbrev pub legacy :
    Compare
    → (List (ℕ × Bytes) → List (ℕ × Bytes))
    → Bytes
    → Db
    → Result DbError (Option Client) × Db
legacy compare iterated token db =
    let (r, db') = all_client_token_hashes db in
    elim r [ err e ↦ (err e, db') | ok hashes ↦ by_legacy_hash compare token (iterated hashes) db' ]

unfoldable pub client_by_token :
    Compare
    → (List (ℕ × Bytes) → List (ℕ × Bytes))
    → Bytes
    → Db
    → Result DbError (Option Client) × Db
unfolding by_legacy_hash
client_by_token compare iterated form_token db =
    let token = trim_space form_token in
    let token_id = token_id_from_token token in
    let (r, db') = client_by_token_id token_id db in
    if is_empty token
    then (ok none, db)
    else if is_empty token_id
    then legacy compare iterated token db
    else elim r [
      | err e ↦ (err e, db')
      | ok none ↦ legacy compare iterated token db'
      | ok (some cl) ↦
          if compare cl.token_hash token
          then (ok (some cl), db')
          else legacy compare iterated token db'
    ]

abbrev pub bad_token : Answer
bad_token = record { reply = flashed (codes "token_login.bad_token"); cookie = none }

abbrev pub token_sign_in : Bytes → ℕ → Result DbError (Option Client) → Db → Answer × Db
token_sign_in sid now (err e) db = (fail 500, db)
token_sign_in sid now (ok none) db = (bad_token, db)
token_sign_in sid now (ok (some cl)) db =
    let (r, db') = create_token_session sid cl.id now day db in (signed_in (codes "/t/logs") r, db')

unfoldable pub post_token_login :
    Compare → (List (ℕ × Bytes) → List (ℕ × Bytes)) → Bytes → Bytes → ℕ → Db → Answer × Db
post_token_login compare iterated sid token now db =
    let (r, db') = client_by_token compare iterated token db in token_sign_in sid now r db'

unfoldable pub post_token_logout : Option Bytes → Db → Answer × Db
post_token_logout none db = (cleared (codes "/token-login"), db)
post_token_logout (some c) db =
    (cleared (codes "/token-login"), (ignored (delete_token_session c) db).1)
