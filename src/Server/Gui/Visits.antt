-- ===== src/Server/Gui/Visits.antt =====
-- A visit to the pages: from the login to the logout.
use proxywi.Common.{
  ℕ, ◌+◌, ◌≤◌, ◌≡◌, refl, true, some, [], arith, first, Bytes, codes, same, trim_space, ok, err,
  any, ◌==◌, false,
}
use proxywi.Storage.Rows.{Db, Admin}
use proxywi.Storage.Query.{query_lem}
use proxywi.Storage.Admins.{admin_by_username}
use proxywi.Storage.Sessions.{create_session, delete_session, lookup_session}
use proxywi.Storage.Sessions.Expiry.{session_gone}
use proxywi.Server.Gate.{Compare}
use proxywi.Server.Gui.Sessions.{
  Answer, redirected, require_auth, cleared, post_login, post_logout, day,
}

abbrev Login : (Answer × Db) → Compare → Bytes → Bytes → ℕ → ℕ → Admin → Type 0
Login out compare sid password now later a =
    (compare a.password_hash password ≡ true)
    × (out.0.cookie ≡ some sid)
    × (later ≤ now + day → (require_auth (some sid) later out.1).0 ≡ ok a.id)

admin_lem :
    (name : Bytes) (db : Db)
    → db.faults ≡ []
    → admin_by_username name db ≡ (ok (first (λ b. same b.username name) db.admins), db)
unfolding admin_by_username
admin_lem name db h = query_lem (λ d. first (λ b. same b.username name) d.admins) db h

-- A logout with a working driver ends the session of its cookie: at no later time does that cookie
-- pass `requireAuth`.
pub post_logout-require_auth :
    (c : Bytes) (later : ℕ) (db : Db)
    → db.faults ≡ []
    → ((post_logout (some c) db).0 ≡ cleared (codes "/login"))
      × ((require_auth (some c) later (post_logout (some c) db).1).0
          ≡ err (cleared (codes "/login")))
unfolding post_logout require_auth lookup_session
post_logout-require_auth c later db h =
    let gone = (session_gone c later later db h).0 in
    let kept : (delete_session c db).1.faults ≡ [] = unfold delete_session in ground arith in
    (refl, ground (arith, gone, kept))

-- With a working driver and a session id that is not taken, whoever gives an admin's name, and a
-- password that bcrypt accepts for the hash of the first admin of that name, is sent to the
-- dashboard with the session's cookie.
pub post_login_complete :
    (compare : Compare) (sid username password : Bytes) (now : ℕ) (a : Admin) (db : Db)
    → db.faults ≡ []
    → first (λ b. same b.username (trim_space username)) db.admins ≡ some a
    → any (λ b. b.id == a.id) db.admins ≡ true
    → any (λ o. same o.id sid) db.admin_sessions ≡ false
    → compare a.password_hash password ≡ true
    → (post_login compare sid username password now db).0
      ≡ record { reply = redirected (codes "/"); cookie = some sid }
unfolding post_login
post_login_complete compare sid username password now a db h named owner free good =
    let made : (create_session sid a.id now day db).0 ≡ ok sid =
      unfold create_session in ground (arith, owner, free) in
    rw (admin_lem (trim_space username) db h, named, good, made) refl
