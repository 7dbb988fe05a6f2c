-- ===== src/Command/AdminSet/Login.antt =====
-- From the command `admin-set` to the login that it is for.
use proxywi.Common.{
  ℕ, ◌≤◌, ◌≡◌, refl, ap, ◌∙◌, ◌≢◌, inl, inr, true, false, Option, some, List, [], ◌∷◌, arith, ◌==◌,
  Option-cases, length, any, Bytes, codes, same, trim_space, ok,
}
use proxywi.Storage.Rows.{Db, Admin}
use proxywi.Storage.Admins.{or_old}
use proxywi.Storage.Admins.Names.{IsValid, by_id, rewritten}
use proxywi.Server.Gate.{Compare}
use proxywi.Server.Gui.Clients.Tokens.{Accepts}
use proxywi.Server.Gui.Visits.{post_login_complete}
use proxywi.Server.Gui.Sessions.{redirected, post_login}
use proxywi.Command.AdminSet.{Flags, run_admin_set, pass_hash}
use proxywi.Command.AdminSet.Rewriting.{run_admin_set-Rewrote}

pass_hash-Accepts :
    (compare : Compare) (hash : Bytes → Option Bytes) (password h : Bytes)
    → Accepts compare hash
    → password ≢ []
    → pass_hash hash password ≡ ok h
    → (hash password ≡ some h) × (8 ≤ length password)
pass_hash-Accepts compare hash [] h law ne e = absurd (ne refl)
pass_hash-Accepts compare hash (c ∷ password) h law ne e =
    elim (Option-cases (hash (c ∷ password))) [
      | inl q ↦ absurd (ground (arith, q))
      | inr (g, q) ↦ ground (arith, q)
    ]

id-present :
    (id : ℕ) (admins : List Admin) (a : Admin)
    → by_id id admins ≡ some a
    → any (λ b. b.id == id) admins ≡ true
id-present id [] a e = absurd cc
id-present id (b ∷ admins) a e = ground (arith, id-present id admins a)

or_old-new : (h old : Bytes) → h ≢ [] → or_old h old ≡ h
or_old-new [] old ne = absurd (ne refl)
or_old-new (c ∷ h) old ne = refl

-- With a working driver, names and ids that are different, and a hash that is never empty: after the
-- command succeeded with a password, which then has at least eight bytes, that password logs the
-- admin in, under the new name if there is one, where the name has no blanks around it and the
-- session's id is not taken.
pub run_admin_set-post_login :
    (compare : Compare) (hash : Bytes → Option Bytes) (f : Flags) (a : Admin) (sid : Bytes)
    → (now : ℕ) (db : Db) → Accepts compare hash
    → ((p : Bytes) → hash p ≢ some [])
    → IsValid db
    → db.faults ≡ []
    → f.password ≢ []
    → trim_space (or_old f.username a.username) ≡ or_old f.username a.username
    → any (λ o. same o.id sid) db.admin_sessions ≡ false
    → (run_admin_set hash f db).0 ≡ ok a
    → (8 ≤ length f.password)
      × ((post_login compare sid
            (or_old f.username a.username)
            f.password
            now
            (run_admin_set hash f db).1).0
          ≡ record { reply = redirected (codes "/"); cookie = some sid })
run_admin_set-post_login compare hash f a sid now db law real v h given plain free made =
    let (picked, wrote) = run_admin_set-Rewrote hash f a db v h made in
    let (g, passed, rows) = wrote in
    let (after, named, row, others) = rows in
    let (made_hash, long) = pass_hash-Accepts compare hash f.password g law given passed in
    let d = (run_admin_set hash f db).1 in
    let b = rewritten f.username f.email g a in
    let hashed : b.password_hash ≡ g =
      or_old-new g a.password_hash (λ e. real f.password (made_hash ∙ ap some e)) in
    let kept : d.faults ≡ [] = ap (λ (x : Db). x.faults) after ∙ h in
    let still_free : any (λ o. same o.id sid) d.admin_sessions ≡ false =
      ap (λ (x : Db). any (λ o. same o.id sid) x.admin_sessions) after ∙ free in
    (
      long,
      post_login_complete compare sid b.username f.password now b d kept (rw plain named)
          (id-present a.id d.admins b row) still_free (rw hashed (law f.password g made_hash)),
    )
