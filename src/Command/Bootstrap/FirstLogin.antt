-- ===== src/Command/Bootstrap/FirstLogin.antt =====
-- From the start of the server on an empty database to the first login.
use proxywi.Common.{ℕ, ◌≡◌, Option, some, [], ◌∷◌, Bytes}
use proxywi.Storage.Rows.{Db, Admin}
use proxywi.Command.Bootstrap.{first_email}

-- The admin of the environment.
abbrev Env : Bytes → Bytes → ℕ → ℕ → Admin
Env username h id now = record {
  id = id;
  username = username;
  email = first_email username;
  password_hash = h;
  created_at = now;
}

abbrev Made : (Bytes → Option Bytes) → Bytes → Bytes → ℕ → Db → Db → Type 0
Made hash username password now db after =
    (h : Bytes) × (hash password ≡ some h)
    × (after.admins ≡ Env username h db.next_admin now ∷ [])
    × (after.faults ≡ [])
    × (after.admin_sessions ≡ db.admin_sessions)
