-- ===== src/Storage/Sessions.antt =====
-- The tables `admin_sessions` and `token_sessions`: `CreateSession` to `DeleteTokenSession` of
-- storage.go. A session id, of `randomHex`, is an argument.
pub mod Expiry
use proxywi.Common.{
  ℕ, ◌+◌, Bool, ◌&&◌, not, Option, none, some, List, [], ◌∷◌, ltb, ◌==◌, if◌then◌else◌, keep, first,
  any, Bytes, same, ok,
}
use proxywi.Storage.Rows.{Db, Session}
use proxywi.Storage.Query.{Query, query, exec, pure, continue, ◌>>=◌, ◌>>◌}

-- `id` is the PRIMARY KEY, and the owner must exist.
abbrev pub insert_session : Bool → Session → List Session → Option (List Session)
insert_session owner_exists s table =
    if owner_exists && not (any (λ o. same o.id s.id) table) then some (s ∷ table) else none

abbrev pub session_of : Bytes → List Session → Option Session
session_of id table = first (λ s. same s.id id) table

abbrev pub without_session : Bytes → List Session → List Session
without_session id table = keep (λ s. not (same s.id id)) table

unfoldable pub create_session : Bytes → ℕ → ℕ → ℕ → Query Bytes
unfolding exec
create_session id admin_id now ttl = exec (λ db.
    elim (insert_session (any (λ a. a.id == admin_id) db.admins)
      (record { id = id; owner_id = admin_id; expires_at = now + ttl }) db.admin_sessions) [
        | none ↦ none
        | some table ↦ some (id, record db { admin_sessions = table })
      ])

unfoldable pub delete_session : Bytes → Query (Unit {0})
unfolding exec
delete_session id =
    exec (λ db. some (tt, record db { admin_sessions = without_session id db.admin_sessions }))

-- The error of the DELETE is dropped.
abbrev pub ignored : {A : Type 0} → Query A → Query (Unit {0})
ignored m db = (ok tt, (m db).1)

-- The answer `(id, ok)` is an option.
abbrev live_owner : Option Session → ℕ → Query (Unit {0}) → Query (Option ℕ)
live_owner none now drop_it = pure none
live_owner (some s) now drop_it =
    if ltb s.expires_at now then (do drop_it; pure none) else pure (some s.owner_id)

unfoldable pub lookup_session : Bytes → ℕ → Query (Option ℕ)
unfolding query delete_session
lookup_session id now = do
  row ← query (λ db. session_of id db.admin_sessions)
  live_owner row now (ignored (delete_session id))

unfoldable pub create_token_session : Bytes → ℕ → ℕ → ℕ → Query Bytes
unfolding exec
create_token_session id client_id now ttl = exec (λ db.
    elim (insert_session (any (λ c. c.id == client_id) db.clients)
      (record { id = id; owner_id = client_id; expires_at = now + ttl }) db.token_sessions) [
        | none ↦ none
        | some table ↦ some (id, record db { token_sessions = table })
      ])

unfoldable pub delete_token_session : Bytes → Query (Unit {0})
unfolding exec
delete_token_session id =
    exec (λ db. some (tt, record db { token_sessions = without_session id db.token_sessions }))

unfoldable pub lookup_token_session : Bytes → ℕ → Query (Option ℕ)
unfolding query delete_token_session
lookup_token_session id now = do
  row ← query (λ db. session_of id db.token_sessions)
  live_owner row now (ignored (delete_token_session id))
