-- ===== src/Storage/Sessions/Expiry.antt =====
-- The life of a session: made, found until it expires, gone after.
use proxywi.Common.{
  ℕ, ◌+◌, ◌≤◌, ◌≡◌, refl, none, some, List, [], ◌∷◌, arith, leb, if◌then◌else◌, Bytes, same_refl,
  ok,
}
use proxywi.Storage.Rows.{Db, Session}
use proxywi.Storage.Sessions.{
  create_session, lookup_session, delete_session, session_of, without_session,
}

session_of-without :
    (id : Bytes) (table : List Session) → session_of id (without_session id table) ≡ none
session_of-without id [] = refl
session_of-without id (s ∷ table) = ground (arith, session_of-without id table)

-- A session that `CreateSession` made at the time `now` is found by `LookupSession` at the time
-- `later`, as that of its admin, exactly while `later` is not past its expiry.
pub lookup_session-create_session :
    (id : Bytes) (admin_id now ttl later : ℕ) (db : Db)
    → db.faults ≡ []
    → (create_session id admin_id now ttl db).0 ≡ ok id
    → (lookup_session id later (create_session id admin_id now ttl db).1).0
      ≡ ok (if leb later (now + ttl) then some admin_id else none)
unfolding create_session lookup_session
lookup_session-create_session id admin_id now ttl later db h made = ground (arith, same_refl id)

-- After `LookupSession` found a session expired, or after `DeleteSession`, with a working driver,
-- no session of that id is left: it is not found again at any time.
pub session_gone :
    (id : Bytes) (now later : ℕ) (db : Db)
    → db.faults ≡ []
    → (session_of id (delete_session id db).1.admin_sessions ≡ none)
      × ((lookup_session id now db).0 ≡ ok none
          → (lookup_session id later (lookup_session id now db).1).0 ≡ ok none)
unfolding lookup_session
session_gone id now later db h = ground (arith, session_of-without id db.admin_sessions)

-- `LookupSession` answers with an admin only for a stored session of that id and admin that has
-- not expired, whatever the driver does.
pub lookup_session_sound :
    (id : Bytes) (now admin_id : ℕ) (db : Db)
    → (lookup_session id now db).0 ≡ ok (some admin_id)
    → (s : Session) × (session_of id db.admin_sessions ≡ some s)
      × (s.owner_id ≡ admin_id)
      × (now ≤ s.expires_at)
unfolding lookup_session
lookup_session_sound id now admin_id db h = ground arith
