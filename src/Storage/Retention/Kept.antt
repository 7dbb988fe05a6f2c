-- ===== src/Storage/Retention/Kept.antt =====
-- What a retention sweep takes away and what it leaves.
use proxywi.Common.{
  ℕ, ◌+◌, ◌≤◌, ◌≡◌, refl, ◌∙◌, inl, inr, Bool, not, some, List, [], ◌∷◌, arith, ltb, length, keep,
  All, length-keep, Bytes, Result, ok, err, Result-cases,
}
use mathlib.Core.Path.{subst}
use proxywi.Storage.Rows.{Db, DbError, Session, MetricSample}
use proxywi.Storage.Query.{Query}
use proxywi.Storage.Sessions.{session_of}
use proxywi.Storage.Retention.{
  purge_old_data, purge_metrics, purge_auth_failures, purge_admin_sessions, purge_token_sessions,
  purge_all,
}

keep-keep {ℓ} : {A : Type ℓ} (p : A → Bool) (xs : List A) → keep p (keep p xs) ≡ keep p xs
keep-keep p [] = refl
keep-keep p (x ∷ xs) = ground (arith, keep-keep p xs)

-- The numbers of rows that a purge can delete from.
abbrev pub purgeable : Db → ℕ
purgeable db =
    length db.metric_samples
    + length db.auth_failures
    + length db.admin_sessions
    + length db.token_sessions

abbrev pub deleted : Result DbError ℕ → ℕ
deleted (ok n) = n
deleted (err e) = 0

-- The rows that are not due, in the four tables.
abbrev pub fresh_rows : ℕ → ℕ → Db → List MetricSample × List ℕ × List Session × List Session
fresh_rows cutoff now db = (
  keep (λ m. not (ltb m.bucket_ts cutoff)) db.metric_samples,
  keep (λ t. not (ltb t cutoff)) db.auth_failures,
  keep (λ s. not (ltb s.expires_at now)) db.admin_sessions,
  keep (λ s. not (ltb s.expires_at now)) db.token_sessions,
)

-- A statement of the purge counts what it deletes, and deletes no row that is not due.
record Purges (cutoff now : ℕ) (q : Query ℕ) : Type 0 where
  counts : (db : Db) → purgeable (q db).1 + deleted (q db).0 ≡ purgeable db
  leaves : (db : Db) → fresh_rows cutoff now (q db).1 ≡ fresh_rows cutoff now db

module _ (cutoff now : ℕ) where
  purge_metrics-Purges : Purges cutoff now (purge_metrics cutoff)
  unfolding purge_metrics
  purge_metrics-Purges = record {
    counts = λ db.
        ground (
          arith,
          length-keep (λ (m : MetricSample). not (ltb m.bucket_ts cutoff)) db.metric_samples,
        );
    leaves = λ db.
        ground
          (arith, keep-keep (λ (m : MetricSample). not (ltb m.bucket_ts cutoff)) db.metric_samples);
  }

  purge_auth_failures-Purges : Purges cutoff now (purge_auth_failures cutoff)
  unfolding purge_auth_failures
  purge_auth_failures-Purges = record {
    counts = λ db. ground (arith, length-keep (λ (t : ℕ). not (ltb t cutoff)) db.auth_failures);
    leaves = λ db. ground (arith, keep-keep (λ (t : ℕ). not (ltb t cutoff)) db.auth_failures);
  }

  purge_admin_sessions-Purges : Purges cutoff now (purge_admin_sessions now)
  unfolding purge_admin_sessions
  purge_admin_sessions-Purges = record {
    counts = λ db.
        ground (arith, length-keep (λ (s : Session). not (ltb s.expires_at now)) db.admin_sessions);
    leaves = λ db.
        ground (arith, keep-keep (λ (s : Session). not (ltb s.expires_at now)) db.admin_sessions);
  }

  purge_token_sessions-Purges : Purges cutoff now (purge_token_sessions now)
  unfolding purge_token_sessions
  purge_token_sessions-Purges = record {
    counts = λ db.
        ground (arith, length-keep (λ (s : Session). not (ltb s.expires_at now)) db.token_sessions);
    leaves = λ db.
        ground (arith, keep-keep (λ (s : Session). not (ltb s.expires_at now)) db.token_sessions);
  }

  purge_all-Purges :
      (qs : List (Query ℕ)) (total : ℕ) (db : Db)
      → All (Purges cutoff now) qs
      → (purgeable (purge_all qs total db).2 + (purge_all qs total db).0 ≡ purgeable db + total)
        × (fresh_rows cutoff now (purge_all qs total db).2 ≡ fresh_rows cutoff now db)
  unfolding purge_all
  purge_all-Purges [] total db h = (refl, refl)
  purge_all-Purges (q ∷ qs) total db (p, h) = elim (Result-cases (q db).0) [
    | inl (n, e) ↦
        let ih = purge_all-Purges qs (total + n) (q db).1 h in
        let counted = p.counts db in
        rw (e, purge_all)
          (
            omega
                (arith, ih.0, subst (λ r. purgeable (q db).1 + deleted r ≡ purgeable db) e counted),
            ih.1 ∙ p.leaves db,
          )
    | inr (x, e) ↦
        let counted = p.counts db in
        rw (e, purge_all)
          (
            omega (arith, subst (λ r. purgeable (q db).1 + deleted r ≡ purgeable db) e counted),
            p.leaves db,
          )
  ]

-- The total that `PurgeOldData` reports, beside an error too, is the number of rows that it
-- deleted from the four tables; and whatever the driver does, each row that is not due (samples and
-- failures at or after the cutoff, sessions that have not expired) stays, in its place.
pub purge_old_data-counts :
    (cutoff now : ℕ) (db : Db)
    → (purgeable (purge_old_data cutoff now db).2 + (purge_old_data cutoff now db).0 ≡ purgeable db)
      × (fresh_rows cutoff now (purge_old_data cutoff now db).2 ≡ fresh_rows cutoff now db)
unfolding purge_old_data
purge_old_data-counts cutoff now db =
    let both =
      purge_all-Purges cutoff now
        (purge_metrics cutoff
          ∷ purge_auth_failures cutoff
          ∷ purge_admin_sessions now
          ∷ purge_token_sessions now
          ∷ [])
        0 db
        (
          purge_metrics-Purges cutoff now,
          (
            purge_auth_failures-Purges cutoff now,
            (purge_admin_sessions-Purges cutoff now, (purge_token_sessions-Purges cutoff now, tt)),
          ),
        ) in
    (both.0 ∙ omega arith, both.1)

live_session :
    (id : Bytes) (now : ℕ) (table : List Session) (s : Session)
    → session_of id table ≡ some s
    → now ≤ s.expires_at
    → session_of id (keep (λ o. not (ltb o.expires_at now)) table) ≡ some s
live_session id now [] s e le = e
live_session id now (o ∷ table) s e le = ground (arith, live_session id now table s)
