-- ===== src/Storage/Retention.antt =====
-- `PurgeOldData` and `PurgeProxyEventsOlderThan` of storage.go, and `runRetentionSweep` of
-- cmd/proxywi-server/main.go, which calls them.
pub mod Kept
use proxywi.Common.{
  ℕ, ◌+◌, ◌-◌, ◌*◌, not, Option, none, some, List, [], ◌∷◌, ltb, length, keep, ok, err,
}
use proxywi.Storage.Rows.{Db, DbError, Session, MetricSample, EventRow}
use proxywi.Storage.Query.{Query, exec}

-- DELETE … WHERE column < arg: the rows that stay, and RowsAffected.
abbrev purged {ℓ} : {A : Type ℓ} → (A → ℕ) → ℕ → List A → List A
purged column arg rows = keep (λ r. not (ltb (column r) arg)) rows

abbrev affected {ℓ} : {A : Type ℓ} → (A → ℕ) → ℕ → List A → ℕ
affected column arg rows = length rows - length (purged column arg rows)

unfoldable pub purge_metrics : ℕ → Query ℕ
unfolding exec
purge_metrics ts = exec (λ db. some (
  affected (λ m. m.bucket_ts) ts db.metric_samples,
  record db { metric_samples = purged (λ m. m.bucket_ts) ts db.metric_samples },
))

unfoldable pub purge_auth_failures : ℕ → Query ℕ
unfolding exec
purge_auth_failures ts = exec (λ db. some (
  affected (λ t. t) ts db.auth_failures,
  record db { auth_failures = purged (λ t. t) ts db.auth_failures },
))

unfoldable pub purge_admin_sessions : ℕ → Query ℕ
unfolding exec
purge_admin_sessions now = exec (λ db. some (
  affected (λ s. s.expires_at) now db.admin_sessions,
  record db { admin_sessions = purged (λ s. s.expires_at) now db.admin_sessions },
))

unfoldable pub purge_token_sessions : ℕ → Query ℕ
unfolding exec
purge_token_sessions now = exec (λ db. some (
  affected (λ s. s.expires_at) now db.token_sessions,
  record db { token_sessions = purged (λ s. s.expires_at) now db.token_sessions },
))

-- The total so far comes back beside an error too.
abbrev pub Purge : Type 0
Purge = ℕ × Option DbError × Db

-- The loop over the statements.
unfoldable pub purge_all : List (Query ℕ) → ℕ → Db → Purge
purge_all [] total db = (total, none, db)
purge_all (q ∷ qs) total db =
    let (r, db') = q db in
    elim r [ ok n ↦ purge_all qs (total + n) db' | err e ↦ (total, some e, db') ]

unfoldable pub purge_old_data : ℕ → ℕ → Db → Purge
purge_old_data cutoff now db =
    purge_all
      (purge_metrics cutoff
        ∷ purge_auth_failures cutoff
        ∷ purge_admin_sessions now
        ∷ purge_token_sessions now
        ∷ [])
      0 db

unfoldable pub purge_proxy_events_older_than : ℕ → Query ℕ
unfolding exec
purge_proxy_events_older_than cutoff = exec (λ db. some (
  affected (λ e. e.ts) cutoff db.proxy_events,
  record db { proxy_events = purged (λ e. e.ts) cutoff db.proxy_events },
))

abbrev pub retention_window : ℕ
retention_window = 30 * 24 * 3600

abbrev pub log_retention_window : ℕ
log_retention_window = 24 * 3600

-- A sweep at the time `now`, of at least the window's length; an error is only logged.
unfoldable pub long_sweep : ℕ → Db → Db
unfolding purge_old_data
long_sweep now db = (purge_old_data (now - retention_window) now db).2

unfoldable pub log_sweep : ℕ → Db → Db
unfolding purge_proxy_events_older_than
log_sweep now db = (purge_proxy_events_older_than (now - log_retention_window) db).1

-- The ticks of the two tickers, each with its time.
pub data Tick : Type 0 where
  long_tick log_tick : ℕ → Tick

unfoldable pub sweep_on : List Tick → Db → Db
unfolding long_sweep log_sweep
sweep_on [] db = db
sweep_on (long_tick now ∷ ticks) db = sweep_on ticks (long_sweep now db)
sweep_on (log_tick now ∷ ticks) db = sweep_on ticks (log_sweep now db)

-- Both sweeps run once before the first tick.
unfoldable pub run_retention_sweep : ℕ → List Tick → Db → Db
unfolding sweep_on
run_retention_sweep now ticks db = sweep_on ticks (log_sweep now (long_sweep now db))
