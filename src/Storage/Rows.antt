-- ===== src/Storage/Rows.antt =====
-- The rows of the tables that internal/storage/migrations leaves, as storage.go reads them. Rows
-- stand newest first: a table's AUTOINCREMENT ids fall along its list. Times are Unix seconds.
use proxywi.Common.{ℕ, Bool, Option, List, [], Bytes}

pub record Admin : Type 0 where
  pub id : ℕ
  pub username : Bytes
  pub email : Bytes
  pub password_hash : Bytes
  pub created_at : ℕ

-- A row of `admin_sessions` (the owner is an admin) or of `token_sessions` (a client).
pub record Session : Type 0 where
  pub id : Bytes
  pub owner_id : ℕ
  pub expires_at : ℕ

pub record Client : Type 0 where
  pub id : ℕ
  pub name : Bytes
  pub token_hash : Bytes
  pub token_id : Bytes
  pub agent_version : Bytes
  pub last_seen : ℕ
  pub created_at : ℕ

pub record User : Type 0 where
  pub id : ℕ
  pub username : Bytes
  pub password_hash : Bytes
  pub created_at : ℕ

pub record MetricSample : Type 0 where
  pub client_id : ℕ
  pub bucket_ts : ℕ
  pub bytes_in : ℕ
  pub bytes_out : ℕ
  pub active_conns : ℕ

-- `user_id` and `client_id` may be NULL.
pub record EventRow : Type 0 where
  pub id : ℕ
  pub ts : ℕ
  pub user_id : Option ℕ
  pub client_id : Option ℕ
  pub target_host : Bytes
  pub protocol : Bytes
  pub outcome : Bytes
  pub bytes_in : ℕ
  pub bytes_out : ℕ
  pub duration_ms : ℕ

-- The tables. A `next_` field is what AUTOINCREMENT gives out next. Of `auth_failures` only the
-- time is read. `faults` says of the statements to come which ones the driver fails (disk, lock,
-- cancelled context); a statement beyond the list is not failed.
pub record Db : Type 0 where
  pub admins : List Admin
  pub next_admin : ℕ
  pub admin_sessions : List Session
  pub token_sessions : List Session
  pub clients : List Client
  pub next_client : ℕ
  pub users : List User
  pub next_user : ℕ
  pub metric_samples : List MetricSample
  pub proxy_events : List EventRow
  pub next_event : ℕ
  pub auth_failures : List ℕ
  pub faults : List Bool

abbrev pub empty_db : Db
empty_db = record {
  admins = [];
  next_admin = 1;
  admin_sessions = [];
  token_sessions = [];
  clients = [];
  next_client = 1;
  users = [];
  next_user = 1;
  metric_samples = [];
  proxy_events = [];
  next_event = 1;
  auth_failures = [];
  faults = [];
}

-- `constraint` is a UNIQUE, PRIMARY KEY or FOREIGN KEY that a write would break.
pub data DbError : Type 0 where
  driver constraint already_configured no_unique_name : DbError
