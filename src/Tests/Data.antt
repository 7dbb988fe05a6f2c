-- ===== src/Tests/Data.antt =====
-- The agents, users and tables of the examples.
use proxywi.Common.{
  ℕ, ◌≡◌, refl, sym, Bool, Option, none, some, [], ◌∷◌, ◌++◌, Bytes, codes, same, same_refl,
}
use proxywi.Server.Gui.Clients.Tokens.{Accepts}
use proxywi.Storage.Rows.{Db, Admin, User, Client, MetricSample, EventRow, empty_db}
use proxywi.Common.Map.{IsMap, get, nat_eq}
use proxywi.Server.Registry.{Agent, Registry}
use proxywi.Server.State.{Server}
use proxywi.Server.Hub.{new_hub}

abbrev pub agent_a : Agent
agent_a = record {
  id = 3;
  name = codes "mildly-brisk-otter";
  agent_version = codes "1.2";
  connect_at = 10;
  session = 7;
}

abbrev pub agent_b : Agent
agent_b = record {
  id = 5;
  name = codes "oddly-calm-heron";
  agent_version = codes "1.2";
  connect_at = 11;
  session = 8;
}

-- A second connection of the client of `agent_a`.
abbrev pub agent_c : Agent
agent_c = record agent_a { session = 9; connect_at = 12 }

abbrev pub two_agents : Registry
two_agents = record { agents = (5, agent_b) ∷ (3, agent_a) ∷ []; last_picked_id = 3 }

abbrev pub ann : User
ann = record { id = 1; username = codes "ann"; password_hash = codes "h:pw"; created_at = 0 }

abbrev pub root : Admin
root = record {
  id = 1;
  username = codes "root";
  email = codes "r@x";
  password_hash = codes "h:pw";
  created_at = 0;
}

abbrev pub one_client : Client
one_client = record {
  id = 3;
  name = codes "mildly-brisk-otter";
  token_hash = codes "h:t";
  token_id = codes "t";
  agent_version = [];
  last_seen = 0;
  created_at = 0;
}

abbrev pub event_at : ℕ → ℕ → EventRow
event_at id ts = record {
  id = id;
  ts = ts;
  user_id = some 1;
  client_id = some 3;
  target_host = codes "a.b:80";
  protocol = codes "http";
  outcome = codes "ok";
  bytes_in = 10;
  bytes_out = 4;
  duration_ms = 2;
}

abbrev pub sample_at : ℕ → ℕ → MetricSample
sample_at client_id ts = record {
  client_id = client_id;
  bucket_ts = ts;
  bytes_in = 100;
  bytes_out = 50;
  active_conns = 1;
}

abbrev pub filled : Db
filled = record empty_db {
  admins = root ∷ [];
  next_admin = 2;
  users = ann ∷ [];
  next_user = 2;
  clients = one_client ∷ [];
  next_client = 4;
  metric_samples = sample_at 3 60 ∷ sample_at 3 120 ∷ [];
  proxy_events = event_at 2 200 ∷ event_at 1 100 ∷ [];
  next_event = 3;
  auth_failures = 5 ∷ [];
}

-- A bcrypt of the examples: the hash of a password is "h:" before it.
abbrev pub compare : Bytes → Bytes → Bool
compare hash password = same hash (codes "h:" ++ password)

abbrev pub server : Server
server = record { db = filled; limiter = none; registry = two_agents; hub = some new_hub }

abbrev pub add_hash : Bytes → Option Bytes
add_hash password = some (codes "h:" ++ password)

pub accepts : Accepts compare add_hash
accepts p h e = let made : codes "h:" ++ p ≡ h = cc e in rw (sym made) (same_refl (codes "h:" ++ p))

pub two_agents-IsMap : IsMap two_agents.agents
unfolding get
two_agents-IsMap = (refl, (refl, tt))
