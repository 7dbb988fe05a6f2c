-- ===== src/Server/State.antt =====
-- What the parts of the server share, as cmd/proxywi-server wires them, and `logEvent` of
-- internal/server/proxy_http.go and proxy_socks.go, which are the same text.
use proxywi.Common.{ℕ, ◌-◌, ◌/◌, Option, none, some, Bytes, codes, ok, err}
use proxywi.Storage.Rows.{Db}
use proxywi.Storage.Events.{ProxyEvent, insert_proxy_event}
use proxywi.Server.RateLimiter.{RateLimiter}
use proxywi.Server.Registry.{Registry}
use proxywi.Server.Hub.{Hub, Event, proxy_log_event, publish}

pub record Server : Type 0 where
  pub db : Db
  pub limiter : Option RateLimiter
  pub registry : Registry
  pub hub : Option Hub

-- time.Now() in nanoseconds since Go's zero time, as Unix seconds.
abbrev pub unix : ℕ → ℕ
unix now = now / 1_000_000_000 - 62_135_596_800

abbrev pub publish_to : Option Hub → Event → ℕ → Option Hub
publish_to none e now = none
publish_to (some h) e now = some (publish h e now)

-- The arguments of `logEvent` after the context.
pub record LogEntry : Type 0 where
  pub user_id : ℕ
  pub user : Bytes
  pub client_id : ℕ
  pub client_name : Bytes
  pub target : Bytes
  pub protocol : Bytes
  pub outcome : Bytes
  pub bytes_in : ℕ
  pub bytes_out : ℕ
  pub duration_ms : ℕ

abbrev pub event_of : LogEntry → ℕ → ProxyEvent
event_of l now = record {
  id = 0;
  ts = some (unix now);
  user_id = l.user_id;
  username = l.user;
  client_id = l.client_id;
  client_name = l.client_name;
  target_host = l.target;
  protocol = l.protocol;
  outcome = l.outcome;
  bytes_in = l.bytes_in;
  bytes_out = l.bytes_out;
  duration_ms = l.duration_ms;
}

unfoldable pub log_event : LogEntry → ℕ → Server → Server
unfolding insert_proxy_event publish
log_event l now s =
    let (r, db') = insert_proxy_event (event_of l now) (unix now) s.db in
    elim r [
      | err e ↦ record s { db = db' }
      | ok id ↦ record s {
        db = db';
        hub =
            publish_to s.hub
              (record {
                type = codes "proxy_event";
                ts = 0;
                payload = proxy_log_event (record {
                  id = id;
                  ts = unix now;
                  user = l.user;
                  client_id = l.client_id;
                  client_name = l.client_name;
                  target = l.target;
                  protocol = l.protocol;
                  bytes_in = l.bytes_in;
                  bytes_out = l.bytes_out;
                  duration_ms = l.duration_ms;
                  outcome = l.outcome;
                });
              })
              now;
      }
    ]
