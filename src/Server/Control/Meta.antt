-- ===== src/Server/Control/Meta.antt =====
-- internal/server/control.go: `readMetaStream`, and `OnEvent` as cmd/proxywi-server/main.go sets it.
use proxywi.Common.{ℕ, Bool, List, [], ◌∷◌, if◌then◌else◌, codes, same}
use proxywi.Storage.Rows.{Db}
use proxywi.Storage.Clients.{mark_client_seen}
use proxywi.Storage.Metrics.{add_metric_sample}
use proxywi.Server.Registry.{Agent}
use proxywi.Server.Hub.{metrics_event}
use proxywi.Server.Tunnel.{MetaMessage}
use proxywi.Server.State.{Server, publish_to, unix}

-- What happens while the stream is read: a message comes, or the ticker of 30 seconds ticks.
pub data MetaStep : Type 0 where
  received : MetaMessage → MetaStep
  ticked : MetaStep

abbrev pub is_metrics : MetaMessage → Bool
is_metrics m = same m.type (codes "metrics")

-- An error is logged.
unfoldable pub on_event : ℕ → MetaMessage → ℕ → Db → Db
on_event client_id m now db =
    if is_metrics m
    then (add_metric_sample client_id now m.bytes_in m.bytes_out m.active_conns db).1
    else db

unfoldable pub meta_step : Agent → MetaStep → ℕ → Server → Server
unfolding on_event
meta_step a ticked now s = record s {
  db = (mark_client_seen a.id a.agent_version (unix now) s.db).1;
}
meta_step a (received m) now s =
    let event =
      publish_to s.hub
        (record {
          type = codes "metrics";
          ts = 0;
          payload = metrics_event a.id m.bytes_in m.bytes_out;
        })
        now in
    record s { db = on_event a.id m (unix now) s.db; hub = if is_metrics m then event else s.hub }

-- The steps, each with its time, until a read fails.
unfoldable pub read_meta_stream : Agent → List (ℕ × MetaStep) → Server → Server
unfolding meta_step
read_meta_stream a [] s = s
read_meta_stream a ((now, e) ∷ steps) s = read_meta_stream a steps (meta_step a e now s)
