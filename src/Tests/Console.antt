-- ===== src/Tests/Console.antt =====
-- internal/server/gui: the router and the pages of the admins.
use proxywi.Common.{
  ℕ, zero, suc, ◌+◌, ◌-◌, ◌*◌, ◌/◌, ◌%◌, ◌^◌, ◌≤◌, ◌<◌, ◌≡◌, refl, sym, ap, ◌∙◌, ◌≢◌, ◌↔◌, ◌⊎◌, inl,
  inr, Bool, true, false, ◌&&◌, ◌||◌, not, Option, none, some, List, [], ◌∷◌, ◌++◌, map,
  append_assoc, append-nil, arith, ltb, leb, ◌==◌, if◌then◌else◌, ltb→lt, lt→ltb, leb→le, ==_iff,
  ==_refl, Bool-cases, Option-cases, length, take, drop, replicate, keep, first, any, All,
  length-append, take-append-drop, take_all, length-take, length-replicate, length-keep,
  length-drop, drop-drop, take-length_append, drop-length_append, All-append, All-keep, Bytes,
  codes, same, same_refl, same→eq, same_iff, is_empty, is_empty→nil, has_prefix, trim_prefix,
  index_byte, split, join, trim_space, to_lower, Result, ok, err, Result-cases,
}
use proxywi.Storage.Rows.{Db, Client, EventRow}
use proxywi.Storage.Clients.{
  generate_unique_client_name, create_client, token_id_from_token, client_by_token_id, client_by_id,
  update_client_token, update_clients, client_of, list_clients,
}
use proxywi.Server.Control.{authenticate_token}
use proxywi.Server.Gui.Clients.{
  Draws, to_clients, new_client, post_new_client, ClientsAnswer, regenerate, post_regenerate_client,
}
use proxywi.Server.Gui.Clients.Tokens.{post_new_client-authenticate_token}
use proxywi.Storage.Query.{unique, query_lem, query, next_fault}
use proxywi.Server.Registry.{disconnect}
use proxywi.Common.Integers.{pos, negsuc, parse_int}
use proxywi.Server.Gui.Clients.Renewal.{Replaced, post_regenerate_client-authenticate_token}
use proxywi.Common.Map.{nat_eq, get}
use proxywi.Server.Gui.Dashboard.{Clock, get_dashboard}
use proxywi.Server.Gui.Dashboard.Chart.{sum_columns}
use proxywi.Server.Gui.Dashboard.Shown.{get_dashboard-totals}
use proxywi.Storage.Events.{list_proxy_events_filtered, joined}
use proxywi.Server.Gui.TokenLogs.{view_own, get_token_logs}
use proxywi.Server.Gui.TokenLogs.Owned.{Own, Stored, get_token_logs-Own}
use proxywi.Server.Gui.Targets.{anonymize_target, split_target_host_port, with_port}
use proxywi.Server.Gui.Targets.Hidden.{Shows, anonymize_target-Shows}
use proxywi.Server.Gui.Routes.{GuiEnv, GuiRequest, Gui}
use proxywi.Server.Gui.Router.{serve_gui}
use proxywi.Server.Gui.Router.Kept.{SameAccounts}
use proxywi.Server.Gui.Router.Guarded.{Authorized, serve_gui-Authorized}
use proxywi.Server.Hub.{Event, Hub, subscribe, metrics_event, new_hub}
use proxywi.Server.Gui.Stream.{StreamStep, keepalive, delivered, stream, events_dashboard}
use proxywi.Server.Gui.Stream.Shown.{texts_of, stream_lem}
use proxywi.Tests.Data.{one_client, event_at, filled, compare, server, add_hash, accepts}

abbrev draws : Draws
draws = record {
  hash = add_hash;
  petname = λ k. codes "oddly-calm-heron";
  draw = 0;
  token = codes "fresh-token";
}

client_made : (post_new_client draws 5 server).0.reply ≡ to_clients (some 4)
unfolding post_new_client proxywi.Server.Gui.Clients.new_client
    proxywi.Storage.Clients.generate_unique_client_name proxywi.Storage.Clients.create_client
    proxywi.Common.same proxywi.Storage.Clients.draw_name proxywi.Storage.Clients.client_name_exists
    proxywi.Storage.Clients.token_id_from_token
client_made = refl

post_new_client-authenticate_token_example :
    (c : Client) × ((post_new_client draws 5 server).0.flash ≡ some draws.token)
    × ((authenticate_token compare
          (λ hashes. hashes)
          draws.token
          (post_new_client draws 5 server).1.db).0
        ≡ ok (4, c))
post_new_client-authenticate_token_example =
    post_new_client-authenticate_token compare (λ hashes. hashes) draws 5 server 4 accepts
      (λ e. absurd (cc e)) refl client_made

token_renewed : (post_regenerate_client draws (codes "3") server).0.reply ≡ to_clients (some 3)
unfolding post_regenerate_client proxywi.Server.Gui.Clients.regenerate
    proxywi.Storage.Clients.client_by_id proxywi.Storage.Clients.update_client_token
    proxywi.Common.same proxywi.Common.Integers.parse_int
token_renewed = refl

post_regenerate_client-authenticate_token_example :
    ((post_regenerate_client draws (codes "3") server).0.closed ≡ (disconnect server.registry 3).1)
    × Replaced compare (λ hashes. hashes) draws 3 (post_regenerate_client draws (codes "3") server)
post_regenerate_client-authenticate_token_example =
    post_regenerate_client-authenticate_token compare (λ hashes. hashes) draws (codes "3") 3 server
      (λ p l. refl) accepts (λ e. absurd (cc e)) refl token_renewed

abbrev clock : Clock
clock = record { asked = 200; queried = 200; drawn = 201 }

get_dashboard-totals_example :
    let page = (get_dashboard 1 (codes "6h") clock server).0 in
    (sum_columns (λ b. b.0) refl page.columns_shown ≡ page.bytes_in)
    × (sum_columns (λ b. b.1) refl page.columns_shown ≡ page.bytes_out)
get_dashboard-totals_example = get_dashboard-totals 1 (codes "6h") clock server (omega arith)

abbrev like : Bytes → Bytes → Bool
like text pattern = true

abbrev own_events : List EventRow
own_events = event_at 2 200 ∷ event_at 1 100 ∷ []

logs_shown :
    (get_token_logs like 3 300 filled).0
    ≡ some (one_client.name, map (λ e. view_own (joined filled e)) own_events)
unfolding get_token_logs proxywi.Storage.Clients.client_by_id list_proxy_events_filtered joined
    proxywi.Storage.Query.query
logs_shown = refl

get_token_logs-Own_example :
    (es : List EventRow) × ((map (λ e. view_own (joined filled e)) own_events)
      ≡ map (λ e. view_own (joined filled e)) es)
    × All (λ e. Own 3 300 e × Stored filled.proxy_events e) es
    × (length es ≤ 200)
get_token_logs-Own_example =
    get_token_logs-Own like 3 300 filled one_client.name
      (map (λ e. view_own (joined filled e)) own_events) logs_shown

anonymize_target-Shows_example :
    let (host, port) = split_target_host_port (codes "www.example.com:443") in
    (with_port host port ≡ (codes "www.example.com:443"))
    × Shows (codes "www.example.com:443") host port (anonymize_target (codes "www.example.com:443"))
anonymize_target-Shows_example = anonymize_target-Shows (codes "www.example.com:443")

-- Patterns without parameters match their own path.
abbrev gui_env : GuiEnv
gui_env = record {
  draws = draws;
  compare = compare;
  iterated = λ hashes. hashes;
  sid = codes "s9";
  like = like;
  quoted = λ text. text;
  matches = λ pattern path. if same pattern path then some [] else none;
  now = 300;
}

-- A new client, asked for with the session "s1" and the CSRF token "c".
abbrev delete_request : GuiRequest
delete_request = record {
  method = codes "POST";
  path = codes "/clients/new";
  forwarded_for = [];
  remote_addr = codes "1.2.3.4:5";
  tls = true;
  forwarded_proto = [];
  forwarded_host = [];
  host = codes "p.example";
  session = some (codes "s1");
  token_session = none;
  csrf = some (codes "c");
  flash = none;
  csrf_field = codes "c";
  username = [];
  password = [];
  token = [];
  id = [];
  period = [];
  logs_query = record { user_id = []; client_id = []; search = []; page = [] };
}

abbrev signed_db : Db
signed_db = record filled {
  admin_sessions = record { id = codes "s1"; owner_id = 1; expires_at = 5000 } ∷ [];
}

abbrev gui : Gui
gui = record { server = record server { db = signed_db }; limiter = none }

serve_gui-Authorized_example :
    SameAccounts (serve_gui gui_env delete_request gui).1.server.db gui.server.db
    ⊎ Authorized gui_env delete_request gui
serve_gui-Authorized_example = serve_gui-Authorized gui_env delete_request gui

abbrev event_of_type : Bytes → Event
event_of_type type = record { type = type; ts = 7; payload = metrics_event 3 1 2 }

abbrev page_steps : List StreamStep
page_steps =
    delivered (event_of_type (codes "metrics"))
    ∷ keepalive
    ∷ delivered (event_of_type (codes "proxy_event"))
    ∷ []

stream_lem_example :
    let (shown, after) =
      stream (λ e. codes "{}") events_dashboard true 9 page_steps (λ h. h) (some new_hub) in
    (shown
      ≡ ok (
          take 9 (
            (codes ": ok" ++ (10 ∷ 10 ∷ []))
            ∷ texts_of (λ e. codes "{}") events_dashboard page_steps)))
    × (h : Hub) × (after ≡ some h)
    × (get h.subs (subscribe new_hub).1 ≡ none)
stream_lem_example = stream_lem (λ e. codes "{}") events_dashboard 9 page_steps (λ h. h) new_hub
