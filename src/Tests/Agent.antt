-- ===== src/Tests/Agent.antt =====
-- The configuration, the languages, and the targets of an agent.
use proxywi.Common.{
  ◌+◌, ◌≡◌, refl, true, false, none, some, List, [], ◌∷◌, ◌++◌, arith, if◌then◌else◌, length, All,
  Bytes, codes, same, has_prefix, split, trim_space, to_lower, ok,
}
use proxywi.Config.{Environ, ClientConfig, load_client, split_env, bool_env}
use proxywi.Server.Tunnel.{
  protocol_version, Handshake, HandshakeAck, validate_handshake, ProxyRequest, Reader, cut_line,
  read_line,
}
use proxywi.Client.Session.{RunEnv, run_agent, run_agent-validate_handshake, end_of_file}
use proxywi.Common.Map.{bytes_eq}
use proxywi.Languages.{Bundle, default_lang, Entry, load, from_request, or_empty}
use proxywi.Languages.Picked.{Known, Chosen, Translated, from_request-Chosen}
use proxywi.Server.Tunnel.Framing.{concat}
use proxywi.Client.Metrics.{Counters}
use proxywi.Client.Acl.{
  init_acl, host_of, is_target_allowed, AclEnv, Prefix, TargetAcl, addresses_allowed, has_host,
  in_any, is_addr,
}
use proxywi.Client.Acl.Denied.{Undenied, is_target_allowed-sixteen}
use proxywi.Client.Streams.{StreamEnv, handle_stream, forward_stream, dial_target, accepted_reply}
use proxywi.Client.Streams.Forwarded.{handle_stream-dials, handle_stream-forwards}

abbrev environ : Environ
environ key =
    if same key (codes "PROXYWI_SERVER")
    then codes "wss://p.example"
    else if same key (codes "PROXYWI_TOKEN")
    then codes "t"
    else if same key (codes "PROXYWI_ALLOWED_TARGETS")
    then codes "a.b, ,10.0.0.1"
    else []

abbrev loaded : ClientConfig
loaded = record {
  server = codes "wss://p.example";
  token = codes "t";
  tls_insecure = false;
  allowed_targets = codes "a.b" ∷ codes "10.0.0.1" ∷ [];
  denied_targets = [];
}

config_loads : load_client environ ≡ ok loaded
unfolding load_client split_env bool_env same split trim_space has_prefix to_lower
config_loads = refl

abbrev run_env : RunEnv
run_env = record {
  dialed = true;
  written = true;
  ack = some (true, some (record { accepted = true; client_id = 3; error = [] }));
  session = true;
  meta_stream = true;
  ending = end_of_file;
}

run_agent-validate_handshake_example :
    ((h : Handshake)
      → (run_agent run_env loaded.token (codes "1.2")).sent ≡ some h
      → (validate_handshake h ≡ ok tt) × (h.token ≡ loaded.token))
    × ((run_agent run_env loaded.token (codes "1.2")).started ≡ true
        → (ack : HandshakeAck) × (run_env.ack ≡ some (true, some ack)) × (ack.accepted ≡ true))
run_agent-validate_handshake_example =
    run_agent-validate_handshake environ loaded run_env (codes "1.2") config_loads

abbrev entries : List Entry
entries =
    record {
      name = codes "en.json";
      is_dir = false;
      strings = some ((codes "title", codes "Log") ∷ []);
    }
    ∷ record { name = codes "pt.json"; is_dir = false; strings = some [] }
    ∷ []

from_request-Chosen_example :
    let l = load entries in
    let (lang, tr) = from_request l none (codes "pt-BR,en;q=0.5") in
    (b : Bundle) × Chosen l (or_empty none) (codes "pt-BR,en;q=0.5") b
    × (lang ≡ b.lang)
    × Known l b
    × (l.fallback.lang ≡ default_lang)
    × Translated b l.fallback (codes "title") (tr (codes "title"))
from_request-Chosen_example =
    from_request-Chosen entries none (codes "pt-BR,en;q=0.5") (codes "title")

-- Of the default prefixes, the parser of the examples knows 10.0.0.0/8 alone.
abbrev acl_env : AclEnv
acl_env = record {
  allowed_targets = [];
  denied_targets = [];
  parse_prefix = λ s.
      if same s (codes "10.0.0.0/8")
      then some (record { addr = 10 ∷ 0 ∷ 0 ∷ 0 ∷ []; bits = 8 })
      else none;
  parse_addr = λ s. none;
  lookup_ip_addr = λ host. some ((8 ∷ 8 ∷ 8 ∷ 8 ∷ []) ∷ []);
}

nothing_allowed : (init_acl acl_env).allowed_nets ≡ []
unfolding init_acl proxywi.Client.Acl.parse_prefixes
nothing_allowed = refl

no_names : (init_acl acl_env).allowed_hosts ≡ []
unfolding init_acl proxywi.Client.Acl.parse_hosts
no_names = refl

found : acl_env.lookup_ip_addr (host_of (codes "a.b:80")) ≡ some ((8 ∷ 8 ∷ 8 ∷ 8 ∷ []) ∷ [])
found = refl

passes : is_target_allowed acl_env (codes "a.b:80") ≡ true
unfolding is_target_allowed init_acl addresses_allowed proxywi.Client.Acl.parse_prefixes
    proxywi.Client.Acl.parse_hosts same trim_space
passes = refl

abbrev request : ProxyRequest
request = record { target = codes "a.b:80" }

-- Every line is a request for "a.b:80".
abbrev stream_env : StreamEnv
stream_env = record {
  acl = acl_env;
  decode = λ line. some request;
  dial = λ target. ok tt;
  reply_written = true;
  taken = 9;
  copied = 9;
  answered = codes "pong";
}

abbrev counters : Counters
counters = record { bytes_in = 1; bytes_out = 2; active_conns = 0 }

-- The request with the first of four bytes behind it, and the others.
abbrev two_chunks : List Bytes
two_chunks = (codes "{}" ++ (10 ∷ []) ++ codes "p") ∷ codes "ing" ∷ []

target_dialed : (handle_stream stream_env two_chunks counters).dialed ≡ some (codes "a.b:80")
unfolding handle_stream proxywi.Client.Streams.forward_stream proxywi.Server.Tunnel.read_line
    proxywi.Server.Tunnel.cut_line is_target_allowed init_acl addresses_allowed
    proxywi.Client.Acl.parse_prefixes proxywi.Client.Acl.parse_hosts same trim_space
target_dialed = refl

first_line : cut_line (concat two_chunks) ≡ some (codes "{}" ++ (10 ∷ []), codes "ping")
unfolding cut_line
first_line = refl

handle_stream-dials_example : All (Undenied (init_acl stream_env.acl)) ((8 ∷ 8 ∷ 8 ∷ 8 ∷ []) ∷ [])
handle_stream-dials_example =
    handle_stream-dials stream_env two_chunks counters (codes "a.b:80") ((8 ∷ 8 ∷ 8 ∷ 8 ∷ []) ∷ [])
      nothing_allowed no_names found (refl, tt) target_dialed

handle_stream-forwards_example : handle_stream stream_env two_chunks counters ≡ record {
  reply = some accepted_reply;
  dialed = some request.target;
  to_target = (codes "ping");
  to_stream = stream_env.answered;
  counters = record {
    bytes_in = counters.bytes_in + length stream_env.answered;
    bytes_out = counters.bytes_out + length (codes "ping");
    active_conns = counters.active_conns;
  };
}
handle_stream-forwards_example =
    handle_stream-forwards stream_env two_chunks counters (codes "{}" ++ (10 ∷ [])) (codes "ping")
      request first_line refl passes refl refl (omega arith) (omega arith)

-- 10.0.0.1 in the form of 16 bytes.
abbrev mapped : Bytes
mapped = 0 ∷ 0 ∷ 0 ∷ 0 ∷ 0 ∷ 0 ∷ 0 ∷ 0 ∷ 0 ∷ 0 ∷ 255 ∷ 255 ∷ 10 ∷ 0 ∷ 0 ∷ 1 ∷ []

abbrev mapped_env : AclEnv
mapped_env = record acl_env { lookup_ip_addr = λ host. some (mapped ∷ []) }

four_bytes : All (λ (p : Prefix). length p.addr ≡ 4) (init_acl mapped_env).denied_nets
unfolding init_acl proxywi.Client.Acl.parse_prefixes same trim_space
four_bytes = (refl, tt)

is_target_allowed-sixteen_example : is_target_allowed mapped_env (codes "10.0.0.1:22") ≡ true
is_target_allowed-sixteen_example =
    is_target_allowed-sixteen mapped_env (codes "10.0.0.1:22") (mapped ∷ []) four_bytes (refl, tt)
      refl (λ e. absurd (cc e))
