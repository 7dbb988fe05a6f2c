-- ===== src/Tests/Http.antt =====
-- internal/server/proxy_http.go.
use proxywi.Common.{
  ℕ, zero, suc, ◌+◌, ◌-◌, ◌*◌, ◌/◌, ◌%◌, ◌^◌, ◌≤◌, ◌<◌, ◌≡◌, refl, sym, ap, ◌∙◌, ◌≢◌, ◌↔◌, ◌⊎◌, inl,
  inr, Bool, true, false, ◌&&◌, ◌||◌, not, Option, none, some, List, [], ◌∷◌, ◌++◌, map,
  append_assoc, append-nil, arith, ltb, leb, ◌==◌, if◌then◌else◌, ltb→lt, lt→ltb, leb→le, ==_iff,
  ==_refl, Bool-cases, Option-cases, length, take, drop, replicate, keep, first, any, All,
  length-append, take-append-drop, take_all, length-take, length-replicate, length-keep,
  length-drop, drop-drop, take-length_append, drop-length_append, All-append, All-keep, Bytes,
  codes, same, same_refl, same→eq, same_iff, is_empty, is_empty→nil, has_prefix, trim_prefix,
  index_byte, split, join, trim_space, to_lower, Result, ok, err, Result-cases,
}
use proxywi.Common.Map.{get, get-delete, bytes_eq}
use proxywi.Server.Gate.{verify_credentials, allow_proxy_request}
use proxywi.Server.Registry.{Agent, PickError}
use proxywi.Server.Http.{
  HttpRequest, HttpEnv, HttpOutcome, authorize, serve_http, with_agent, through, tunnel, forward,
  return_response, request_header, target_of,
}
use proxywi.Server.Http.Basic.{parse_proxy_auth}
use proxywi.Server.Http.Headers.{
  Header, header_get, header_del, canonical_key, hop_by_hop_headers, strip_hop_by_hop_headers,
  is_token_byte, capitalised,
}
use proxywi.Server.Http.Stripping.{named_in, first_connection_options}
use proxywi.Server.Http.Authorized.{Authorized, serve_http-dials, serve_http-sent_header}
use proxywi.Tests.Data.{compare, server}

-- Ann asks for http://a.b/, with a connection option.
abbrev request : HttpRequest
request = record {
  method = codes "GET";
  host = codes "a.b";
  url_is_abs = true;
  url_host = codes "a.b";
  header =
      (codes "Proxy-Authorization", codes "Basic YW5uOnB3" ∷ [])
      ∷ (codes "Connection", codes "close, X-Trace" ∷ [])
      ∷ (codes "X-Trace", codes "1" ∷ [])
      ∷ (codes "Accept", codes "*/*" ∷ [])
      ∷ [];
}

abbrev env : HttpEnv
env = record {
  compare = compare;
  opens = λ a target. true;
  reply = λ a target. some (record { accepted = true; error = [] });
  is_hijacker = true;
  hijacks = true;
  establishes = true;
  buffered = [];
  piped_in = 12;
  piped_out = 7;
  duration_ms = 3;
  request_bytes = λ h. some 40;
  response_header = some [];
  response_bytes = λ h. some 90;
}

request_dials : (serve_http env 100 request server).dials ≢ []
unfolding serve_http authorize with_agent through proxywi.Server.Http.forward
    proxywi.Server.Http.return_response proxywi.Server.Http.request_header
    proxywi.Server.Http.target_of parse_proxy_auth proxywi.Common.has_prefix
    proxywi.Common.trim_prefix header_get proxywi.Server.Http.Basic.decode_string
    proxywi.Server.Http.Basic.decode_text proxywi.Server.Http.Basic.decode_quad
    proxywi.Server.Http.Basic.sextet proxywi.Common.index_byte proxywi.Server.Http.Basic.three_bytes
    proxywi.Server.Registry.pick_next proxywi.Server.Registry.choose
    proxywi.Server.Registry.first_above proxywi.Server.Registry.insert_id
    proxywi.Server.Registry.sort_ids proxywi.Common.Map.get proxywi.Server.Gate.verify_credentials
    proxywi.Server.Gate.allow_proxy_request proxywi.Storage.Users.user_by_username
    proxywi.Storage.Query.query proxywi.Common.same strip_hop_by_hop_headers
    proxywi.Server.Http.Headers.del_all proxywi.Server.Http.Headers.del_tokens
    proxywi.Server.Http.Headers.header_del proxywi.Server.Http.Headers.canonical_key
    proxywi.Server.Http.Headers.capitalised proxywi.Server.Http.Headers.is_token_byte
    proxywi.Common.Map.delete proxywi.Common.split proxywi.Common.trim_space
    proxywi.Common.trim_left proxywi.Common.trim_right
request_dials e = absurd cc

serve_http-dials_example : Authorized env 100 request server
serve_http-dials_example = serve_http-dials env 100 request server request_dials

abbrev sent : Header
sent = (codes "Accept", codes "*/*" ∷ []) ∷ []

request-sent : (serve_http env 100 request server).sent_header ≡ some sent
unfolding serve_http authorize with_agent through proxywi.Server.Http.forward
    proxywi.Server.Http.return_response proxywi.Server.Http.request_header
    proxywi.Server.Http.target_of parse_proxy_auth proxywi.Common.has_prefix
    proxywi.Common.trim_prefix header_get proxywi.Server.Http.Basic.decode_string
    proxywi.Server.Http.Basic.decode_text proxywi.Server.Http.Basic.decode_quad
    proxywi.Server.Http.Basic.sextet proxywi.Common.index_byte proxywi.Server.Http.Basic.three_bytes
    proxywi.Server.Registry.pick_next proxywi.Server.Registry.choose
    proxywi.Server.Registry.first_above proxywi.Server.Registry.insert_id
    proxywi.Server.Registry.sort_ids proxywi.Common.Map.get proxywi.Server.Gate.verify_credentials
    proxywi.Server.Gate.allow_proxy_request proxywi.Storage.Users.user_by_username
    proxywi.Storage.Query.query proxywi.Common.same strip_hop_by_hop_headers
    proxywi.Server.Http.Headers.del_all proxywi.Server.Http.Headers.del_tokens
    proxywi.Server.Http.Headers.header_del proxywi.Server.Http.Headers.canonical_key
    proxywi.Server.Http.Headers.capitalised proxywi.Server.Http.Headers.is_token_byte
    proxywi.Common.Map.delete proxywi.Common.split proxywi.Common.trim_space
    proxywi.Common.trim_left proxywi.Common.trim_right
request-sent = refl

serve_http-sent_header_example :
    (get sent (codes "Proxy-Authorization") ≡ none)
    × ((key : Bytes)
        → get sent key ≡ (
            if named_in (first_connection_options request.header) key
              || named_in hop_by_hop_headers key
            then none
            else get request.header key))
serve_http-sent_header_example = serve_http-sent_header env 100 request server sent request-sent
