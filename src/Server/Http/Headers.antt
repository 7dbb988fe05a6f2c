-- ===== src/Server/Http/Headers.antt =====
-- http.Header as net/http keeps it, and `stripHopByHopHeaders` of internal/server/proxy_http.go.
use proxywi.Common.{
  ℕ, ◌+◌, ◌-◌, Bool, true, ◌&&◌, ◌||◌, not, Option, none, some, List, [], ◌∷◌, leb, ◌==◌,
  if◌then◌else◌, any, Bytes, codes, is_empty, split, trim_space,
}
use proxywi.Common.{is_empty}
use proxywi.Common.Map.{Map, get, delete, bytes_eq}

abbrev pub Header : Type 0
Header = Map Bytes (List Bytes)

-- The bytes of a field name, as RFC 9110 has them.
unfoldable pub is_token_byte : ℕ → Bool
is_token_byte c =
    (leb b'a' c && leb c b'z')
    || (leb b'A' c && leb c b'Z')
    || (leb b'0' c && leb c b'9')
    || any (λ t. c == t) (codes "!#$%&'*+-.^_`|~")

abbrev pub upper : ℕ → ℕ
upper c = if leb b'a' c && leb c b'z' then c - 32 else c

-- The first letter and each letter after a hyphen are upper case, the others lower case.
unfoldable pub capitalised : Bool → Bytes → Bytes
capitalised start [] = []
capitalised start (c ∷ s) =
    (if start then upper c else (if leb b'A' c && leb c b'Z' then c + 32 else c))
    ∷ capitalised (c == b'-') s

-- textproto.CanonicalMIMEHeaderKey(s)
unfoldable pub canonical_key : Bytes → Bytes
canonical_key s = if any (λ c. not (is_token_byte c)) s then s else capitalised true s

abbrev pub head_or_empty : Option (List Bytes) → Bytes
head_or_empty none = []
head_or_empty (some []) = []
head_or_empty (some (v ∷ vs)) = v

-- h.Get(key), for a key in canonical form.
unfoldable pub header_get : Header → Bytes → Bytes
header_get h key = head_or_empty (get h key)

-- h.Del(name)
unfoldable pub header_del : Header → Bytes → Header
header_del h name = delete h (canonical_key name)

abbrev pub hop_by_hop_headers : List Bytes
hop_by_hop_headers =
    codes "Connection"
    ∷ codes "Keep-Alive"
    ∷ codes "Proxy-Authenticate"
    ∷ codes "Proxy-Authorization"
    ∷ codes "Proxy-Connection"
    ∷ codes "Te"
    ∷ codes "Trailer"
    ∷ codes "Transfer-Encoding"
    ∷ codes "Upgrade"
    ∷ []

-- for _, token := range tokens
unfoldable pub del_tokens : Header → List Bytes → Header
del_tokens h [] = h
del_tokens h (token ∷ tokens) =
    let name = trim_space token in
    del_tokens (if is_empty name then h else header_del h name) tokens

-- for _, name := range names
unfoldable pub del_all : Header → List Bytes → Header
del_all h [] = h
del_all h (name ∷ names) = del_all (header_del h name) names

unfoldable pub strip_hop_by_hop_headers : Header → Header
strip_hop_by_hop_headers h =
    let c = header_get h (codes "Connection") in
    let h' = if is_empty c then h else del_tokens h (split c b',') in del_all h' hop_by_hop_headers
