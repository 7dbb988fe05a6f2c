-- ===== src/Server/Tunnel.antt =====
-- internal/tunnel/protocol.go: the messages between server and agent. JSON is the standard
-- library's; what a line decodes to is an argument of the code that reads it.
pub mod Framing
use proxywi.Common.{
  ℕ, ◌+◌, Bool, not, Option, none, some, List, [], ◌∷◌, ◌++◌, ◌==◌, if◌then◌else◌, Bytes, is_empty,
  Result, ok, err,
}

abbrev pub protocol_version : ℕ
protocol_version = 1

pub record Handshake : Type 0 where
  pub version : ℕ
  pub token : Bytes
  pub name : Bytes
  pub agent_version : Bytes

pub record HandshakeAck : Type 0 where
  pub accepted : Bool
  pub client_id : ℕ
  pub error : Bytes

pub record ProxyRequest : Type 0 where
  pub target : Bytes

pub record ProxyReply : Type 0 where
  pub accepted : Bool
  pub error : Bytes

pub record MetaMessage : Type 0 where
  pub type : Bytes
  pub bytes_in : ℕ
  pub bytes_out : ℕ
  pub active_conns : ℕ

pub data BadHandshake : Type 0 where
  unsupported_version empty_token : BadHandshake

unfoldable pub validate_handshake : Handshake → Result BadHandshake (Unit {0})
validate_handshake h =
    if not (h.version == protocol_version)
    then err unsupported_version
    else if is_empty h.token
    then err empty_token
    else ok tt

-- A bufio.Reader over the chunks that a connection delivers: what it has read ahead, and the
-- chunks still to come.
pub record Reader : Type 0 where
  pub buffer : Bytes
  pub chunks : List Bytes

-- The line up to and with the first '\n', and the bytes after it.
unfoldable pub cut_line : Bytes → Option (Bytes × Bytes)
cut_line [] = none
cut_line (c ∷ s) =
    let rest = cut_line s in
    if c == 10
    then some (c ∷ [], s)
    else elim rest [ none ↦ none | some (line, after) ↦ some (c ∷ line, after) ]

-- br.ReadBytes('\n'), of `ReadJSONLine`: chunks are read until the buffer holds a line.
unfoldable pub read_line : Bytes → List Bytes → Option (Bytes × Reader)
read_line buffer [] = elim (cut_line buffer) [
  | none ↦ none
  | some (line, after) ↦ some (line, record { buffer = after; chunks = [] })
]
read_line buffer (chunk ∷ chunks) =
    let more = read_line (buffer ++ chunk) chunks in
    elim (cut_line buffer) [
      | none ↦ more
      | some (line, after) ↦ some (line, record { buffer = after; chunks = chunk ∷ chunks })
    ]
