-- ===== src/Server/Socks/Serve.antt =====
-- internal/server/proxy_socks.go: `Serve`, which lets a number of connections in at a time.
pub mod Bounded
pub mod Waiting
use proxywi.Common.{
  ℕ, zero, suc, ◌+◌, ◌-◌, ◌*◌, ◌/◌, ◌%◌, ◌^◌, ◌≤◌, ◌<◌, ◌≡◌, refl, sym, ap, ◌∙◌, ◌≢◌, ◌↔◌, ◌⊎◌, inl,
  inr, Bool, true, false, ◌&&◌, ◌||◌, not, Option, none, some, List, [], ◌∷◌, ◌++◌, map,
  append_assoc, append-nil, arith, ltb, leb, ◌==◌, if◌then◌else◌, ltb→lt, lt→ltb, leb→le, ==_iff,
  ==_refl, Bool-cases, Option-cases, length, take, drop, replicate, keep, first, any, All,
  length-append, take-append-drop, take_all, length-take, length-replicate, length-keep,
  length-drop, drop-drop, take-length_append, drop-length_append, All-append, All-keep, Bytes,
  codes, same, same_refl, same→eq, same_iff, is_empty, is_empty→nil, has_prefix, trim_prefix,
  index_byte, split, join, trim_space, to_lower, Result, ok, err, Result-cases,
}
use proxywi.Common.Integers.{ℤ, pos, negsuc}

abbrev pub default_socks_max_conns : ℕ
default_socks_max_conns = 1000

-- With the field `MaxConns`.
unfoldable pub max_conns : ℤ → ℕ
max_conns (pos n) = if n == 0 then default_socks_max_conns else n
max_conns (negsuc n) = default_socks_max_conns

-- The connection for which the loop waits to send to the semaphore; those that are being handled,
-- each with a place there.
pub record Pool : Type 0 where
  pub waiting : Option ℕ
  pub handling : List ℕ

-- The loop accepts a connection; its send to the semaphore gets through; a handler returns.
pub data ServeEvent : Type 0 where
  accepted : ℕ → ServeEvent
  admitted : ServeEvent
  finished : ℕ → ServeEvent

-- A receive from the semaphore, of the handler of `c`; none where no handler of `c` runs.
abbrev pub leave : ℕ → List ℕ → Option (List ℕ)
leave c [] = none
leave c (d ∷ handling) =
    let rest = leave c handling in
    if c == d then some handling else elim rest [ none ↦ none | some ds ↦ some (d ∷ ds) ]

-- None where the event cannot happen: the loop accepts nothing while it waits, and a send to a full
-- channel blocks.
unfoldable pub serve_step : ℕ → Pool → ServeEvent → Option Pool
serve_step places p (accepted c) = elim p.waiting [
  | none ↦ some (record p { waiting = some c })
  | some d ↦ none
]
serve_step places p admitted = elim p.waiting [
  | none ↦ none
  | some c ↦
      if ltb (length p.handling) places
      then some (record { waiting = none; handling = c ∷ p.handling })
      else none
]
serve_step places p (finished c) = elim (leave c p.handling) [
  | none ↦ none
  | some rest ↦ some (record p { handling = rest })
]

unfoldable pub serve_run : ℕ → Pool → List ServeEvent → Option Pool
unfolding serve_step
serve_run places p [] = some p
serve_run places p (e ∷ events) = elim (serve_step places p e) [
  | none ↦ none
  | some q ↦ serve_run places q events
]

abbrev pub new_pool : Pool
new_pool = record { waiting = none; handling = [] }
