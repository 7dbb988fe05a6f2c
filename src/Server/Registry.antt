-- ===== src/Server/Registry.antt =====
-- internal/server/registry.go. What a method does under the mutex is one step; `Disconnect` closes
-- the session after it has released it. A yamux session, and with it the agent object of its
-- connection, is identified by a number; a method that closes sessions returns which. What
-- `OpenProxyStream` yields is an argument of the front ends.
pub mod Rotation
pub mod Fairness
pub mod Connections
use proxywi.Common.{
  ℕ, Bool, true, false, Option, none, some, List, [], ◌∷◌, ltb, ◌==◌, if◌then◌else◌, length, Bytes,
  Result, ok, err,
}
use proxywi.Common.Map.{Map, nat_eq, get, put, delete, keys}

pub record Agent : Type 0 where
  pub id : ℕ
  pub name : Bytes
  pub agent_version : Bytes
  pub connect_at : ℕ
  pub session : ℕ

pub record Registry : Type 0 where
  pub agents : Map ℕ Agent
  pub last_picked_id : ℕ

abbrev pub new_registry : Registry
new_registry = record { agents = []; last_picked_id = 0 }

-- The new registry, and the sessions that are closed.
unfoldable pub add : Registry → Agent → Registry × List ℕ
add r a = (
  record r { agents = put r.agents a.id a },
  elim (get r.agents a.id) [ none ↦ [] | some prev ↦ prev.session ∷ [] ],
)

-- `cur == a` compares pointers.
unfoldable pub remove : Registry → ℕ → Agent → Registry
remove r id a = elim (get r.agents id) [
  | none ↦ r
  | some cur ↦ if cur.session == a.session then record r { agents = delete r.agents id } else r
]

unfoldable pub get_agent : Registry → ℕ → Option Agent
get_agent r id = get r.agents id

unfoldable pub disconnect : Registry → ℕ → Bool × List ℕ
disconnect r id = elim (get r.agents id) [ none ↦ (false, []) | some a ↦ (true, a.session ∷ []) ]

abbrev pub values : Map ℕ Agent → List Agent
values [] = []
values ((id, a) ∷ m) = a ∷ values m

unfoldable pub online : Registry → List Agent
online r = values r.agents

-- sort.Slice of the ids
unfoldable pub insert_id : ℕ → List ℕ → List ℕ
insert_id x [] = x ∷ []
insert_id x (y ∷ l) = let rest = insert_id x l in if ltb x y then x ∷ y ∷ l else y ∷ rest

unfoldable pub sort_ids : List ℕ → List ℕ
unfolding insert_id
sort_ids [] = []
sort_ids (x ∷ l) = insert_id x (sort_ids l)

-- The loop of `PickNext`: the first id above the last one picked, else the default.
unfoldable pub first_above : List ℕ → ℕ → ℕ → ℕ
first_above [] last next = next
first_above (id ∷ ids) last next =
    let rest = first_above ids last next in if ltb last id then id else rest

unfoldable pub choose : List ℕ → ℕ → ℕ
unfolding first_above
choose [] last = 0
choose (id ∷ ids) last = first_above (id ∷ ids) last id

pub data PickError : Type 0 where
  err_no_agents : PickError

-- The agent is nil where the id is no key of the map.
unfoldable pub pick_next : Registry → Result PickError (Option Agent) × Registry
unfolding choose sort_ids
pick_next r =
    let next = choose (sort_ids (keys r.agents)) r.last_picked_id in
    if length r.agents == 0
    then (err err_no_agents, r)
    else (ok (get r.agents next), record r { last_picked_id = next })
