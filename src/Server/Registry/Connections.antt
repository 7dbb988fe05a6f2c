-- ===== src/Server/Registry/Connections.antt =====
-- Joining and leaving: `Add`, `Remove`, `Get` and `Disconnect` of registry.go.
use proxywi.Common.{ℕ, ◌≡◌, refl, ◌≢◌, ◌&&◌, none, some, [], ◌∷◌, arith, ◌==◌, if◌then◌else◌}
use proxywi.Common.Map.{
  Map, IsMap, nat_eq, put, delete, get-put, get-delete, put-IsMap, delete-IsMap,
}
use proxywi.Server.Registry.{Agent, Registry, add, remove, get_agent, disconnect, pick_next}

-- `Add` makes the agent the one of its id, closes exactly the session that it replaces, and leaves
-- the agents of other ids alone.
pub get_agent-add :
    (r : Registry) (a : Agent) (id : ℕ)
    → (get_agent (add r a).0 id ≡ (if a.id == id then some a else get_agent r id))
      × ((add r a).1 ≡ (disconnect r a.id).1)
unfolding get_agent add disconnect
get_agent-add r a id = (get-put r.agents a.id id a, ground arith)

-- The deferred `Remove` of a connection takes its own agent away, and no other.
pub get_agent-remove :
    (r : Registry) (a : Agent) (id : ℕ)
    → get_agent (remove r a.id a) id ≡ elim (get_agent r id) [
      | none ↦ none
      | some cur ↦ if a.id == id && cur.session == a.session then none else some cur
    ]
unfolding get_agent remove
get_agent-remove r a id = ground (arith, get-delete r.agents a.id id)

-- A connection that was replaced by a newer one of the same id and another session does not take
-- the newer one away when it ends: the registry after `Add a`, `Add b`, `Remove a` is that after
-- `Add a`, `Add b`.
pub remove-add-add :
    (r : Registry) (a b : Agent)
    → a.id ≡ b.id
    → a.session ≢ b.session
    → remove (add (add r a).0 b).0 a.id a ≡ (add (add r a).0 b).0
unfolding remove add
remove-add-add r a b e ne = ground (arith, get-put (put r.agents a.id a) b.id a.id b)

-- What a sequence of connections does to the registry.
pub data Event : Type 0 where
  joins leaves : Agent → Event
  picked_one : Event

unfoldable pub step : Registry → Event → Registry
step r (joins a) = (add r a).0
step r (leaves a) = remove r a.id a
step r picked_one = (pick_next r).1

-- Ids are keys once, and an agent stands under its own id.
abbrev pub Owns : Map ℕ Agent → Type 0
Owns [] = Unit
Owns ((id, a) ∷ m) = (a.id ≡ id) × Owns m

pub record IsValid (r : Registry) : Type 0 where
  pub unique : IsMap r.agents
  pub owned : Owns r.agents

put-Owns : (m : Map ℕ Agent) (a : Agent) → Owns m → Owns (put m a.id a)
unfolding put
put-Owns [] a h = (refl, tt)
put-Owns ((id, b) ∷ m) a h = ground (arith, put-Owns m a h.1)

delete-Owns : (m : Map ℕ Agent) (id : ℕ) → Owns m → Owns (delete m id)
unfolding delete
delete-Owns [] id h = tt
delete-Owns ((j, b) ∷ m) id h = ground (arith, delete-Owns m id h.1)

-- Joining, leaving and picking keep one entry for each id, with the agent of that id.
pub step-IsValid : (r : Registry) (e : Event) → IsValid r → IsValid (step r e)
unfolding step add remove pick_next
step-IsValid r (joins a) v = record {
  unique = put-IsMap r.agents a.id a v.unique;
  owned = put-Owns r.agents a v.owned;
}
step-IsValid r (leaves a) v =
    ground (arith, delete-IsMap r.agents a.id v.unique, delete-Owns r.agents a.id v.owned)
step-IsValid r picked_one v = ground arith
