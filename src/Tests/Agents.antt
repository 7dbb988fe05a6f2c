-- ===== src/Tests/Agents.antt =====
-- internal/server/registry.go and hub.go.
use proxywi.Common.{◌≡◌, refl, some, map, arith, length}
use mathlib.Core.List.{Perm}
use proxywi.Common.Map.{nat_eq}
use proxywi.Server.Registry.{online, add, remove}
use proxywi.Server.Registry.Fairness.{picks, picks-perm-online}
use proxywi.Server.Registry.Connections.{remove-add-add}
use proxywi.Tests.Data.{agent_a, agent_c, two_agents, two_agents-IsMap}

picks-perm-online_example :
    Perm (picks (length two_agents.agents) two_agents) (map some (online two_agents))
picks-perm-online_example = picks-perm-online two_agents two_agents-IsMap

remove-add-add_example :
    remove (add (add two_agents agent_a).0 agent_c).0 agent_a.id agent_a
    ≡ (add (add two_agents agent_a).0 agent_c).0
remove-add-add_example =
    remove-add-add two_agents agent_a agent_c refl (λ e. absurd (omega (arith, e)))
