-- ===== src/Core/AgentsMap.antt =====
-- internal/lambda/core/agentsmap.go: agents by name and by ID. `ExternalAgentsMap` and
-- `InternalAgentsMap` are one text over two types of pointers: here it is written once.
pub mod Laws
use lambda_runtime_init.Base.{
  ℕ, Bool, true, false, Option, none, some, List, [], ◌∷◌, String, length,
}
use lambda_runtime_init.Base.Dict.{lookup, insert, values}
use lambda_runtime_init.Core.Error.{Error, agent_name_collision, agent_id_collision}

-- A pointer to an agent, with the two fields that do not change once the agent is made; `id` is the
-- text of the UUID, by which the source keys its map.
pub record AgentRef : Type 0 where
  pub address : ℕ
  pub name : String
  pub id : String

-- `ExternalAgentsMap` and `InternalAgentsMap`.
pub record AgentsMap : Type 0 where
  pub by_name : List (String × AgentRef)
  pub by_id : List (String × AgentRef)

unfoldable pub new_agents_map : AgentsMap
new_agents_map = record { by_name = []; by_id = [] }

unfoldable pub find_by_name : AgentsMap → String → Option AgentRef
unfolding lookup
find_by_name m name = lookup name m.by_name

unfoldable pub find_by_id : AgentsMap → String → Option AgentRef
unfolding lookup
find_by_id m id = lookup id m.by_id

unfoldable pub insert_agent : AgentsMap → AgentRef → AgentsMap × Option Error
unfolding find_by_name find_by_id insert
insert_agent m a = elim (find_by_name m a.name) [
  | some _ ↦ (m, some agent_name_collision)
  | none ↦ elim (find_by_id m a.id) [
    | some _ ↦ (m, some agent_id_collision)
    | none ↦ (record { by_name = insert a.name a m.by_name; by_id = insert a.id a m.by_id }, none)
  ]
]

-- The agents in the order in which `Visit` calls back.
unfoldable pub visited : AgentsMap → List AgentRef
visited m = values m.by_name

unfoldable pub size : AgentsMap → ℕ
size m = length m.by_name

-- `Visit` with the callback that appends.
unfoldable pub as_array : AgentsMap → List AgentRef
unfolding visited
as_array m = visited m

unfoldable pub clear : AgentsMap → AgentsMap
clear m = record { by_name = []; by_id = [] }
