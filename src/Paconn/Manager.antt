-- ===== src/Paconn/Manager.antt =====
-- paconn/manager.go: the agents of a listening address. `accept` makes an agent, whose goroutine `recv`
-- runs at once, and adds it afterwards; the two can come in either order. An agent is a handle here.
use sutil.Prelude.Text.{Bytes}
use sutil.Prelude.Maps.{Dict, lookup, store, delete}
use sutil.Prelude.{Bool, true, false, Option, none, some, List, [], ◌∷◌, if◌then◌else◌}

pub data AgentError : Type 0 where
  id_not_found : AgentError

-- `added` is `addAgent` behind `NewAgent`, `ended` is `callbackClose`, made once by each agent's `recv`
pub data Life (A : Type 0) : Type 0 where
  added : Bytes → A → Life A
  ended : Bytes → Life A

module _ {A : Type 0} where
  unfoldable pub add_agent : Bytes → A → Dict A → Dict A
  add_agent id a agents = store id a agents

  unfoldable pub get_agent : Bytes → Dict A → Option A
  get_agent id agents = lookup id agents

  -- the map, and whether `cbClose` is called
  unfoldable pub callback_close : Bytes → Option A → Dict A → Dict A × Bool
  callback_close id none agents = (agents, false)
  callback_close id (some a) agents = (delete id agents, true)

  -- `Oneway` and `Twoway` of the manager: the call goes to the agent of the id, or fails
  unfoldable pub call_agent {ℓ} : {R : Type ℓ} → Bytes → (A → R) → (AgentError → R) → Dict A → R
  call_agent id call fail agents = elim (get_agent id agents) [
    | some a ↦ call a
    | none ↦ fail id_not_found
  ]

  -- the map, and the agents for which `cbClose` is called
  unfoldable pub live : List (Life A) → Dict A → Dict A × List Bytes
  unfolding add_agent callback_close
  live [] agents = (agents, [])
  live (added id a ∷ ls) agents = live ls (add_agent id a agents)
  live (ended id ∷ ls) agents =
      let (next, called) = callback_close id (lookup id agents) agents in
      let (end, ids) = live ls next in (end, if called then id ∷ ids else ids)
