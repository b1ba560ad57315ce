-- ===== src/Runtime/Slots.antt =====
-- internal/runtime/production.go: ConcurrencyController. The goroutines inside `WithAgentSlot`
-- interleave: a step is one acquisition, one critical section under the lock, or one release. The
-- callback runs between `register` and `unregister`; a caller whose context ends before it has a
-- slot makes no step.
pub mod Safety
use kube_ops_agent.Base.{
  length, insert, delete, ℕ, ◌+◌, ◌-◌, ◌/◌, ◌<◌, String, ◌≡◌, ap, List, [], ◌∷◌, ◌++◌, map,
}
use kube_ops_agent.Runtime.Config.{ProductionConfig}

-- Where a goroutine is, from the slot on: before its name is entered among the active ones, in the
-- callback, and after the deferred deletion of its name.
pub data Phase : Type 0 where
  entered running finished : Phase

pub record Holder : Type 0 where
  pub name : String
  pub phase : Phase

-- The controller (the length of `agentCh`, and `activeAgents`) and the goroutines with a slot.
pub record Controller : Type 0 where
  pub capacity : ℕ
  pub in_use : ℕ
  pub active_agents : List (String × Unit {0})
  pub holders : List Holder

unfoldable pub new_concurrency_controller : ProductionConfig → Controller
new_concurrency_controller cfg = record {
  capacity = cfg.max_concurrent_agents;
  in_use = 0;
  active_agents = [];
  holders = [];
}

abbrev at : String → Phase → Holder
at name phase = record { name = name; phase = phase }

pub data Step (c d : Controller) : Type 0 where
  acquire :
      (name : String)
      → c.in_use < c.capacity
      → d ≡ record c { in_use = c.in_use + 1; holders = at name entered ∷ c.holders }
      → Step c d
  register :
      (name : String) (before after : List Holder)
      → c.holders ≡ before ++ at name entered ∷ after
      → d ≡ record c {
        active_agents = insert name tt c.active_agents;
        holders = before ++ at name running ∷ after;
      }
      → Step c d
  unregister :
      (name : String) (before after : List Holder)
      → c.holders ≡ before ++ at name running ∷ after
      → d ≡ record c {
        active_agents = delete name c.active_agents;
        holders = before ++ at name finished ∷ after;
      }
      → Step c d
  release :
      (name : String) (before after : List Holder)
      → c.holders ≡ before ++ at name finished ∷ after
      → d ≡ record c { in_use = c.in_use - 1; holders = before ++ after }
      → Step c d

pub data Reach (c : Controller) : Controller → Type 0 where
  here : Reach c c
  next : {d e : Controller} → Reach c d → Step d e → Reach c e

unfoldable pub active_agent_count : Controller → ℕ
active_agent_count c = length c.active_agents

unfoldable pub active_agents_list : Controller → List String
active_agents_list c = map (λ e. e.0) c.active_agents
