-- ===== src/Agent/Pool.antt =====
-- internal/agent/pool.go: AgentPool. `A` is the framework's agents and `M` its messages; `reply i` is what
-- the Reply of an agent to the input gives in the run of the name at the position i of the list, none where
-- it is an error or nil: two runs of one agent may answer differently.
pub mod Finishes
use kube_ops_agent.Base.{
  take, lookup, insert, ℕ, suc, ◌-◌, ◌/◌, String, Option, none, some, List, [], ◌∷◌,
}
use kube_ops_agent.Agent.Spec.{Spec}

pub record AgentPool (A : Type 0) : Type 0 where
  pub agents : List (String × A)

-- `NewAgentPool`
unfoldable pub new_agent_pool : {A : Type 0} → AgentPool A
new_agent_pool = record { agents = [] }

-- `Register`
unfoldable pub register : {A : Type 0} → String → A → AgentPool A → AgentPool A
register name a p = record { agents = insert name a p.agents }

-- `Get`
unfoldable pub get : {A : Type 0} → String → AgentPool A → Option A
get name p = lookup name p.agents

-- A list with one of its elements taken out.
pub data Takes {G : Type 0} : List G → G → List G → Type 0 where
  first : (g : G) (gs : List G) → Takes (g ∷ gs) g gs
  later : (h g : G) (gs rest : List G) → Takes gs g rest → Takes (h ∷ gs) g (h ∷ rest)

-- What a goroutine does under the lock once its agent has replied.
unfoldable pub collect : {M : Type 0} → String × Option M → List (String × M) → List (String × M)
collect (name, none) results = results
collect (name, some msg) results = insert name msg results

module _ {M : Type 0} where
  -- Wait of the group: the goroutines finish one after the other, in any order. The indices are those
  -- that still run, each with its name and what its Reply gives, the results, and the results at the end.
  pub data Finish : List (String × Option M) → List (String × M) → List (String × M) → Type 0 where
    all_done : (results : List (String × M)) → Finish [] results results
    one_more :
        (running rest : List (String × Option M)) (g : String × Option M)
        (results last : List (String × M))
        → Takes running g rest
        → Finish rest (collect g results) last
        → Finish running results last

module _ {A M : Type 0} (reply : ℕ → A → Option M) where
  -- The goroutines that Execute starts for the names from the position i on.
  unfoldable pub started : ℕ → List String → AgentPool A → List (String × Option M)
  unfolding get
  started i [] p = []
  started i (name ∷ names) p =
      let rest = started (suc i) names p in
      elim (get name p) [ none ↦ rest | some a ↦ (name, reply i a) ∷ rest ]

  -- A result that Execute may return.
  abbrev pub Execute : List String → AgentPool A → List (String × M) → Type 0
  Execute names p results = Finish (started 0 names p) [] results

-- `NewAgentPoolFromRegistry`; `build` is buildWorkerAgent of the model and the environment.
unfoldable pub fill : {A : Type 0} → (Spec → A) → List Spec → AgentPool A → AgentPool A
unfolding register
fill build [] p = p
fill build (s ∷ ss) p = fill build ss (register s.name (build s) p)

unfoldable pub new_agent_pool_from_registry : {A : Type 0} → (Spec → A) → List Spec → AgentPool A
unfolding fill new_agent_pool
new_agent_pool_from_registry build specs = fill build specs new_agent_pool
