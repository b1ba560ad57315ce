-- ===== src/Reasoning/Context/Depths.antt =====
-- How deep contexts go.
use kube_ops_agent.Base.{ℕ, suc, ◌≤◌, String, ◌≡◌, refl, true, Option, arith}
use kube_ops_agent.Reasoning.Context.{
  ThinkingContext, top, under, frame, new_thinking_context, create_child_context, can_recurse,
}

-- The contexts that a new one leads to: children are made where recursion can continue.
pub data Reach {C : Type 0} : ThinkingContext C → Type 0 where
  start : (id : String) (now : ℕ) (goal : String) → Reach (new_thinking_context id now goal)
  descend :
      (t : ThinkingContext C) (empty : C) (now : ℕ) (task : String) (context : Option C)
      → Reach t
      → can_recurse t ≡ true
      → Reach (create_child_context empty now task context t)

-- The number of the contexts above.
unfoldable pub ancestors : {C : Type 0} → ThinkingContext C → ℕ
ancestors (top f) = 0
ancestors (under parent f) = suc (ancestors parent)

-- A context that a new one leads to is as deep as it has contexts above it, which are three at most.
pub depth-ancestors :
    {C : Type 0} (t : ThinkingContext C)
    → Reach t
    → ((frame t).depth ≡ ancestors t) × ((frame t).max_depth ≡ 3) × (ancestors t ≤ 3)
unfolding new_thinking_context create_child_context can_recurse ancestors
depth-ancestors _ (start id now goal) = (refl, refl, ground arith)
depth-ancestors _ (descend t empty now task context r c) =
    let h = depth-ancestors t r in (ground (arith, h.0), h.1, ground (arith, h, c))
