-- ===== src/Plan/Adaptive/Depths.antt =====
-- How deep an execution goes, and when it succeeds.
use mathlib.Core.Path.{subst}
use kube_ops_agent.Base.{
  ◌==◌, Option-cases, ℕ, zero, suc, ◌+◌, ◌-◌, ◌≤◌, String, ◌≡◌, refl, sym, inl, inr, Bool, true,
  not, ◌&&◌, ◌||◌, Option, none, some, arith,
}
use kube_ops_agent.Plan.Adaptive.{
  Thought, thought, Steps, done, step, step_with, Report, Result, result, Results, none_more,
  one_more, report_of, Executor, execute_step, replanned, sub_plan_for, joined, execute_steps,
  execute_plan, execute_levels, execute,
}

mutual
  -- No result is below the depth n.
  pub IsWithin : {Msg : Type 0} → ℕ → Result Msg → Type 0
  IsWithin n (result r rs) = (r.depth ≤ n) × AreWithin n rs

  pub AreWithin : {Msg : Type 0} → ℕ → Results Msg → Type 0
  AreWithin n none_more = Unit
  AreWithin n (one_more r rs) = IsWithin n r × AreWithin n rs

abbrev pub below : {Msg : Type 0} → Result Msg → Results Msg
below (result r rs) = rs

-- Whether every result of the depth d in the list is a success.
unfoldable pub own_succeed : {Msg : Type 0} → ℕ → Results Msg → Bool
own_succeed d none_more = true
own_succeed d (one_more r rest) =
    (not ((report_of r).depth == d) || (report_of r).success) && own_succeed d rest

module _ {W Msg : Type 0} (e : Executor W Msg) where
  execute_step-depth :
      (w : W) (id action : String) (depth : ℕ) → (execute_step e w id action depth).1.depth ≡ depth
  unfolding execute_step
  execute_step-depth w id action depth = ground arith

  -- What is asked of the execution one level down: depths up to n, its own depth being d.
  abbrev GoesTo : ℕ → ℕ → Option (W → Thought → W × Result Msg) → Type 0
  GoesTo n d none = Unit
  GoesTo n d (some deeper) =
      (w : W) (p : Thought) → IsWithin n (deeper w p).1 × ((report_of (deeper w p).1).depth ≡ d + 1)

  abbrev IsWithinOption : ℕ → ℕ → Option (Result Msg) → Type 0
  IsWithinOption n d none = Unit
  IsWithinOption n d (some r) = IsWithin n r × ((report_of r).depth ≡ d + 1)

  replanned-IsWithin :
      (n d : ℕ) (deeper : Option (W → Thought → W × Result Msg)) (w : W) (action : String)
      (nested : Option Thought) (r : Report Msg)
      → GoesTo n d deeper
      → IsWithinOption n d (replanned e deeper w action nested r).1
  unfolding replanned
  replanned-IsWithin n d none w action nested r h = tt
  replanned-IsWithin n d (some deeper) w action nested r h =
      elim (Option-cases (sub_plan_for e w action nested r).1) [
        | inl e₁ ↦ rw (e₁, replanned) tt
        | inr (p, e₁) ↦ rw (e₁, replanned) (h (sub_plan_for e w action nested r).0 p)
      ]

  -- What the loop keeps for a step's report and what follows it.
  Holds : ℕ → ℕ → Results Msg → Bool → Type 0
  Holds n d rs all = AreWithin n rs × (all ≡ own_succeed d rs)

  joined-Holds :
      (n d : ℕ) (r : Report Msg) (sub : Option (Result Msg)) (rs : Results Msg) (all : Bool)
      → d ≤ n
      → r.depth ≡ d
      → IsWithinOption n d sub
      → Holds n d rs all
      → Holds n d (joined e r sub rs) (r.success && all)
  unfolding Holds own_succeed AreWithin IsWithin
  joined-Holds n d r none rs all le same_depth h hs =
      (((omega (arith, same_depth), tt), hs.0), ground (arith, same_depth, hs.1))
  joined-Holds n d r (some sub) rs all le same_depth h hs =
      (((omega (arith, same_depth), tt), (h.0, hs.0)), ground (arith, same_depth, h.1, hs.1))

  execute_steps-Holds :
      (n d : ℕ) (deeper : Option (W → Thought → W × Result Msg)) (w : W) (ss : Steps)
      → d ≤ n
      → GoesTo n d deeper
      → Holds n d (execute_steps e deeper d w ss).1 (execute_steps e deeper d w ss).2
  unfolding execute_steps Holds own_succeed AreWithin
  execute_steps-Holds n d deeper w done le h = (tt, refl)
  execute_steps-Holds n d deeper w (step id action rest) le h =
      let s = execute_step e w id action d in
      let sub = replanned e deeper s.0 action none s.1 in
      let tail = execute_steps e deeper d sub.0 rest in
      joined-Holds n d s.1 sub.1 tail.1 tail.2 le (execute_step-depth w id action d)
        (replanned-IsWithin n d deeper s.0 action none s.1 h)
        (execute_steps-Holds n d deeper sub.0 rest le h)
  execute_steps-Holds n d deeper w (step_with id action nested rest) le h =
      let s = execute_step e w id action d in
      let sub = replanned e deeper s.0 action (some nested) s.1 in
      let tail = execute_steps e deeper d sub.0 rest in
      joined-Holds n d s.1 sub.1 tail.1 tail.2 le (execute_step-depth w id action d)
        (replanned-IsWithin n d deeper s.0 action (some nested) s.1 h)
        (execute_steps-Holds n d deeper sub.0 rest le h)

  -- What an execution at the depth d keeps.
  abbrev KeptBy : ℕ → ℕ → Result Msg → Type 0
  KeptBy n d r =
      IsWithin n r × ((report_of r).depth ≡ d) × ((report_of r).success ≡ own_succeed d (below r))

  execute_plan-KeptBy :
      (n d : ℕ) (deeper : Option (W → Thought → W × Result Msg)) (w : W) (p : Thought)
      → d ≤ n
      → GoesTo n d deeper
      → KeptBy n d (execute_plan e deeper d w p).1
  unfolding execute_plan Holds IsWithin
  execute_plan-KeptBy n d deeper w (thought goal ss) le h =
      let held = execute_steps-Holds n d deeper w ss le h in ((le, held.0), refl, held.1)

  execute_levels-KeptBy :
      (n left d : ℕ) (w : W) (p : Thought)
      → d + left ≤ n
      → KeptBy n d (execute_levels e (suc left) d w p).1
  unfolding execute_levels
  execute_levels-KeptBy n zero d w p le = execute_plan-KeptBy n d none w p (omega arith) tt
  execute_levels-KeptBy n (suc left) d w p le =
      execute_plan-KeptBy n d (some (execute_levels e (suc left) (d + 1))) w p (omega arith)
        (λ w' p'.
          let kept = execute_levels-KeptBy n left (d + 1) w' p' (omega arith) in (kept.0, kept.1))

  -- A plan that is executed at a depth up to the greatest gives no result below the greatest depth, and is a success exactly if
  -- every step of its own is: what the plans of its steps come to, at the depth below, does not count.
  pub execute-depths :
      (w : W) (p : Thought) (d : ℕ)
      → d ≤ e.max_depth
      → IsWithin e.max_depth (execute e w p d).1
        × ((report_of (execute e w p d).1).success ≡ own_succeed d (below (execute e w p d).1))
  unfolding execute
  execute-depths w p d le =
      let levels : e.max_depth + 1 - d ≡ suc (e.max_depth - d) = omega arith in
      let kept = execute_levels-KeptBy e.max_depth (e.max_depth - d) d w p (omega arith) in
      let all = subst (λ k. KeptBy e.max_depth d (execute_levels e k d w p).1) (sym levels) kept in
      (all.0, all.2)
