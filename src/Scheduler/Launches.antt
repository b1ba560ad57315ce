-- ===== src/Scheduler/Launches.antt =====
-- The agents that the execution of a plan calls, and when.
use kube_ops_agent.Base.{
  if◌then◌else◌, Bool-cases, HasKey, ℕ, ◌+◌, String, ◌≡◌, refl, ◌⊎◌, inl, inr, true, Option, List,
  [], ◌∷◌, arith,
}
use kube_ops_agent.Plan.{Step, InspectionPlan, is_nil}
use kube_ops_agent.Plan.Agents.{Among, InStep}
use kube_ops_agent.Scheduler.{
  deps_met, kept_agents, dep_inputs, answers, store, Progress, launch_all, is_sequential, Answers,
  run_step, run_steps, run_plan,
}
use kube_ops_agent.Scheduler.Calls.{
  Launched, IsOrdered, Answered, AllCalled, kept_agents-All, launch_all-All, Launched-launch_all,
  launch_all-IsOrdered, deps_met-HasKey, HasKey-store, Answered-answers,
}

-- Where the results stand: each is that of an agent that was called, and each call came after
-- those that its step depends on.
pub record IsSound (p : Progress) : Type 0 where
  pub from_calls : (k : String) → HasKey k p.results → Launched k p.launched
  pub ordered : IsOrdered p.launched

-- `arrange` orders the answers and makes up none.
abbrev pub KeepsNames : Answers → Type 0
KeepsNames w =
    (n : ℕ) (said : List (String × Option String)) (k : String)
    → Answered k (w.arrange n said)
    → Answered k said

module _ (w : Answers) (skips : List String) where
  Answered-step :
      (n : ℕ) (s : Step) (k : String) (as' : List String)
      → KeepsNames w
      → Answered k (
          if is_sequential s.mode
          then answers (w.text n) 0 as'
          else w.arrange n (answers (w.text n) 0 as'))
      → Among k as'
  Answered-step n s k as' keeps h =
      Answered-answers k (w.text n) 0 as' (ground (arith, h, keeps n (answers (w.text n) 0 as') k))

  -- What a step that calls its agents makes of the progress.
  abbrev ran : ℕ → Step → Progress → Progress
  ran n s p =
      let as' = kept_agents skips s.agents in
      let said = answers (w.text n) 0 as' in
      record {
        results = store (if is_sequential s.mode then said else w.arrange n said) p.results;
        launched = launch_all as' s.depends_on (dep_inputs s.depends_on p.results) p.launched;
      }

  run_step-cases :
      (n : ℕ) (s : Step) (p : Progress)
      → (run_step w skips n s p ≡ p)
        ⊎ ((deps_met s.depends_on p.results ≡ true) × (run_step w skips n s p ≡ ran n s p))
  unfolding run_step
  run_step-cases n s p = elim (Bool-cases (is_nil s.agents)) [
    | inl e ↦ inl (rw (e, run_step) refl)
    | inr idle ↦ elim (Bool-cases (deps_met s.depends_on p.results)) [
      | inr e ↦ inl (rw (idle, e, run_step) refl)
      | inl met ↦ elim (Bool-cases (is_nil (kept_agents skips s.agents))) [
        | inl e ↦ inl (rw (idle, met, e, run_step) refl)
        | inr e ↦ inr (met, rw (idle, met, e, run_step) refl)
      ]
    ]
  ]

  ran-IsSound :
      (n : ℕ) (s : Step) (p : Progress)
      → KeepsNames w
      → deps_met s.depends_on p.results ≡ true
      → IsSound p
      → IsSound (ran n s p)
  ran-IsSound n s p keeps met ok =
      let as' = kept_agents skips s.agents in
      let inputs = dep_inputs s.depends_on p.results in
      let said = answers (w.text n) 0 as' in
      record {
        from_calls = λ k h.
            Launched-launch_all s.depends_on inputs k as' p.launched
              (elim (HasKey-store k (if is_sequential s.mode then said else w.arrange n said)
                p.results h) [
                  | inl a ↦ inl (Answered-step n s k as' keeps a)
                  | inr q ↦ inr (ok.from_calls k q)
                ]);
        ordered =
            launch_all-IsOrdered s.depends_on inputs as' p.launched
              (λ d h. ok.from_calls d (deps_met-HasKey s.depends_on p.results met d h)) ok.ordered;
      }

  run_step-IsSound :
      (n : ℕ) (s : Step) (p : Progress)
      → KeepsNames w
      → IsSound p
      → IsSound (run_step w skips n s p)
  run_step-IsSound n s p keeps ok = elim (run_step-cases n s p) [
    | inl e ↦ rw e ok
    | inr (met, e) ↦ rw e (ran-IsSound n s p keeps met ok)
  ]

  run_step-All :
      (P : String → Type 0) (n : ℕ) (s : Step) (p : Progress)
      → ((a : String) → Among a s.agents → P a)
      → AllCalled (λ a. (¬ Among a skips) × P a) p.launched
      → AllCalled (λ a. (¬ Among a skips) × P a) (run_step w skips n s p).launched
  run_step-All P n s p all done = elim (run_step-cases n s p) [
    | inl e ↦ rw e done
    | inr (met, e) ↦ rw e (
        launch_all-All s.depends_on (dep_inputs s.depends_on p.results)
          (λ a. (¬ Among a skips) × P a) (kept_agents skips s.agents) p.launched
          (kept_agents-All P skips s.agents all) done)
  ]

  run_steps-IsSound :
      (n : ℕ) (ss : List Step) (p : Progress)
      → KeepsNames w
      → IsSound p
      → IsSound (run_steps w skips n ss p)
  unfolding run_steps
  run_steps-IsSound n [] p keeps ok = ok
  run_steps-IsSound n (s ∷ ss) p keeps ok =
      run_steps-IsSound (n + 1) ss (run_step w skips n s p) keeps (run_step-IsSound n s p keeps ok)

  run_steps-All :
      (P : String → Type 0) (n : ℕ) (ss : List Step) (p : Progress)
      → ((a : String) → InStep a ss → P a)
      → AllCalled (λ a. (¬ Among a skips) × P a) p.launched
      → AllCalled (λ a. (¬ Among a skips) × P a) (run_steps w skips n ss p).launched
  unfolding run_steps
  run_steps-All P n [] p all done = done
  run_steps-All P n (s ∷ ss) p all done =
      run_steps-All P (n + 1) ss (run_step w skips n s p) (λ a h. all a (inr h))
        (run_step-All P n s p (λ a h. all a (inl h)) done)

-- The agents that the execution of a plan calls are in a step of it and none is to be skipped.
pub run_plan-allowed :
    (w : Answers) (p : InspectionPlan)
    → AllCalled (λ a. (¬ Among a p.skip_agents) × InStep a p.steps) (run_plan w p).launched
unfolding run_plan
run_plan-allowed w p =
    run_steps-All w p.skip_agents (λ a. InStep a p.steps) 0 p.steps
      (record { results = []; launched = [] }) (λ a h. h) tt

-- Each agent with a result was called, and each call comes after calls of all the agents that its
-- step depends on, where the order of the answers makes up none.
pub run_plan-IsSound : (w : Answers) (p : InspectionPlan) → KeepsNames w → IsSound (run_plan w p)
unfolding run_plan
run_plan-IsSound w p keeps =
    run_steps-IsSound w p.skip_agents 0 p.steps (record { results = []; launched = [] }) keeps
      (record { from_calls = λ k h. absurd h; ordered = tt })
