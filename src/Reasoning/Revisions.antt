-- ===== src/Reasoning/Revisions.antt =====
-- Where a revised plan resumes.
use mathlib.Core.Option.{some-injective}
use mathlib.Core.Path.{subst}
use kube_ops_agent.Base.{
  Bool-cases, length, take, drop, keep, All, is_member, ℕ, String, ◌≡◌, refl, sym, ap, inl, inr,
  true, false, some, List, [], ◌∷◌, ◌++◌, arith,
}
use kube_ops_agent.Reasoning.{PlanStep, ThinkingPlan, PlanRevision, is_completed, survives, apply}

module _ {A : Type 0} where
  take_of_append : (xs ys : List A) → take (length xs) (xs ++ ys) ≡ xs
  take_of_append [] ys = refl
  take_of_append (x ∷ xs) ys = ap (λ zs. x ∷ zs) (take_of_append xs ys)

  drop_of_append : (xs ys : List A) → drop (length xs) (xs ++ ys) ≡ ys
  drop_of_append [] ys = refl
  drop_of_append (x ∷ xs) ys = drop_of_append xs ys

-- Every step is completed and none is removed.
abbrev pub AllDone : {Inputs Sub : Type 0} → List String → List (PlanStep Inputs Sub) → Type 0
AllDone removed ss = All (λ s. (is_completed s.status ≡ true) × (is_member s.id removed ≡ false)) ss

survives-AllDone :
    {Inputs Sub : Type 0} (removed : List String) (ss : List (PlanStep Inputs Sub))
    → AllDone removed (keep (survives removed) ss)
unfolding survives
survives-AllDone removed [] = tt
survives-AllDone removed (s ∷ ss) =
    let ih = survives-AllDone removed ss in
    elim (Bool-cases (survives removed s)) [ inl e ↦ rw e (ground arith, ih) | inr e ↦ rw e ih ]

-- A revision of a plan gives a plan whose steps before the current one are completed and not
-- removed, as many as the plan's completed steps that are not removed, and whose steps from the
-- current one on are the new ones.
pub apply-resumes :
    {Inputs Sub : Type 0} (id : String) (now : ℕ) (r : PlanRevision Inputs Sub)
    (p q : ThinkingPlan Inputs Sub)
    → r.original_plan ≡ some p
    → apply id now r ≡ some q
    → AllDone r.removed_step_ids (take q.current_step q.steps)
      × (q.current_step ≡ length (keep (survives r.removed_step_ids) p.steps))
      × (drop q.current_step q.steps ≡ r.new_steps)
      × (q.goal ≡ p.goal)
unfolding apply
apply-resumes id now r p q e f =
    let kept = keep (survives r.removed_step_ids) p.steps in
    rw (sym (some-injective _ _ (rw (e, apply) at f))) (
      subst (AllDone r.removed_step_ids) (sym (take_of_append kept r.new_steps))
          (survives-AllDone r.removed_step_ids p.steps),
      refl,
      drop_of_append kept r.new_steps,
      refl,
    )
