-- ===== src/Reasoning/Marks.antt =====
-- What marking steps does to a plan.
use kube_ops_agent.Base.{
  ltb, if◌then◌else◌, Bool-cases, length, ℕ, zero, suc, String, ◌≡◌, refl, ap, inl, inr, Bool,
  false, ◌||◌, List, [], ◌∷◌, arith,
}
use kube_ops_agent.Reasoning.{
  PlanStep, failed, ThinkingPlan, change_at, mark_step_running, mark_step_completed,
  mark_step_failed,
}

pub data Mark : Type 0 where
  runs : ℕ → ℕ → Mark
  completes fails : ℕ → ℕ → String → Mark

module _ {Inputs Sub : Type 0} where
  unfoldable pub mark : Mark → ThinkingPlan Inputs Sub → ThinkingPlan Inputs Sub
  unfolding mark_step_running mark_step_completed mark_step_failed
  mark (runs now i) p = mark_step_running now i p
  mark (completes now i text) p = mark_step_completed now i text p
  mark (fails now i text) p = mark_step_failed now i text p

  unfoldable pub run : List Mark → ThinkingPlan Inputs Sub → ThinkingPlan Inputs Sub
  unfolding mark
  run [] p = p
  run (m ∷ ms) p = run ms (mark m p)

  length-change_at :
      (f : PlanStep Inputs Sub → PlanStep Inputs Sub) (i : ℕ) (ss : List (PlanStep Inputs Sub))
      → length (change_at f i ss) ≡ length ss
  unfolding change_at
  length-change_at f i [] = refl
  length-change_at f zero (s ∷ ss) = refl
  length-change_at f (suc i) (s ∷ ss) = ap (λ n. suc n) (length-change_at f i ss)

-- A mark of a failure at a step of a plan of this many steps.
abbrev pub fails_step : ℕ → Mark → Bool
fails_step n (runs now i) = false
fails_step n (completes now i text) = false
fails_step n (fails now i text) = ltb i n

abbrev pub some_fails : ℕ → List Mark → Bool
some_fails n [] = false
some_fails n (m ∷ ms) = fails_step n m || some_fails n ms

module _ {Inputs Sub : Type 0} where
  mark-status :
      (m : Mark) (p : ThinkingPlan Inputs Sub)
      → (length (mark m p).steps ≡ length p.steps)
        × ((mark m p).status ≡ (if fails_step (length p.steps) m then failed else p.status))
  unfolding mark mark_step_running mark_step_completed mark_step_failed
  mark-status (runs now i) p = elim (Bool-cases (ltb i (length p.steps))) [
    | inl e ↦ rw (e, mark_step_running) (length-change_at _ i p.steps, refl)
    | inr e ↦ rw (e, mark_step_running) (refl, refl)
  ]
  mark-status (completes now i text) p = elim (Bool-cases (ltb i (length p.steps))) [
    | inl e ↦ rw (e, mark_step_completed) (length-change_at _ i p.steps, refl)
    | inr e ↦ rw (e, mark_step_completed) (refl, refl)
  ]
  mark-status (fails now i text) p = elim (Bool-cases (ltb i (length p.steps))) [
    | inl e ↦ rw (e, mark_step_failed) (length-change_at _ i p.steps, refl)
    | inr e ↦ rw (e, mark_step_failed) (refl, refl)
  ]

  -- Marks change no plan's number of steps, and a plan has failed after them exactly if a step of it
  -- was marked as failed or it had failed before; a later completion does not undo that.
  pub run-status :
      (ms : List Mark) (p : ThinkingPlan Inputs Sub)
      → (length (run ms p).steps ≡ length p.steps)
        × ((run ms p).status ≡ (if some_fails (length p.steps) ms then failed else p.status))
  unfolding run
  run-status [] p = (refl, refl)
  run-status (m ∷ ms) p =
      let ih = run-status ms (mark m p) in
      let (size, status) = mark-status m p in ground (arith, ih, size, status)
