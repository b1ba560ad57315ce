-- ===== src/Agent/Thinking/Retries.antt =====
-- What a run of a thinking agent returns.
use kube_ops_agent.Base.{
  Bool-cases, Option-cases, ℕ, zero, suc, ◌+◌, String, ◌≡◌, refl, ◌≢◌, ◌↔◌, ◌⊎◌, inl, inr, true,
  false, none, some, [], ◌∷◌, arith,
}
use kube_ops_agent.Agent.Thinking.{
  ThinkingAgent, AgentResult, Context, Result, Result-cases, Returned, Retry, Ended, Ended-cases,
  succeeded, exhausted, ok, err, Outside, analyze, create_plan, execute_direct, concluded,
  think_and_execute, reflected, good, rounds, max_iter, last_attempt, think_and_execute_with_retry,
  text,
}

-- Either there is no error and a result that is a success, or an error and no success.
pub data IsConsistent : Returned → Type 0 where
  won :
      {r : Returned} {res : AgentResult}
      → r.error ≡ none
      → r.result ≡ some res
      → res.success ≡ true
      → IsConsistent r
  lost :
      {r : Returned}
      → r.error ≢ none
      → ((res : AgentResult) → r.result ≡ some res → res.success ≡ false)
      → IsConsistent r

module _ {W V : Type 0} (out : Outside W V) (t : ThinkingAgent) where
  concluded-IsConsistent :
      (start : ℕ) (raw : String) (x : W × Result String)
      → IsConsistent (concluded out t start raw x).1
  unfolding concluded
  concluded-IsConsistent start raw (w, ok s) = won refl refl refl
  concluded-IsConsistent start raw (w, err e) =
      lost (λ h. ground (arith, h)) (λ res h. ground (arith, h))

  -- One call returns a success and no error, or an error and no success.
  pub think_and_execute-IsConsistent :
      (w : W) (task : String) (ctx : Context V)
      → IsConsistent (think_and_execute out t w task ctx).1
  unfolding think_and_execute
  think_and_execute-IsConsistent w task ctx =
      let a = analyze out t w task ctx in
      let p = create_plan out t a.0 task ctx in
      elim (Result-cases a.1) [
        | inr (e, bad) ↦
            rw (bad, think_and_execute) (lost (λ h. ground (arith, h)) (λ res h. ground (arith, h)))
        | inl (found, analysed) ↦ elim (Bool-cases found.complex) [
          | inr simple ↦
              rw (analysed, think_and_execute, simple)
                (concluded-IsConsistent (out.clock w) "" (execute_direct out t a.0 task ctx))
          | inl complex ↦ elim (Result-cases p.1) [
            | inr (e, bad) ↦
                rw (analysed, think_and_execute, complex, bad)
                  (lost (λ h. ground (arith, h)) (λ res h. ground (arith, h)))
            | inl (plan, planned) ↦
                rw (analysed, think_and_execute, complex, planned)
                  (concluded-IsConsistent (out.clock w) plan (
                    execute_direct out t p.0 task
                      (some (("analysis", text found.summary) ∷ ("plan", text plan) ∷ []))))
          ]
        ]
      ]

  good_lem : (r : Returned) → IsConsistent r → good out t r ≡ none → r.error ≢ none
  good_lem r (won e f g) h = ground arith
  good_lem r (lost e f) h = e

  good-success : (r : Returned) (res : AgentResult) → good out t r ≡ some res → res.success ≡ true
  good-success r res h = ground arith

  rounds-exhausted :
      (left i : ℕ) (w : W) (task : String) (v v' : Retry V)
      → (left ≢ 0) ⊎ (v.last_err ≢ none)
      → (rounds out t left i w task v).1 ≡ exhausted v'
      → v'.last_err ≢ none
  unfolding rounds reflected
  rounds-exhausted zero i w task v v' some_round h = ground arith
  rounds-exhausted (suc left) i w task v v' some_round h =
      let first = think_and_execute out t w task v.context in
      let lost_round = good_lem first.1 (think_and_execute-IsConsistent w task v.context) in
      elim (Option-cases (good out t first.1)) [
        | inl failed ↦
            rounds-exhausted left (i + 1) first.0 task (reflected out t i first.1 v) v'
              (inr (lost_round failed)) (rw (failed, rounds) at h)
        | inr (res, better) ↦ ground (arith, rw (better, rounds) at h)
      ]

  rounds-succeeded :
      (left i : ℕ) (w : W) (task : String) (v v' : Retry V) (res : AgentResult)
      → (rounds out t left i w task v).1 ≡ succeeded res v'
      → res.success ≡ true
  unfolding rounds
  rounds-succeeded zero i w task v v' res h = ground arith
  rounds-succeeded (suc left) i w task v v' res h =
      let first = think_and_execute out t w task v.context in
      elim (Option-cases (good out t first.1)) [
        | inl failed ↦
            rounds-succeeded left (i + 1) first.0 task (reflected out t i first.1 v) v' res
              (rw (failed, rounds) at h)
        | inr (res', better) ↦
            ground (arith, rw (better, rounds) at h, good-success first.1 res' better)
      ]

  -- The state and the variables after the loop.
  abbrev pub looped : W → String → Context V → W × Ended V
  looped w task ctx =
      rounds out t (max_iter out t) 0 w task
        (record { context = ctx; last_err = none; last_plan = "" })

  -- A call with retries returns no error exactly if a round of the loop succeeds. If every round of the loop has failed,
  -- it returns an error, even where the attempt after the loop is a success and its result is returned.
  pub retry-error :
      (w : W) (task : String) (ctx : Context V)
      → ((think_and_execute_with_retry out t w task ctx).2.error ≡ none)
        ↔ ((res : AgentResult) × (v : Retry V) × ((looped w task ctx).1 ≡ succeeded res v))
  unfolding think_and_execute_with_retry last_attempt
  retry-error w task ctx = elim (Ended-cases (looped w task ctx).1) [
    | inl (res, v, e) ↦ rw (e, think_and_execute_with_retry) ((λ h. (res, v, refl)), λ h. refl)
    | inr (v, e) ↦
        let bad =
          rounds-exhausted (max_iter out t) 0 w task
            (record { context = ctx; last_err = none; last_plan = "" }) v (inl (ground arith)) e in
        rw (e, think_and_execute_with_retry, last_attempt)
          ((λ h. ground (arith, bad)), λ (res, v', h). ground (arith, h))
  ]
