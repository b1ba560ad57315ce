-- ===== src/Agent/Executor/Admission.antt =====
-- What Execute makes of the circuit, and what a success leaves in the books.
use kube_ops_agent.Base.{
  leb, Bool-cases, Option-cases, length, keep, lookup, lookup-delete, ℕ, ◌+◌, ◌-◌, String, ◌≡◌,
  refl, sym, ap, ◌∙◌, ◌≢◌, ◌↔◌, ◌⊎◌, inl, inr, true, false, ◌&&◌, Option, none, some, List, [], ◌∷◌,
  ◌++◌, map, arith,
}
use kube_ops_agent.Agent.Spec.{Spec, Registry, spec_by_name}
use kube_ops_agent.Agent.Executor.{
  Error, Meets, Vars, attempt, attempts, Outcome, interrupted, finished, max_execute_attempts, Env,
  circuit_open, Returned, keep_books, finish, execute,
}
use kube_ops_agent.Agent.Executor.Outcomes.{
  start_vars, tested, execute_open, execute_ended, execute_answers,
}
use kube_ops_agent.Runtime.Circuit.{Breaker, Call, is_open, run, record_success}
use kube_ops_agent.Runtime.Circuit.Refines.{concerns}
use kube_ops_agent.Runtime.Circuit.Opens.{succeeds_at, fails_at, is_open-run}
use kube_ops_agent.Runtime.Metrics.{recorded}
use kube_ops_agent.Runtime.Metrics.Counts.{metrics_of, metrics_of-record_execution}
use kube_ops_agent.Runtime.State.{updated}
use kube_ops_agent.Runtime.State.Updates.{state_of, state_of-update_agent}

module _ {A Msg : Type 0} (format : ℕ → String) (reg : Registry) (name : String) (spec : Spec)
    (slept : ℕ → Option Error) (meets : ℕ → Meets A Msg) (start now : ℕ) (env : Env A) where
  finish-circuit_open :
      (o : Outcome A Msg) (env₁ : Env A)
      → (finish format name start now env₁ o).1.err ≢ some (circuit_open name)
  unfolding finish
  finish-circuit_open (interrupted v e) env₁ = ground arith
  finish-circuit_open (finished v) env₁ = ground arith

  admitted_or_open :
      (env' : Env A) (r : Returned Msg)
      → spec_by_name name reg ≡ some spec
      → execute format true reg name slept meets start now env ≡ some (env', r)
      → (((is_open start name env.circuit).1 ≡ true)
          × (r.err ≡ some (circuit_open name))
          × (env' ≡ env))
        ⊎ (((is_open start name env.circuit).1 ≡ false) × (r.err ≢ some (circuit_open name)))
  unfolding execute
  admitted_or_open env' r found h = elim (Bool-cases (is_open start name env.circuit).1) [
    | inl open_now ↦
        let same_end =
          sym (execute_open format reg name spec slept meets start now env found open_now) ∙ h in
        inl (open_now, ground (arith, same_end), ground (arith, same_end))
    | inr closed ↦
        elim (Option-cases
          (attempts spec.name slept meets max_execute_attempts 0 (start_vars env))) [
            | inl stuck ↦ cc (rw (found, execute, closed, stuck) at h)
            | inr (o, ended) ↦
                let same_end =
                  sym (
                    execute_ended format reg name spec slept meets start now env o found closed
                      ended)
                  ∙ h in
                inr
                  (closed, ground (arith, same_end, finish-circuit_open o (tested start name env)))
          ]
  ]

  -- A known agent whose last calls of the breaker are a success and then a number of failures, the
  -- last at time `t`: Execute returns the error of the open circuit exactly if the failures have reached
  -- the threshold and it starts no later than `t` plus the timeout, whatever came before, whatever other
  -- agents did in between and whatever the attempts would meet. If it does, the environment is as it was.
  pub execute_refused :
      (cb : Breaker) (cs before : List Call) (t₀ t : ℕ) (ts : List ℕ) (env' : Env A)
      (r : Returned Msg)
      → spec_by_name name reg ≡ some spec
      → env.circuit ≡ run cb cs
      → keep (concerns name) cs
        ≡ before ++ succeeds_at name t₀ ∷ (map (fails_at name) ts ++ fails_at name t ∷ [])
      → execute format true reg name slept meets start now env ≡ some (env', r)
      → ((r.err ≡ some (circuit_open name))
          ↔ (leb cb.threshold (length ts + 1) && leb start (t + cb.timeout) ≡ true))
        × ((r.err ≡ some (circuit_open name)) → env' ≡ env)
  execute_refused cb cs before t₀ t ts env' r found reached own h =
      let opened =
        ap (λ x. (is_open start name x).1) reached
        ∙ is_open-run name cb cs before t₀ t start ts own in
      elim (admitted_or_open env' r found h) [
        | inl (yes_open, refused, same_env) ↦
            (((λ p. sym opened ∙ yes_open), (λ p. refused)), (λ p. same_env))
        | inr (closed, passed) ↦
            (((λ p. absurd (passed p)), (λ p. cc (closed, opened, p))), (λ p. absurd (passed p)))
      ]

  -- What a success leaves of an agent in the books.
  pub record HasSuccess (env' : Env A) : Type 0 where
    pub metrics_runs :
        (metrics_of name env'.metrics).total_executions
        ≡ (metrics_of name env.metrics).total_executions + 1
    pub metrics_successes :
        (metrics_of name env'.metrics).successful_executions
        ≡ (metrics_of name env.metrics).successful_executions + 1
    pub metrics_failures :
        (metrics_of name env'.metrics).failed_executions
        ≡ (metrics_of name env.metrics).failed_executions
    pub state_runs :
        (state_of name env'.state).total_runs ≡ (state_of name env.state).total_runs + 1
    pub state_failures :
        (state_of name env'.state).total_failures ≡ (state_of name env.state).total_failures
    pub in_a_row : (state_of name env'.state).consecutive_failures ≡ 0
    pub failures : lookup name env'.circuit.failures ≡ none
    pub closed : lookup name env'.circuit.open_until ≡ none

  keep_books-HasSuccess :
      (env₁ : Env A)
      → env₁.metrics ≡ env.metrics
      → env₁.state ≡ env.state
      → HasSuccess (keep_books format name true start now "" env₁)
  unfolding keep_books recorded updated record_success
  keep_books-HasSuccess env₁ m s =
      let counted =
        metrics_of-record_execution name
          (record { agent = name; success = true; duration = now - start }) env.metrics in
      let kept =
        state_of-update_agent name
          (record { agent = name; now = now; last_run = some now; success = true }) env.state in
      record {
        metrics_runs = ground (arith, counted, m);
        metrics_successes = ground (arith, counted, m);
        metrics_failures = ground (arith, counted, m);
        state_runs = ground (arith, kept, s);
        state_failures = ground (arith, kept, s);
        in_a_row = ground (arith, kept, s);
        failures = ground (arith, lookup-delete name name env₁.circuit.failures);
        closed = ground (arith, lookup-delete name name env₁.circuit.open_until);
      }

  -- If the first attempt of an admitted call returns no error, the call returns its message with no
  -- error, and in the books the agent has one run and one success more and no failure more, no
  -- failures in a row, and a closed circuit without counted failures.
  pub execute_first_ok :
      (v : Vars A Msg)
      → spec_by_name name reg ≡ some spec
      → (is_open start name env.circuit).1 ≡ false
      → attempt spec.name (meets 0) (start_vars env) ≡ some (v, none)
      → (env' : Env A) × (execute format true reg name slept meets start now env
          ≡ some (env', record { msg = v.result; err = none }))
        × HasSuccess env'
  execute_first_ok v found closed first = (
    keep_books format name true start now "" (record (tested start name env) { cache = v.cache }),
    execute_answers format reg name spec slept meets start now env v found closed first,
    keep_books-HasSuccess (record (tested start name env) { cache = v.cache }) refl refl,
  )
