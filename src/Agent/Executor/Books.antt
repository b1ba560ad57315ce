-- ===== src/Agent/Executor/Books.antt =====
-- Metrics and state keep the same books.
use kube_ops_agent.Base.{
  Option-cases, ℕ, ◌-◌, String, ◌≡◌, inl, inr, Bool, true, false, Option, none, some, arith,
}
use kube_ops_agent.Agent.Spec.{Registry, spec_by_name}
use kube_ops_agent.Agent.Executor.{
  Error, Meets, Vars, attempts, Outcome, interrupted, finished, max_execute_attempts, Env, Returned,
  keep_books, finish, execute,
}
use kube_ops_agent.Runtime.Circuit.{is_open}
use kube_ops_agent.Runtime.Metrics.{recorded}
use kube_ops_agent.Runtime.Metrics.Counts.{metrics_of, metrics_of-record_execution}
use kube_ops_agent.Runtime.State.{updated}
use kube_ops_agent.Runtime.State.Updates.{state_of, state_of-update_agent}

-- For this agent the metrics and the state count the same executions and the same failures.
pub record Agrees {A : Type 0} (agent : String) (env : Env A) : Type 0 where
  pub runs : (metrics_of agent env.metrics).total_executions ≡ (state_of agent env.state).total_runs
  pub failures :
      (metrics_of agent env.metrics).failed_executions ≡ (state_of agent env.state).total_failures

module _ {A : Type 0} (format : ℕ → String) where
  keep_books-Agrees :
      (agent name : String) (success : Bool) (start now : ℕ) (text : String) (env : Env A)
      → Agrees agent env
      → Agrees agent (keep_books format name success start now text env)
  unfolding keep_books recorded updated
  keep_books-Agrees agent name success start now text env h = ground (
    arith,
    metrics_of-record_execution agent
        (record { agent = name; success = success; duration = now - start }) env.metrics,
    state_of-update_agent agent
        (record { agent = name; now = now; last_run = some now; success = success }) env.state,
  )

module _ {A Msg : Type 0} (format : ℕ → String) where
  finish-Agrees :
      (agent name : String) (start now : ℕ) (env : Env A) (o : Outcome A Msg)
      → Agrees agent env
      → Agrees agent (finish format name start now env o).0
  unfolding finish
  finish-Agrees agent name start now env (interrupted v e) h = record {
    runs = h.runs;
    failures = h.failures;
  }
  finish-Agrees agent name start now env (finished v) h =
      let env₁ = record env { cache = v.cache } in
      let h₁ : Agrees agent env₁ = record { runs = h.runs; failures = h.failures } in
      elim (Option-cases v.exec_err) [
        | inl ok ↦ rw (ok, finish) (keep_books-Agrees format agent name true start now "" env₁ h₁)
        | inr (e, bad) ↦
            rw (bad, finish) (keep_books-Agrees format agent name false start now e.text env₁ h₁)
      ]

  -- Whatever an execution meets, if it returns, the books agree for every agent for which they
  -- agreed before.
  pub execute-Agrees :
      (has_model : Bool) (reg : Registry) (agent name : String) (slept : ℕ → Option Error)
      (meets : ℕ → Meets A Msg) (start now : ℕ) (env env' : Env A) (r : Returned Msg)
      → execute format has_model reg name slept meets start now env ≡ some (env', r)
      → Agrees agent env
      → Agrees agent env'
  unfolding execute
  execute-Agrees false reg agent name slept meets start now env env' r e h = ground arith
  execute-Agrees true reg agent name slept meets start now env env' r e h =
      let (circuit, open_now) = is_open start name env.circuit in
      let env₁ = record env { circuit = circuit } in
      let h₁ : Agrees agent env₁ = record { runs = h.runs; failures = h.failures } in
      elim (Option-cases (spec_by_name name reg)) [
        | inl unknown ↦ ground arith
        | inr (spec, found) ↦
            let vars : Vars A Msg = record { result = none; exec_err = none; cache = env.cache } in
            elim (Option-cases (attempts spec.name slept meets max_execute_attempts 0 vars)) [
              | inl stuck ↦ ground arith
              | inr (o, ended) ↦ ground (arith, finish-Agrees agent name start now env₁ o h₁)
            ]
      ]
