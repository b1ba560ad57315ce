-- ===== src/Agent/Executor/Outcomes.antt =====
-- What Execute returns, branch by branch.
use mathlib.Core.Path.{subst}
use kube_ops_agent.Base.{
  Bool-cases, Option-cases, ℕ, String, ◌≡◌, refl, sym, ◌∙◌, ◌≢◌, inl, inr, Bool, true, false,
  Option, none, some, arith,
}
use kube_ops_agent.Agent.Spec.{Spec, Registry, spec_by_name}
use kube_ops_agent.Agent.Executor.{
  Error, Meets, Vars, attempt, attempts, Outcome, max_execute_attempts, Env, no_model, circuit_open,
  Returned, keep_books, finish, execute,
}
use kube_ops_agent.Agent.Executor.Attempts.{
  Fails, HasValidCache, cache_of, attempt-exec_err, attempts-first_error, attempts-first_ok,
  attempts-total,
}
use kube_ops_agent.Runtime.Circuit.{Breaker, is_open}

-- The variables before the first attempt.
abbrev pub start_vars : {A Msg : Type 0} → Env A → Vars A Msg
start_vars env = record { result = none; exec_err = none; cache = env.cache }

-- The environment after the test of the circuit.
abbrev pub tested : {A : Type 0} → ℕ → String → Env A → Env A
tested start name env = record env { circuit = (is_open start name env.circuit).0 }

module _ {A Msg : Type 0} (format : ℕ → String) (reg : Registry) (name : String) (spec : Spec)
    (slept : ℕ → Option Error) (meets : ℕ → Meets A Msg) (start now : ℕ) (env : Env A) where
  is_open-unchanged :
      (cb : Breaker) → (is_open start name cb).1 ≡ true → (is_open start name cb).0 ≡ cb
  unfolding is_open
  is_open-unchanged cb h = ground arith

  pub execute_open :
      spec_by_name name reg ≡ some spec
      → (is_open start name env.circuit).1 ≡ true
      → execute format true reg name slept meets start now env
        ≡ some (env, record { msg = none; err = some (circuit_open name) })
  unfolding execute
  execute_open found h =
      let unchanged = is_open-unchanged env.circuit h in rw (found, execute, h, unchanged) refl

  pub execute_ended :
      (o : Outcome A Msg)
      → spec_by_name name reg ≡ some spec
      → (is_open start name env.circuit).1 ≡ false
      → attempts spec.name slept meets max_execute_attempts 0 (start_vars env) ≡ some o
      → execute format true reg name slept meets start now env
        ≡ some (finish format name start now (tested start name env) o)
  unfolding execute
  execute_ended o found closed ended = rw (found, execute, closed, ended) refl

  finish-Fails :
      (o : Outcome A Msg) (env₁ : Env A)
      → Fails o
      → (finish format name start now env₁ o).1.msg ≡ none
        × (finish format name start now env₁ o).1.err ≢ none
  unfolding finish
  finish-Fails o env₁ h = ground arith

  -- If the first attempt of an admitted call returns an error, the call returns an error and no
  -- message, even where a retry succeeds.
  pub execute_first_error :
      (v : Vars A Msg) (e : Error) (env' : Env A) (r : Returned Msg)
      → spec_by_name name reg ≡ some spec
      → (is_open start name env.circuit).1 ≡ false
      → attempt spec.name (meets 0) (start_vars env) ≡ some (v, some e)
      → execute format true reg name slept meets start now env ≡ some (env', r)
      → (r.msg ≡ none) × (r.err ≢ none)
  unfolding execute
  execute_first_error v e env' r found closed first h =
      elim (Option-cases (attempts spec.name slept meets max_execute_attempts 0 (start_vars env))) [
        | inl stuck ↦ cc (rw (found, execute, closed, stuck) at h)
        | inr (o, ended) ↦
            let fails =
              attempts-first_error 2 spec.name slept meets (start_vars env) v e o first ended in
            let same_end = sym (execute_ended o found closed ended) ∙ h in
            ground (arith, finish-Fails o (tested start name env) fails, same_end)
      ]

  pub execute_answers :
      (v : Vars A Msg)
      → spec_by_name name reg ≡ some spec
      → (is_open start name env.circuit).1 ≡ false
      → attempt spec.name (meets 0) (start_vars env) ≡ some (v, none)
      → execute format true reg name slept meets start now env
        ≡ some (
          keep_books format name true start now ""
              (record (tested start name env) { cache = v.cache }),
          record { msg = v.result; err = none },
        )
  unfolding execute
  execute_answers v found closed first =
      let ended = attempts-first_ok 2 spec.name slept meets (start_vars env) v first in
      let clean = attempt-exec_err spec.name (meets 0) (start_vars env) v first in
      rw (found, execute, closed, ended, finish, clean) refl

  finish-cache :
      (o : Outcome A Msg) (env₁ : Env A)
      → (finish format name start now env₁ o).0.cache ≡ cache_of o
  unfolding finish keep_books
  finish-cache o env₁ = ground arith

  -- With a valid cache or none, and a spec whose name is not empty, every call returns, and leaves a
  -- valid cache or none.
  pub execute_total :
      (has_model : Bool)
      → spec_by_name name reg ≡ some spec
      → spec.name ≢ ""
      → HasValidCache env.cache
      → (env' : Env A) × (r : Returned Msg) × (execute format has_model reg name slept meets start
            now env
          ≡ some (env', r))
        × HasValidCache env'.cache
  unfolding execute
  execute_total false found named valid =
      (env, record { msg = none; err = some no_model }, refl, valid)
  execute_total true found named valid = elim (Bool-cases (is_open start name env.circuit).1) [
    | inl open_now ↦ (env, _, execute_open found open_now, valid)
    | inr closed ↦
        let (o, ended, w) =
          attempts-total max_execute_attempts 0 spec.name slept meets (start_vars env) named
            valid in
        let left = finish format name start now (tested start name env) o in
        (
          left.0,
          left.1,
          execute_ended o found closed ended,
          subst HasValidCache (sym (finish-cache o (tested start name env))) w,
        )
  ]
