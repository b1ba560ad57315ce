-- ===== src/Agent/Executor.antt =====
-- internal/agent/executor.go: Execute. `Msg` stands for the framework's messages and `A` for its
-- agents; what the model, the framework and the context answer in each attempt are arguments. One
-- execution is followed at a time: executions that run meanwhile are left out.
pub mod Attempts
pub mod Outcomes
pub mod Admission
pub mod Books
use kube_ops_agent.Base.{
  ltb, if◌then◌else◌, length, keep, contains, ℕ, zero, suc, ◌+◌, ◌-◌, ◌/◌, String, ite, Bool, true,
  false, not, ◌||◌, Option, none, some,
}
use kube_ops_agent.Agent.Cache.{AgentCache, get_or_create}
use kube_ops_agent.Agent.Spec.{Spec, Registry, spec_by_name}
use kube_ops_agent.Operations.{Manager, record_run}
use kube_ops_agent.Runtime.Circuit.{Breaker, is_open, record_success, record_failure}
use kube_ops_agent.Runtime.Metrics.{MetricsCollector, record_execution}
use kube_ops_agent.Runtime.State.{StatePersistence, update_agent}

-- A Go error: its text, and whether it is a context's cancellation or deadline.
pub record Error : Type 0 where
  pub text : String
  pub context_ended : Bool

unfoldable pub is_non_retryable_error : Error → Bool
is_non_retryable_error e =
    e.context_ended || (contains e.text "agent not found" || contains e.text "circuit open")

pub data Reply (Msg : Type 0) : Type 0 where
  answered : Option Msg → Reply Msg
  failed : Error → Reply Msg

-- What one attempt meets: the error of the context if it ends before there is a slot, the
-- self-driven worker's message if it has no error, the agent that the factory builds or its error,
-- and the agent's reply.
pub record Meets (A Msg : Type 0) : Type 0 where
  pub slot_error : Option Error
  pub worker : Option Msg
  pub now : ℕ
  pub built : Option A
  pub build_error : Error
  pub reply : A → Reply Msg

-- The variables of the loop: `result`, `execErr`, and the executor's cache, if it has one.
pub record Vars (A Msg : Type 0) : Type 0 where
  pub result : Option Msg
  pub exec_err : Option Error
  pub cache : Option (AgentCache A)

-- How the loop ends: by an error of the sleep, or with its variables.
pub data Outcome (A Msg : Type 0) : Type 0 where
  interrupted : Vars A Msg → Error → Outcome A Msg
  finished : Vars A Msg → Outcome A Msg

module _ {A Msg : Type 0} where
  -- The cached agent or a new one; the outer `none` means that the cache never returns.
  unfoldable pub agent_for :
      String → Meets A Msg → Option (AgentCache A) → Option (Option (AgentCache A) × Option A)
  agent_for name meets none = some (none, meets.built)
  agent_for name meets (some c) =
      elim (get_or_create (suc (length c.entries)) meets.now name meets.built c) [
        | none ↦ none
        | some (d, a) ↦ some (some d, a)
      ]

  -- The callback of `WithAgentSlot` from the agent on, and the error that it returns.
  unfoldable pub reply_of : Meets A Msg → Vars A Msg → Option A → Vars A Msg × Option Error
  reply_of meets v none = (record v { exec_err = some meets.build_error }, some meets.build_error)
  reply_of meets v (some a) = elim (meets.reply a) [
    | answered m ↦ (record v { result = m }, none)
    | failed e ↦ (record v { exec_err = some e }, some e)
  ]

  -- One call of `WithAgentSlot`.
  unfoldable pub attempt : String → Meets A Msg → Vars A Msg → Option (Vars A Msg × Option Error)
  unfolding agent_for reply_of
  attempt name meets v = elim meets.slot_error [
    | some e ↦ some (v, some e)
    | none ↦ elim meets.worker [
      | some m ↦ some (record v { result = some m }, none)
      | none ↦ elim (agent_for name meets v.cache) [
        | none ↦ none
        | some (c, a) ↦ some (reply_of meets (record v { cache = c }) a)
      ]
    ]
  ]

  -- The loop of `Execute`, with the attempts left and the number of the next one. `slept i` is the
  -- error of the sleep before attempt i.
  unfoldable pub attempts :
      String → (ℕ → Option Error) → (ℕ → Meets A Msg) → ℕ → ℕ → Vars A Msg → Option (Outcome A Msg)
  unfolding attempt
  attempts name slept meets zero i v = some (finished v)
  attempts name slept meets (suc left) i v = elim (if ltb 0 i then slept i else none) [
    | some e ↦ some (interrupted v e)
    | none ↦ elim (attempt name (meets i) v) [
      | none ↦ none
      | some (v', none) ↦ some (finished v')
      | some (v', some e) ↦
          if is_non_retryable_error e
          then some (finished (record v' { exec_err = some e }))
          else attempts name slept meets left (i + 1) (record v' { exec_err = some e })
    ]
  ]

abbrev pub max_execute_attempts : ℕ
max_execute_attempts = 3

-- The parts of the environment that an execution writes to.
pub record Env (A : Type 0) : Type 0 where
  pub circuit : Breaker
  pub metrics : MetricsCollector
  pub state : StatePersistence
  pub ops : Option Manager
  pub cache : Option (AgentCache A)

pub data Failure : Type 0 where
  no_model : Failure
  agent_not_found circuit_open : String → Failure
  failure : Error → Failure

-- The message and the error that `Execute` returns.
pub record Returned (Msg : Type 0) : Type 0 where
  pub msg : Option Msg
  pub err : Option Failure

module _ {A : Type 0} (format : ℕ → String) where
  -- What `Execute` records at its end.
  unfoldable pub keep_books : String → Bool → ℕ → ℕ → String → Env A → Env A
  keep_books name success start now text env = record env {
    circuit =
        if success then record_success name env.circuit else record_failure now name env.circuit;
    metrics = record_execution name success (now - start) env.metrics;
    state = update_agent now name (some now) success env.state;
    ops = elim env.ops [
      | none ↦ none
      | some m ↦ some (record_run format name success (some start) (some now) (now - start) text m)
    ];
  }

module _ {A Msg : Type 0} (format : ℕ → String) where
  unfoldable pub finish : String → ℕ → ℕ → Env A → Outcome A Msg → Env A × Returned Msg
  unfolding keep_books
  finish name start now env (interrupted v e) =
      (record env { cache = v.cache }, record { msg = none; err = some (failure e) })
  finish name start now env (finished v) = elim v.exec_err [
    | some e ↦ (
      keep_books format name false start now e.text (record env { cache = v.cache }),
      record { msg = none; err = some (failure e) },
    )
    | none ↦ (
      keep_books format name true start now "" (record env { cache = v.cache }),
      record { msg = v.result; err = none },
    )
  ]

  -- `has_model` is `e.Model != nil`; `start` is the time of the circuit's test and of the start, and
  -- `now` that of the end. `none`: the call never returns.
  unfoldable pub execute :
      Bool
      → Registry
      → String
      → (ℕ → Option Error)
      → (ℕ → Meets A Msg)
      → ℕ
      → ℕ
      → Env A
      → Option (Env A × Returned Msg)
  unfolding finish
  execute has_model reg name slept meets start now env =
      if not has_model
      then some (env, record { msg = none; err = some no_model })
      else elim (spec_by_name name reg) [
        | none ↦ some (env, record { msg = none; err = some (agent_not_found name) })
        | some spec ↦
            let (circuit, open_now) = is_open start name env.circuit in
            let env' = record env { circuit = circuit } in
            if open_now
            then some (env', record { msg = none; err = some (circuit_open name) })
            else elim (attempts spec.name slept meets max_execute_attempts 0
                (record { result = none; exec_err = none; cache = env.cache })) [
                  | none ↦ none
                  | some o ↦ some (finish name start now env' o)
                ]
      ]
