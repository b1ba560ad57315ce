-- ===== src/Runtime/Circuit.antt =====
-- internal/runtime/production.go: CircuitBreaker. One breaker holds the state of every agent; an
-- operation returns the new breaker beside its answer.
pub mod Refines
pub mod Opens
use kube_ops_agent.Base.{
  ltb, leb, if◌then◌else◌, lookup, insert, delete, ℕ, zero, suc, ◌+◌, ◌-◌, ◌/◌, String, Bool, true,
  false, Option, none, some, List, [], ◌∷◌,
}
use kube_ops_agent.Runtime.Config.{ProductionConfig}

pub record Breaker : Type 0 where
  pub threshold : ℕ
  pub timeout : ℕ
  pub failures : List (String × ℕ)
  pub open_until : List (String × ℕ)

unfoldable pub new_breaker : ProductionConfig → Breaker
new_breaker cfg = record {
  threshold = cfg.circuit_breaker_threshold;
  timeout = cfg.circuit_breaker_timeout;
  failures = [];
  open_until = [];
}

-- Reading a missing count gives 0.
abbrev pub or_zero : Option ℕ → ℕ
or_zero none = 0
or_zero (some n) = n

unfoldable pub is_open : ℕ → String → Breaker → Breaker × Bool
is_open now agent cb = elim (lookup agent cb.open_until) [
  | none ↦ (cb, false)
  | some until ↦
      if ltb until now
      then (
        record cb {
          failures = insert agent 0 cb.failures;
          open_until = delete agent cb.open_until;
        },
        false,
      )
      else (cb, true)
]

unfoldable pub record_success : String → Breaker → Breaker
record_success agent cb = record cb {
  failures = delete agent cb.failures;
  open_until = delete agent cb.open_until;
}

unfoldable pub record_failure : ℕ → String → Breaker → Breaker
record_failure now agent cb =
    let n = or_zero (lookup agent cb.failures) + 1 in
    if leb cb.threshold n
    then record cb {
      failures = insert agent n cb.failures;
      open_until = insert agent (now + cb.timeout) cb.open_until;
    }
    else record cb { failures = insert agent n cb.failures }

pub record Status : Type 0 where
  pub open_circuits : List String
  pub failure_counts : List (String × ℕ)

unfoldable pub open_at : ℕ → List (String × ℕ) → List String
open_at now [] = []
open_at now ((agent, until) ∷ m) =
    let rest = open_at now m in if ltb now until then agent ∷ rest else rest

unfoldable pub get_status : ℕ → Breaker → Status
unfolding open_at
get_status now cb = record {
  open_circuits = open_at now cb.open_until;
  failure_counts = cb.failures;
}

-- What callers do to a breaker.
pub data Verb : Type 0 where
  asks succeeds fails : Verb

pub record Call : Type 0 where
  pub agent : String
  pub verb : Verb
  pub now : ℕ

abbrev pub dispatch : Verb → String → ℕ → Breaker → Breaker
dispatch asks agent now cb = (is_open now agent cb).0
dispatch succeeds agent now cb = record_success agent cb
dispatch fails agent now cb = record_failure now agent cb

unfoldable pub run : Breaker → List Call → Breaker
run cb [] = cb
run cb (c ∷ cs) = run (dispatch c.verb c.agent c.now cb) cs
