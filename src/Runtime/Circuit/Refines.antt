-- ===== src/Runtime/Circuit/Refines.antt =====
-- The breaker against a specification of one agent's circuit.
use kube_ops_agent.Base.{
  ltb, leb, if◌then◌else◌, same, Bool-cases, keep, lookup, lookup-insert, lookup-delete, ℕ, ◌+◌,
  String, ◌≡◌, refl, inl, inr, Bool, Option, none, some, List, [], ◌∷◌, arith,
}
use kube_ops_agent.Runtime.Circuit.{
  Breaker, or_zero, is_open, record_success, record_failure, Verb, asks, succeeds, fails, Call,
  dispatch, run,
}

-- One agent's circuit: the failures since the last reset, and the time until which it is open.
pub record Circuit : Type 0 where
  pub count : ℕ
  pub until : Option ℕ

abbrev pub view : String → Breaker → Circuit
view agent cb = record {
  count = or_zero (lookup agent cb.failures);
  until = lookup agent cb.open_until;
}

abbrev pub closed : Circuit
closed = record { count = 0; until = none }

abbrev pub asked : ℕ → Circuit → Circuit
asked now c = elim c.until [ none ↦ c | some u ↦ if ltb u now then closed else c ]

abbrev pub failed : ℕ → ℕ → ℕ → Circuit → Circuit
failed threshold timeout now c = record {
  count = c.count + 1;
  until = if leb threshold (c.count + 1) then some (now + timeout) else c.until;
}

module _ (threshold timeout : ℕ) where
  abbrev pub spec_step : Verb → ℕ → Circuit → Circuit
  spec_step asks now c = asked now c
  spec_step succeeds now c = closed
  spec_step fails now c = failed threshold timeout now c

  unfoldable pub spec_run : Circuit → List Call → Circuit
  spec_run c [] = c
  spec_run c (e ∷ es) = spec_run (spec_step e.verb e.now c) es

abbrev pub concerns : String → Call → Bool
concerns agent c = same agent c.agent

dispatch-config :
    (verb : Verb) (agent : String) (now : ℕ) (cb : Breaker)
    → ((dispatch verb agent now cb).threshold ≡ cb.threshold)
      × ((dispatch verb agent now cb).timeout ≡ cb.timeout)
unfolding is_open record_success record_failure
dispatch-config asks agent now cb = ground arith
dispatch-config succeeds agent now cb = ground arith
dispatch-config fails agent now cb = ground arith

view-dispatch :
    (agent : String) (verb : Verb) (other : String) (now : ℕ) (cb : Breaker)
    → view agent (dispatch verb other now cb) ≡ (
        if same agent other
        then spec_step cb.threshold cb.timeout verb now (view agent cb)
        else view agent cb)
unfolding is_open record_success record_failure
view-dispatch agent asks other now cb =
    ground (arith, lookup-insert other agent 0 cb.failures, lookup-delete other agent cb.open_until)
view-dispatch agent succeeds other now cb =
    ground (arith, lookup-delete other agent cb.failures, lookup-delete other agent cb.open_until)
view-dispatch agent fails other now cb = ground (
  arith,
  lookup-insert other agent (or_zero (lookup other cb.failures) + 1) cb.failures,
  lookup-insert other agent (now + cb.timeout) cb.open_until,
)

-- After any calls, what the breaker holds of an agent, its failures and the time until which its
-- circuit is open, is what one circuit holds after the agent's own calls: the breaker implements one
-- independent circuit for each agent.
pub view-run :
    (agent : String) (cb : Breaker) (cs : List Call)
    → view agent (run cb cs)
      ≡ spec_run cb.threshold cb.timeout (view agent cb) (keep (concerns agent) cs)
unfolding run spec_run
view-run agent cb [] = refl
view-run agent cb (c ∷ cs) =
    let next = dispatch c.verb c.agent c.now cb in
    let cfg = dispatch-config c.verb c.agent c.now cb in
    elim (Bool-cases (same agent c.agent)) [
      | inl hit ↦
          rw
            (view-run agent next cs, view-dispatch agent c.verb c.agent c.now cb, cfg.0, cfg.1, hit)
            refl
      | inr miss ↦
          rw
            (
              view-run agent next cs,
              view-dispatch agent c.verb c.agent c.now cb,
              cfg.0,
              cfg.1,
              miss,
            )
            refl
    ]
