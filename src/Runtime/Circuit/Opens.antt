-- ===== src/Runtime/Circuit/Opens.antt =====
-- When a circuit opens, and for how long.
use mathlib.Core.Path.{subst}
use kube_ops_agent.Base.{
  leb, length, keep, lookup, ℕ, ◌+◌, ◌≤◌, ◌<◌, String, ◌≡◌, refl, sym, ◌⊎◌, inl, Bool, false, ◌&&◌,
  none, some, List, [], ◌∷◌, ◌++◌, map, arith,
}
use kube_ops_agent.Runtime.Config.{ProductionConfig}
use kube_ops_agent.Runtime.Circuit.{
  Breaker, new_breaker, is_open, asks, succeeds, fails, Call, Verb, run,
}
use kube_ops_agent.Runtime.Circuit.Refines.{
  Circuit, view, closed, failed, spec_step, spec_run, concerns, view-run,
}

abbrev pub succeeds_at : String → ℕ → Call
succeeds_at agent t = record { agent = agent; verb = succeeds; now = t }

abbrev pub fails_at : String → ℕ → Call
fails_at agent t = record { agent = agent; verb = fails; now = t }

-- A circuit that is open has reached the threshold.
abbrev pub IsTripped : ℕ → Circuit → Type 0
IsTripped threshold c = (c.until ≡ none) ⊎ (threshold ≤ c.count)

module _ (threshold timeout : ℕ) where
  spec_run-append :
      (c : Circuit) (xs ys : List Call)
      → spec_run threshold timeout c (xs ++ ys)
        ≡ spec_run threshold timeout (spec_run threshold timeout c xs) ys
  unfolding spec_run
  spec_run-append c [] ys = refl
  spec_run-append c (x ∷ xs) ys = spec_run-append (spec_step threshold timeout x.verb x.now c) xs ys

  -- Failures below the threshold leave the circuit as open as it was.
  spec_run-failures :
      (agent : String) (c : Circuit) (ts : List ℕ)
      → let d = spec_run threshold timeout c (map (fails_at agent) ts) in
        (d.count ≡ c.count + length ts) × (d.count < threshold → d.until ≡ c.until)
  unfolding spec_run
  spec_run-failures agent c [] = (omega arith, λ _. refl)
  spec_run-failures agent c (t ∷ ts) =
      let ih = spec_run-failures agent (failed threshold timeout t c) ts in
      (omega (arith, ih.0), λ h. ground (arith, ih.0, ih.1 h))

  spec_step-IsTripped :
      (v : Verb) (now : ℕ) (c : Circuit)
      → IsTripped threshold c
      → IsTripped threshold (spec_step threshold timeout v now c)
  spec_step-IsTripped asks now c h = ground arith
  spec_step-IsTripped succeeds now c h = ground arith
  spec_step-IsTripped fails now c h = ground arith

  pub spec_run-IsTripped :
      (c : Circuit) (es : List Call)
      → IsTripped threshold c
      → IsTripped threshold (spec_run threshold timeout c es)
  unfolding spec_run
  spec_run-IsTripped c [] h = h
  spec_run-IsTripped c (e ∷ es) h =
      spec_run-IsTripped (spec_step threshold timeout e.verb e.now c) es
        (spec_step-IsTripped e.verb e.now c h)

abbrev pub answers : ℕ → Circuit → Bool
answers now c = elim c.until [ none ↦ false | some u ↦ leb now u ]

is_open-view :
    (now : ℕ) (agent : String) (cb : Breaker)
    → (is_open now agent cb).1 ≡ answers now (view agent cb)
unfolding is_open
is_open-view now agent cb = ground arith

-- If an agent's last calls are a success and then a number of failures, the last at time `t`, then
-- its circuit is open at `now` exactly if the failures have reached the threshold and `now` is not
-- later than `t` plus the timeout, whatever came before and whatever other agents did in between.
pub is_open-run :
    (agent : String) (cb : Breaker) (cs before : List Call) (t₀ t now : ℕ) (ts : List ℕ)
    → keep (concerns agent) cs
      ≡ before ++ succeeds_at agent t₀ ∷ (map (fails_at agent) ts ++ fails_at agent t ∷ [])
    → (is_open now agent (run cb cs)).1
      ≡ leb cb.threshold (length ts + 1) && leb now (t + cb.timeout)
unfolding spec_run
is_open-run agent cb cs before t₀ t now ts e =
    let c = spec_run cb.threshold cb.timeout (view agent cb) before in
    let d = spec_run cb.threshold cb.timeout closed (map (fails_at agent) ts) in
    let facts = spec_run-failures cb.threshold cb.timeout agent closed ts in
    rw
      (
        is_open-view now agent (run cb cs),
        view-run agent cb cs,
        e,
        spec_run-append cb.threshold cb.timeout (view agent cb) before
            (succeeds_at agent t₀ ∷ (map (fails_at agent) ts ++ fails_at agent t ∷ [])),
        spec_run-append cb.threshold cb.timeout closed (map (fails_at agent) ts)
            (fails_at agent t ∷ []),
      )
      (ground (arith, facts))

-- In every state that a new breaker reaches, a circuit with a time until which it is open has at
-- least as many counted failures as the threshold.
pub run-IsTripped :
    (cfg : ProductionConfig) (agent : String) (cs : List Call)
    → IsTripped cfg.circuit_breaker_threshold (view agent (run (new_breaker cfg) cs))
unfolding new_breaker lookup
run-IsTripped cfg agent cs =
    subst (IsTripped cfg.circuit_breaker_threshold) (sym (view-run agent (new_breaker cfg) cs)) (
      spec_run-IsTripped cfg.circuit_breaker_threshold cfg.circuit_breaker_timeout closed
        (keep (concerns agent) cs) (inl refl))
