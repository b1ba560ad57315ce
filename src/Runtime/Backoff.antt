-- ===== src/Runtime/Backoff.antt =====
-- internal/runtime/backoff.go: CalculateBackoff. The multiplier is a whole number, and the
-- random number that `rand.Float64` gives is the fraction `r / d`, with r < d. `float64` rounding is left
-- out: the arithmetic is exact, rounded down to whole nanoseconds.
use native.Mathlib.Nat.{pow-zero}
use kube_ops_agent.Base.{ltb, if◌then◌else◌, ℕ, zero, suc, ◌+◌, ◌*◌, ◌/◌, ◌^◌, ◌≤◌, ◌⊎◌, arith}
use kube_ops_agent.Runtime.Config.{ProductionConfig}

abbrev cap_at : ℕ → ℕ → ℕ
cap_at max n = if ltb max n then max else n

unfoldable pub calculate_backoff : ℕ → ℕ → ℕ → ProductionConfig → ℕ
calculate_backoff r d attempt cfg =
    let raw =
      if ltb 0 attempt
      then cfg.min_backoff * cfg.backoff_multiplier ^ attempt
      else cfg.min_backoff in
    let backoff = cap_at cfg.max_backoff raw in
    cap_at cfg.max_backoff (backoff + backoff * r / (4 * d))

-- Whatever the random number, the backoff is at most the maximum, and it is at least the maximum or
-- at least the minimum times the multiplier to the power of the attempt.
pub calculate_backoff_bounds :
    (r d attempt : ℕ) (cfg : ProductionConfig)
    → (calculate_backoff r d attempt cfg ≤ cfg.max_backoff)
      × ((cfg.max_backoff ≤ calculate_backoff r d attempt cfg)
          ⊎ (cfg.min_backoff * cfg.backoff_multiplier ^ attempt
              ≤ calculate_backoff r d attempt cfg))
unfolding calculate_backoff
calculate_backoff_bounds r d zero cfg = ground (arith, pow-zero cfg.backoff_multiplier)
calculate_backoff_bounds r d (suc attempt) cfg = ground arith
