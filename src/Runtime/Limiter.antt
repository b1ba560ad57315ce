-- ===== src/Runtime/Limiter.antt =====
-- internal/runtime/production.go: RateLimiter, a token bucket. The rate is a whole number of tokens
-- per second, and the bucket holds billionths of a token, so that one nanosecond at rate r adds r
-- of them exactly, where the code adds `float64` fractions.
pub mod Bounds
pub mod Waits
use kube_ops_agent.Base.{
  ltb, leb, ◌==◌, if◌then◌else◌, take, ℕ, ◌+◌, ◌-◌, ◌*◌, ◌/◌, ap, ite, Bool, true, false, List, [],
  ◌∷◌,
}
use kube_ops_agent.Runtime.Config.{second}

pub record RateLimiter : Type 0 where
  pub rate : ℕ
  pub burst : ℕ
  pub tokens : ℕ
  pub last : ℕ

abbrev at_least_one : ℕ → ℕ
at_least_one n = if n == 0 then 1 else n

unfoldable pub new_rate_limiter : ℕ → ℕ → ℕ → RateLimiter
new_rate_limiter now rate burst = record {
  rate = at_least_one rate;
  burst = at_least_one burst;
  tokens = at_least_one burst * second;
  last = now;
}

-- The elapsed time adds tokens, up to the burst.
unfoldable pub refill : ℕ → RateLimiter → RateLimiter
refill now r =
    let more = r.tokens + (now - r.last) * r.rate in
    if ltb r.last now
    then record r {
      tokens = if ltb (r.burst * second) more then r.burst * second else more;
      last = now;
    }
    else r

pub data Attempt : Type 0 where
  granted : RateLimiter → Attempt
  must_wait : RateLimiter → ℕ → Attempt

-- One round of the loop of `Wait`, under the lock: the tokens are taken, or a time to wait is
-- computed.
unfoldable pub attempt : ℕ → ℕ → RateLimiter → Attempt
unfolding refill
attempt now n r =
    let r' = refill now r in
    if leb (n * second) r'.tokens
    then granted (record r' { tokens = r'.tokens - n * second })
    else must_wait r' ((n * second - r'.tokens) / r'.rate)

-- `Wait`: the clock at each round, where the last timer is outrun by the end of the context. The
-- result says whether the tokens were granted.
unfoldable pub wait_rounds : ℕ → ℕ → List ℕ → RateLimiter → RateLimiter × Bool
wait_rounds n now [] r = elim (attempt now n r) [
  | granted r' ↦ (r', true)
  | must_wait r' _ ↦ (r', false)
]
wait_rounds n now (wake ∷ wakes) r = elim (attempt now n r) [
  | granted r' ↦ (r', true)
  | must_wait r' _ ↦ wait_rounds n wake wakes r'
]

unfoldable pub wait : ℕ → ℕ → List ℕ → RateLimiter → RateLimiter × Bool
wait n now wakes r = if n == 0 then (r, true) else wait_rounds n now wakes r
