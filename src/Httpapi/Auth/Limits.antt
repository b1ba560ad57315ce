-- ===== src/Httpapi/Auth/Limits.antt =====
-- Which addresses the limiter blocks.
use mathlib.Core.Path.{subst}
use kube_ops_agent.Base.{
  ltb, same, Option-cases, str_dec, length, keep, length-append, length-keep-le, lookup,
  lookup-insert, ℕ, ◌+◌, ◌≤◌, ◌<◌, String, ◌≡◌, refl, sym, ◌≢◌, ◌⊎◌, inl, inr, Bool, false, none,
  some, List, [], ◌∷◌, arith,
}
use kube_ops_agent.Httpapi.Auth.{
  AuthRateLimiter, new_auth_rate_limiter, recent, record_failure, is_blocked,
}

pub record Failure : Type 0 where
  pub ip : String
  pub time : ℕ

unfoldable pub run : List Failure → AuthRateLimiter → AuthRateLimiter
run [] a = a
run (f ∷ fs) a = run fs (record_failure f.time f.ip a)

abbrev pub concerns : String → Failure → Bool
concerns ip f = same f.ip ip

-- The number of the failures that the limiter keeps of an address.
abbrev pub kept_failures : String → AuthRateLimiter → ℕ
kept_failures ip a = elim (lookup ip a.failures) [ none ↦ 0 | some e ↦ length e.times ]

-- The number of an address's failures bounds those kept, and it is blocked by more than
-- `max_fails` of them only.
abbrev pub Bounded : String → ℕ → AuthRateLimiter → Type 0
Bounded ip n a = (kept_failures ip a ≤ n) × ((lookup ip a.blocked ≡ none) ⊎ (a.max_fails < n))

length-recent : (now window : ℕ) (ts : List ℕ) → length (recent now window ts) ≤ length ts + 1
unfolding recent
length-recent now window ts = ground (
  arith,
  length-append (keep (λ t. ltb now (t + window)) ts) (now ∷ []),
  length-keep-le (λ t. ltb now (t + window)) ts,
)

pub record_failure-max_fails :
    (now : ℕ) (ip : String) (a : AuthRateLimiter)
    → (record_failure now ip a).max_fails ≡ a.max_fails
unfolding record_failure
record_failure-max_fails now ip a = ground arith

pub record_failure-own :
    (now : ℕ) (ip : String) (a : AuthRateLimiter) (n : ℕ)
    → Bounded ip n a
    → Bounded ip (n + 1) (record_failure now ip a)
unfolding record_failure
record_failure-own now ip a n b = elim (Option-cases (lookup ip a.failures)) [
  | inl e ↦
      ground (arith, e, b, lookup-insert ip ip (record { count = 1; times = now ∷ [] }) a.failures)
  | inr (ent, e) ↦
      let valid = recent now a.window ent.times in
      ground (
        arith,
        e,
        b,
        length-recent now a.window ent.times,
        lookup-insert ip ip (record { count = length valid; times = valid }) a.failures,
        lookup-insert ip ip now a.blocked,
      )
]

record_failure-other :
    (now : ℕ) (ip other : String) (a : AuthRateLimiter) (n : ℕ)
    → ip ≢ other
    → Bounded other n a
    → Bounded other n (record_failure now ip a)
unfolding record_failure
record_failure-other now ip other a n ne b = elim (Option-cases (lookup ip a.failures)) [
  | inl e ↦
      ground
        (arith, e, b, lookup-insert ip other (record { count = 1; times = now ∷ [] }) a.failures)
  | inr (ent, e) ↦
      let valid = recent now a.window ent.times in
      ground (
        arith,
        e,
        b,
        lookup-insert ip other (record { count = length valid; times = valid }) a.failures,
        lookup-insert ip other now a.blocked,
      )
]

run-Bounded :
    (ip : String) (fs : List Failure) (a : AuthRateLimiter) (n : ℕ)
    → Bounded ip n a
    → Bounded ip (n + length (keep (concerns ip) fs)) (run fs a)
      × ((run fs a).max_fails ≡ a.max_fails)
unfolding run
run-Bounded ip [] a n b = ground (arith, b)
run-Bounded ip (f ∷ fs) a n b =
    let a' = record_failure f.time f.ip a in
    let max = record_failure-max_fails f.time f.ip a in
    elim (str_dec f.ip ip) [
      | yes p ↦
          let h = run-Bounded ip fs a' (n + 1) (
            subst (λ i. Bounded ip (n + 1) (record_failure f.time i a)) (sym p)
              (record_failure-own f.time ip a n b)) in
          ground (arith, h, max, p)
      | no p ↦
          let h = run-Bounded ip fs a' n (record_failure-other f.time f.ip ip a n p b) in
          ground (arith, h, max, p)
    ]

pub new-Bounded :
    (max_fails window block_seconds : ℕ) (ip : String)
    → Bounded ip 0 (new_auth_rate_limiter max_fails window block_seconds)
unfolding new_auth_rate_limiter lookup
new-Bounded max_fails window block_seconds ip = (ground arith, inl refl)

-- From a new limiter, an address with at most as many failures as are allowed is never blocked,
-- whatever the failures of other addresses.
pub run-few :
    (max_fails window block_seconds : ℕ) (ip : String) (fs : List Failure) (now : ℕ)
    → let a = new_auth_rate_limiter max_fails window block_seconds in
      length (keep (concerns ip) fs) ≤ a.max_fails → is_blocked now ip (run fs a) ≡ false
unfolding new_auth_rate_limiter is_blocked
run-few max_fails window block_seconds ip fs now few =
    let a = new_auth_rate_limiter max_fails window block_seconds in
    ground (arith, run-Bounded ip fs a 0 (new-Bounded max_fails window block_seconds ip))
