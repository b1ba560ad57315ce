-- ===== src/Runtime/Limiter/Waits.antt =====
-- What a caller of Wait waits for, and when it is in vain.
use native.Mathlib.Nat.{mul-le-mul_right}
use kube_ops_agent.Base.{
  leb, ◌==◌, ℕ, ◌+◌, ◌-◌, ◌*◌, ◌/◌, ◌≤◌, ◌<◌, ◌≡◌, false, List, [], ◌∷◌, arith,
}
use kube_ops_agent.Runtime.Config.{second}
use kube_ops_agent.Runtime.Limiter.{
  RateLimiter, new_rate_limiter, refill, granted, must_wait, attempt, wait_rounds, wait,
}
use kube_ops_agent.Runtime.Limiter.Bounds.{refill-Accounts, run, run-Accounts}

attempt_waits :
    (now n : ℕ) (r : RateLimiter)
    → r.tokens ≤ r.burst * second
    → r.burst < n
    → (r' : RateLimiter) × (w : ℕ) × (attempt now n r ≡ must_wait r' w)
      × (r'.tokens ≤ r'.burst * second)
      × (r'.burst < n)
unfolding attempt
attempt_waits now n r h k =
    let a = refill-Accounts now r in
    let few : leb (n * second) (refill now r).tokens ≡ false =
      ground (arith, a.within h, a.same_burst) in
    (
      refill now r,
      (n * second - (refill now r).tokens) / (refill now r).rate,
      rw few,
      a.within h,
      omega (arith, a.same_burst),
    )

wait_rounds_never :
    (n now : ℕ) (wakes : List ℕ) (r : RateLimiter)
    → r.tokens ≤ r.burst * second
    → r.burst < n
    → (wait_rounds n now wakes r).1 ≡ false
unfolding wait_rounds
wait_rounds_never n now [] r h k =
    let (r', w, e, h', k') = attempt_waits now n r h k in rw (e, wait_rounds)
wait_rounds_never n now (wake ∷ wakes) r h k =
    let (r', w, e, h', k') = attempt_waits now n r h k in
    rw (e, wait_rounds) (wait_rounds_never n wake wakes r' h' k')

-- A request for more tokens than the burst is never granted, however long it waits and whatever was
-- requested before.
pub wait_never :
    (start rate burst n now : ℕ) (es : List (ℕ × ℕ)) (wakes : List ℕ)
    → 0 < burst
    → burst < n
    → (wait n now wakes (run es (new_rate_limiter start rate burst)).0).1 ≡ false
unfolding wait new_rate_limiter
wait_never start rate burst n now es wakes hb h =
    let r₀ = new_rate_limiter start rate burst in
    let a = run-Accounts es r₀ in
    let r = (run es r₀).0 in
    let full : r₀.tokens ≤ r₀.burst * second = omega arith in
    let small : r.burst < n = ground (arith, a.same_burst) in
    let asked : (n == 0) ≡ false = ground arith in
    rw asked (wait_rounds_never n now wakes r (a.within full) small)

div-bound : (need rate : ℕ) → 0 < rate → need < (need / rate + 1) * rate
div-bound need rate h = grind arith

refill-lower :
    (later n gap : ℕ) (r : RateLimiter)
    → r.last + gap ≤ later
    → 0 < gap
    → n * second ≤ r.tokens + gap * r.rate
    → n ≤ r.burst
    → n * second ≤ (refill later r).tokens
unfolding refill
refill-lower later n gap r h p need fits =
    let more : gap * r.rate ≤ (later - r.last) * r.rate =
      mul-le-mul_right r.rate (let q : gap ≤ later - r.last = omega arith in q) in
    ground (arith, more)

must_wait-refill :
    (now n w : ℕ) (r r' : RateLimiter)
    → attempt now n r ≡ must_wait r' w
    → (r' ≡ refill now r)
      × (w ≡ (n * second - (refill now r).tokens) / (refill now r).rate)
      × ((refill now r).tokens < n * second)
unfolding attempt
must_wait-refill now n w r r' e = ground arith

refill-last : (now : ℕ) (r : RateLimiter) → r.last ≤ now → (refill now r).last ≡ now
unfolding refill
refill-last now r h = ground arith

attempt_granted :
    (later n : ℕ) (r : RateLimiter)
    → n * second ≤ (refill later r).tokens
    → (s : RateLimiter) × (attempt later n r ≡ granted s)
unfolding attempt
attempt_granted later n r h =
    (record (refill later r) { tokens = (refill later r).tokens - n * second }, ground arith)

-- If an attempt must wait for no more tokens than the burst, then at any time that is later than the
-- computed wait by a nanosecond an attempt is granted, if nobody takes tokens in between.
pub attempt_after_wait :
    (now later n w : ℕ) (r r' : RateLimiter)
    → attempt now n r ≡ must_wait r' w
    → 0 < r.rate
    → n ≤ r.burst
    → now + w + 1 ≤ later
    → r.last ≤ now
    → (s : RateLimiter) × (attempt later n r' ≡ granted s)
attempt_after_wait now later n w r r' e hr hn hw hl =
    let (left, computed, short) = must_wait-refill now n w r r' e in
    let a = refill-Accounts now r in
    let q = refill now r in
    let need = n * second - q.tokens in
    let enough = div-bound need q.rate (omega (arith, a.same_rate)) in
    let gap : need < (w + 1) * q.rate = rw computed enough in
    let full =
      refill-lower later n (w + 1) q (omega (arith, refill-last now r hl)) (omega arith)
        (omega (arith, gap)) (omega (arith, a.same_burst)) in
    rw left (attempt_granted later n q full)
