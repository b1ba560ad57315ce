-- ===== src/Runtime/Limiter/Bounds.antt =====
-- The rate and the burst bound what is granted.
use mathlib.Core.Path.{subst}
use native.Mathlib.Nat.{zero-add}
use kube_ops_agent.Base.{
  ltb, leb, Bool-cases, ℕ, ◌+◌, ◌-◌, ◌*◌, ◌≤◌, ◌<◌, ◌≡◌, refl, ap, ◌∙◌, ◌⊎◌, inl, inr, List, [],
  ◌∷◌, arith,
}
use kube_ops_agent.Runtime.Config.{second}
use kube_ops_agent.Runtime.Limiter.{
  RateLimiter, new_rate_limiter, refill, Attempt, granted, must_wait, attempt,
}

-- The bucket and the tokens that were granted after requests at given times, each tried once; a
-- retry is another request.
pub run : List (ℕ × ℕ) → RateLimiter → RateLimiter × ℕ
run [] r = (r, 0)
run ((now, n) ∷ es) r = elim (attempt now n r) [
  | granted r' ↦ ((run es r').0, n + (run es r').1)
  | must_wait r' _ ↦ run es r'
]

-- A step of the bucket from `r` to `r'` in which so many tokens are taken.
pub record Accounts (taken : ℕ) (r r' : RateLimiter) : Type 0 where
  pub conserved : taken * second + r'.tokens + r.last * r.rate ≤ r.tokens + r'.last * r.rate
  pub later : r.last ≤ r'.last
  pub same_rate : r'.rate ≡ r.rate
  pub same_burst : r'.burst ≡ r.burst
  pub within : r.tokens ≤ r.burst * second → r'.tokens ≤ r'.burst * second

elapsed : (now last rate : ℕ) → last ≤ now → (now - last) * rate + last * rate ≡ now * rate
elapsed now last rate h =
    let e : now - last + last ≡ now = omega arith in omega (arith, ap (λ (t : ℕ). t * rate) e)

pub refill-Accounts : (now : ℕ) (r : RateLimiter) → Accounts 0 r (refill now r)
unfolding refill
refill-Accounts now r = elim (Bool-cases (ltb r.last now)) [
  | inr early ↦ rw early (ground arith)
  | inl late ↦
      let e = elapsed now r.last r.rate (ground arith) in
      rw late (record {
        conserved = ground (arith, e);
        later = ground arith;
        same_rate = refl;
        same_burst = refl;
        within = λ _. ground arith;
      })
]

pub Attempt-cases :
    (a : Attempt)
    → ((r : RateLimiter) × (a ≡ granted r)) ⊎ ((r : RateLimiter) × (w : ℕ) × (a ≡ must_wait r w))
Attempt-cases (granted r) = inl (r, refl)
Attempt-cases (must_wait r w) = inr (r, w, refl)

-- The bucket an attempt leaves, and what it took.
abbrev pub AttemptAccounts : ℕ → RateLimiter → Attempt → Type 0
AttemptAccounts n r (granted r') = Accounts n r r'
AttemptAccounts n r (must_wait r' _) = Accounts 0 r r'

attempt-Accounts : (now n : ℕ) (r : RateLimiter) → AttemptAccounts n r (attempt now n r)
unfolding attempt
attempt-Accounts now n r =
    let a = refill-Accounts now r in
    elim (Bool-cases (leb (n * second) (refill now r).tokens)) [
      | inr few ↦ rw few a
      | inl enough ↦ rw enough (record {
        conserved = ground (arith, a.conserved);
        later = a.later;
        same_rate = a.same_rate;
        same_burst = a.same_burst;
        within = λ h. ground (arith, a.within h);
      })
    ]

Accounts-trans :
    (k n : ℕ) (r s t : RateLimiter) → Accounts k r s → Accounts n s t → Accounts (k + n) r t
Accounts-trans k n r s t a b = record {
  conserved = omega (
    arith,
    a.conserved,
    b.conserved,
    ap (λ (u : ℕ). s.last * u) a.same_rate,
    ap (λ (u : ℕ). t.last * u) a.same_rate,
  );
  later = omega (arith, a.later, b.later);
  same_rate = b.same_rate ∙ a.same_rate;
  same_burst = b.same_burst ∙ a.same_burst;
  within = λ h. b.within (a.within h);
}

pub run-Accounts : (es : List (ℕ × ℕ)) (r : RateLimiter) → Accounts (run es r).1 r (run es r).0
unfolding run
run-Accounts [] r = record {
  conserved = omega arith;
  later = omega arith;
  same_rate = refl;
  same_burst = refl;
  within = λ h. h;
}
run-Accounts ((now, n) ∷ es) r = elim (Attempt-cases (attempt now n r)) [
  | inl (r', e) ↦
      let a : Accounts n r r' = subst (AttemptAccounts n r) e (attempt-Accounts now n r) in
      rw (e, run) (Accounts-trans n (run es r').1 r r' (run es r').0 a (run-Accounts es r'))
  | inr (r', w, e) ↦
      let a : Accounts 0 r r' = subst (AttemptAccounts n r) e (attempt-Accounts now n r) in
      let k = (run es r').1 in
      rw (e, run)
        (subst (λ t. Accounts t r (run es r').0) (zero-add k)
          (Accounts-trans 0 k r r' (run es r').0 a (run-Accounts es r')))
]

new-tokens :
    (start rate burst : ℕ) → 0 < burst → (new_rate_limiter start rate burst).tokens ≡ burst * second
unfolding new_rate_limiter
new-tokens start rate burst h = ground arith

-- From a new limiter, whatever the requests and the clock, the tokens granted so far are at most the
-- burst and what the rate gives for the time from the limiter's start to its last refill.
pub run-granted-le :
    (start rate burst : ℕ) (es : List (ℕ × ℕ))
    → 0 < rate
    → 0 < burst
    → let (r, taken) = run es (new_rate_limiter start rate burst) in
      taken * second ≤ burst * second + (r.last - start) * rate
unfolding new_rate_limiter
run-granted-le start rate burst es hr hb =
    let r₀ = new_rate_limiter start rate burst in
    let a = run-Accounts es r₀ in
    let known : r₀.rate ≡ rate = ground arith in
    let e = elapsed (run es r₀).0.last start rate a.later in
    omega (
      arith,
      a.conserved,
      e,
      ap (λ (t : ℕ). start * t) known,
      ap (λ (t : ℕ). (run es r₀).0.last * t) known,
      new-tokens start rate burst hb,
    )
