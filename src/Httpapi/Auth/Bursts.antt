-- ===== src/Httpapi/Auth/Bursts.antt =====
-- How many failures block an address, and for how long.
use mathlib.Core.Path.{subst}
use kube_ops_agent.Base.{
  ltb, length, All, length-append, lookup, lookup-insert, ℕ, ◌+◌, ◌≤◌, ◌<◌, String, ◌≡◌, refl, sym,
  none, some, List, [], ◌∷◌, ◌++◌, map, arith,
}
use kube_ops_agent.Httpapi.Auth.{
  RateLimitEntry, AuthRateLimiter, new_auth_rate_limiter, recent, record_failure, is_blocked,
}
use kube_ops_agent.Httpapi.Auth.Limits.{Failure, run}

-- Every time is in the window that starts at `lo`.
abbrev pub Within : ℕ → ℕ → List ℕ → Type 0
Within lo window ts = All (λ t. (lo ≤ t) × (t < lo + window)) ts

abbrev pub all_of : String → List ℕ → List Failure
all_of ip ts = map (λ t. record { ip = ip; time = t }) ts

recent-all :
    (lo window now : ℕ) (ts : List ℕ)
    → now < lo + window
    → Within lo window ts
    → recent now window ts ≡ ts ++ (now ∷ [])
unfolding recent
recent-all lo window now [] h all = refl
recent-all lo window now (t ∷ ts) h all = ground (arith, recent-all lo window now ts h all.1)

-- The limiter keeps n failures of the address, all in the window.
abbrev pub Keeps : ℕ → String → ℕ → AuthRateLimiter → Type 0
Keeps lo ip n a =
    (e : RateLimitEntry) × (lookup ip a.failures ≡ some e)
    × Within lo a.window e.times
    × (length e.times ≡ n)

Within-append :
    (lo window now : ℕ) (ts : List ℕ)
    → Within lo window ts
    → lo ≤ now
    → now < lo + window
    → Within lo window (ts ++ (now ∷ []))
Within-append lo window now [] all h k = ((h, k), tt)
Within-append lo window now (t ∷ ts) all h k = (all.0, Within-append lo window now ts all.1 h k)

-- One more failure in the window.
record_failure-Keeps :
    (lo now : ℕ) (ip : String) (n : ℕ) (a : AuthRateLimiter)
    → Keeps lo ip n a
    → lo ≤ now
    → now < lo + a.window
    → let b = record_failure now ip a in
      Keeps lo ip (n + 1) b
      × (b.max_fails ≡ a.max_fails)
      × (b.window ≡ a.window)
      × (b.block_window ≡ a.block_window)
      × (a.max_fails < n + 1 → lookup ip b.blocked ≡ some now)
unfolding record_failure
record_failure-Keeps lo now ip n a (e, found, all, len) h k =
    let times = e.times ++ (now ∷ []) in
    let kept = recent-all lo a.window now e.times k all in
    let count : length times ≡ n + 1 = ground (arith, length-append e.times (now ∷ []), len) in
    let e' : RateLimitEntry = record { count = length times; times = times } in
    rw (found, kept, record_failure)
      (
        (
          e',
          ground (arith, lookup-insert ip ip e' a.failures),
          Within-append lo a.window now e.times all h k,
          count,
        ),
        refl,
        refl,
        refl,
        λ over. ground (arith, count, lookup-insert ip ip now a.blocked),
      )

run-blocks :
    (lo now last : ℕ) (ip : String) (ts : List ℕ) (n : ℕ) (a : AuthRateLimiter)
    → Keeps lo ip n a
    → Within lo a.window (ts ++ (last ∷ []))
    → a.max_fails < n + length ts + 1
    → is_blocked now ip (run (all_of ip (ts ++ (last ∷ []))) a) ≡ ltb now (last + a.block_window)
unfolding run is_blocked
run-blocks lo now last ip [] n a keeps all over =
    let h = record_failure-Keeps lo last ip n a keeps all.0.0 all.0.1 in ground (arith, h)
run-blocks lo now last ip (t ∷ ts) n a keeps all over =
    let h = record_failure-Keeps lo t ip n a keeps all.0.0 all.0.1 in
    let b = record_failure t ip a in
    let ih =
      run-blocks lo now last ip ts (n + 1) b h.0
        (subst (λ w. Within lo w (ts ++ (last ∷ []))) (sym h.2) all.1)
        (ground (arith, h.1, over)) in
    ground (arith, ih, h)

record_failure-first :
    (lo now : ℕ) (ip : String) (a : AuthRateLimiter)
    → lookup ip a.failures ≡ none
    → lo ≤ now
    → now < lo + a.window
    → let b = record_failure now ip a in
      Keeps lo ip 1 b
      × (b.max_fails ≡ a.max_fails)
      × (b.window ≡ a.window)
      × (b.block_window ≡ a.block_window)
unfolding record_failure
record_failure-first lo now ip a e h k =
    let first : RateLimitEntry = record { count = 1; times = now ∷ [] } in
    rw (e, record_failure)
      (
        (first, ground (arith, lookup-insert ip ip first a.failures), ((h, k), tt), refl),
        refl,
        refl,
        refl,
      )

run-blocks_of_none :
    (lo now last t : ℕ) (ip : String) (ts : List ℕ) (a : AuthRateLimiter)
    → lookup ip a.failures ≡ none
    → Within lo a.window (t ∷ (ts ++ (last ∷ [])))
    → a.max_fails ≤ length ts + 1
    → is_blocked now ip (run (all_of ip (t ∷ (ts ++ (last ∷ [])))) a)
      ≡ ltb now (last + a.block_window)
unfolding run
run-blocks_of_none lo now last t ip ts a e all many =
    let h = record_failure-first lo t ip a e all.0.0 all.0.1 in
    let b = record_failure t ip a in
    let rest =
      run-blocks lo now last ip ts 1 b h.0
        (subst (λ w. Within lo w (ts ++ (last ∷ []))) (sym h.2) all.1)
        (ground (arith, h.1, many)) in
    ground (arith, rest, h)

-- From a new limiter, an address with more failures than are allowed, all less than a window after
-- a time that none precedes, is blocked from the last one for the block's duration and no longer.
pub run-burst :
    (max_fails window block_seconds lo now last : ℕ) (ip : String) (ts : List ℕ)
    → let a = new_auth_rate_limiter max_fails window block_seconds in
      Within lo a.window (ts ++ (last ∷ []))
      → a.max_fails ≤ length ts
      → is_blocked now ip (run (all_of ip (ts ++ (last ∷ []))) a) ≡ ltb now (last + a.block_window)
unfolding new_auth_rate_limiter lookup
run-burst max_fails window block_seconds lo now last ip [] all many = ground arith
run-burst max_fails window block_seconds lo now last ip (t ∷ ts) all many =
    run-blocks_of_none lo now last t ip ts (new_auth_rate_limiter max_fails window block_seconds)
      refl all (ground (arith, many))
