-- ===== src/Httpapi/Auth/Guesses.antt =====
-- What guessing tokens from one address comes to.
use kube_ops_agent.Base.{
  ltb, if◌then◌else◌, length, All, length-append, ℕ, ◌+◌, ◌≤◌, String, ◌≡◌, refl, sym, ap, ◌∙◌,
  true, false, Option, some, List, [], ◌∷◌, ◌++◌, map, arith,
}
use kube_ops_agent.Httpapi.Auth.{
  TokenManager, is_valid, has_tokens, AuthRateLimiter, new_auth_rate_limiter, record_failure,
  is_blocked, Request, extract_token, client_ip, is_exempt, AuthCheckResult, passed, too_many,
  unauthorized, auth_check,
}
use kube_ops_agent.Httpapi.Auth.Limits.{
  Bounded, record_failure-own, record_failure-max_fails, new-Bounded, run,
}
use kube_ops_agent.Httpapi.Auth.Bursts.{Within, all_of, run-burst}

-- A request with the times at which its check asks whether it is blocked and records a failure.
pub record Attempt : Type 0 where
  pub request : Request
  pub asked : ℕ
  pub time : ℕ

length-map : {A B : Type 0} (f : A → B) (xs : List A) → length (map f xs) ≡ length xs
length-map f [] = refl
length-map f (x ∷ xs) = ground (arith, length-map f xs)

not_blocked :
    (now n : ℕ) (ip : String) (a : AuthRateLimiter)
    → Bounded ip n a
    → n ≤ a.max_fails
    → is_blocked now ip a ≡ false
unfolding is_blocked
not_blocked now n ip a b few = ground (arith, b, few)

module _ (trim_space split_host : String → String) (tm : TokenManager)
    (exempt : List (String × Unit {0})) where
  -- The answers to requests that come one after the other, and the limiter that they leave.
  unfoldable pub check_all :
      List Attempt → Option AuthRateLimiter → List AuthCheckResult × Option AuthRateLimiter
  unfolding auth_check
  check_all [] limiter = ([], limiter)
  check_all (g ∷ gs) limiter =
      let (answer, after) =
        auth_check trim_space split_host g.asked g.time g.request tm exempt limiter in
      let (answers, last) = check_all gs after in (answer ∷ answers, last)

  -- A request from the address, to a path that is not exempt, with a token that is not valid.
  pub record IsGuess (ip : String) (r : Request) : Type 0 where
    pub checked : is_exempt r.path exempt ≡ false
    pub address : client_ip trim_space split_host r ≡ ip
    pub wrong : is_valid (extract_token r) tm ≡ false

  check_all-guesses :
      (ip : String) (gs : List Attempt) (n : ℕ) (a : AuthRateLimiter)
      → has_tokens tm ≡ true
      → All (λ g. IsGuess ip g.request) gs
      → Bounded ip n a
      → n + length gs ≤ a.max_fails + 1
      → check_all gs (some a)
        ≡ (map (λ g. unauthorized) gs, some (run (all_of ip (map (λ g. g.time) gs)) a))
  unfolding check_all auth_check run
  check_all-guesses ip [] n a tokens all b few = refl
  check_all-guesses ip (g ∷ gs) n a tokens all b few =
      let free : is_blocked g.asked ip a ≡ false =
        not_blocked g.asked n ip a b (omega (arith, few)) in
      let next : AuthRateLimiter = record_failure g.time ip a in
      let max = record_failure-max_fails g.time ip a in
      let ih =
        check_all-guesses ip gs (n + 1) next tokens all.1 (record_failure-own g.time ip a n b)
          (omega (arith, few, max)) in
      rw (check_all, auth_check, all.0.checked, all.0.address, all.0.wrong, tokens, free, ih) refl

  -- From a new limiter with tokens configured: requests with wrong tokens from one address, one more than failures are
  -- allowed and all less than a window after a time that none precedes, are each refused as unauthorized. After them a
  -- request from that address to a path that is not exempt is refused for too many failures until the block's duration
  -- has passed since the last of them, even with a valid token, and from then on passes exactly with a valid token.
  pub check_all-burst :
      (max_fails window block_seconds lo last asked now : ℕ) (ip : String) (gs : List Attempt)
      (ts : List ℕ) (r : Request)
      → has_tokens tm ≡ true
      → All (λ g. IsGuess ip g.request) gs
      → map (λ g. g.time) gs ≡ ts ++ (last ∷ [])
      → length ts ≡ (new_auth_rate_limiter max_fails window block_seconds).max_fails
      → Within lo (new_auth_rate_limiter max_fails window block_seconds).window (ts ++ (last ∷ []))
      → is_exempt r.path exempt ≡ false
      → client_ip trim_space split_host r ≡ ip
      → let a = new_auth_rate_limiter max_fails window block_seconds in
        let (answers, after) = check_all gs (some a) in
        (answers ≡ map (λ g. unauthorized) gs)
        × ((auth_check trim_space split_host asked now r tm exempt after).0 ≡ (
            if ltb asked (last + a.block_window)
            then too_many
            else if is_valid (extract_token r) tm
            then passed
            else unauthorized))
  unfolding auth_check
  check_all-burst max_fails window block_seconds lo last asked now ip gs ts r tokens all times many
        within checked address =
      let a = new_auth_rate_limiter max_fails window block_seconds in
      let count : length gs ≡ length ts + 1 =
        sym (length-map (λ g. g.time) gs) ∙ (ap length times ∙ length-append ts (last ∷ [])) in
      let run_all =
        check_all-guesses ip gs 0 a tokens all (new-Bounded max_fails window block_seconds ip)
          (omega (arith, count, many)) in
      let blocked =
        run-burst max_fails window block_seconds lo asked last ip ts within (omega (arith, many)) in
      rw (run_all, times) (refl, rw (auth_check, checked, address, tokens, blocked) (ground arith))
