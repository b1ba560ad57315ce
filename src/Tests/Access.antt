-- ===== src/Tests/Access.antt =====
-- internal/httpapi: the authentication at concrete inputs.
use kube_ops_agent.Base.{
  ltb, if◌then◌else◌, same, str_dec, lookup, ℕ, ◌+◌, String, ◌≡◌, refl, true, false, some, List, [],
  ◌∷◌, ◌++◌, map, arith,
}
use kube_ops_agent.Httpapi.Auth.{
  TokenManager, is_valid, has_tokens, new_auth_rate_limiter, is_blocked, Request, exempt_paths,
  add_all, any_covers, extract_token, client_ip, is_exempt, auth_check, passed, too_many,
  unauthorized,
}
use kube_ops_agent.Httpapi.Auth.Guesses.{Attempt, IsGuess, check_all, check_all-burst}
use kube_ops_agent.Httpapi.Auth.Limits.{Failure, run-few}
use kube_ops_agent.Httpapi.Auth.Bursts.{all_of, run-burst}
use kube_ops_agent.Httpapi.Auth.Tokens.{Change, rotate, add, remove, stays_valid, is_valid-run}
use kube_ops_agent.Httpapi.Auth.Tokens as Tokens
use kube_ops_agent.Httpapi.Auth.Limits as Limits

abbrev tm : TokenManager
tm = record { tokens = ("secret", tt) ∷ [] }

abbrev request : Request
request = record {
  path = "/agents";
  headers = ("X-API-Key", "secret") ∷ [];
  remote_addr = "10.0.0.1:5000";
}

abbrev same_text : String → String
same_text s = s

-- A request with a wrong token.
abbrev wrong : Request
wrong = record request { headers = ("X-API-Key", "guess") ∷ [] }

abbrev guess : ℕ → Attempt
guess t = record { request = wrong; asked = t; time = t }

abbrev guesses : List Attempt
guesses = guess 1 ∷ guess 2 ∷ guess 3 ∷ []

wrong-IsGuess : IsGuess same_text same_text tm (exempt_paths []) "10.0.0.1:5000" wrong
unfolding is_exempt exempt_paths client_ip is_valid extract_token lookup str_dec any_covers add_all
wrong-IsGuess = record { checked = refl; address = refl; wrong = refl }

has_token : has_tokens tm ≡ true
unfolding has_tokens
has_token = refl

not_exempt : is_exempt request.path (exempt_paths []) ≡ false
unfolding is_exempt exempt_paths lookup str_dec any_covers add_all
not_exempt = refl

from_address : client_ip same_text same_text request ≡ "10.0.0.1:5000"
unfolding client_ip lookup str_dec
from_address = refl

check_all-burst_example :
    let a = new_auth_rate_limiter 2 0 0 in
    let (answers, after) = check_all same_text same_text tm (exempt_paths []) guesses (some a) in
    (answers ≡ map (λ g. unauthorized) guesses)
    × ((auth_check same_text same_text 9 10 request tm (exempt_paths []) after).0 ≡ (
        if ltb 9 (3 + a.block_window)
        then too_many
        else if is_valid (extract_token request) tm
        then passed
        else unauthorized))
unfolding new_auth_rate_limiter
check_all-burst_example =
    check_all-burst same_text same_text tm (exempt_paths []) 2 0 0 1 3 9 10 "10.0.0.1:5000" guesses
      (1 ∷ 2 ∷ []) request has_token (wrong-IsGuess, (wrong-IsGuess, (wrong-IsGuess, tt))) refl refl
      ((omega arith, omega arith), ((omega arith, omega arith), ((omega arith, omega arith), tt)))
      not_exempt from_address

run-burst_example :
    is_blocked 9 "a"
      (Limits.run (all_of "a" ((1 ∷ 2 ∷ []) ++ (3 ∷ []))) (new_auth_rate_limiter 2 0 0))
    ≡ ltb 9 (3 + (new_auth_rate_limiter 2 0 0).block_window)
unfolding new_auth_rate_limiter
run-burst_example =
    run-burst 2 0 0 1 9 3 "a" (1 ∷ 2 ∷ [])
      ((omega arith, omega arith), ((omega arith, omega arith), ((omega arith, omega arith), tt)))
      (omega arith)

abbrev changes : List Change
changes = rotate "secret" "fresh" ∷ add "spare" ∷ remove "fresh" ∷ []

is_valid-run_example :
    is_valid "spare" (Tokens.run changes tm)
    ≡ (if same "spare" "" then false else stays_valid "spare" changes (is_valid "spare" tm))
is_valid-run_example = is_valid-run changes "spare" tm
