-- ===== src/Httpapi/Auth.antt =====
-- internal/httpapi/auth.go: the tokens, the limit on failures and the check of a request. A request
-- is its path, the first value of each header by name, "" where it has none, and the remote address;
-- `trim_space` is strings.TrimSpace, and `split_host` the host that net.SplitHostPort gives. A set
-- is an association list.
pub mod Tokens
pub mod Limits
pub mod Bursts
pub mod Guesses
use Prim.Native.String.{len, slice}
use text.Mathlib.Text.{starts_with, find?}
use kube_ops_agent.Base.{
  ltb, ◌==◌, if◌then◌else◌, same, length, keep, lookup, insert, delete, ℕ, ◌+◌, ◌-◌, ◌*◌, ◌/◌,
  String, ap, ite, Bool, true, false, not, ◌&&◌, ◌||◌, Option, none, some, List, [], ◌∷◌, ◌++◌, map,
}
use kube_ops_agent.Runtime.Config.{second}

pub record TokenManager : Type 0 where
  pub tokens : List (String × Unit {0})

-- Adds the tokens that are not empty.
unfoldable pub add_all : List String → List (String × Unit {0}) → List (String × Unit {0})
add_all [] m = m
add_all (t ∷ ts) m = add_all ts (if same t "" then m else insert t tt m)

-- The values of API_TOKEN, K8SOPS_API_TOKEN and API_TOKENS, the last split at its commas by `split`.
unfoldable pub new_token_manager :
    (String → String)
    → (String → List String)
    → List String
    → String
    → String
    → String
    → TokenManager
unfolding add_all
new_token_manager trim_space split extra api_token ops_token api_tokens = record {
  tokens =
      add_all (if same api_tokens "" then [] else map trim_space (split api_tokens))
        (add_all (api_token ∷ ops_token ∷ []) (add_all extra []));
}

abbrev pub is_some : {A : Type 0} → Option A → Bool
is_some none = false
is_some (some _) = true

unfoldable pub is_valid : String → TokenManager → Bool
is_valid token tm = if same token "" then false else is_some (lookup token tm.tokens)

unfoldable pub add_token : String → TokenManager → TokenManager
add_token token tm = if same token "" then tm else record { tokens = insert token tt tm.tokens }

unfoldable pub remove_token : String → TokenManager → TokenManager
remove_token token tm = record { tokens = delete token tm.tokens }

unfoldable pub rotate_token : String → String → TokenManager → TokenManager
rotate_token old_token new_token tm =
    let rest = delete old_token tm.tokens in
    record { tokens = if same new_token "" then rest else insert new_token tt rest }

unfoldable pub token_count : TokenManager → ℕ
token_count tm = length tm.tokens

unfoldable pub has_tokens : TokenManager → Bool
has_tokens tm = ltb 0 (length tm.tokens)

-- The times of the failures of each address and the time at which it was last blocked.
pub record RateLimitEntry : Type 0 where
  pub count : ℕ
  pub times : List ℕ

pub record AuthRateLimiter : Type 0 where
  pub failures : List (String × RateLimitEntry)
  pub blocked : List (String × ℕ)
  pub max_fails : ℕ
  pub window : ℕ
  pub block_window : ℕ

abbrev or_default : ℕ → ℕ → ℕ
or_default x d = if x == 0 then d else x

unfoldable pub new_auth_rate_limiter : ℕ → ℕ → ℕ → AuthRateLimiter
new_auth_rate_limiter max_fails window block_seconds = record {
  failures = [];
  blocked = [];
  max_fails = or_default max_fails 5;
  window = or_default window (60 * second);
  block_window = or_default block_seconds 300 * second;
}

-- The failures after `now - window`, and this one.
unfoldable pub recent : ℕ → ℕ → List ℕ → List ℕ
recent now window times = keep (λ t. ltb now (t + window)) times ++ (now ∷ [])

unfoldable pub record_failure : ℕ → String → AuthRateLimiter → AuthRateLimiter
unfolding recent
record_failure now ip a = elim (lookup ip a.failures) [
  | none ↦ record a { failures = insert ip (record { count = 1; times = now ∷ [] }) a.failures }
  | some e ↦
      let valid = recent now a.window e.times in
      record a {
        failures = insert ip (record { count = length valid; times = valid }) a.failures;
        blocked = if ltb a.max_fails (length valid) then insert ip now a.blocked else a.blocked;
      }
]

unfoldable pub is_blocked : ℕ → String → AuthRateLimiter → Bool
is_blocked now ip a = elim (lookup ip a.blocked) [
  | none ↦ false
  | some since ↦ ltb now (since + a.block_window)
]

pub record Request : Type 0 where
  pub path : String
  pub headers : List (String × String)
  pub remote_addr : String

abbrev pub header : String → Request → String
header name r = elim (lookup name r.headers) [ none ↦ "" | some v ↦ v ]

unfoldable pub exempt_paths : List String → List (String × Unit {0})
unfolding add_all
exempt_paths extra =
    add_all extra (("/health", tt) ∷ ("/ready", tt) ∷ ("/metrics", tt) ∷ ("/favicon.ico", tt) ∷ [])

-- "Bearer " has seven bytes.
unfoldable pub extract_token : Request → String
extract_token r =
    let key = header "X-API-Key" r in
    let auth = header "Authorization" r in
    if not (same key "")
    then key
    else if starts_with auth "Bearer "
    then slice auth 7 (len auth)
    else ""

-- The address before the first comma, unless that is at the start or there is none.
abbrev first_of : String → String
first_of x = elim (find? x ",") [ none ↦ x | some i ↦ if ltb 0 i then slice x 0 i else x ]

unfoldable pub client_ip : (String → String) → (String → String) → Request → String
client_ip trim_space split_host r =
    let forwarded = header "X-Forwarded-For" r in
    let real = header "X-Real-IP" r in
    let host = split_host r.remote_addr in
    if not (same forwarded "")
    then trim_space (first_of forwarded)
    else if not (same real "")
    then trim_space real
    else if same host ""
    then r.remote_addr
    else host

-- The path ends in "*" and what is before that is not empty and starts the request's path.
abbrev covers : String → String → Bool
covers path p =
    let n = len p - 1 in
    let prefix = slice p 0 n in
    same (slice p n (len p)) "*" && (not (same prefix "") && starts_with path prefix)

unfoldable pub any_covers : String → List (String × Unit {0}) → Bool
any_covers path [] = false
any_covers path ((p, _) ∷ more) = covers path p || any_covers path more

unfoldable pub is_exempt : String → List (String × Unit {0}) → Bool
unfolding any_covers
is_exempt path exempt = is_some (lookup path exempt) || any_covers path exempt

pub record AuthCheckResult : Type 0 where
  pub ok : Bool
  pub status_code : ℕ
  pub error : String
  pub message : String

abbrev pub passed : AuthCheckResult
passed = record { ok = true; status_code = 0; error = ""; message = "" }

abbrev pub too_many : AuthCheckResult
too_many = record {
  ok = false;
  status_code = 429;
  error = "Too Many Requests";
  message = "Too many authentication failures";
}

abbrev pub unauthorized : AuthCheckResult
unauthorized = record {
  ok = false;
  status_code = 401;
  error = "Unauthorized";
  message = "Invalid or missing authentication token";
}

abbrev pub blocks : ℕ → String → Option AuthRateLimiter → Bool
blocks now ip none = false
blocks now ip (some a) = is_blocked now ip a

abbrev pub fail : ℕ → String → Option AuthRateLimiter → Option AuthRateLimiter
fail now ip none = none
fail now ip (some a) = some (record_failure now ip a)

-- `asked` is the time of `IsBlocked` and `now` that of `RecordFailure`.
unfoldable pub auth_check :
    (String → String)
    → (String → String)
    → ℕ
    → ℕ
    → Request
    → TokenManager
    → List (String × Unit {0})
    → Option AuthRateLimiter
    → AuthCheckResult × Option AuthRateLimiter
auth_check trim_space split_host asked now r tm exempt limiter =
    let ip = client_ip trim_space split_host r in
    if is_exempt r.path exempt || not (has_tokens tm)
    then (passed, limiter)
    else if blocks asked ip limiter
    then (too_many, limiter)
    else if not (is_valid (extract_token r) tm)
    then (unauthorized, fail now ip limiter)
    else (passed, limiter)
