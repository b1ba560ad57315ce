-- ===== src/Tests/Caches.antt =====
-- internal/agent/cache.go: a cache at concrete inputs.
use text.Mathlib.TextEquality.{eq_iff}
use kube_ops_agent.Base.{ℕ, ◌*◌, String, ◌≡◌, ◌≢◌, none, some, List, [], ◌∷◌, arith}
use kube_ops_agent.Agent.Cache.{AgentCache, new_agent_cache}
use kube_ops_agent.Agent.Cache.Invariant.{IsValid, Call, get, drop_key, drop_idle, run, run-IsValid}
use kube_ops_agent.Runtime.Config.{second}

pods-named : ◌≢◌ {A = String} "pods" ""
pods-named = ground (arith, eq_iff "pods" "")

dns_named : ◌≢◌ {A = String} "dns" ""
dns_named = ground (arith, eq_iff "dns" "")

abbrev calls : List (Call ℕ)
calls =
    get (1 * second) "pods" (some 1)
    ∷ get (2 * second) "dns" none
    ∷ drop_key "pods"
    ∷ drop_idle (3 * second)
    ∷ []

run-IsValid_example : (d : AgentCache ℕ) × (run (new_agent_cache 1 0 0) calls ≡ some d) × IsValid d
run-IsValid_example = run-IsValid 1 0 0 calls (pods-named, (dns_named, (tt, (tt, tt))))
