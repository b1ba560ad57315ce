-- ===== src/Tests/Settings.antt =====
-- internal/config and internal/report at concrete inputs.
use Prim.Native.String as Str
use mathlib.Core.List.{Perm}
use mathlib.Core.List.Perm
use text.Mathlib.TextEquality.{eq_iff}
use kube_ops_agent.Base.{
  ◌==◌, if◌then◌else◌, same, str_dec, lookup, ℕ, ◌*◌, String, ◌≡◌, refl, ◌≢◌, Bool, true, false,
  Option, none, some, List, [], ◌∷◌, map, arith,
}
use kube_ops_agent.Config.Settings.{
  set_defaults, missing, getenv, load_settings, override_from_env, parse_duration,
  to_production_config,
}
use kube_ops_agent.Config.Settings.Environment.{load_settings-token}
use kube_ops_agent.Config.Settings.Limits.{IsShown, written, to_production_config-written}
use kube_ops_agent.Runtime.Config.{ProductionConfig, second}
use kube_ops_agent.Report.{Manager, Item, File, Outside, ok, newer, items_of, item_of, pruned}
use kube_ops_agent.Report.Pruning.{sorted, IsSorted, IsPruning, pruned-newest}

abbrev same_text : String → String
same_text s = s

abbrev no_number : String → Option ℕ
no_number s = none

abbrev env : List (String × String)
env = ("K8SOPS_API_TOKEN", "t1") ∷ []

env_has_token : getenv "K8SOPS_API_TOKEN" env ≢ ""
unfolding lookup str_dec
env_has_token = ground (arith, eq_iff "t1" "")

load_settings-token_example :
    ((override_from_env no_number env set_defaults).security.enable_auth ≡ true)
    × ((override_from_env no_number env set_defaults).security.api_token
        ≡ getenv "K8SOPS_API_TOKEN" env)
unfolding load_settings str_dec
load_settings-token_example =
    load_settings-token same_text same_text no_number "" none none missing env
      (override_from_env no_number env set_defaults) env_has_token refl

abbrev parse : String → Option ℕ
parse s =
    if same s "1s"
    then some second
    else if same s "30s"
    then some (30 * second)
    else if same s "60s"
    then some (60 * second)
    else if same s "300s"
    then some (300 * second)
    else none

-- A configuration that differs from the defaults in each field.
abbrev tuned : ProductionConfig
tuned = record {
  max_concurrent_agents = 7;
  max_concurrent_kubectl = 8;
  kubectl_rate_limit = 9;
  api_rate_limit = 11;
  kubectl_timeout = 30 * second;
  agent_timeout = 60 * second;
  circuit_breaker_threshold = 4;
  circuit_breaker_timeout = 60 * second;
  state_file = "state.json";
  persist_state = false;
  shutdown_timeout = 300 * second;
  min_backoff = 30 * second;
  max_backoff = 300 * second;
  backoff_multiplier = 3;
}

abbrev show : ℕ → String
show d = if d == 30 * second then "30s" else if d == 60 * second then "60s" else "300s"

thirty_shown : IsShown same_text parse show (30 * second)
unfolding parse_duration str_dec
thirty_shown = record { not_empty = ground (arith, eq_iff "30s" ""); parses = refl }

sixty_shown : IsShown same_text parse show (60 * second)
unfolding parse_duration str_dec
sixty_shown = record { not_empty = ground (arith, eq_iff "60s" ""); parses = refl }

most_shown : IsShown same_text parse show (300 * second)
unfolding parse_duration str_dec
most_shown = record { not_empty = ground (arith, eq_iff "300s" ""); parses = refl }

file_named : tuned.state_file ≢ ""
file_named = ground (arith, eq_iff "state.json" "")

to_production_config-written_example :
    to_production_config same_text parse (written show tuned set_defaults) ≡ tuned
to_production_config-written_example =
    to_production_config-written same_text parse show tuned set_defaults
      (record {
        agents = omega arith;
        kubectl = omega arith;
        kubectl_rate = omega arith;
        api_rate = omega arith;
        threshold = omega arith;
        multiplier = omega arith;
      })
      file_named
      (record {
        kubectl = thirty_shown;
        agent = sixty_shown;
        circuit = sixty_shown;
        shutdown = most_shown;
        min = thirty_shown;
        max = most_shown;
      })

abbrev manager : Manager
manager = record { root = "reports"; max_reports = 1 }

-- Insertion sort.
abbrev insert_item : (Item ℕ → Item ℕ → Bool) → Item ℕ → List (Item ℕ) → List (Item ℕ)
insert_item less x [] = x ∷ []
insert_item less x (y ∷ ys) =
    let rest = insert_item less x ys in if less y x then y ∷ rest else x ∷ y ∷ ys

abbrev sort_slice : (Item ℕ → Item ℕ → Bool) → List (Item ℕ) → List (Item ℕ)
sort_slice less [] = []
sort_slice less (x ∷ xs) = insert_item less x (sort_slice less xs)

abbrev reports : Outside ℕ
reports = record {
  time_of = λ name. none;
  header_of = λ text. 0;
  join_path = λ dir name. name;
  sort = sort_slice;
}

-- The older file is read first.
abbrev files : List File
files =
    record { name = "a.md"; is_dir = false; stat = some (1, 10); content = none }
    ∷ record { name = "b.md"; is_dir = false; stat = some (2, 10); content = none }
    ∷ []

abbrev item : String → ℕ → Item ℕ
item name t = record {
  id = name;
  filename = Str.◌++◌ name ".md";
  created_at = t;
  path = Str.◌++◌ name ".md";
  header = 0;
  size_bytes = 10;
}

listed : items_of reports manager none none files ≡ item "a" 1 ∷ item "b" 2 ∷ []
unfolding items_of item_of str_dec
listed = refl

sorts : sorted reports manager files none none ≡ item "b" 2 ∷ item "a" 1 ∷ []
sorts = rw listed refl

is_permuted :
    Perm (sorted reports manager files none none) (items_of reports manager none none files)
is_permuted = rw (sorts, listed) (Perm.swap (item "a" 1) (item "b" 2) [])

is_sorted : IsSorted newer (sorted reports manager files none none)
is_sorted = rw sorts ((refl, tt), (tt, tt))

pruned-newest_example :
    (kept removed beyond : List (Item ℕ)) × IsPruning reports manager 10000 files kept removed
      beyond
    × (pruned reports manager (ok files) ≡ some (map (λ it. it.path) removed))
pruned-newest_example = pruned-newest reports manager files (ground arith) is_permuted is_sorted
