-- ===== src/Tests/Services.antt =====
-- internal/runtime: the services at concrete inputs.
use kube_ops_agent.Base.{
  leb, str_dec, length, keep, lookup, insert, lookup-insert, HasKey, ℕ, ◌+◌, ◌-◌, ◌*◌, ◌≤◌, String,
  ◌≡◌, refl, ◌≢◌, ◌⊎◌, true, false, ◌&&◌, Option, none, some, List, [], ◌∷◌, arith,
}
use kube_ops_agent.Runtime.Config.{second, default_config}
use kube_ops_agent.Runtime.Circuit.{Breaker, new_breaker, is_open, Call, run}
use kube_ops_agent.Runtime.Circuit.Refines.{view, spec_run, concerns, view-run}
use kube_ops_agent.Runtime.Circuit.Opens.{succeeds_at, fails_at, is_open-run}
use kube_ops_agent.Runtime.Slots.{
  Phase, running, Controller, new_concurrency_controller, acquire, register, Reach, here, next,
  active_agent_count,
}
use kube_ops_agent.Runtime.Slots.Safety.{Runs, runners, Reach-bounded}
use kube_ops_agent.Runtime.State.{
  SchedulerState, StatePersistence, new_state_persistence, update_agent,
}
use kube_ops_agent.Runtime.State.Updates.{Update, streak, state_of, run-counters}
use kube_ops_agent.Runtime.State.Updates as Updates
use kube_ops_agent.Runtime.State.Files.{Outcome, done, read_file, load, save, write_state}
use kube_ops_agent.Runtime.State.Saves.{SameState, stamped, save_atomic, load-save}
use kube_ops_agent.Runtime.Limiter.{RateLimiter, new_rate_limiter, wait}
use kube_ops_agent.Runtime.Limiter.Bounds.{run-granted-le}
use kube_ops_agent.Runtime.Limiter.Bounds as Bounds
use kube_ops_agent.Runtime.Limiter.Waits.{wait_never}

abbrev breaker : Breaker
breaker = new_breaker default_config

abbrev calls : List Call
calls =
    succeeds_at "pods" 1
    ∷ fails_at "pods" 2
    ∷ fails_at "nodes" 3
    ∷ fails_at "pods" 4
    ∷ fails_at "pods" 5
    ∷ []

view-run_example :
    view "pods" (run breaker calls)
    ≡ spec_run breaker.threshold breaker.timeout
        (view "pods" breaker)
        (keep (concerns "pods") calls)
view-run_example = view-run "pods" breaker calls

is_open-run_example :
    (is_open 6 "pods" (run breaker calls)).1
    ≡ leb breaker.threshold (length {A = ℕ} (2 ∷ 4 ∷ []) + 1) && leb 6 (5 + breaker.timeout)
unfolding str_dec
is_open-run_example = is_open-run "pods" breaker calls [] 1 5 6 (2 ∷ 4 ∷ []) refl

-- Two goroutines hold slots, and the first runs "pods".
abbrev one : Controller
one = record {
  capacity = 5;
  in_use = 1;
  active_agents = [];
  holders = record { name = "pods"; phase = Phase.entered } ∷ [];
}

abbrev two : Controller
two = record {
  capacity = 5;
  in_use = 1;
  active_agents = ("pods", tt) ∷ [];
  holders = record { name = "pods"; phase = running } ∷ [];
}

reached : Reach (new_concurrency_controller default_config) two
unfolding new_concurrency_controller insert
reached =
    next {d = one} (next here (acquire "pods" (omega arith) refl)) (register "pods" [] [] refl refl)

Reach-bounded_example :
    (length two.holders ≡ two.in_use)
    × (two.in_use ≤ default_config.max_concurrent_agents)
    × ((k : String) → HasKey k two.active_agents → Runs k two.holders)
    × (active_agent_count two ≤ length (runners two.holders))
Reach-bounded_example = Reach-bounded default_config reached

abbrev shared : Controller
shared = record two {
  in_use = 2;
  holders =
      record { name = "pods"; phase = running } ∷ record { name = "pods"; phase = running } ∷ [];
}

abbrev updates : List Update
updates =
    record { agent = "pods"; now = 10 * second; last_run = none; success = false }
    ∷ record { agent = "nodes"; now = 11 * second; last_run = none; success = true }
    ∷ []

run-counters_example :
    let a = state_of "pods" (Updates.run (new_state_persistence default_config) updates) in
    let own = keep (Updates.concerns "pods") updates in
    (a.total_runs ≡ length own)
    × (a.total_failures ≡ length (keep Updates.failed own))
    × (a.consecutive_failures ≡ streak 0 own)
    × (a.total_failures ≤ a.total_runs)
    × (a.consecutive_failures ≤ a.total_failures)
run-counters_example = run-counters default_config "pods" updates

-- A state is its own text.
abbrev as_text : SchedulerState → Option SchedulerState
as_text s = some s

abbrev store : StatePersistence
store = new_state_persistence default_config

abbrev all_well : Outcome SchedulerState
all_well = record { mkdir_ok = true; write_ok = true; partial = none; rename_ok = true }

save_atomic_example :
    let (s', files', status) = save as_text (10 * second) all_well store [] in
    (s'.state ≡ stamped (10 * second) store)
    × (((status ≢ done)
          × (lookup store.state_file files' ≡ lookup store.state_file [])
          × (s'.dirty ≡ store.dirty))
        ⊎ ((status ≡ done)
            × (lookup store.state_file files' ≡ as_text (stamped (10 * second) store))
            × (s'.dirty ≡ false)))
unfolding new_state_persistence
save_atomic_example = save_atomic as_text (10 * second) all_well store [] refl

-- A map decoded entry by entry, in another order.
abbrev decode_map : {A : Type 0} → List (String × A) → List (String × A)
decode_map [] = []
decode_map ((k, a) ∷ m) = insert k a (decode_map m)

lookup-decode_map :
    {A : Type 0} (j : String) (m : List (String × A)) → lookup j (decode_map m) ≡ lookup j m
unfolding lookup
lookup-decode_map j [] = refl
lookup-decode_map j ((k, a) ∷ m) =
    ground (arith, lookup-decode_map j m, lookup-insert k j a (decode_map m))

abbrev decoded : SchedulerState → SchedulerState
decoded s = record s { agents = decode_map s.agents; pipelines = decode_map s.pipelines }

abbrev of_text : SchedulerState → Option SchedulerState
of_text s = some (decoded s)

decodes :
    (st text : SchedulerState)
    → as_text st ≡ some text
    → (st' : SchedulerState) × (of_text text ≡ some st') × SameState st' st
decodes st text e =
    let own : st ≡ text = ground (arith, e) in
    (
      decoded text,
      refl,
      rw own (record {
        agents = λ name. lookup-decode_map name text.agents;
        pipelines = λ name. lookup-decode_map name text.pipelines;
        last_saved = refl;
        version = refl;
      }),
    )

-- Two agents, whose order a decoding changes.
abbrev busy : StatePersistence
busy = update_agent 5 "pods" none true (update_agent 4 "nodes" none false store)

saves : (save as_text (10 * second) all_well busy []).2 ≡ done
unfolding new_state_persistence update_agent save write_state
saves = refl

load-save_example :
    let (u, status) =
      load of_text
        (read_file busy.state_file (save as_text (10 * second) all_well busy []).1)
        store in
    (status ≡ done) × SameState u.state (stamped (10 * second) busy)
unfolding new_state_persistence update_agent
load-save_example =
    load-save as_text of_text (10 * second) all_well busy store [] decodes refl refl saves

abbrev bucket : RateLimiter
bucket = new_rate_limiter 0 5 10

abbrev events : List (ℕ × ℕ)
events = (1 * second, 8) ∷ (2 * second, 8) ∷ []

run-granted-le_example :
    (Bounds.run events bucket).1 * second
    ≤ 10 * second + ((Bounds.run events bucket).0.last - 0) * 5
run-granted-le_example = run-granted-le 0 5 10 events (omega arith) (omega arith)

wait_never_example :
    (wait 11 (3 * second) (9 * second ∷ []) (Bounds.run events (new_rate_limiter 0 5 10)).0).1
    ≡ false
wait_never_example =
    wait_never 0 5 10 11 (3 * second) events (9 * second ∷ []) (omega arith) (omega arith)

-- A bucket that holds two of five tokens.
abbrev low : RateLimiter
low = record { tokens = 2 * second; rate = 5; burst = 5; last = 0 }
