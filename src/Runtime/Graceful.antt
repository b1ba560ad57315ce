-- ===== src/Runtime/Graceful.antt =====
-- internal/runtime/graceful.go: GracefulShutdown. Closing the channel twice would panic.
use kube_ops_agent.Base.{
  ◌==◌, if◌then◌else◌, Bool-cases, length, insert, delete, ℕ, ◌*◌, String, ◌≡◌, refl, sym, inl, inr,
  Bool, true, false, ◌||◌, Option, none, some, List, [], ◌∷◌, arith,
}
use kube_ops_agent.Runtime.Config.{ProductionConfig, second}

pub record GracefulShutdown : Type 0 where
  pub shutdown_timeout : ℕ
  pub shutdown_set : Bool
  pub done_closed : Bool
  pub tasks : List (String × Unit {0})

unfoldable pub new_graceful_shutdown : ProductionConfig → GracefulShutdown
new_graceful_shutdown cfg = record {
  shutdown_timeout = cfg.shutdown_timeout;
  shutdown_set = false;
  done_closed = false;
  tasks = [];
}

unfoldable pub is_shutting_down : GracefulShutdown → Bool
is_shutting_down g = g.shutdown_set

-- `close(g.shutdownDone)`; `none` is the panic on a closed channel.
unfoldable pub close_done : GracefulShutdown → Option GracefulShutdown
close_done g = if g.done_closed then none else some (record g { done_closed = true })

unfoldable pub request_shutdown : GracefulShutdown → Option GracefulShutdown
unfolding close_done
request_shutdown g =
    if g.shutdown_set then some g else close_done (record g { shutdown_set = true })

unfoldable pub register_task : String → GracefulShutdown → GracefulShutdown
register_task task g = record g { tasks = insert task tt g.tasks }

unfoldable pub unregister_task : String → GracefulShutdown → GracefulShutdown
unregister_task task g = record g { tasks = delete task g.tasks }

unfoldable pub task_count : GracefulShutdown → ℕ
task_count g = length g.tasks

-- `WaitForShutdown` returns: the channel is closed, or the context is done.
unfoldable pub wait_for_shutdown_returns : Bool → GracefulShutdown → Bool
wait_for_shutdown_returns ctx_done g = g.done_closed || ctx_done

-- The time after which the context of `WaitForTasks` ends.
unfoldable pub wait_timeout : GracefulShutdown → ℕ
wait_timeout g = if g.shutdown_timeout == 0 then 30 * second else g.shutdown_timeout

pub data Call : Type 0 where
  requests : Call
  registers unregisters : String → Call

unfoldable pub step : Call → GracefulShutdown → Option GracefulShutdown
unfolding request_shutdown
step requests g = request_shutdown g
step (registers task) g = some (register_task task g)
step (unregisters task) g = some (unregister_task task g)

pub run : List Call → GracefulShutdown → Option GracefulShutdown
run [] g = some g
run (c ∷ cs) g = elim (step c g) [ none ↦ none | some g' ↦ run cs g' ]

abbrev pub requested : List Call → Bool
requested [] = false
requested (requests ∷ cs) = true
requested (registers _ ∷ cs) = requested cs
requested (unregisters _ ∷ cs) = requested cs

run-set :
    (cs : List Call) (g : GracefulShutdown)
    → g.shutdown_set ≡ g.done_closed
    → (h : GracefulShutdown) × (run cs g ≡ some h)
      × (h.shutdown_set ≡ g.shutdown_set || requested cs)
      × (h.done_closed ≡ h.shutdown_set)
unfolding run step register_task unregister_task
run-set [] g e = (g, refl, ground arith, sym e)
run-set (requests ∷ cs) g e = elim (Bool-cases g.shutdown_set) [
  | inl set ↦ ground (arith, run-set cs g e)
  | inr unset ↦
      let g' = record g { shutdown_set = true; done_closed = true } in
      ground (arith, run-set cs g' refl)
]
run-set (registers task ∷ cs) g e = run-set cs (register_task task g) e
run-set (unregisters task ∷ cs) g e = run-set cs (unregister_task task g) e

-- From a new manager no sequence of calls closes the channel twice, so none panics; the channel is
-- closed, and the manager says that it shuts down, exactly if a shutdown was requested.
pub run-requested :
    (cfg : ProductionConfig) (cs : List Call)
    → (g : GracefulShutdown) × (run cs (new_graceful_shutdown cfg) ≡ some g)
      × (is_shutting_down g ≡ requested cs)
      × (wait_for_shutdown_returns false g ≡ requested cs)
unfolding new_graceful_shutdown is_shutting_down wait_for_shutdown_returns
run-requested cfg cs =
    let (g, e, set, closed) = run-set cs (new_graceful_shutdown cfg) refl in
    (g, e, ground arith, ground arith)
