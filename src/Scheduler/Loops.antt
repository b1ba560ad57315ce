-- ===== src/Scheduler/Loops.antt =====
-- The scheduler's start and stop.
use kube_ops_agent.Base.{if◌then◌else◌, ℕ, ◌≡◌, Option, List, [], ◌∷◌, arith}
use kube_ops_agent.Runtime.State.{SchedulerState}
use kube_ops_agent.Runtime.State.Files.{ReadResult}
use kube_ops_agent.Scheduler.{Scheduler, start, stop}

pub data Call (Text : Type 0) : Type 0 where
  start_call : ReadResult Text → Call Text
  stop_call : Call Text

module _ {Text : Type 0} (unmarshal : Text → Option SchedulerState) where
  unfoldable pub run : List (Call Text) → Scheduler → Scheduler
  unfolding start stop
  run [] s = s
  run (start_call file ∷ cs) s = run cs (start unmarshal file s)
  run (stop_call ∷ cs) s = run cs (stop s)

abbrev pub live : Scheduler → ℕ
live s = if s.running then 1 else 0

start-loops :
    {Text : Type 0} (unmarshal : Text → Option SchedulerState) (file : ReadResult Text)
    (s : Scheduler)
    → s.loops ≡ live s
    → (start unmarshal file s).loops ≡ live (start unmarshal file s)
unfolding start
start-loops unmarshal file s e = ground arith

stop-loops : (s : Scheduler) → s.loops ≡ live s → (stop s).loops ≡ live (stop s)
unfolding stop
stop-loops s e = ground arith

-- A scheduler with one live loop if it runs and none otherwise is so after any sequence of starts and
-- stops: never do two loops run at once.
pub run-loops :
    {Text : Type 0} (unmarshal : Text → Option SchedulerState) (cs : List (Call Text))
    (s : Scheduler)
    → s.loops ≡ live s
    → (run unmarshal cs s).loops ≡ live (run unmarshal cs s)
unfolding run
run-loops unmarshal [] s e = e
run-loops unmarshal (start_call file ∷ cs) s e =
    run-loops unmarshal cs (start unmarshal file s) (start-loops unmarshal file s e)
run-loops unmarshal (stop_call ∷ cs) s e = run-loops unmarshal cs (stop s) (stop-loops s e)
