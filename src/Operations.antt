-- ===== src/Operations.antt =====
-- internal/operations/manager.go: Manager, the history of executions. A time is the nanoseconds
-- since the Unix epoch, or `none` for Go's zero time; durations are whole nanoseconds and the
-- running average is an exact fraction. `format` stands for `Time.Format` with RFC 3339.
pub mod History
pub mod Pages
pub mod Summaries
pub mod Enrichment
use mathlib.Core.List.{reverse}
use kube_ops_agent.Base.{
  ltb, leb, ◌==◌, if◌then◌else◌, same, length, take, drop, keep, ℕ, zero, suc, ◌+◌, ◌-◌, ◌/◌, ◌^◌,
  String, Bool, true, false, not, ◌&&◌, Option, none, some, List, [], ◌∷◌, ◌++◌,
}
use kube_ops_agent.Runtime.Config.{second}

pub record ExecutionRecord : Type 0 where
  pub agent_name : String
  pub success : Bool
  pub started_at : Option ℕ
  pub finished_at : Option ℕ
  pub executed_at : String
  pub timestamp : ℕ
  pub duration : ℕ
  pub error : String

-- The history, oldest record first.
pub record Manager : Type 0 where
  pub records : List ExecutionRecord

unfoldable pub new_manager : Manager
new_manager = record { records = [] }

abbrev pub max_records : ℕ
max_records = 1000

module _ (format : ℕ → String) where
  unfoldable pub filled : Option ℕ → ExecutionRecord → ExecutionRecord
  filled none r = r
  filled (some t) r = record r {
    executed_at = if same r.executed_at "" then format t else r.executed_at;
    timestamp = if r.timestamp == 0 then t / second else r.timestamp;
  }

  unfoldable pub record_execution_record : ExecutionRecord → Manager → Manager
  unfolding filled
  record_execution_record r m =
      let all = m.records ++ filled r.finished_at r ∷ [] in
      record {
        records = if ltb max_records (length all) then drop (length all - max_records) all else all;
      }

  unfoldable pub record_run : String → Bool → Option ℕ → Option ℕ → ℕ → String → Manager → Manager
  unfolding record_execution_record
  record_run name success started_at finished_at duration error m =
      record_execution_record
        (record {
          agent_name = name;
          success = success;
          started_at = started_at;
          finished_at = finished_at;
          executed_at = "";
          timestamp = 0;
          duration = duration;
          error = error;
        })
        m

-- `Time.Before` and `Time.After` against a time of the epoch or later.
abbrev pub before : Option ℕ → ℕ → Bool
before none bound = true
before (some t) bound = ltb t bound

abbrev pub after : Option ℕ → ℕ → Bool
after none bound = false
after (some t) bound = ltb bound t

abbrev pub agrees : Bool → Bool → Bool
agrees true b = b
agrees false b = not b

-- The arguments of `GetHistory` that filter.
pub record Query : Type 0 where
  pub agent_name : String
  pub success_only : Option Bool
  pub start_time : Option ℕ
  pub end_time : Option ℕ

-- The record gets past the `continue`s.
unfoldable pub passes : Query → ExecutionRecord → Bool
passes q r =
    if not (same q.agent_name "") && not (same r.agent_name q.agent_name)
    then false
    else if elim q.success_only [ none ↦ false | some b ↦ not (agrees r.success b) ]
    then false
    else if elim q.start_time [ none ↦ false | some t ↦ before r.started_at t ]
    then false
    else if elim q.end_time [ none ↦ false | some t ↦ after r.finished_at t ]
    then false
    else true

-- `int` has 64 bits.
abbrev pub int_limit : ℕ
int_limit = 2 ^ 63

-- The end of `GetHistory`, for an offset and a limit from 0 on; `none` is the panic of a slice whose
-- end, past the largest `int`, has become negative.
unfoldable pub page {ℓ} : {A : Type ℓ} → ℕ → ℕ → List A → Option (List A)
page offset limit xs =
    let total = length xs in
    if ltb total offset
    then some []
    else if leb int_limit (offset + limit)
    then none
    else if ltb total (offset + limit)
    then some (drop offset xs)
    else some (take limit (drop offset xs))

-- The page, and the number of records that pass.
unfoldable pub get_history : Query → ℕ → ℕ → Manager → Option (List ExecutionRecord × ℕ)
unfolding page
get_history q limit offset m =
    let filtered = keep (passes q) (reverse m.records) in
    elim (page offset limit filtered) [ none ↦ none | some xs ↦ some (xs, length filtered) ]
