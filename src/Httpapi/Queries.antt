-- ===== src/Httpapi/Queries.antt =====
-- internal/httpapi/server.go: what handleOperations makes of a request, and what it answers. `query` is
-- the Get of the URL's query; `atoi` is strconv.Atoi, its value and whether there is no error;
-- `parse_time` is what time.Unix makes of strconv.ParseFloat, none for an error, for times from the
-- epoch on.
pub mod Bounds
use Prim.Native.String.{len, slice}
use text.Mathlib.Text.{starts_with}
use kube_ops_agent.Base.{
  if◌then◌else◌, same, ℕ, zero, suc, ◌-◌, ◌/◌, String, ap, Bool, true, false, not, Option, none,
  some, List, [], ◌∷◌,
}
use kube_ops_agent.Httpapi.Requests.{AgentRequest, Block}
use kube_ops_agent.Operations.{ExecutionRecord, Manager, Query, get_history}
use kube_ops_agent.Operations.Enrichment.{EnrichmentSources, Enriched, get_summary_with_enrichment}

-- An `int`.
pub data ℤ : Type 0 where
  pos : ℕ → ℤ
  negsuc : ℕ → ℤ

pub record OpsQuery : Type 0 where
  pub query_type : String
  pub agent_name : String
  pub limit : ℕ
  pub offset : ℕ
  pub success_only : Option Bool
  pub start_time : Option ℕ
  pub end_time : Option ℕ

module _ (trim_space : String → String) (split : String → List String) (atoi : String → ℤ × Bool)
    (parse_time : String → Option ℕ) where
  -- A number above 0, or `old`.
  abbrev positive_or : ℤ → ℕ → ℕ
  positive_or (pos zero) old = old
  positive_or (pos (suc n)) old = suc n
  positive_or (negsuc n) old = old

  -- A number from 0 on, or `old`.
  abbrev natural_or : ℤ → ℕ → ℕ
  natural_or (pos n) old = n
  natural_or (negsuc n) old = old

  abbrev bool_or : String → Option Bool → Option Bool
  bool_or v old = if same v "true" then some true else if same v "false" then some false else old

  abbrev time_or : String → Option ℕ → Option ℕ
  time_or v old = elim (parse_time v) [ none ↦ old | some t ↦ some t ]

  -- The arguments of the URL. An error of Atoi is not looked at.
  unfoldable pub url_query : (String → String) → OpsQuery
  url_query query = record {
    query_type = let t = query "type" in if same t "" then "summary" else t;
    agent_name = query "agent_name";
    limit = positive_or (atoi (query "limit")).0 100;
    offset = natural_or (atoi (query "offset")).0 0;
    success_only = bool_or (query "success_only") none;
    start_time = let v = query "start_time" in if same v "" then none else time_or v none;
    end_time = let v = query "end_time" in if same v "" then none else time_or v none;
  }

  -- The part after a prefix.
  abbrev after : String → String → String
  after prefix part = trim_space (slice part (len prefix) (len part))

  unfoldable pub apply_part : String → OpsQuery → OpsQuery
  apply_part raw q =
      let part : String = trim_space raw in
      if starts_with part "type:"
      then record q { query_type = after "type:" part }
      else if starts_with part "agent_name:"
      then record q { agent_name = after "agent_name:" part }
      else if starts_with part "limit:"
      then (let n = atoi (after "limit:" part) in
          record q { limit = if n.1 then positive_or n.0 q.limit else q.limit })
      else if starts_with part "offset:"
      then (let n = atoi (after "offset:" part) in
          record q { offset = if n.1 then natural_or n.0 q.offset else q.offset })
      else if starts_with part "success_only:"
      then record q { success_only = bool_or (after "success_only:" part) q.success_only }
      else if starts_with part "start_time:"
      then record q { start_time = time_or (after "start_time:" part) q.start_time }
      else if starts_with part "end_time:"
      then record q { end_time = time_or (after "end_time:" part) q.end_time }
      else q

  unfoldable pub apply_parts : List String → OpsQuery → OpsQuery
  unfolding apply_part
  apply_parts [] q = q
  apply_parts (p ∷ ps) q = apply_parts ps (apply_part p q)

  unfoldable pub apply_blocks : List Block → OpsQuery → OpsQuery
  unfolding apply_parts
  apply_blocks [] q = q
  apply_blocks (b ∷ bs) q =
      apply_blocks bs (if same b.kind "text" then apply_parts (split b.text) q else q)

  unfoldable pub apply_body : AgentRequest → OpsQuery → OpsQuery
  unfolding apply_blocks
  apply_body [] q = q
  apply_body (m ∷ ms) q = apply_body ms (apply_blocks m q)

  -- The arguments of a request; `body` is that of a POST of JSON that binds.
  unfoldable pub ops_query : (String → String) → Option AgentRequest → OpsQuery
  unfolding url_query apply_body
  ops_query query none = url_query query
  ops_query query (some body) = apply_body body (url_query query)

-- What handleOperations answers.
pub data OpsAnswer : Type 0 where
  no_manager : OpsAnswer
  history : (total limit offset : ℕ) → List ExecutionRecord → OpsAnswer
  summary : List (String × Enriched) → OpsAnswer

module _ (iso : ℕ → String) where
  -- `none` is a panic.
  unfoldable pub handle_operations :
      ℕ → Option Manager → EnrichmentSources → OpsQuery → Option OpsAnswer
  unfolding get_history get_summary_with_enrichment
  handle_operations now none src q = some no_manager
  handle_operations now (some m) src q =
      if same q.query_type "history"
      then elim (get_history
          (record {
            agent_name = q.agent_name;
            success_only = q.success_only;
            start_time = q.start_time;
            end_time = q.end_time;
          })
          q.limit q.offset m) [
            | none ↦ none
            | some (records, total) ↦ some (history total q.limit q.offset records)
          ]
      else some (summary (get_summary_with_enrichment iso now (some src) m))
