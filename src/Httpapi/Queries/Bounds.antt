-- ===== src/Httpapi/Queries/Bounds.antt =====
-- The limit of a query, and the answer to one of the history.
use mathlib.Core.List.{reverse}
use Prim.Native.String.{len, slice}
use kube_ops_agent.Base.{
  if◌then◌else◌, same, str_dec, length, take, drop, keep, ℕ, zero, suc, ◌+◌, ◌≤◌, ◌<◌, String, ◌≡◌,
  refl, Bool, true, false, Option, none, some, List, [], ◌∷◌, arith,
}
use kube_ops_agent.Httpapi.Requests.{AgentRequest, Block}
use kube_ops_agent.Httpapi.Queries.{
  ℤ, pos, negsuc, OpsQuery, positive_or, url_query, apply_part, apply_parts, apply_blocks,
  apply_body, ops_query, history, handle_operations,
}
use kube_ops_agent.Operations.{Manager, Query, passes, int_limit}
use kube_ops_agent.Operations.Pages.{get_history-page}
use kube_ops_agent.Operations.Enrichment.{EnrichmentSources}

limit-if : (b : Bool) (x y : OpsQuery) → 1 ≤ x.limit → 1 ≤ y.limit → 1 ≤ (if b then x else y).limit
limit-if true x y h k = h
limit-if false x y h k = k

le-if : (b : Bool) (m n : ℕ) → 1 ≤ m → 1 ≤ n → 1 ≤ (if b then m else n)
le-if true m n h k = h
le-if false m n h k = k

module _ (trim_space : String → String) (split : String → List String) (atoi : String → ℤ × Bool)
    (parse_time : String → Option ℕ) where
  positive_or-le :
      (n : ℤ) (old : ℕ) → 1 ≤ old → 1 ≤ positive_or trim_space split atoi parse_time n old
  positive_or-le (pos zero) old h = h
  positive_or-le (pos (suc n)) old h = omega arith
  positive_or-le (negsuc n) old h = h

  apply_part-limit :
      (raw : String) (q : OpsQuery)
      → 1 ≤ q.limit
      → 1 ≤ (apply_part trim_space split atoi parse_time raw q).limit
  unfolding apply_part
  apply_part-limit raw q h =
      let part : String = trim_space raw in
      let n = atoi (trim_space (slice part 6 (len part))) in
      let numbered =
        le-if n.1 (positive_or trim_space split atoi parse_time n.0 q.limit) q.limit
          (positive_or-le n.0 q.limit h) h in
      ground (arith, h, numbered)

  apply_parts-limit :
      (ps : List String) (q : OpsQuery)
      → 1 ≤ q.limit
      → 1 ≤ (apply_parts trim_space split atoi parse_time ps q).limit
  unfolding apply_parts
  apply_parts-limit [] q h = h
  apply_parts-limit (p ∷ ps) q h = apply_parts-limit ps _ (apply_part-limit p q h)

  apply_blocks-limit :
      (bs : List Block) (q : OpsQuery)
      → 1 ≤ q.limit
      → 1 ≤ (apply_blocks trim_space split atoi parse_time bs q).limit
  unfolding apply_blocks
  apply_blocks-limit [] q h = h
  apply_blocks-limit (b ∷ bs) q h =
      apply_blocks-limit bs _
        (limit-if (same b.kind "text") _ _ (apply_parts-limit (split b.text) q h) h)

  apply_body-limit :
      (ms : AgentRequest) (q : OpsQuery)
      → 1 ≤ q.limit
      → 1 ≤ (apply_body trim_space split atoi parse_time ms q).limit
  unfolding apply_body
  apply_body-limit [] q h = h
  apply_body-limit (m ∷ ms) q h = apply_body-limit ms _ (apply_blocks-limit m q h)

  -- Whatever a request says, its limit is at least 1.
  pub ops_query-limit :
      (query : String → String) (body : Option AgentRequest)
      → 1 ≤ (ops_query trim_space split atoi parse_time query body).limit
  unfolding ops_query url_query
  ops_query-limit query none = positive_or-le (atoi (query "limit")).0 100 (omega arith)
  ops_query-limit query (some body) =
      apply_body-limit body _ (positive_or-le (atoi (query "limit")).0 100 (omega arith))

-- What a query asks of the history.
abbrev pub asked : OpsQuery → Query
asked q = record {
  agent_name = q.agent_name;
  success_only = q.success_only;
  start_time = q.start_time;
  end_time = q.end_time;
}

-- A query of the history, whose offset and limit have an `int` as their sum, is answered with the number of the
-- records that pass its filters and with those from the offset on, newest first, as many as the limit says at most.
pub handle_operations-history :
    (iso : ℕ → String) (now : ℕ) (m : Manager) (src : EnrichmentSources) (q : OpsQuery)
    → q.query_type ≡ "history"
    → q.offset + q.limit < int_limit
    → let matching = reverse (keep (passes (asked q)) m.records) in
      handle_operations iso now (some m) src q
      ≡ some (history (length matching) q.limit q.offset (take q.limit (drop q.offset matching)))
unfolding handle_operations str_dec
handle_operations-history iso now m src q t h =
    let paged = get_history-page (asked q) q.limit q.offset m h in
    rw (t, handle_operations, paged) refl
