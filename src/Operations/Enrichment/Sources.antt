-- ===== src/Operations/Enrichment/Sources.antt =====
-- What the summary of an agent shows.
use mathlib.Core.Path.{subst}
use kube_ops_agent.Base.{
  ltb, ◌==◌, if◌then◌else◌, Bool-cases, Option-cases, str_dec, is_member, lookup, insert,
  lookup-insert, HasKey, HasDistinctKeys, lookup_of_not_HasKey, ℕ, ◌<◌, String, ◌≡◌, refl, sym, ap,
  ◌∙◌, inl, inr, if_pos, if_neg, Bool, true, false, ◌&&◌, none, some, List, [], ◌∷◌, arith,
}
use kube_ops_agent.Operations.{ExecutionRecord, Manager}
use kube_ops_agent.Operations.Summaries.{Summary, get_summary}
use kube_ops_agent.Operations.Enrichment.{
  Enriched, seconds, enriched_or_new, plain_all, merged, with_metrics, with_state, marked, rated,
  rated_all, get_summary_with_enrichment,
}
use kube_ops_agent.Runtime.Circuit.{Breaker, get_status}
use kube_ops_agent.Runtime.Metrics.{AgentMetrics, MetricsCollector}
use kube_ops_agent.Runtime.State.{AgentState, StatePersistence, get_state_snapshot}

-- An agent's summary after the loop over a map: its own entry changed it, if it has one.
merged-lookup :
    {A : Type 0} (f : A → Enriched → Enriched) (name : String) (ms : List (String × A))
    (agg : List (String × Enriched))
    → HasDistinctKeys ms
    → lookup name (merged f ms agg) ≡ elim (lookup name ms) [
      | none ↦ lookup name agg
      | some a ↦ some (f a (enriched_or_new name (lookup name agg)))
    ]
unfolding merged lookup
merged-lookup f name [] agg d = refl
merged-lookup f name ((k, a) ∷ ms) agg d =
    let made : Enriched = f a (enriched_or_new k (lookup k agg)) in
    let ih = merged-lookup f name ms (insert k made agg) d.1 in
    elim (str_dec name k) [
      | yes p ↦
          let gone = lookup_of_not_HasKey name ms (subst (λ x. ¬ HasKey x ms) (sym p) d.0) in
          let here : lookup name (insert k made agg) ≡ some made =
            lookup-insert k name made agg ∙ if_pos (str_dec name k) p _ _ in
          let mine : made ≡ f a (enriched_or_new name (lookup name agg)) =
            ap (λ x. f a (enriched_or_new x (lookup x agg))) (sym p) in
          ground (arith, ih, gone, here, mine, p)
      | no q ↦
          let there : lookup name (insert k made agg) ≡ lookup name agg =
            lookup-insert k name made agg ∙ if_neg (str_dec name k) q _ _ in
          ground (arith, ih, there, q)
    ]

marked-lookup :
    (name : String) (names : List String) (agg : List (String × Enriched))
    → lookup name (marked names agg) ≡ elim (lookup name agg) [
      | none ↦ none
      | some e ↦ some (if is_member name names then record e { circuit_breaker_open = true } else e)
    ]
unfolding marked is_member
marked-lookup name [] agg = ground arith
marked-lookup name (n ∷ names) agg = elim (Option-cases (lookup n agg)) [
  | inl e ↦ ground (arith, e, marked-lookup name names agg)
  | inr (x, e) ↦
      let next = insert n (record x { circuit_breaker_open = true }) agg in
      ground (
        arith,
        e,
        marked-lookup name names next,
        lookup-insert n name (record x { circuit_breaker_open = true }) agg,
      )
]

rated_all-lookup :
    (name : String) (agg : List (String × Enriched))
    → lookup name (rated_all agg) ≡ elim (lookup name agg) [ none ↦ none | some e ↦ some (rated e) ]
unfolding rated_all lookup
rated_all-lookup name [] = refl
rated_all-lookup name ((k, e) ∷ agg) = ground (arith, rated_all-lookup name agg)

plain_all-closed :
    (name : String) (rs : List ExecutionRecord) (agg : List (String × Summary))
    → (enriched_or_new name (lookup name (plain_all rs agg))).circuit_breaker_open ≡ false
unfolding plain_all lookup
plain_all-closed name rs [] = refl
plain_all-closed name rs ((k, s) ∷ agg) = ground (arith, plain_all-closed name rs agg)

-- What a summary has of an agent's metrics and state, and of its circuit.
pub record Shows (iso : ℕ → String) (am : AgentMetrics) (ast : AgentState) (is_open : Bool)
    (e : Enriched) : Type 0 where
  pub total : e.summary.total_executions ≡ am.total_executions
  pub successful : e.summary.successful_executions ≡ am.successful_executions
  pub failed : e.summary.failed_executions ≡ am.failed_executions
  pub failures : e.consecutive_failures ≡ ast.consecutive_failures
  pub circuit : e.circuit_breaker_open ≡ is_open
  pub last_run :
      0 < ast.last_run_at
      → (e.last_run_at ≡ seconds ast.last_run_at) × (e.last_run_at_iso ≡ iso ast.last_run_at)
  pub last_success : 0 < ast.last_success_at → e.last_success_at_iso ≡ iso ast.last_success_at

rated-Shows :
    (iso : ℕ → String) (am : AgentMetrics) (ast : AgentState) (is_open : Bool) (e : Enriched)
    → Shows iso am ast is_open e
    → Shows iso am ast is_open (rated e)
unfolding rated
rated-Shows iso am ast is_open e h =
    elim (Bool-cases (ltb 0 e.summary.total_executions && e.success_rate.num == 0)) [
      | inl t ↦
          rw (t, rated)
            (record {
              total = h.total;
              successful = h.successful;
              failed = h.failed;
              failures = h.failures;
              circuit = h.circuit;
              last_run = h.last_run;
              last_success = h.last_success;
            })
      | inr f ↦ rw (f, rated) h
    ]

module _ (iso : ℕ → String) (now : ℕ) (c : MetricsCollector) (st : StatePersistence) (cb : Breaker)
    (m : Manager) (name : String) (am : AgentMetrics) (ast : AgentState) where
  marked-Shows :
      (e : Enriched) (is_open : Bool)
      → e.circuit_breaker_open ≡ false
      → Shows iso am ast is_open (
          if is_open
          then record (with_state iso ast (with_metrics am e)) { circuit_breaker_open = true }
          else with_state iso ast (with_metrics am e))
  unfolding with_metrics with_state
  marked-Shows e true h = record {
    total = refl;
    successful = refl;
    failed = refl;
    failures = refl;
    circuit = refl;
    last_run = λ p. (ground (arith, p), ground (arith, p));
    last_success = λ p. ground (arith, p);
  }
  marked-Shows e false h = record {
    total = refl;
    successful = refl;
    failed = refl;
    failures = refl;
    circuit = h;
    last_run = λ p. (ground (arith, p), ground (arith, p));
    last_success = λ p. ground (arith, p);
  }

  -- Whatever the history holds, an agent with metrics and with a state has a summary, with the counts of the metrics, the
  -- consecutive failures of the state, the state's times of the last run and of the last success where they are set, and
  -- whether its circuit is among the open ones.
  pub get_summary_with_enrichment-Shows :
      HasDistinctKeys c.agent_metrics
      → HasDistinctKeys (get_state_snapshot st)
      → lookup name c.agent_metrics ≡ some am
      → lookup name (get_state_snapshot st) ≡ some ast
      → (e : Enriched) × (lookup name (
            get_summary_with_enrichment iso now
              (some (record { metrics = some c; state = some st; circuit = some cb }))
              m)
          ≡ some e)
        × Shows iso am ast (is_member name (get_status now cb).open_circuits) e
  unfolding get_summary_with_enrichment
  get_summary_with_enrichment-Shows d₁ d₂ h₁ h₂ =
      let agg = plain_all m.records (get_summary m) in
      let agg₁ = merged with_metrics c.agent_metrics agg in
      let agg₂ = merged (with_state iso) (get_state_snapshot st) agg₁ in
      let opened = (get_status now cb).open_circuits in
      let y : Enriched = with_metrics am (enriched_or_new name (lookup name agg)) in
      let x : Enriched = with_state iso ast y in
      let e₁ : lookup name agg₁ ≡ some y =
        rw (merged-lookup with_metrics name c.agent_metrics agg d₁, h₁) refl in
      let e₂ : lookup name agg₂ ≡ some x =
        rw (merged-lookup (with_state iso) name (get_state_snapshot st) agg₁ d₂, h₂, e₁) refl in
      let z : Enriched =
        if is_member name opened then record x { circuit_breaker_open = true } else x in
      let e₃ : lookup name (marked opened agg₂) ≡ some z =
        rw (marked-lookup name opened agg₂, e₂) refl in
      let shows : Shows iso am ast (is_member name opened) z =
        marked-Shows (enriched_or_new name (lookup name agg)) (is_member name opened)
          (plain_all-closed name m.records (get_summary m)) in
      (
        rated z,
        rw (rated_all-lookup name (marked opened agg₂), e₃) refl,
        rated-Shows iso am ast (is_member name opened) z shows,
      )
