-- ===== src/Operations/Summaries.antt =====
-- internal/operations/manager.go: GetSummaryWithEnrichment, its first loop, over the records. The
-- average is kept as an exact fraction.
use native.Mathlib.Nat.{zero-add, add-zero, add_assoc, suc-mul, mul-zero}
use kube_ops_agent.Base.{
  ◌==◌, if◌then◌else◌, same, Bool-cases, length, keep, lookup, insert, lookup-insert, ℕ, zero, suc,
  ◌+◌, ◌-◌, ◌*◌, ◌<◌, String, ◌≡◌, refl, sym, ap, ◌∙◌, inl, inr, Bool, Option, none, some, List, [],
  ◌∷◌, arith,
}
use kube_ops_agent.Operations.{ExecutionRecord, Manager}

pub record Summary : Type 0 where
  pub agent_name : String
  pub total_executions : ℕ
  pub successful_executions : ℕ
  pub failed_executions : ℕ
  pub avg_num : ℕ
  pub avg_den : ℕ
  pub last_duration : ℕ

abbrev pub new_summary : String → Summary
new_summary name = record {
  agent_name = name;
  total_executions = 0;
  successful_executions = 0;
  failed_executions = 0;
  avg_num = 0;
  avg_den = 1;
  last_duration = 0;
}

abbrev pub summary_or_new : String → Option Summary → Summary
summary_or_new name none = new_summary name
summary_or_new name (some s) = s

-- The body of the loop: with n executions so far, the average becomes (avg * (n - 1) + d) / n.
unfoldable pub summarized : ExecutionRecord → Summary → Summary
summarized r s =
    let n = s.total_executions + 1 in
    record s {
      total_executions = n;
      successful_executions =
          if r.success then s.successful_executions + 1 else s.successful_executions;
      failed_executions = if r.success then s.failed_executions else s.failed_executions + 1;
      last_duration = r.duration;
      avg_num = if n == 1 then r.duration else s.avg_num * (n - 1) + r.duration * s.avg_den;
      avg_den = if n == 1 then 1 else s.avg_den * n;
    }

unfoldable pub aggregate : List ExecutionRecord → List (String × Summary) → List (String × Summary)
unfolding summarized
aggregate [] agg = agg
aggregate (r ∷ rs) agg =
    let s = summary_or_new r.agent_name (lookup r.agent_name agg) in
    aggregate rs (insert r.agent_name (summarized r s) agg)

unfoldable pub get_summary : Manager → List (String × Summary)
unfolding aggregate
get_summary m = aggregate m.records []

abbrev pub is_of : String → ExecutionRecord → Bool
is_of name r = same name r.agent_name

abbrev pub succeeded : ExecutionRecord → Bool
succeeded r = r.success

abbrev pub summary_of : String → List (String × Summary) → Summary
summary_of name agg = summary_or_new name (lookup name agg)

own : List ExecutionRecord → Summary → Summary
own [] s = s
own (r ∷ rs) s = own rs (summarized r s)

summary_of-insert :
    (name : String) (r : ExecutionRecord) (agg : List (String × Summary))
    → summary_of name (insert r.agent_name (summarized r (summary_of r.agent_name agg)) agg)
      ≡ (if is_of name r then summarized r (summary_of name agg) else summary_of name agg)
summary_of-insert name r agg =
    ground (arith, lookup-insert r.agent_name name (summarized r (summary_of r.agent_name agg)) agg)

summary_of-aggregate :
    (name : String) (rs : List ExecutionRecord) (agg : List (String × Summary))
    → summary_of name (aggregate rs agg) ≡ own (keep (is_of name) rs) (summary_of name agg)
unfolding aggregate own
summary_of-aggregate name [] agg = refl
summary_of-aggregate name (r ∷ rs) agg =
    let next = insert r.agent_name (summarized r (summary_of r.agent_name agg)) agg in
    elim (Bool-cases (is_of name r)) [
      | inl hit ↦ rw (summary_of-aggregate name rs next, summary_of-insert name r agg, hit) refl
      | inr miss ↦ rw (summary_of-aggregate name rs next, summary_of-insert name r agg, miss) refl
    ]

pub total_time : List ExecutionRecord → ℕ
total_time [] = 0
total_time (r ∷ rs) = r.duration + total_time rs

own-counts :
    (rs : List ExecutionRecord) (s : Summary)
    → let t = own rs s in
      (t.total_executions ≡ s.total_executions + length rs)
      × (t.successful_executions ≡ s.successful_executions + length (keep succeeded rs))
      × (t.successful_executions + t.failed_executions
          ≡ s.successful_executions + s.failed_executions + length rs)
      × (t.agent_name ≡ s.agent_name)
unfolding own summarized
own-counts [] s = (omega arith, omega arith, omega arith, refl)
own-counts (r ∷ rs) s = ground (arith, own-counts rs (summarized r s))

-- The fraction is the sum divided by the number of executions.
abbrev pub IsMean : ℕ → Summary → Type 0
IsMean sum s = (0 < s.avg_den) × (s.avg_num * s.total_executions ≡ sum * s.avg_den)

mean_step :
    (sum d k num den : ℕ)
    → num * k ≡ sum * den
    → (num * k + d * den) * (k + 1) ≡ (sum + d) * (den * (k + 1))
mean_step sum d k num den e = omega (arith, ap (λ (t : ℕ). t * (k + 1)) e)

zero_of_mul : (sum den : ℕ) → 0 < den → sum * den ≡ 0 → sum ≡ 0
zero_of_mul zero den pos e = refl
zero_of_mul (suc sum) den pos e = absurd (omega (arith, e, suc-mul sum den))

summarized-IsMean :
    (r : ExecutionRecord) (s : Summary) (sum : ℕ)
    → IsMean sum s
    → IsMean (sum + r.duration) (summarized r s)
unfolding summarized
summarized-IsMean r s sum (pos, e) =
    let k = s.total_executions in
    elim (Bool-cases (k + 1 == 1)) [
      | inl first ↦
          let none_yet : k ≡ 0 = ground arith in
          let nothing : s.avg_num * k ≡ 0 = rw (none_yet, mul-zero) in
          let empty : sum ≡ 0 = zero_of_mul sum s.avg_den pos (sym e ∙ nothing) in
          let scaled = ap (λ (t : ℕ). r.duration * t) none_yet in
          let product : r.duration * (k + 1) ≡ (sum + r.duration) * 1 =
            omega (arith, empty, scaled) in
          rw first (omega arith, product)
      | inr later ↦
          let back : k + 1 - 1 ≡ k = omega arith in
          rw (later, back) (grind arith, mean_step sum r.duration k s.avg_num s.avg_den e)
    ]

own-IsMean :
    (rs : List ExecutionRecord) (s : Summary) (sum : ℕ)
    → IsMean sum s
    → IsMean (sum + total_time rs) (own rs s)
unfolding own total_time
own-IsMean [] s sum h = rw add-zero h
own-IsMean (r ∷ rs) s sum h =
    rw (← add_assoc sum r.duration (total_time rs))
      (own-IsMean rs (summarized r s) (sum + r.duration) (summarized-IsMean r s sum h))

-- The summary of an agent counts the agent's records in the history and those that succeeded; those
-- that failed are the rest; and the running average is the mean of the durations, as exact
-- fractions with a positive denominator.
pub get_summary-counts :
    (name : String) (m : Manager)
    → let s = summary_of name (get_summary m) in
      let records = keep (is_of name) m.records in
      (s.total_executions ≡ length records)
      × (s.successful_executions ≡ length (keep succeeded records))
      × (s.successful_executions + s.failed_executions ≡ s.total_executions)
      × (0 < s.avg_den)
      × (s.avg_num * length records ≡ total_time records * s.avg_den)
unfolding get_summary lookup
get_summary-counts name m =
    let records = keep (is_of name) m.records in
    let counts = own-counts records (new_summary name) in
    let mean = own-IsMean records (new_summary name) 0 (omega arith) in
    let whole = zero-add (total_time records) in
    rw (summary_of-aggregate name m.records []) (ground (arith, counts, mean, whole))
