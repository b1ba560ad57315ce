-- ===== src/Scheduler/Orders.antt =====
-- The order in which a parallel step's answers come does not matter.
use mathlib.Core.Path.{subst}
use kube_ops_agent.Base.{
  if◌then◌else◌, Bool-cases, str_dec, All, is_member, lookup, insert, lookup-insert, HasKey,
  HasDistinctKeys, lookup_of_not_HasKey, ℕ, ◌+◌, String, ◌≡◌, refl, sym, ap, ◌∙◌, inl, inr, if_pos,
  if_neg, Bool, false, Option, none, some, List, [], ◌∷◌, arith,
}
use kube_ops_agent.Plan.{Step, InspectionPlan, is_nil}
use kube_ops_agent.Plan.Agents.{Among, AllDistinct}
use kube_ops_agent.Scheduler.{
  deps_met, kept_agents, dep_inputs, answers, store, Progress, launch_all, is_sequential, Answers,
  run_step, run_steps, run_plan,
}

-- The maps agree at every key.
abbrev pub SameAt : {A : Type 0} → List (String × A) → List (String × A) → Type 0
SameAt m n = (k : String) → lookup k m ≡ lookup k n

-- What the results of an agent are once the answers are stored.
abbrev stored : Option (Option String) → Option String → Option String
stored none before = before
stored (some none) before = before
stored (some (some t)) before = some t

lookup-store :
    (k : String) (said : List (String × Option String)) (results : List (String × String))
    → HasDistinctKeys said
    → lookup k (store said results) ≡ stored (lookup k said) (lookup k results)
unfolding store lookup
lookup-store k [] results d = refl
lookup-store k ((a, none) ∷ more) results (new, d) =
    let ih = lookup-store k more results d in
    elim (str_dec k a) [
      | yes p ↦
          let gone = lookup_of_not_HasKey k more (λ h. new (subst (λ j. HasKey j more) p h)) in
          rw (if_pos _ p) (ih ∙ ap (λ o. stored o (lookup k results)) gone)
      | no p ↦ rw (if_neg _ p) ih
    ]
lookup-store k ((a, some t) ∷ more) results (new, d) =
    let ih = lookup-store k more (insert a t results) d in
    let put = lookup-insert a k t results in
    elim (str_dec k a) [
      | yes p ↦
          let gone = lookup_of_not_HasKey k more (λ h. new (subst (λ j. HasKey j more) p h)) in
          rw (if_pos _ p) (
            ih
            ∙ (ap (λ o. stored o (lookup k (insert a t results))) gone
                ∙ (put ∙ if_pos (str_dec k a) p _ (lookup k results))))
      | no p ↦
          rw (if_neg _ p)
            (ih ∙ ap (stored (lookup k more)) (put ∙ if_neg (str_dec k a) p (some t) _))
    ]

deps_met-SameAt :
    (ds : List String) (r s : List (String × String)) → SameAt r s → deps_met ds r ≡ deps_met ds s
unfolding deps_met
deps_met-SameAt [] r s h = refl
deps_met-SameAt (d ∷ ds) r s h =
    ap (λ o. elim o as (λ x. Bool) [ none ↦ false | some _ ↦ deps_met ds r ]) (h d)
    ∙ ap (λ b. elim (lookup d s) as (λ x. Bool) [ none ↦ false | some _ ↦ b ])
        (deps_met-SameAt ds r s h)

dep_inputs-SameAt :
    (ds : List String) (r s : List (String × String))
    → SameAt r s
    → dep_inputs ds r ≡ dep_inputs ds s
unfolding dep_inputs
dep_inputs-SameAt [] r s h = refl
dep_inputs-SameAt (d ∷ ds) r s h =
    let rest = dep_inputs ds r in
    ap (λ o. elim o as (λ x. List (String × String)) [ none ↦ rest | some t ↦ insert d t rest ])
      (h d)
    ∙ ap
        (λ m. elim (lookup d s) as (λ x. List (String × String)) [
          | none ↦ m
          | some t ↦ insert d t m
        ])
        (dep_inputs-SameAt ds r s h)

HasKey-answers :
    (k : String) (text : ℕ → Option String) (i : ℕ) (as' : List String)
    → HasKey k (answers text i as')
    → Among k as'
unfolding answers
HasKey-answers k text i [] h = h
HasKey-answers k text i (a ∷ as') h = ground (arith, h, HasKey-answers k text (i + 1) as')

answers-distinct :
    (text : ℕ → Option String) (i : ℕ) (as' : List String)
    → AllDistinct as'
    → HasDistinctKeys (answers text i as')
unfolding answers
answers-distinct text i [] d = tt
answers-distinct text i (a ∷ as') (new, d) =
    (λ h. new (HasKey-answers a text (i + 1) as' h), answers-distinct text (i + 1) as' d)

Among-kept_agents :
    (k : String) (skips as' : List String) → Among k (kept_agents skips as') → Among k as'
unfolding kept_agents
Among-kept_agents k skips [] h = h
Among-kept_agents k skips (a ∷ as') h = ground (arith, h, Among-kept_agents k skips as')

kept_agents-distinct :
    (skips as' : List String) → AllDistinct as' → AllDistinct (kept_agents skips as')
unfolding kept_agents
kept_agents-distinct skips [] d = tt
kept_agents-distinct skips (a ∷ as') (new, d) =
    let ih = kept_agents-distinct skips as' d in
    elim (Bool-cases (is_member a skips)) [
      | inl e ↦ rw e ih
      | inr e ↦ rw e ((λ h. new (Among-kept_agents a skips as' h)), ih)
    ]

-- The orders hold the same answers: each agent that has one once has the same one once.
abbrev pub Reorders : (ℕ → List (String × Option String) → List (String × Option String)) → Type 0
Reorders arrange =
    (n : ℕ) (said : List (String × Option String))
    → HasDistinctKeys said
    → HasDistinctKeys (arrange n said) × SameAt (arrange n said) said

-- The same calls so far, and results that agree for every agent.
pub record Agree (p q : Progress) : Type 0 where
  pub results : SameAt p.results q.results
  pub launched : p.launched ≡ q.launched

abbrev pub OnceEach : List Step → Type 0
OnceEach ss = All (λ s. AllDistinct s.agents) ss

module _ (w : Answers) (ordered : Reorders w.arrange) (skips : List String) where
  abbrev said_in : ℕ → Step → List (String × Option String)
  said_in n s =
      let said = answers (w.text n) 0 (kept_agents skips s.agents) in
      if is_sequential s.mode then said else w.arrange n said

  said_in-SameAt :
      (n : ℕ) (s : Step)
      → AllDistinct s.agents
      → HasDistinctKeys (said_in n s)
        × SameAt (said_in n s) (answers (w.text n) 0 (kept_agents skips s.agents))
  said_in-SameAt n s d =
      let as' = kept_agents skips s.agents in
      let said = answers (w.text n) 0 as' in
      let once = answers-distinct (w.text n) 0 as' (kept_agents-distinct skips s.agents d) in
      elim (Bool-cases (is_sequential s.mode)) [
        | inl e ↦ rw e (once, (λ k. refl))
        | inr e ↦ rw e (ordered n said once)
      ]

module _ (w : Answers) (arrange : ℕ → List (String × Option String) → List (String × Option String))
    (ordered : Reorders w.arrange) (reordered : Reorders arrange) (skips : List String) where
  abbrev v : Answers
  v = record w { arrange = arrange }

  store-SameAt :
      (n : ℕ) (s : Step) (r t : List (String × String))
      → AllDistinct s.agents
      → SameAt r t
      → SameAt (store (said_in w ordered skips n s) r) (store (said_in v reordered skips n s) t)
  store-SameAt n s r t d h k =
      let (one, same_one) = said_in-SameAt w ordered skips n s d in
      let (two, same_two) = said_in-SameAt v reordered skips n s d in
      lookup-store k (said_in w ordered skips n s) r one
      ∙ (ap (λ o. stored o (lookup k r)) (same_one k ∙ sym (same_two k))
          ∙ (ap (stored (lookup k (said_in v reordered skips n s))) (h k)
              ∙ sym (lookup-store k (said_in v reordered skips n s) t two)))

  run_step-Agree :
      (n : ℕ) (s : Step) (p q : Progress)
      → AllDistinct s.agents
      → Agree p q
      → Agree (run_step w skips n s p) (run_step v skips n s q)
  unfolding run_step
  run_step-Agree n s p q d h =
      let met_same = sym (deps_met-SameAt s.depends_on p.results q.results h.results) in
      elim (Bool-cases (is_nil s.agents)) [
        | inl e ↦ rw (e, run_step) h
        | inr idle ↦ elim (Bool-cases (deps_met s.depends_on p.results)) [
          | inr e ↦ rw (idle, e, met_same ∙ e, run_step) h
          | inl e ↦ elim (Bool-cases (is_nil (kept_agents skips s.agents))) [
            | inl none_left ↦ rw (idle, e, met_same ∙ e, none_left, run_step) h
            | inr left ↦
                rw (idle, e, met_same ∙ e, left, run_step)
                  (record {
                    results = store-SameAt n s p.results q.results d h.results;
                    launched =
                        ap (λ i. launch_all (kept_agents skips s.agents) s.depends_on i p.launched)
                          (dep_inputs-SameAt s.depends_on p.results q.results h.results)
                        ∙ ap
                            (launch_all (kept_agents skips s.agents) s.depends_on
                              (dep_inputs s.depends_on q.results))
                            h.launched;
                  })
          ]
        ]
      ]

  run_steps-Agree :
      (n : ℕ) (ss : List Step) (p q : Progress)
      → OnceEach ss
      → Agree p q
      → Agree (run_steps w skips n ss p) (run_steps v skips n ss q)
  unfolding run_steps
  run_steps-Agree n [] p q d h = h
  run_steps-Agree n (s ∷ ss) p q (once, d) h =
      run_steps-Agree (n + 1) ss (run_step w skips n s p) (run_step v skips n s q) d
        (run_step-Agree n s p q once h)

-- If no step names an agent twice, then the order in which the answers of its parallel steps come
-- changes nothing in the execution of a plan: the same agents are called with the same inputs, and
-- each has the same result.
pub run_plan-Agree :
    (w : Answers) (arrange : ℕ → List (String × Option String) → List (String × Option String))
    (p : InspectionPlan)
    → Reorders w.arrange
    → Reorders arrange
    → OnceEach p.steps
    → Agree (run_plan w p) (run_plan (record w { arrange = arrange }) p)
unfolding run_plan
run_plan-Agree w arrange p ordered reordered once =
    run_steps-Agree w arrange ordered reordered p.skip_agents 0 p.steps
      (record { results = []; launched = [] }) (record { results = []; launched = [] }) once
      (record { results = λ k. refl; launched = refl })
