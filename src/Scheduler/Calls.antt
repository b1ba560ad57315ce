-- ===== src/Scheduler/Calls.antt =====
-- The calls of a plan's steps: what holds of them, and how one step adds to them.
use kube_ops_agent.Base.{
  Bool-cases, Option-cases, All, is_member, lookup, insert, HasKey, HasKey-insert, HasKey-of_lookup,
  ℕ, ◌+◌, String, ◌≡◌, refl, ◌⊎◌, inl, inr, true, false, Option, none, some, List, [], ◌∷◌, arith,
}
use kube_ops_agent.Plan.Agents.{Among}
use kube_ops_agent.Scheduler.{deps_met, kept_agents, answers, store, Launch, launch_all}

-- The agent was called.
abbrev pub Launched : String → List Launch → Type 0
Launched k [] = ⊥
Launched k (l ∷ before) = (k ≡ l.agent) ⊎ Launched k before

-- Each call came after calls of all the agents that its step depends on.
abbrev pub IsOrdered : List Launch → Type 0
IsOrdered [] = Unit
IsOrdered (l ∷ before) =
    ((d : String) → Among d l.depends_on → Launched d before) × IsOrdered before

-- One of the answers is the agent's.
abbrev pub Answered : String → List (String × Option String) → Type 0
Answered k [] = ⊥
Answered k ((a, _) ∷ more) = (k ≡ a) ⊎ Answered k more

is_member-not : (a : String) (bs : List String) → is_member a bs ≡ false → ¬ Among a bs
unfolding is_member
is_member-not a [] e = λ h. h
is_member-not a (b ∷ bs) e = λ h. ground (arith, is_member-not a bs)

-- What holds of the agents that are called.
abbrev pub AllCalled : (String → Type 0) → List Launch → Type 0
AllCalled P launched = All (λ l. P l.agent) launched

pub kept_agents-All :
    (P : String → Type 0) (skips as' : List String)
    → ((a : String) → Among a as' → P a)
    → All (λ a. (¬ Among a skips) × P a) (kept_agents skips as')
unfolding kept_agents
kept_agents-All P skips [] f = tt
kept_agents-All P skips (a ∷ as') f =
    let ih = kept_agents-All P skips as' (λ b h. f b (inr h)) in
    elim (Bool-cases (is_member a skips)) [
      | inl e ↦ rw e ih
      | inr e ↦ rw e ((is_member-not a skips e, f a (inl refl)), ih)
    ]

module _ (deps : List String) (inputs : List (String × String)) where
  pub launch_all-All :
      (P : String → Type 0) (as' : List String) (before : List Launch)
      → All P as'
      → AllCalled P before
      → AllCalled P (launch_all as' deps inputs before)
  unfolding launch_all
  launch_all-All P [] before ps done = done
  launch_all-All P (a ∷ as') before ps done =
      launch_all-All P as' (record { agent = a; depends_on = deps; inputs = inputs } ∷ before) ps.1
        (ps.0, done)

  pub Launched-launch_all :
      (k : String) (as' : List String) (before : List Launch)
      → Among k as' ⊎ Launched k before
      → Launched k (launch_all as' deps inputs before)
  unfolding launch_all
  Launched-launch_all k [] before h = ground arith
  Launched-launch_all k (a ∷ as') before h =
      Launched-launch_all k as' (record { agent = a; depends_on = deps; inputs = inputs } ∷ before)
        (ground arith)

  pub launch_all-IsOrdered :
      (as' : List String) (before : List Launch)
      → ((d : String) → Among d deps → Launched d before)
      → IsOrdered before
      → IsOrdered (launch_all as' deps inputs before)
  unfolding launch_all
  launch_all-IsOrdered [] before met done = done
  launch_all-IsOrdered (a ∷ as') before met done =
      launch_all-IsOrdered as' (record { agent = a; depends_on = deps; inputs = inputs } ∷ before)
        (λ d h. inr (met d h)) (met, done)

pub deps_met-HasKey :
    (ds : List String) (results : List (String × String))
    → deps_met ds results ≡ true
    → (d : String) → Among d ds
    → HasKey d results
unfolding deps_met
deps_met-HasKey [] results e d h = absurd h
deps_met-HasKey (c ∷ ds) results e d h = elim (Option-cases (lookup c results)) [
  | inl n ↦ cc (rw (n, deps_met) at e)
  | inr (r, s) ↦
      let rest = rw (s, deps_met) at e in
      elim h [
        | inl p ↦ rw p (HasKey-of_lookup c r results s)
        | inr q ↦ deps_met-HasKey ds results rest d q
      ]
]

pub HasKey-store :
    (k : String) (said : List (String × Option String)) (results : List (String × String))
    → HasKey k (store said results)
    → Answered k said ⊎ HasKey k results
unfolding store
HasKey-store k [] results h = inr h
HasKey-store k ((a, none) ∷ more) results h = ground (arith, HasKey-store k more results h)
HasKey-store k ((a, some t) ∷ more) results h =
    ground (arith, HasKey-store k more (insert a t results) h, HasKey-insert a k t results)

pub Answered-answers :
    (k : String) (text : ℕ → Option String) (i : ℕ) (as' : List String)
    → Answered k (answers text i as')
    → Among k as'
unfolding answers
Answered-answers k text i [] h = h
Answered-answers k text i (a ∷ as') h = elim h [
  | inl p ↦ inl p
  | inr q ↦ inr (Answered-answers k text (i + 1) as' q)
]
