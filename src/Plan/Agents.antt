-- ===== src/Plan/Agents.antt =====
-- The agents of a plan.
use kube_ops_agent.Base.{
  Bool-cases, insert, HasKey, HasKey-insert, HasDistinctKeys, HasDistinctKeys-insert,
  HasKey-of_insert, HasKey-insert_self, String, ◌≡◌, refl, sym, ◌∙◌, ◌↔◌, ◌⊎◌, inl, inr, true,
  false, List, [], ◌∷◌, map, arith,
}
use kube_ops_agent.Plan.{
  Step, InspectionPlan, note_agents, note_steps, get_all_agents, all_idle, is_empty,
}

-- The name occurs in the list, or in a step.
abbrev pub Among : String → List String → Type 0
Among k [] = ⊥
Among k (a ∷ as') = (k ≡ a) ⊎ Among k as'

abbrev pub InStep : String → List Step → Type 0
InStep k [] = ⊥
InStep k (s ∷ ss) = Among k s.agents ⊎ InStep k ss

HasKey-note_agents :
    (k : String) (as' : List String) (seen : List (String × Unit {0}))
    → HasKey k (note_agents as' seen) ↔ (Among k as' ⊎ HasKey k seen)
unfolding note_agents
HasKey-note_agents k [] seen = (λ h. inr h, λ h. ground arith)
HasKey-note_agents k (a ∷ as') seen =
    let ih = HasKey-note_agents k as' (insert a tt seen) in
    (
      λ h. ground (arith, ih.0 h, HasKey-insert a k tt seen),
      λ h. ground (arith, ih.1, HasKey-of_insert a k tt seen, HasKey-insert_self a tt seen),
    )

HasKey-note_steps :
    (k : String) (ss : List Step) (seen : List (String × Unit {0}))
    → HasKey k (note_steps ss seen) ↔ (InStep k ss ⊎ HasKey k seen)
unfolding note_steps
HasKey-note_steps k [] seen = (λ h. inr h, λ h. ground arith)
HasKey-note_steps k (s ∷ ss) seen =
    let ih = HasKey-note_steps k ss (note_agents s.agents seen) in
    let here = HasKey-note_agents k s.agents seen in
    (λ h. ground (arith, ih.0 h, here.0), λ h. ground (arith, ih.1, here.1))

note_agents-distinct :
    (as' : List String) (seen : List (String × Unit {0}))
    → HasDistinctKeys seen
    → HasDistinctKeys (note_agents as' seen)
unfolding note_agents
note_agents-distinct [] seen d = d
note_agents-distinct (a ∷ as') seen d =
    note_agents-distinct as' (insert a tt seen) (HasDistinctKeys-insert a tt seen d)

note_steps-distinct :
    (ss : List Step) (seen : List (String × Unit {0}))
    → HasDistinctKeys seen
    → HasDistinctKeys (note_steps ss seen)
unfolding note_steps
note_steps-distinct [] seen d = d
note_steps-distinct (s ∷ ss) seen d =
    note_steps-distinct ss (note_agents s.agents seen) (note_agents-distinct s.agents seen d)

-- No name occurs twice.
abbrev pub AllDistinct : List String → Type 0
AllDistinct [] = Unit
AllDistinct (a ∷ as') = (¬ Among a as') × AllDistinct as'

Among-keys : (k : String) (m : List (String × Unit {0})) → Among k (map (λ e. e.0) m) ↔ HasKey k m
Among-keys k [] = (λ h. h, λ h. h)
Among-keys k ((j, _) ∷ m) =
    let ih = Among-keys k m in (λ h. ground (arith, ih.0), λ h. ground (arith, ih.1))

AllDistinct-keys :
    (m : List (String × Unit {0})) → HasDistinctKeys m → AllDistinct (map (λ e. e.0) m)
AllDistinct-keys [] d = tt
AllDistinct-keys ((j, _) ∷ m) d = (λ h. d.0 ((Among-keys j m).0 h), AllDistinct-keys m d.1)

-- The agents of a plan are exactly the names in its steps, each once.
pub get_all_agents-exact :
    (p : InspectionPlan) (k : String)
    → (Among k (get_all_agents p) ↔ InStep k p.steps) × AllDistinct (get_all_agents p)
unfolding get_all_agents
get_all_agents-exact p k =
    let seen = note_steps p.steps [] in
    let noted = HasKey-note_steps k p.steps [] in
    let listed = Among-keys k seen in
    (
      (λ h. ground (arith, noted.0, listed.0 h), λ h. listed.1 (noted.1 (inl h))),
      AllDistinct-keys seen (note_steps-distinct p.steps [] tt),
    )

list-cases : {A : Type 0} → (xs : List A) → (xs ≡ []) ⊎ ((x : A) × (ys : List A) × (xs ≡ x ∷ ys))
list-cases [] = inl refl
list-cases (x ∷ ys) = inr (x, ys, refl)

all_idle-InStep : (ss : List Step) (k : String) → all_idle ss ≡ true → ¬ InStep k ss
unfolding all_idle
all_idle-InStep [] k e = λ h. h
all_idle-InStep (s ∷ ss) k e = λ h. ground (arith, all_idle-InStep ss k)

busy-InStep : (ss : List Step) → all_idle ss ≡ false → (k : String) × InStep k ss
unfolding all_idle
busy-InStep [] e = cc
busy-InStep (s ∷ ss) e = elim (list-cases s.agents) [
  | inl n ↦ let (k, at) = busy-InStep ss (rw n at e) in (k, inr at)
  | inr (a, as', c) ↦ (a, inl (rw c (inl refl)))
]

is_empty-all_idle : (p : InspectionPlan) → is_empty p ≡ all_idle p.steps
unfolding is_empty all_idle
is_empty-all_idle p = elim (list-cases p.steps) [
  | inl n ↦ rw (n, is_empty) refl
  | inr (s, ss, c) ↦ rw (c, is_empty) refl
]

-- A plan is empty exactly if it has no agent.
pub is_empty-get_all_agents : (p : InspectionPlan) → (is_empty p ≡ true) ↔ (get_all_agents p ≡ [])
is_empty-get_all_agents p = (
  λ e. elim (list-cases (get_all_agents p)) [
    | inl n ↦ n
    | inr (a, as', c) ↦
        let at = (get_all_agents-exact p a).0.0 (rw c (inl refl)) in
        absurd (all_idle-InStep p.steps a (sym (is_empty-all_idle p) ∙ e) at)
  ],
  λ e. elim (Bool-cases (all_idle p.steps)) [
    | inl h ↦ is_empty-all_idle p ∙ h
    | inr h ↦
        let (k, at) = busy-InStep p.steps h in absurd (rw e at ((get_all_agents-exact p k).0.1 at))
  ],
)
