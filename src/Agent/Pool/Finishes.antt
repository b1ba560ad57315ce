-- ===== src/Agent/Pool/Finishes.antt =====
-- What a run of several agents returns, in whatever order they finish.
use kube_ops_agent.Base.{
  Option-cases, lookup, lookup-insert, ℕ, suc, String, ◌≡◌, ◌⊎◌, inl, inr, Option, none, some, List,
  [], ◌∷◌, arith,
}
use kube_ops_agent.Agent.Pool.{
  AgentPool, get, started, Takes, first, later, collect, Finish, all_done, one_more, Execute,
}

-- One of the goroutines has the name and the answer.
abbrev Gives : {M : Type 0} → String → M → List (String × Option M) → Type 0
Gives n m [] = ⊥
Gives n m (g ∷ gs) = ((g.0 ≡ n) × (g.1 ≡ some m)) ⊎ Gives n m gs

Gives-Takes :
    {M : Type 0} (n : String) (m : M) (gs : List (String × Option M)) (g : String × Option M)
    (rest : List (String × Option M))
    → Takes gs g rest
    → Gives n m gs
    → ((g.0 ≡ n) × (g.1 ≡ some m)) ⊎ Gives n m rest
Gives-Takes n m _ _ _ (first g gs) h = h
Gives-Takes n m _ _ _ (later x g gs rest t) (inl h) = inr (inl h)
Gives-Takes n m _ _ _ (later x g gs rest t) (inr h) = elim (Gives-Takes n m gs g rest t h) [
  | inl own ↦ inl own
  | inr more ↦ inr (inr more)
]

Gives-of_Takes :
    {M : Type 0} (n : String) (m : M) (gs : List (String × Option M)) (g : String × Option M)
    (rest : List (String × Option M))
    → Takes gs g rest
    → ((g.0 ≡ n) × (g.1 ≡ some m)) ⊎ Gives n m rest
    → Gives n m gs
Gives-of_Takes n m _ _ _ (first g gs) h = h
Gives-of_Takes n m _ _ _ (later x g gs rest t) (inl own) =
    inr (Gives-of_Takes n m gs g rest t (inl own))
Gives-of_Takes n m _ _ _ (later x g gs rest t) (inr (inl h)) = inl h
Gives-of_Takes n m _ _ _ (later x g gs rest t) (inr (inr h)) =
    inr (Gives-of_Takes n m gs g rest t (inr h))

lookup-collect :
    {M : Type 0} (n : String) (m : M) (g : String × Option M) (results : List (String × M))
    → lookup n (collect g results) ≡ some m
    → ((g.0 ≡ n) × (g.1 ≡ some m)) ⊎ (lookup n results ≡ some m)
unfolding collect
lookup-collect n m (name, none) results h = inr h
lookup-collect n m (name, some k) results h = ground (arith, h, lookup-insert name n k results)

lookup-collect-none :
    {M : Type 0} (n : String) (g : String × Option M) (results : List (String × M))
    → lookup n (collect g results) ≡ none
    → (lookup n results ≡ none) × ((m : M) → ¬ ((g.0 ≡ n) × (g.1 ≡ some m)))
unfolding collect
lookup-collect-none n (name, none) results h = (h, λ m p. ground (arith, p.1))
lookup-collect-none n (name, some k) results h = (
  ground (arith, h, lookup-insert name n k results),
  λ m p. ground (arith, h, p.0, lookup-insert name n k results),
)

-- A result is the answer of a goroutine of its name.
lookup-Finish :
    {M : Type 0} (n : String) (m : M) (gs : List (String × Option M))
    (results last : List (String × M))
    → Finish gs results last
    → lookup n last ≡ some m
    → Gives n m gs ⊎ (lookup n results ≡ some m)
lookup-Finish n m _ _ _ (all_done results) h = inr h
lookup-Finish n m _ _ _ (one_more gs rest g results last t more) h =
    elim (lookup-Finish n m rest (collect g results) last more h) [
      | inl later_one ↦ inl (Gives-of_Takes n m gs g rest t (inr later_one))
      | inr here ↦ elim (lookup-collect n m g results here) [
        | inl own ↦ inl (Gives-of_Takes n m gs g rest t (inl own))
        | inr old ↦ inr old
      ]
    ]

-- A name without a result has no goroutine with an answer.
lookup-Finish-none :
    {M : Type 0} (n : String) (gs : List (String × Option M)) (results last : List (String × M))
    → Finish gs results last
    → lookup n last ≡ none
    → (lookup n results ≡ none) × ((m : M) → ¬ Gives n m gs)
lookup-Finish-none n _ _ _ (all_done results) h = (h, λ m p. p)
lookup-Finish-none n _ _ _ (one_more gs rest g results last t more) h =
    let (empty, never) = lookup-Finish-none n rest (collect g results) last more h in
    let (before, not_own) = lookup-collect-none n g results empty in
    (
      before,
      λ m p. elim (Gives-Takes n m gs g rest t p) [
        | inl own ↦ not_own m own
        | inr others ↦ never m others
      ],
    )

module _ {A M : Type 0} (reply : ℕ → A → Option M) (p : AgentPool A) (n : String) where
  -- From the position i on, a name that is `n` has an agent in the pool whose run there answers m.
  abbrev pub Answers : ℕ → List String → M → Type 0
  Answers i [] m = ⊥
  Answers i (name ∷ names) m =
      ((name ≡ n) × (a : A) × (lookup name p.agents ≡ some a) × (reply i a ≡ some m))
      ⊎ Answers (suc i) names m

  Gives-started :
      (i : ℕ) (names : List String) (m : M)
      → Gives n m (started reply i names p)
      → Answers i names m
  unfolding started get
  Gives-started i [] m h = h
  Gives-started i (name ∷ names) m h = elim (Option-cases (lookup name p.agents)) [
    | inl e ↦ inr (Gives-started (suc i) names m (rw (e, started, get) at h))
    | inr (a, e) ↦
        let split : ((name ≡ n) × (reply i a ≡ some m))
            ⊎ Gives n m (started reply (suc i) names p) =
          rw (e, started, get) at h in
        elim split [
          | inl (same_name, answer) ↦ inl (same_name, a, e, answer)
          | inr more ↦ inr (Gives-started (suc i) names m more)
        ]
  ]

  Gives-of_Answers :
      (i : ℕ) (names : List String) (m : M)
      → Answers i names m
      → Gives n m (started reply i names p)
  unfolding started get
  Gives-of_Answers i [] m h = h
  Gives-of_Answers i (name ∷ names) m (inl (same_name, a, e, answer)) =
      rw (e, started, get) (inl (same_name, answer))
  Gives-of_Answers i (name ∷ names) m (inr more) =
      let rest = Gives-of_Answers (suc i) names m more in
      elim (Option-cases (lookup name p.agents)) [
        | inl e ↦ rw (e, started, get) rest
        | inr (a, e) ↦ rw (e, started, get) (inr rest)
      ]

  -- In whatever order the agents finish, and where a name is listed twice too: a result under a name is what one of the
  -- runs of that name answered, and a name without a result had no run that answered.
  pub lookup-Execute :
      (names : List String) (results : List (String × M))
      → Execute reply names p results
      → ((m : M) → lookup n results ≡ some m → Answers 0 names m)
        × (lookup n results ≡ none → (m : M) → ¬ Answers 0 names m)
  unfolding lookup
  lookup-Execute names results e = (
    λ m h. elim (lookup-Finish n m (started reply 0 names p) [] results e h) [
      | inl given ↦ Gives-started 0 names m given
      | inr old ↦ ground (arith, old)
    ],
    λ h m answers.
        (lookup-Finish-none n (started reply 0 names p) [] results e h).1 m
          (Gives-of_Answers 0 names m answers),
  )
