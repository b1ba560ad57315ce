-- ===== src/Agent/Executor/Attempts.antt =====
-- The loop of Execute: when it ends, and what an error that it has met does.
use mathlib.Core.Path.{subst}
use kube_ops_agent.Base.{
  ltb, if◌then◌else◌, Bool-cases, Option-cases, length, ℕ, zero, suc, ◌+◌, String, ◌≡◌, refl, sym,
  ◌≢◌, inl, inr, Option, none, some, arith,
}
use kube_ops_agent.Agent.Cache.{AgentCache}
use kube_ops_agent.Agent.Cache.Invariant.{IsValid, get_or_create-EndsValid}
use kube_ops_agent.Agent.Executor.{
  Error, is_non_retryable_error, Meets, Vars, agent_for, reply_of, attempt, attempts, Outcome,
  interrupted, finished,
}

-- The executor has no cache, or a valid one.
abbrev pub HasValidCache : {A : Type 0} → Option (AgentCache A) → Type 0
HasValidCache none = Unit
HasValidCache (some c) = IsValid c

module _ {A Msg : Type 0} where
  abbrev pub HasError : Vars A Msg → Type 0
  HasError v = v.exec_err ≢ none

  -- The execution ends with an error.
  abbrev pub Fails : Outcome A Msg → Type 0
  Fails (interrupted v e) = Unit
  Fails (finished v) = HasError v

  reply_of-HasError :
      (meets : Meets A Msg) (v : Vars A Msg) (a : Option A)
      → HasError v
      → HasError (reply_of meets v a).0
  unfolding reply_of
  reply_of-HasError meets v a h = ground arith

  attempt-HasError :
      (name : String) (meets : Meets A Msg) (v v' : Vars A Msg) (r : Option Error)
      → attempt name meets v ≡ some (v', r)
      → HasError v
      → HasError v'
  unfolding attempt
  attempt-HasError name meets v v' r e h = ground arith

  -- An attempt that succeeds leaves `execErr` as it was.
  pub attempt-exec_err :
      (name : String) (meets : Meets A Msg) (v v' : Vars A Msg)
      → attempt name meets v ≡ some (v', none)
      → v'.exec_err ≡ v.exec_err
  unfolding attempt
  attempt-exec_err name meets v v' e = ground arith

  -- Once `execErr` is set, the loop ends with an error, if it ends.
  attempts-Fails :
      (left i : ℕ) (name : String) (slept : ℕ → Option Error) (meets : ℕ → Meets A Msg)
      (v : Vars A Msg) (o : Outcome A Msg)
      → HasError v
      → attempts name slept meets left i v ≡ some o
      → Fails o
  unfolding attempts
  attempts-Fails zero i name slept meets v o h e = ground arith
  attempts-Fails (suc left) i name slept meets v o h e =
      elim (Option-cases (attempt name (meets i) v)) [
        | inl stuck ↦ ground arith
        | inr ((v', none), e') ↦ ground (arith, attempt-HasError name (meets i) v v' none e' h)
        | inr ((v', some err), e') ↦
            let ih =
              attempts-Fails left (i + 1) name slept meets (record v' { exec_err = some err }) o in
            ground (arith, ih)
      ]

  -- After a first attempt that returns an error the execution ends with an error, if it ends,
  -- whatever a later attempt achieves.
  pub attempts-first_error :
      (left : ℕ) (name : String) (slept : ℕ → Option Error) (meets : ℕ → Meets A Msg)
      (v v' : Vars A Msg) (err : Error) (o : Outcome A Msg)
      → attempt name (meets 0) v ≡ some (v', some err)
      → attempts name slept meets (suc left) 0 v ≡ some o
      → Fails o
  unfolding attempts
  attempts-first_error left name slept meets v v' err o e h =
      let rest = attempts-Fails left 1 name slept meets (record v' { exec_err = some err }) o in
      ground (arith, rest)

  -- A first attempt that returns no error ends the loop.
  pub attempts-first_ok :
      (left : ℕ) (name : String) (slept : ℕ → Option Error) (meets : ℕ → Meets A Msg)
      (v v' : Vars A Msg)
      → attempt name (meets 0) v ≡ some (v', none)
      → attempts name slept meets (suc left) 0 v ≡ some (finished v')
  unfolding attempts
  attempts-first_ok left name slept meets v v' e = rw (e, attempts)

  agent_for-total :
      (name : String) (meets : Meets A Msg) (c : Option (AgentCache A))
      → name ≢ ""
      → HasValidCache c
      → (c' : Option (AgentCache A)) × (a : Option A) × (agent_for name meets c ≡ some (c', a))
        × HasValidCache c'
  unfolding agent_for
  agent_for-total name meets none named valid = (none, meets.built, refl, tt)
  agent_for-total name meets (some c) named valid =
      let (d, a, e, v, _) =
        get_or_create-EndsValid (suc (length c.entries)) meets.now name meets.built c named
          (omega arith) valid in
      (some d, a, rw (e, agent_for), v)

  reply_of-cache :
      (meets : Meets A Msg) (v : Vars A Msg) (a : Option A) → (reply_of meets v a).0.cache ≡ v.cache
  unfolding reply_of
  reply_of-cache meets v a = ground arith

  attempt-total :
      (name : String) (meets : Meets A Msg) (v : Vars A Msg)
      → name ≢ ""
      → HasValidCache v.cache
      → (v' : Vars A Msg) × (r : Option Error) × (attempt name meets v ≡ some (v', r))
        × HasValidCache v'.cache
  unfolding attempt
  attempt-total name meets v named valid = elim (Option-cases meets.slot_error) [
    | inr (e, h) ↦ (v, some e, rw (h, attempt), valid)
    | inl slot ↦ elim (Option-cases meets.worker) [
      | inr (m, h) ↦ (record v { result = some m }, none, rw (slot, h, attempt), valid)
      | inl idle ↦
          let (c, a, e, w) = agent_for-total name meets v.cache named valid in
          let left = reply_of meets (record v { cache = c }) a in
          (
            left.0,
            left.1,
            ground arith,
            subst HasValidCache (sym (reply_of-cache meets (record v { cache = c }) a)) w,
          )
    ]
  ]

  abbrev pub cache_of : Outcome A Msg → Option (AgentCache A)
  cache_of (interrupted v e) = v.cache
  cache_of (finished v) = v.cache

  -- With a valid cache or none, and a name that is not empty, the loop ends.
  pub attempts-total :
      (left i : ℕ) (name : String) (slept : ℕ → Option Error) (meets : ℕ → Meets A Msg)
      (v : Vars A Msg)
      → name ≢ ""
      → HasValidCache v.cache
      → (o : Outcome A Msg) × (attempts name slept meets left i v ≡ some o)
        × HasValidCache (cache_of o)
  unfolding attempts
  attempts-total zero i name slept meets v named valid = (finished v, refl, valid)
  attempts-total (suc left) i name slept meets v named valid =
      elim (Option-cases (if ltb 0 i then slept i else none)) [
        | inr (e, h) ↦ (interrupted v e, rw (h, attempts), valid)
        | inl awake ↦
            let (v', r, e, w) = attempt-total name (meets i) v named valid in
            elim (Option-cases r) [
              | inl ok ↦ (finished v', rw (awake, e, attempts, ok), w)
              | inr (err, bad) ↦
                  let next = record v' { exec_err = some err } in
                  elim (Bool-cases (is_non_retryable_error err)) [
                    | inl stop ↦ (finished next, rw (awake, e, attempts, bad, stop), w)
                    | inr retry ↦
                        let (o, h, u) = attempts-total left (i + 1) name slept meets next named w in
                        (o, rw (awake, e, attempts, bad, retry) h, u)
                  ]
            ]
      ]
