-- ===== src/Operations/History.antt =====
-- Which records are kept.
use mathlib.Core.List.{append_assoc, append-nil}
use native.Mathlib.Nat.{zero-add, suc-add}
use kube_ops_agent.Base.{
  ltb, if◌then◌else◌, Bool-cases, length, drop, length-append, length-drop, ℕ, zero, suc, ◌+◌, ◌-◌,
  ◌≤◌, String, ◌≡◌, refl, sym, ap, ◌∙◌, inl, inr, true, false, List, [], ◌∷◌, ◌++◌, map, arith,
}
use kube_ops_agent.Operations.{
  ExecutionRecord, Manager, new_manager, max_records, filled, record_execution_record,
}

-- The last `n` elements.
abbrev pub latest {ℓ} : {A : Type ℓ} → ℕ → List A → List A
latest n xs = drop (length xs - n) xs

module _ {ℓ} {A : Type ℓ} where
  drop_of_length-le : (n : ℕ) (xs : List A) → length xs ≤ n → drop n xs ≡ []
  drop_of_length-le zero [] h = refl
  drop_of_length-le zero (x ∷ xs) h = absurd (omega arith)
  drop_of_length-le (suc n) [] h = refl
  drop_of_length-le (suc n) (x ∷ xs) h = drop_of_length-le n xs (omega arith)

  drop-append : (n : ℕ) (xs ys : List A) → n ≤ length xs → drop n (xs ++ ys) ≡ drop n xs ++ ys
  drop-append zero xs ys h = refl
  drop-append (suc n) [] ys h = absurd (omega arith)
  drop-append (suc n) (x ∷ xs) ys h = drop-append n xs ys (omega arith)

  drop_nil : (n : ℕ) → drop {A = A} n [] ≡ []
  drop_nil zero = refl
  drop_nil (suc n) = refl

  drop-suc_add : (k n : ℕ) (x : A) (xs : List A) → drop (suc k + n) (x ∷ xs) ≡ drop (k + n) xs
  drop-suc_add k n x xs = rw suc-add

  drop-drop : (n k : ℕ) (xs : List A) → drop n (drop k xs) ≡ drop (k + n) xs
  drop-drop n zero xs = rw zero-add
  drop-drop n (suc k) [] = drop_nil n ∙ sym (drop_nil (suc k + n))
  drop-drop n (suc k) (x ∷ xs) = drop-drop n k xs ∙ sym (drop-suc_add k n x xs)

  -- What the trimming does to the list of records and one more.
  abbrev trim : ℕ → List A → List A
  trim n xs = if ltb n (length xs) then drop (length xs - n) xs else xs

  trim-latest :
      (n : ℕ) (h : List A) (x : A) → trim n (latest n h ++ x ∷ []) ≡ latest n (h ++ x ∷ [])
  trim-latest n h x = elim (Bool-cases (ltb (length h) n)) [
    | inl room ↦
        let all : length h - n ≡ 0 = ground arith in
        let all' : length (h ++ x ∷ []) - n ≡ 0 = ground (arith, length-append h (x ∷ [])) in
        let fits : ltb n (length (h ++ x ∷ [])) ≡ false =
          ground (arith, length-append h (x ∷ [])) in
        rw (all, all', fits)
    | inr full ↦
        let cut : latest n h ++ x ∷ [] ≡ drop (length h - n) (h ++ x ∷ []) =
          sym (drop-append (length h - n) h (x ∷ []) (omega arith)) in
        let size : length (drop (length h - n) (h ++ x ∷ [])) ≡ n + 1 =
          ground (arith, length-drop (length h - n) (h ++ x ∷ []), length-append h (x ∷ [])) in
        let over : ltb n (n + 1) ≡ true = ground arith in
        let one : n + 1 - n ≡ 1 = omega arith in
        let total : length h - n + 1 ≡ length (h ++ x ∷ []) - n =
          ground (arith, length-append h (x ∷ [])) in
        rw (cut, size, over, one)
          (drop-drop 1 (length h - n) (h ++ x ∷ []) ∙ ap (λ k. drop k (h ++ x ∷ [])) total)
  ]

abbrev pub filled_record : (ℕ → String) → ExecutionRecord → ExecutionRecord
filled_record format r = filled format r.finished_at r

module _ (format : ℕ → String) where
  abbrev stored : ExecutionRecord → ExecutionRecord
  stored = filled_record format

  pub run : Manager → List ExecutionRecord → Manager
  run m [] = m
  run m (r ∷ rs) = run (record_execution_record format r m) rs

  -- The records of a manager hold the latest of a history.
  abbrev Holds : Manager → List ExecutionRecord → Type 0
  Holds m h = m.records ≡ latest max_records h

  record-Holds :
      (r : ExecutionRecord) (m : Manager) (h : List ExecutionRecord)
      → Holds m h
      → Holds (record_execution_record format r m) (h ++ stored r ∷ [])
  unfolding record_execution_record
  record-Holds r m h e = rw e (trim-latest max_records h (stored r))

  run-Holds :
      (rs : List ExecutionRecord) (m : Manager) (h : List ExecutionRecord)
      → Holds m h
      → Holds (run m rs) (h ++ map stored rs)
  unfolding run
  run-Holds [] m h e = rw (append-nil h) e
  run-Holds (r ∷ rs) m h e = rw (← append_assoc h (stored r ∷ []) (map stored rs)) (
      run-Holds rs (record_execution_record format r m) (h ++ stored r ∷ []) (record-Holds r m h e))

  -- A new manager to which a history of executions was recorded holds the latest 1000 of them, oldest
  -- first, each with its time filled in.
  pub run-latest :
      (rs : List ExecutionRecord)
      → (run new_manager rs).records ≡ latest max_records (map (filled_record format) rs)
  unfolding new_manager
  run-latest rs = run-Holds rs new_manager [] refl
