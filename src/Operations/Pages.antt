-- ===== src/Operations/Pages.antt =====
-- What a query answers.
use mathlib.Core.List.{reverse, reverse-cons, append-nil}
use native.Mathlib.Nat.{zero-add, suc-add, suc-mul, zero-mul}
use kube_ops_agent.Base.{
  length, take, drop, keep, length-drop, keep-append, ℕ, zero, suc, ◌+◌, ◌*◌, ◌≤◌, ◌<◌, ◌≡◌, refl,
  sym, ap, ◌∙◌, Bool, Option, none, some, List, [], ◌∷◌, ◌++◌, arith,
}
use kube_ops_agent.Operations.{
  ExecutionRecord, Manager, Query, passes, int_limit, page, get_history,
}

module _ {A : Type 0} where
  keep-reverse : (p : A → Bool) (xs : List A) → keep p (reverse xs) ≡ reverse (keep p xs)
  keep-reverse p [] = refl
  keep-reverse p (x ∷ xs) =
      rw (reverse-cons x xs, keep-append p (reverse xs) (x ∷ []), keep-reverse p xs)
        (ground (arith, reverse-cons x (keep p xs), append-nil (reverse (keep p xs))))

  pub take_nil : (n : ℕ) → take {A = A} n [] ≡ []
  take_nil zero = refl
  take_nil (suc n) = refl

  pub take_of_length-le : (n : ℕ) (xs : List A) → length xs ≤ n → take n xs ≡ xs
  take_of_length-le zero [] h = refl
  take_of_length-le zero (x ∷ xs) h = absurd (omega arith)
  take_of_length-le (suc n) [] h = refl
  take_of_length-le (suc n) (x ∷ xs) h = rw (take_of_length-le n xs (omega arith))

  pub drop_beyond : (n : ℕ) (xs : List A) → length xs ≤ n → drop n xs ≡ []
  drop_beyond zero [] h = refl
  drop_beyond zero (x ∷ xs) h = absurd (omega arith)
  drop_beyond (suc n) [] h = refl
  drop_beyond (suc n) (x ∷ xs) h = drop_beyond n xs (omega arith)

  pub page-take :
      (offset limit : ℕ) (xs : List A)
      → offset + limit < int_limit
      → page offset limit xs ≡ some (take limit (drop offset xs))
  unfolding page
  page-take offset limit xs h = ground (
    arith,
    take_nil limit,
    drop_beyond offset xs,
    take_of_length-le limit (drop offset xs),
    length-drop offset xs,
  )

-- For an offset and a limit whose sum is an `int`, a query does not panic; it answers with the page
-- of those records that pass the filters, newest first, that starts at the offset and has at most
-- `limit` records, and with the number of all that pass.
pub get_history-page :
    (q : Query) (limit offset : ℕ) (m : Manager)
    → offset + limit < int_limit
    → let matching = reverse (keep (passes q) m.records) in
      get_history q limit offset m ≡ some (take limit (drop offset matching), length matching)
unfolding get_history
get_history-page q limit offset m h =
    let same_list = keep-reverse (passes q) m.records in
    let matching = reverse (keep (passes q) m.records) in
    rw (get_history, same_list, page-take offset limit matching h)
      (ap (λ (l : List ExecutionRecord). some (take limit (drop offset matching), length l))
        same_list)

-- The pages of a query, one after the other.
pub walk : Query → ℕ → ℕ → Manager → Option (List ExecutionRecord)
walk q limit zero m = some []
walk q limit (suc n) m = elim (walk q limit n m) [
  | none ↦ none
  | some xs ↦ elim (get_history q limit (n * limit) m) [
    | none ↦ none
    | some (ys, _) ↦ some (xs ++ ys)
  ]
]

take-take-drop :
    {A : Type 0} (k l : ℕ) (xs : List A) → take k xs ++ take l (drop k xs) ≡ take (k + l) xs
take-take-drop zero l xs = rw zero-add
take-take-drop (suc k) l [] = take_nil l ∙ sym (take_nil (suc k + l))
take-take-drop (suc k) l (x ∷ xs) = rw suc-add (ap (◌∷◌ x) (take-take-drop k l xs))

walk-take :
    (q : Query) (limit n : ℕ) (m : Manager)
    → n * limit + limit < int_limit
    → walk q limit n m ≡ some (take (n * limit) (reverse (keep (passes q) m.records)))
unfolding walk
walk-take q limit zero m h = rw zero-mul
walk-take q limit (suc n) m h =
    let matching = reverse (keep (passes q) m.records) in
    let small : suc n * limit ≡ n * limit + limit = suc-mul n limit in
    let before = walk-take q limit n m (omega (arith, small)) in
    let here = get_history-page q limit (n * limit) m (omega (arith, small)) in
    rw (before, here, small) (ap some (take-take-drop (n * limit) limit matching))

-- Pages of one size, one after the other and as many as the matching records need, list every
-- matching record once, newest first, if no offset and limit on the way sum to more than an `int`.
pub walk-all :
    (q : Query) (limit n : ℕ) (m : Manager)
    → length (reverse (keep (passes q) m.records)) ≤ n * limit
    → n * limit + limit < int_limit
    → walk q limit n m ≡ some (reverse (keep (passes q) m.records))
walk-all q limit n m enough h =
    walk-take q limit n m h ∙ ap some (take_of_length-le (n * limit) _ enough)
