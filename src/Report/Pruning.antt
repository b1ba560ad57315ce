-- ===== src/Report/Pruning.antt =====
-- The pages of the list, and what pruning removes.
use mathlib.Core.List.{Perm}
use mathlib.Core.Path.{subst}
use kube_ops_agent.Base.{
  leb, ◌==◌, Bool-cases, length, take, drop, All, length-take, length-drop, take-append-drop, ℕ,
  zero, suc, ◌+◌, ◌≤◌, ◌<◌, ◌≡◌, refl, sym, ap, ◌≢◌, ◌⊎◌, inl, inr, Bool, false, Option, none, some,
  List, [], ◌∷◌, ◌++◌, map, arith,
}
use kube_ops_agent.Operations.{int_limit}
use kube_ops_agent.Operations.Pages.{page-take, drop_beyond}
use kube_ops_agent.Report.{
  Manager, Item, File, ok, Outside, items_of, list, newer, pruned_of, pruned,
}

module _ {P : Type 0} (out : Outside P) (m : Manager) where
  -- The items of a directory, sorted.
  abbrev pub sorted : List File → Option ℕ → Option ℕ → List (Item P)
  sorted files start end = out.sort newer (items_of out m start end files)

  -- For an offset and a limit whose sum is an `int`, the list of a directory that can be read is the page of its
  -- sorted items that starts at the offset and has at most `limit` items, with the number of all.
  pub list-page :
      (files : List File) (limit offset : ℕ) (start end : Option ℕ)
      → offset + limit < int_limit
      → list out m (ok files) limit offset start end
        ≡ some (
            ok (take limit (drop offset (sorted files start end)), length (sorted files start end)))
  unfolding list
  list-page files limit offset start end h =
      rw (list, page-take offset limit (sorted files start end) h) refl

  pruned_of-exact :
      (listed : ℕ) (files : List File)
      → m.max_reports ≢ 0
      → listed < int_limit
      → pruned_of out m listed (ok files)
        ≡ some (map (λ it. it.path) (drop m.max_reports (take listed (sorted files none none))))
  unfolding pruned_of
  pruned_of-exact listed files h le =
      let items = sorted files none none in
      let counted : (m.max_reports == 0) ≡ false = ground arith in
      let paged = list-page files listed 0 none none (omega arith) in
      elim (Bool-cases (leb (length items) m.max_reports)) [
        | inl few ↦
            let short : length (take listed items) ≤ m.max_reports =
              ground (arith, length-take listed items, few) in
            rw (counted, pruned_of, paged, few)
              (ap (λ xs. some (map (λ it. it.path) xs))
                (sym (drop_beyond m.max_reports (take listed items) short)))
        | inr many ↦ rw (counted, pruned_of, paged, many) refl
      ]

  -- Pruning removes, of the newest 10000 reports, those after the first `max_reports`, if that is not 0: no other
  -- report, and none of those that are older still.
  pruned-exact :
      (files : List File)
      → m.max_reports ≢ 0
      → pruned out m (ok files)
        ≡ some (map (λ it. it.path) (drop m.max_reports (take 10000 (sorted files none none))))
  unfolding pruned
  pruned-exact files h = pruned_of-exact 10000 files h (omega arith)

-- What sort.Slice promises of its result: no item belongs before one that it stands after.
abbrev pub IsSorted : {A : Type 0} → (A → A → Bool) → List A → Type 0
IsSorted less [] = Unit
IsSorted less (x ∷ xs) = All (λ y. less y x ≡ false) xs × IsSorted less xs

-- No item of the second list is newer than one of the first.
abbrev pub IsNotOlder : {P : Type 0} → List (Item P) → List (Item P) → Type 0
IsNotOlder xs ys = All (λ x. All (λ y. y.created_at ≤ x.created_at) ys) xs

All-drop : {A : Type 0} (Q : A → Type 0) (n : ℕ) (xs : List A) → All Q xs → All Q (drop n xs)
All-drop Q zero xs h = h
All-drop Q (suc n) [] h = h
All-drop Q (suc n) (x ∷ xs) h = All-drop Q n xs h.1

All-take : {A : Type 0} (Q : A → Type 0) (n : ℕ) (xs : List A) → All Q xs → All Q (take n xs)
All-take Q zero xs h = tt
All-take Q (suc n) [] h = tt
All-take Q (suc n) (x ∷ xs) h = (h.0, All-take Q n xs h.1)

All-bounded :
    {P : Type 0} (x : Item P) (ys : List (Item P))
    → All (λ y. newer y x ≡ false) ys
    → All (λ y. y.created_at ≤ x.created_at) ys
All-bounded x [] h = tt
All-bounded x (y ∷ ys) h = (ground (arith, h.0), All-bounded x ys h.1)

IsSorted-take :
    {P : Type 0} (n : ℕ) (xs : List (Item P)) → IsSorted newer xs → IsSorted newer (take n xs)
IsSorted-take zero xs h = tt
IsSorted-take (suc n) [] h = tt
IsSorted-take (suc n) (x ∷ xs) h =
    (All-take (λ y. newer y x ≡ false) n xs h.0, IsSorted-take n xs h.1)

IsNotOlder-split :
    {P : Type 0} (n : ℕ) (xs : List (Item P))
    → IsSorted newer xs
    → IsNotOlder (take n xs) (drop n xs)
IsNotOlder-split zero xs h = tt
IsNotOlder-split (suc n) [] h = tt
IsNotOlder-split (suc n) (x ∷ xs) h = (
  All-drop (λ y. y.created_at ≤ x.created_at) n xs (All-bounded x xs h.0),
  IsNotOlder-split n xs h.1,
)

module _ {P : Type 0} (out : Outside P) (m : Manager) where
  -- The reports that a pruning which lists so many keeps, removes and does not look at.
  pub record IsPruning (listed : ℕ) (files : List File) (kept removed beyond : List (Item P))
      : Type 0 where
    pub every : Perm ((kept ++ removed) ++ beyond) (items_of out m none none files)
    pub first : IsNotOlder kept removed
    pub last : IsNotOlder (kept ++ removed) beyond
    pub room : length kept ≤ m.max_reports
    pub full : (length removed ≡ 0) ⊎ (length kept ≡ m.max_reports)
    pub window : (length beyond ≡ 0) ⊎ (length (kept ++ removed) ≡ listed)

  split-IsPruning :
      (listed : ℕ) (files : List File)
      → Perm (sorted out m files none none) (items_of out m none none files)
      → IsSorted newer (sorted out m files none none)
      → let seen = take listed (sorted out m files none none) in
        IsPruning listed files
          (take m.max_reports seen)
          (drop m.max_reports seen)
          (drop listed (sorted out m files none none))
  split-IsPruning listed files perm order =
      let items = sorted out m files none none in
      let seen = take listed items in
      let whole : take m.max_reports seen ++ drop m.max_reports seen ≡ seen =
        take-append-drop m.max_reports seen in
      record {
        every =
            subst (λ xs. Perm (xs ++ drop listed items) (items_of out m none none files))
              (sym whole)
              (subst (λ xs. Perm xs (items_of out m none none files))
                (sym (take-append-drop listed items)) perm);
        first = IsNotOlder-split m.max_reports seen (IsSorted-take listed items order);
        last =
            subst (λ xs. IsNotOlder xs (drop listed items)) (sym whole)
              (IsNotOlder-split listed items order);
        room = ground (arith, length-take m.max_reports seen);
        full = ground (arith, length-take m.max_reports seen, length-drop m.max_reports seen);
        window =
            subst (λ xs. (length (drop listed items) ≡ 0) ⊎ (length xs ≡ listed)) (sym whole)
              (ground (arith, length-take listed items, length-drop listed items));
      }

  -- If the sort permutes the listed items and leaves none before a newer one, and `max_reports` is not 0: pruning removes
  -- exactly some reports none of which is newer than a report that it keeps; it keeps no more than `max_reports`, and so many
  -- if it removes any. It does not look at those beyond the newest 10000, none of which is newer than one of these.
  pub pruned-newest :
      (files : List File)
      → m.max_reports ≢ 0
      → Perm (sorted out m files none none) (items_of out m none none files)
      → IsSorted newer (sorted out m files none none)
      → (kept removed beyond : List (Item P)) × IsPruning 10000 files kept removed beyond
        × (pruned out m (ok files) ≡ some (map (λ it. it.path) removed))
  pruned-newest files h perm order =
      let items = sorted out m files none none in
      let seen = take 10000 items in
      (
        take m.max_reports seen,
        drop m.max_reports seen,
        drop 10000 items,
        split-IsPruning 10000 files perm order,
        pruned-exact out m files h,
      )
