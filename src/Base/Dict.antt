-- ===== src/Base/Dict.antt =====
-- Go's `map[string]V` as an association list. The order of the list stands for the order in which
-- Go ranges over the map, which the language leaves open.
use Prim.Native.Nat.{◌+◌, ◌≤◌}
use Prim.Native.String.{String}
use mathlib.Core.Path.{◌≡◌, refl}
use mathlib.Core.Logic.{◌≢◌, ◌⊎◌, inl, inr, ite, if_pos, if_neg}
use mathlib.Core.Option.{Option, none, some}
use mathlib.Core.List.{List, [], ◌∷◌}
use native.Mathlib.Omega.{arith}
use kube_ops_agent.Base.Lists.{length}
use kube_ops_agent.Base.Tests.{str_dec}

module _ {ℓ} {V : Type ℓ} where
  -- `v, ok := m[k]`
  unfoldable pub lookup : String → List (String × V) → Option V
  lookup k [] = none
  lookup k ((j, v) ∷ m) = ite (str_dec k j) (some v) (lookup k m)

  -- `m[k] = v`
  unfoldable pub insert : String → V → List (String × V) → List (String × V)
  insert k v [] = (k, v) ∷ []
  insert k v ((j, w) ∷ m) = ite (str_dec k j) ((k, v) ∷ m) ((j, w) ∷ insert k v m)

  -- `delete(m, k)`
  unfoldable pub delete : String → List (String × V) → List (String × V)
  delete k [] = []
  delete k ((j, w) ∷ m) = ite (str_dec k j) (delete k m) ((j, w) ∷ delete k m)

  pub lookup-insert :
      (k j : String) (v : V) (m : List (String × V))
      → lookup j (insert k v m) ≡ ite (str_dec j k) (some v) (lookup j m)
  unfolding lookup insert
  lookup-insert k j v [] = refl
  lookup-insert k j v ((i, w) ∷ m) = ground (arith, lookup-insert k j v m)

  pub lookup-delete :
      (k j : String) (m : List (String × V))
      → lookup j (delete k m) ≡ ite (str_dec j k) none (lookup j m)
  unfolding lookup delete
  lookup-delete k j [] = ground arith
  lookup-delete k j ((i, w) ∷ m) = ground (arith, lookup-delete k j m)

  -- The key occurs in the map.
  abbrev pub HasKey : String → List (String × V) → Type 0
  HasKey k [] = ⊥
  HasKey k ((j, w) ∷ m) = (k ≡ j) ⊎ HasKey k m

  pub HasKey-insert :
      (k j : String) (v : V) (m : List (String × V))
      → HasKey j (insert k v m)
      → (j ≡ k) ⊎ HasKey j m
  unfolding insert
  HasKey-insert k j v [] h = ground arith
  HasKey-insert k j v ((i, w) ∷ m) h = ground (arith, HasKey-insert k j v m)

  pub HasKey-delete :
      (k j : String) (m : List (String × V)) → HasKey j (delete k m) → (j ≢ k) × HasKey j m
  unfolding delete
  HasKey-delete k j [] h = absurd h
  HasKey-delete k j ((i, w) ∷ m) h = ground (arith, HasKey-delete k j m)

  -- No key occurs twice, as in every Go map.
  abbrev pub HasDistinctKeys : List (String × V) → Type 0
  HasDistinctKeys [] = Unit
  HasDistinctKeys ((j, w) ∷ m) = (¬ HasKey j m) × HasDistinctKeys m

  pub HasDistinctKeys-insert :
      (k : String) (v : V) (m : List (String × V))
      → HasDistinctKeys m
      → HasDistinctKeys (insert k v m)
  unfolding insert
  HasDistinctKeys-insert k v [] d = (λ h. absurd h, tt)
  HasDistinctKeys-insert k v ((i, w) ∷ m) d = elim (str_dec k i) [
    | yes p ↦ rw (if_pos _ p, p) d
    | no p ↦
        rw (if_neg _ p)
          ((λ h. ground (arith, HasKey-insert k i v m h), HasDistinctKeys-insert k v m d.1))
  ]

  pub HasDistinctKeys-delete :
      (k : String) (m : List (String × V)) → HasDistinctKeys m → HasDistinctKeys (delete k m)
  unfolding delete
  HasDistinctKeys-delete k [] d = tt
  HasDistinctKeys-delete k ((i, w) ∷ m) d = elim (str_dec k i) [
    | yes p ↦ rw (if_pos _ p) (HasDistinctKeys-delete k m d.1)
    | no p ↦ rw (if_neg _ p) ((λ h. d.0 (HasKey-delete k i m h).1, HasDistinctKeys-delete k m d.1))
  ]

  pub length-insert :
      (k : String) (v : V) (m : List (String × V)) → length (insert k v m) ≤ length m + 1
  unfolding insert
  length-insert k v [] = omega arith
  length-insert k v ((i, w) ∷ m) = ground (arith, length-insert k v m)

  pub length-delete : (k : String) (m : List (String × V)) → length (delete k m) ≤ length m
  unfolding delete
  length-delete k [] = omega arith
  length-delete k ((i, w) ∷ m) = ground (arith, length-delete k m)

  -- Deleting a key that is there makes the map smaller.
  pub length-delete-HasKey :
      (k : String) (m : List (String × V)) → HasKey k m → length (delete k m) + 1 ≤ length m
  unfolding delete
  length-delete-HasKey k [] h = absurd h
  length-delete-HasKey k ((i, w) ∷ m) h =
      ground (arith, length-delete k m, length-delete-HasKey k m)

  pub lookup_of_not_HasKey : (k : String) (m : List (String × V)) → ¬ HasKey k m → lookup k m ≡ none
  unfolding lookup
  lookup_of_not_HasKey k [] h = refl
  lookup_of_not_HasKey k ((i, w) ∷ m) h = elim (str_dec k i) [
    | yes p ↦ absurd (h (inl p))
    | no p ↦ rw (if_neg _ p) (lookup_of_not_HasKey k m (λ q. h (inr q)))
  ]

  pub HasKey-of_lookup :
      (k : String) (v : V) (m : List (String × V)) → lookup k m ≡ some v → HasKey k m
  unfolding lookup
  HasKey-of_lookup k v [] e = cc
  HasKey-of_lookup k v ((i, w) ∷ m) e = elim (str_dec k i) [
    | yes p ↦ inl p
    | no p ↦ inr (HasKey-of_lookup k v m (ground arith))
  ]

  pub delete_of_not_HasKey : (k : String) (m : List (String × V)) → ¬ HasKey k m → delete k m ≡ m
  unfolding delete
  delete_of_not_HasKey k [] h = refl
  delete_of_not_HasKey k ((i, w) ∷ m) h = elim (str_dec k i) [
    | yes p ↦ absurd (h (inl p))
    | no p ↦ rw (if_neg _ p, delete_of_not_HasKey k m (λ q. h (inr q)))
  ]

  -- Where no key occurs twice, deleting a key that is there removes one entry.
  pub length-delete_distinct :
      (k : String) (m : List (String × V))
      → HasDistinctKeys m
      → HasKey k m
      → length (delete k m) + 1 ≡ length m
  unfolding delete
  length-delete_distinct k [] d h = absurd h
  length-delete_distinct k ((i, w) ∷ m) d h = elim (str_dec k i) [
    | yes p ↦ rw (if_pos _ p, delete_of_not_HasKey k m (λ q. d.0 (rw (← p) q))) (omega arith)
    | no p ↦ rw (if_neg _ p) (ground (arith, length-delete_distinct k m d.1))
  ]

  pub HasKey-of_insert :
      (k j : String) (v : V) (m : List (String × V)) → HasKey j m → HasKey j (insert k v m)
  unfolding insert
  HasKey-of_insert k j v [] h = absurd h
  HasKey-of_insert k j v ((i, w) ∷ m) h = ground (arith, HasKey-of_insert k j v m)

  pub HasKey-insert_self : (k : String) (v : V) (m : List (String × V)) → HasKey k (insert k v m)
  unfolding insert
  HasKey-insert_self k v [] = inl refl
  HasKey-insert_self k v ((i, w) ∷ m) = ground (arith, HasKey-insert_self k v m)

  -- Storing under a key that is there keeps the number of entries.
  pub length-insert-HasKey :
      (k : String) (v : V) (m : List (String × V)) → HasKey k m → length (insert k v m) ≡ length m
  unfolding insert
  length-insert-HasKey k v [] h = absurd h
  length-insert-HasKey k v ((i, w) ∷ m) h = ground (arith, length-insert-HasKey k v m)
