-- ===== src/Agent/Skills/Registered.antt =====
-- What the registry of a walk holds.
use mathlib.Core.Path.{subst}
use kube_ops_agent.Base.{
  ◌==◌, same, Bool-cases, Option-cases, All, insert, HasDistinctKeys, HasDistinctKeys-insert, ◌≤◌,
  String, ◌≡◌, refl, ◌≢◌, inl, inr, Bool, true, false, ◌&&◌, ◌||◌, Option, none, some, List, [],
  ◌∷◌, arith,
}
use kube_ops_agent.Agent.Spec.{Spec, Registry}
use kube_ops_agent.Agent.Skills.{
  Config, Result, Result-cases, ok, err, Entry, Decoders, spec_of, entered, visit, walk,
  new_file_registry,
}

-- What a registered spec has: its own name, which is not empty, and an interval, if that is asked for.
abbrev pub IsSound : Bool → String × Spec → Type 0
IsSound only e =
    (e.1.name ≡ e.0)
    × (e.0 ≢ "")
    × (e.1.skill_name ≡ e.0)
    × ((only ≡ true) → 1 ≤ e.1.interval_second)

abbrev pub IsSoundRegistry : Bool → Result Registry → Type 0
IsSoundRegistry only (err e) = Unit
IsSoundRegistry only (ok specs) = HasDistinctKeys specs × All (IsSound only) specs

All-insert :
    {A : Type 0} (P : String × A → Type 0) (k : String) (v : A) (m : List (String × A))
    → P (k, v)
    → All P m
    → All P (insert k v m)
unfolding insert
All-insert P k v [] h hs = (h, tt)
All-insert P k v ((j, w) ∷ m) h hs = ground (arith, All-insert P k v m h hs.1)

module _ {D : Type 0} (decode : Decoders D) (only : Bool) where
  spec_of-IsSound :
      (en : Entry D) (c : Config) (s : Spec)
      → spec_of decode only en c ≡ some s
      → IsSound only (s.name, s)
  unfolding spec_of
  spec_of-IsSound en c s h =
      elim (Bool-cases (same c.name "" || (same en.base "SKILL.md" && en.agent_yaml_beside))) [
        | inl passed ↦ ground (arith, passed)
        | inr named ↦ elim (Bool-cases (only && c.interval_second == 0)) [
          | inl never ↦ ground (arith, named, never)
          | inr timed ↦ (refl, ground arith, ground arith, λ o. ground arith)
        ]
      ]

  entered-IsSoundRegistry :
      (en : Entry D) (found : Result (Option Config)) (specs : Registry)
      → IsSoundRegistry only (ok specs)
      → IsSoundRegistry only (entered decode only en found specs)
  unfolding entered
  entered-IsSoundRegistry en (err e) specs h = tt
  entered-IsSoundRegistry en (ok none) specs h = h
  entered-IsSoundRegistry en (ok (some c)) specs h =
      elim (Option-cases (spec_of decode only en c)) [
        | inl passed ↦ rw (passed, entered) h
        | inr (s, made) ↦
            rw (made, entered)
              (
                HasDistinctKeys-insert s.name s specs h.0,
                All-insert (IsSound only) s.name s specs (spec_of-IsSound en c s made) h.1,
              )
      ]

  visit-IsSoundRegistry :
      (en : Entry D) (specs : Registry)
      → IsSoundRegistry only (ok specs)
      → IsSoundRegistry only (visit decode only en specs)
  unfolding visit
  visit-IsSoundRegistry en specs h = elim (Option-cases en.walk_error) [
    | inr (e, bad) ↦ rw (bad, visit) tt
    | inl fine ↦ elim (Bool-cases en.is_dir) [
      | inl dir ↦ rw (fine, visit, dir) h
      | inr file ↦ rw (fine, visit, file) (entered-IsSoundRegistry _ _ specs h)
    ]
  ]

  walk-IsSoundRegistry :
      (ens : List (Entry D)) (specs : Registry)
      → IsSoundRegistry only (ok specs)
      → IsSoundRegistry only (walk decode only ens specs)
  unfolding walk
  walk-IsSoundRegistry [] specs h = h
  walk-IsSoundRegistry (en ∷ ens) specs h =
      let one = visit-IsSoundRegistry en specs h in
      elim (Result-cases (visit decode only en specs)) [
        | inr (e, bad) ↦ rw (bad, walk) tt
        | inl (next, good) ↦ rw (good, walk) (walk-IsSoundRegistry ens next (rw good at one))
      ]

  new_file_registry-IsSoundRegistry :
      (skills_root : String) (root : Result Bool) (ens : List (Entry D))
      → IsSoundRegistry only (new_file_registry decode only skills_root root ens)
  unfolding new_file_registry
  new_file_registry-IsSoundRegistry skills_root (err e) ens = tt
  new_file_registry-IsSoundRegistry skills_root (ok false) ens = tt
  new_file_registry-IsSoundRegistry skills_root (ok true) ens = walk-IsSoundRegistry ens [] (tt, tt)

  -- Whatever the skill directories hold, a registry that is built has each spec once, under its own name, which is not
  -- empty, and with a positive interval where only those are asked for. The skill's name of a spec is always its agent's
  -- name, so that a name of its own in the skill's file is lost.
  pub new_file_registry-IsSound :
      (skills_root : String) (root : Result Bool) (ens : List (Entry D)) (specs : Registry)
      → new_file_registry decode only skills_root root ens ≡ ok specs
      → HasDistinctKeys specs × All (IsSound only) specs
  new_file_registry-IsSound skills_root root ens specs h =
      subst (IsSoundRegistry only) h (new_file_registry-IsSoundRegistry skills_root root ens)
