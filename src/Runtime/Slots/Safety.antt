-- ===== src/Runtime/Slots/Safety.antt =====
-- The bound on concurrent agents, under every interleaving.
use mathlib.Core.Path.{subst}
use kube_ops_agent.Base.{
  same, length, keep, length-append, delete, HasKey, HasKey-insert, HasKey-delete, HasDistinctKeys,
  HasDistinctKeys-insert, HasDistinctKeys-delete, ℕ, ◌+◌, ◌≤◌, String, ◌≡◌, refl, sym, ap, ◌≢◌, ◌↔◌,
  ◌⊎◌, inl, inr, Bool, true, false, not, List, [], ◌∷◌, ◌++◌, arith,
}
use kube_ops_agent.Runtime.Config.{ProductionConfig}
use kube_ops_agent.Runtime.Slots.{
  Phase, entered, running, finished, Holder, Controller, new_concurrency_controller, at, Step,
  acquire, register, unregister, release, Reach, here, next, active_agent_count,
}

-- A goroutine runs the callback under this name.
abbrev pub Runs : String → List Holder → Type 0
Runs k [] = ⊥
Runs k (h ∷ hs) = ((h.name ≡ k) × (h.phase ≡ running)) ⊎ Runs k hs

Runs-append : (k : String) (xs ys : List Holder) → Runs k (xs ++ ys) ↔ (Runs k xs ⊎ Runs k ys)
Runs-append k [] ys = (λ h. inr h, λ h. ground arith)
Runs-append k (x ∷ xs) ys =
    let ih = Runs-append k xs ys in (λ h. ground (arith, ih.0), λ h. ground (arith, ih.1))

-- Where one goroutine is replaced, what ran still runs, unless that one did.
Runs-replace :
    (k : String) (xs ys zs : List Holder) (h : Holder)
    → Runs k (xs ++ h ∷ ys)
    → (Runs k (h ∷ []) → Runs k zs)
    → Runs k (xs ++ (zs ++ ys))
Runs-replace k xs ys zs h r f = ground (
  arith,
  (Runs-append k xs (h ∷ ys)).0 r,
  (Runs-append k xs (zs ++ ys)).1,
  (Runs-append k zs ys).1,
  f,
)

pub record IsValid (cap : ℕ) (c : Controller) : Type 0 where
  pub capacity : c.capacity ≡ cap
  pub counted : c.in_use ≡ length c.holders
  pub bounded : c.in_use ≤ c.capacity
  pub distinct : HasDistinctKeys c.active_agents
  pub covered : (k : String) → HasKey k c.active_agents → Runs k c.holders

length-replace :
    (xs ys : List Holder) (h h' : Holder) → length (xs ++ h ∷ ys) ≡ length (xs ++ h' ∷ ys)
length-replace xs ys h h' = rw (length-append, length-append) refl

-- The goroutine `h` of `c` becomes those of `zs`, and no name that was active lost its goroutine.
covered_after :
    (c : Controller) (xs ys zs : List Holder) (h : Holder) (k : String)
    → c.holders ≡ xs ++ h ∷ ys
    → Runs k c.holders
    → (Runs k (h ∷ []) → Runs k zs)
    → Runs k (xs ++ (zs ++ ys))
covered_after c xs ys zs h k e r f = Runs-replace k xs ys zs h (subst (Runs k) e r) f

Step-IsValid : {cap : ℕ} {c d : Controller} → Step c d → IsValid cap c → IsValid cap d
Step-IsValid {c} {d} (acquire name free e) v = rw e (record {
  capacity = v.capacity;
  counted = omega (arith, v.counted);
  bounded = omega arith;
  distinct = v.distinct;
  covered = λ k h. inr (v.covered k h);
})
Step-IsValid {c} {d} (register name xs ys e e') v = rw e' (record {
  capacity = v.capacity;
  counted =
      omega
        (arith, v.counted, ap length e, length-replace xs ys (at name entered) (at name running));
  bounded = v.bounded;
  distinct = HasDistinctKeys-insert name tt c.active_agents v.distinct;
  covered = λ k h. elim (HasKey-insert name k tt c.active_agents h) [
    | inl own ↦ (Runs-append k xs (at name running ∷ ys)).1 (inr (inl (sym own, refl)))
    | inr old ↦
        covered_after c xs ys (at name running ∷ []) (at name entered) k e (v.covered k old)
          (λ r. ground arith)
  ];
})
Step-IsValid {c} {d} (unregister name xs ys e e') v = rw e' (record {
  capacity = v.capacity;
  counted =
      omega
        (arith, v.counted, ap length e, length-replace xs ys (at name running) (at name finished));
  bounded = v.bounded;
  distinct = HasDistinctKeys-delete name c.active_agents v.distinct;
  covered = λ k h.
      let (other, old) = HasKey-delete name k c.active_agents h in
      covered_after c xs ys (at name finished ∷ []) (at name running) k e (v.covered k old)
        (λ r. ground arith);
})
Step-IsValid {c} {d} (release name xs ys e e') v = rw e' (record {
  capacity = v.capacity;
  counted = omega (
    arith,
    v.counted,
    ap length e,
    length-append xs (at name finished ∷ ys),
    length-append xs ys,
  );
  bounded = omega (arith, v.bounded);
  distinct = v.distinct;
  covered =
      λ k h. covered_after c xs ys [] (at name finished) k e (v.covered k h) (λ r. ground arith);
})

Reach-IsValid : {cap : ℕ} {c d : Controller} → IsValid cap c → Reach c d → IsValid cap d
Reach-IsValid v here = v
Reach-IsValid v (next r st) = Step-IsValid st (Reach-IsValid v r)

new-IsValid :
    (cfg : ProductionConfig) → IsValid cfg.max_concurrent_agents (new_concurrency_controller cfg)
unfolding new_concurrency_controller
new-IsValid cfg = record {
  capacity = refl;
  counted = refl;
  bounded = omega arith;
  distinct = tt;
  covered = λ k h. absurd h;
}

abbrev pub is_running : Phase → Bool
is_running entered = false
is_running running = true
is_running finished = false

abbrev pub runners : List Holder → List Holder
runners hs = keep (λ h. is_running h.phase) hs

without : String → List Holder → List Holder
without k hs = keep (λ h. not (same h.name k)) hs

Runs-without : (j k : String) (hs : List Holder) → j ≢ k → Runs j hs → Runs j (without k hs)
unfolding without
Runs-without j k [] ne r = absurd r
Runs-without j k (h ∷ hs) ne r = ground (arith, Runs-without j k hs ne)

length-runners-without-le :
    (k : String) (hs : List Holder) → length (runners (without k hs)) ≤ length (runners hs)
unfolding without
length-runners-without-le k [] = omega arith
length-runners-without-le k (h ∷ hs) = ground (arith, length-runners-without-le k hs)

length-runners-without :
    (k : String) (hs : List Holder)
    → Runs k hs
    → length (runners (without k hs)) + 1 ≤ length (runners hs)
unfolding without
length-runners-without k [] r = absurd r
length-runners-without k (h ∷ hs) r =
    ground (arith, length-runners-without k hs, length-runners-without-le k hs)

length-keys-le :
    (m : List (String × Unit {0})) (hs : List Holder)
    → HasDistinctKeys m
    → ((k : String) → HasKey k m → Runs k hs)
    → length m ≤ length (runners hs)
length-keys-le [] hs d f = omega arith
length-keys-le ((k, _) ∷ m) hs d f =
    let rest =
      length-keys-le m (without k hs) d.1
        (λ j h. Runs-without j k hs (λ e. d.0 (rw (← e) h)) (f j (inr h))) in
    omega (arith, length-runners-without k hs (f k (inl refl)))

-- Whatever the interleaving, the goroutines between acquiring and releasing a slot are as many as
-- the slots in use and never more than the capacity, every name among the active agents belongs to
-- one that runs the callback, and the active agents are never more than these.
pub Reach-bounded :
    (cfg : ProductionConfig) {c : Controller}
    → Reach (new_concurrency_controller cfg) c
    → (length c.holders ≡ c.in_use)
      × (c.in_use ≤ cfg.max_concurrent_agents)
      × ((k : String) → HasKey k c.active_agents → Runs k c.holders)
      × (active_agent_count c ≤ length (runners c.holders))
unfolding active_agent_count
Reach-bounded cfg {c} r =
    let v = Reach-IsValid (new-IsValid cfg) r in
    (
      sym v.counted,
      omega (arith, v.bounded, v.capacity),
      v.covered,
      length-keys-le c.active_agents c.holders v.distinct v.covered,
    )

-- When one of two goroutines that run an agent of the same name leaves its callback, the name is no
-- longer among the active agents, although the other goroutine still runs it.
pub unregister_shared :
    {c d : Controller} (name : String) (xs ys : List Holder)
    → c.holders ≡ xs ++ at name running ∷ ys
    → d ≡ record c {
      active_agents = delete name c.active_agents;
      holders = xs ++ at name finished ∷ ys;
    }
    → Runs name (xs ++ ys)
    → Step c d × (¬ HasKey name d.active_agents) × Runs name d.holders
unregister_shared {c} {d} name xs ys e e' r = (
  unregister name xs ys e e',
  rw e' (λ h. (HasKey-delete name name c.active_agents h).0 refl),
  rw e' (
      ground
        (arith, (Runs-append name xs ys).0 r, (Runs-append name xs (at name finished ∷ ys)).1)),
)
