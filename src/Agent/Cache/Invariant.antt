-- ===== src/Agent/Cache/Invariant.antt =====
-- The cache's invariant, and that every operation ends and keeps it.
use kube_ops_agent.Base.{
  Bool-cases, Option-cases, length, All, lookup, insert, delete, HasKey, HasDistinctKeys,
  HasDistinctKeys-insert, HasDistinctKeys-delete, length-insert, length-delete,
  length-insert-HasKey, HasKey-of_lookup, ℕ, suc, ◌+◌, ◌*◌, ◌≤◌, ◌<◌, String, ◌≡◌, refl, ◌≢◌, inl,
  inr, Option, none, some, List, [], ◌∷◌, arith,
}
use kube_ops_agent.Agent.Cache.{
  CachedAgent, AgentCache, new_agent_cache, create_entry, is_expired, get_or_create, remove, clear,
  cleanup, cleanup_idle,
}
use kube_ops_agent.Agent.Cache.Eviction.{
  NamesEntries, NamesEntries-insert, NamesEntries-delete, make_room-HasRoom,
}
use kube_ops_agent.Runtime.Config.{second}

pub record IsValid {ℓ} {A : Type ℓ} (c : AgentCache A) : Type ℓ where
  pub positive : 0 < c.max_size
  pub bounded : length c.entries ≤ c.max_size
  pub named : NamesEntries c.entries
  pub distinct : HasDistinctKeys c.entries

module _ {ℓ} {A : Type ℓ} where
  -- A call that ends with a valid cache of the same bound.
  abbrev pub EndsValid : AgentCache A → Option (AgentCache A × Option A) → Type ℓ
  EndsValid c r =
      (d : AgentCache A) × (answer : Option A) × (r ≡ some (d, answer))
      × IsValid d
      × (d.max_size ≡ c.max_size)

  create_entry-EndsValid :
      (fuel now : ℕ) (key : String) (create : Option A) (c : AgentCache A)
      → key ≢ ""
      → length c.entries < fuel
      → IsValid c
      → EndsValid c (create_entry fuel now key create c)
  unfolding create_entry
  create_entry-EndsValid fuel now key none c h f v =
      (record c { misses = c.misses + 1 }, none, refl, ground arith, refl)
  create_entry-EndsValid fuel now key (some a) c h f v =
      let (d, made, r) =
        make_room-HasRoom fuel (record c { misses = c.misses + 1 }) f v.positive v.named
          v.distinct in
      let ent : CachedAgent A = record {
        agent = a;
        created_at = now;
        last_used = now;
        use_count = 1;
      } in
      (
        record d { entries = insert key ent d.entries },
        some a,
        rw (made, create_entry),
        record {
          positive = omega (arith, r.same_size, v.positive);
          bounded = omega (arith, r.room, length-insert key ent d.entries);
          named = NamesEntries-insert key ent d.entries h r.named;
          distinct = HasDistinctKeys-insert key ent d.entries r.distinct;
        },
        r.same_size,
      )

  -- On a valid cache and a key that is not empty, `GetOrCreate` returns with fuel for one round
  -- more than there are entries, and it leaves a valid cache of the same bound: never more entries
  -- than the bound, no key twice and no empty key.
  pub get_or_create-EndsValid :
      (fuel now : ℕ) (key : String) (create : Option A) (c : AgentCache A)
      → key ≢ ""
      → length c.entries < fuel
      → IsValid c
      → EndsValid c (get_or_create fuel now key create c)
  unfolding get_or_create
  get_or_create-EndsValid fuel now key create c h f v = elim (Option-cases (lookup key c.entries)) [
    | inl absent ↦ rw (absent, get_or_create) (create_entry-EndsValid fuel now key create c h f v)
    | inr (ent, found) ↦
        let there = HasKey-of_lookup key ent c.entries found in
        elim (Bool-cases (is_expired now c ent)) [
          | inl old ↦
              let shorter = length-delete key c.entries in
              rw (found, get_or_create, old)
                (create_entry-EndsValid fuel now key create
                  (record c { entries = delete key c.entries; misses = c.misses + 1 }) h
                  (omega arith)
                  (record {
                    positive = v.positive;
                    bounded = omega (arith, v.bounded);
                    named = NamesEntries-delete key c.entries v.named;
                    distinct = HasDistinctKeys-delete key c.entries v.distinct;
                  }))
          | inr fresh ↦
              let used = record ent { last_used = now; use_count = ent.use_count + 1 } in
              (
                record c { entries = insert key used c.entries; hits = c.hits + 1 },
                some ent.agent,
                rw (found, get_or_create, fresh),
                record {
                  positive = v.positive;
                  bounded = omega (arith, v.bounded, length-insert-HasKey key used c.entries there);
                  named = NamesEntries-insert key used c.entries h v.named;
                  distinct = HasDistinctKeys-insert key used c.entries v.distinct;
                },
                refl,
              )
        ]
  ]

  remove-IsValid : (key : String) (c : AgentCache A) → IsValid c → IsValid (remove key c).0
  unfolding remove
  remove-IsValid key c v = elim (Option-cases (lookup key c.entries)) [
    | inl absent ↦ rw (absent, remove) v
    | inr (ent, found) ↦
        rw (found, remove)
          (record {
            positive = v.positive;
            bounded = omega (arith, v.bounded, length-delete key c.entries);
            named = NamesEntries-delete key c.entries v.named;
            distinct = HasDistinctKeys-delete key c.entries v.distinct;
          })
  ]

  HasKey-cleanup :
      (now limit : ℕ) (k : String) (m : List (String × CachedAgent A))
      → HasKey k (cleanup now limit m).0
      → HasKey k m
  unfolding cleanup
  HasKey-cleanup now limit k [] h = h
  HasKey-cleanup now limit k ((j, v) ∷ m) h = ground (arith, HasKey-cleanup now limit k m)

  cleanup-entries :
      (now limit : ℕ) (m : List (String × CachedAgent A))
      → NamesEntries m
      → HasDistinctKeys m
      → let r = cleanup now limit m in
        NamesEntries r.0 × HasDistinctKeys r.0 × (length r.0 + r.1 ≡ length m)
  unfolding cleanup
  cleanup-entries now limit [] n d = (tt, tt, omega arith)
  cleanup-entries now limit ((j, v) ∷ m) n d =
      let ih = cleanup-entries now limit m n.1 d.1 in
      let fresh : ¬ HasKey j (cleanup now limit m).0 = λ h. d.0 (HasKey-cleanup now limit j m h) in
      ground (arith, ih, n.0, fresh)

  cleanup_idle-IsValid :
      (now : ℕ) (c : AgentCache A)
      → IsValid c
      → IsValid (cleanup_idle now c).0
        × (length (cleanup_idle now c).0.entries + (cleanup_idle now c).1 ≡ length c.entries)
  unfolding cleanup_idle
  cleanup_idle-IsValid now c v =
      let (n, d, e) = cleanup-entries now (c.idle_sec * second) c.entries v.named v.distinct in
      (
        record {
          positive = v.positive;
          bounded = omega (arith, v.bounded);
          named = n;
          distinct = d;
        },
        e,
      )

  new_agent_cache-IsValid :
      (max_size ttl_sec idle_sec : ℕ) → IsValid (new_agent_cache {A = A} max_size ttl_sec idle_sec)
  unfolding new_agent_cache
  new_agent_cache-IsValid max_size ttl_sec idle_sec = ground arith

-- A call of the cache by its users, at the time `now`.
pub data Call {ℓ} (A : Type ℓ) : Type ℓ where
  get : (now : ℕ) (key : String) (create : Option A) → Call A
  drop_key : (key : String) → Call A
  drop_all : Call A
  drop_idle : (now : ℕ) → Call A

module _ {ℓ} {A : Type ℓ} where
  -- A run with the fuel that `get_or_create-EndsValid` asks for; `none` if a call does not end.
  unfoldable pub run : AgentCache A → List (Call A) → Option (AgentCache A)
  run c [] = some c
  run c (get now key create ∷ cs) = elim (get_or_create (suc (length c.entries)) now key create c) [
    | none ↦ none
    | some (d, _) ↦ run d cs
  ]
  run c (drop_key key ∷ cs) = run (remove key c).0 cs
  run c (drop_all ∷ cs) = run (clear c) cs
  run c (drop_idle now ∷ cs) = run (cleanup_idle now c).0 cs

  abbrev pub IsNamed : Call A → Type 0
  IsNamed (get now key create) = key ≢ ""
  IsNamed (drop_key key) = Unit
  IsNamed drop_all = Unit
  IsNamed (drop_idle now) = Unit

  run_from-IsValid :
      (cs : List (Call A)) (c : AgentCache A)
      → All IsNamed cs
      → IsValid c
      → (d : AgentCache A) × (run c cs ≡ some d) × IsValid d
  unfolding run clear
  run_from-IsValid [] c h v = (c, refl, v)
  run_from-IsValid (get now key create ∷ cs) c (h, hs) v =
      let (d, answer, e, w, _) =
        get_or_create-EndsValid (suc (length c.entries)) now key create c h (omega arith) v in
      rw (e, run) (run_from-IsValid cs d hs w)
  run_from-IsValid (drop_key key ∷ cs) c (h, hs) v =
      run_from-IsValid cs _ hs (remove-IsValid key c v)
  run_from-IsValid (drop_all ∷ cs) c (h, hs) v = run_from-IsValid cs _ hs (ground arith)
  run_from-IsValid (drop_idle now ∷ cs) c (h, hs) v =
      run_from-IsValid cs _ hs (cleanup_idle-IsValid now c v).0

  -- From a new cache, every sequence of calls that asks for no empty key returns and leaves a valid
  -- cache.
  pub run-IsValid :
      (max_size ttl_sec idle_sec : ℕ) (cs : List (Call A))
      → All IsNamed cs
      → (d : AgentCache A) × (run (new_agent_cache max_size ttl_sec idle_sec) cs ≡ some d)
        × IsValid d
  run-IsValid max_size ttl_sec idle_sec cs h =
      run_from-IsValid cs _ h (new_agent_cache-IsValid max_size ttl_sec idle_sec)
