-- ===== src/Agent/Cache/Lookups.antt =====
-- What `GetOrCreate` answers and counts.
use kube_ops_agent.Base.{
  leb, if◌then◌else◌, Bool-cases, Option-cases, str_dec, length, lookup, delete, ℕ, zero, suc, ◌+◌,
  String, ◌≡◌, refl, ◌≢◌, inl, inr, if_neg, true, Option, none, some, [], ◌∷◌, arith,
}
use kube_ops_agent.Agent.Cache.{
  CachedAgent, AgentCache, oldest, evict_oldest, make_room, create_entry, is_expired, get_or_create,
}

module _ {ℓ} {A : Type ℓ} where
  -- How many lookups a call counts: two where it finds an expired entry.
  abbrev pub counted : ℕ → String → AgentCache A → ℕ
  counted now key c = elim (lookup key c.entries) [
    | none ↦ 1
    | some ent ↦ if is_expired now c ent then 2 else 1
  ]

  make_room-counts :
      (fuel : ℕ) (c d : AgentCache A)
      → make_room fuel c ≡ some d
      → (d.hits ≡ c.hits) × (d.misses ≡ c.misses)
  unfolding make_room evict_oldest
  make_room-counts zero c d e = cc
  make_room-counts (suc fuel) c d e = elim (Bool-cases (leb c.max_size (length c.entries))) [
    | inr space ↦ ground arith
    | inl full ↦ ground (arith, make_room-counts fuel (evict_oldest c) d)
  ]

  create_entry-counts :
      (fuel now : ℕ) (key : String) (create : Option A) (c d : AgentCache A) (answer : Option A)
      → create_entry fuel now key create c ≡ some (d, answer)
      → (d.hits ≡ c.hits) × (d.misses ≡ c.misses + 1)
  unfolding create_entry
  create_entry-counts fuel now key none c d answer e = ground arith
  create_entry-counts fuel now key (some a) c d answer e =
      let start = record c { misses = c.misses + 1 } in
      elim (Option-cases (make_room fuel start)) [
        | inl stuck ↦ cc (rw (stuck, create_entry) at e)
        | inr (r, made) ↦ ground (arith, make_room-counts fuel start r made)
      ]

  -- Every call that returns counts one lookup, a hit or a miss, but two misses where it finds an
  -- expired entry; only there do the two counters sum to more than the calls.
  pub get_or_create-counted :
      (fuel now : ℕ) (key : String) (create : Option A) (c d : AgentCache A) (answer : Option A)
      → get_or_create fuel now key create c ≡ some (d, answer)
      → d.hits + d.misses ≡ c.hits + c.misses + counted now key c
  unfolding get_or_create
  get_or_create-counted fuel now key create c d answer e = ground (
    arith,
    create_entry-counts fuel now key create c d answer,
    create_entry-counts fuel now key create
        (record c { entries = delete key c.entries; misses = c.misses + 1 }) d answer,
  )

  -- A hit that has not expired returns the stored agent, whatever the factory would return, and
  -- any other call returns the factory's answer.
  pub get_or_create-answer :
      (fuel now : ℕ) (key : String) (create : Option A) (c d : AgentCache A) (answer : Option A)
      → get_or_create fuel now key create c ≡ some (d, answer)
      → answer ≡ elim (lookup key c.entries) [
        | none ↦ create
        | some ent ↦ if is_expired now c ent then create else some ent.agent
      ]
  unfolding get_or_create
  get_or_create-answer fuel now key create c d answer e = ground arith

  evict_oldest_stuck :
      (c : AgentCache A) (v : CachedAgent A) → c.entries ≡ ("", v) ∷ [] → evict_oldest c ≡ c
  unfolding evict_oldest oldest str_dec
  evict_oldest_stuck c v e = rw e refl

  make_room_stuck :
      (fuel : ℕ) (c : AgentCache A) (v : CachedAgent A)
      → c.max_size ≡ 1
      → c.entries ≡ ("", v) ∷ []
      → make_room fuel c ≡ none
  unfolding make_room
  make_room_stuck zero c v one e = refl
  make_room_stuck (suc fuel) c v one e =
      let full : leb c.max_size (length c.entries) ≡ true = rw (one, e) refl in
      rw (full, evict_oldest_stuck c v e) (make_room_stuck fuel c v one e)

  -- A cache of one place that holds the empty key makes room for ever: no fuel is enough.
  pub get_or_create_stuck :
      (fuel now : ℕ) (key : String) (a : A) (c : AgentCache A) (v : CachedAgent A)
      → c.max_size ≡ 1
      → c.entries ≡ ("", v) ∷ []
      → key ≢ ""
      → get_or_create fuel now key (some a) c ≡ none
  unfolding get_or_create lookup
  get_or_create_stuck fuel now key a c v one e h =
      let absent : lookup key c.entries ≡ none = rw e (if_neg (str_dec key "") h _ _) in
      rw
        (
          absent,
          get_or_create,
          create_entry,
          make_room_stuck fuel (record c { misses = c.misses + 1 }) v one e,
        )
        refl
