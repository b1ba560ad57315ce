-- ===== src/Agent/Cache/Eviction.antt =====
-- What eviction removes, and that making room ends.
use mathlib.Core.Path.{subst}
use kube_ops_agent.Base.{
  leb, Bool-cases, str_dec, length, All, lookup, insert, delete, HasDistinctKeys,
  HasDistinctKeys-delete, length-delete_distinct, HasKey-of_lookup, ℕ, zero, suc, ◌+◌, ◌≤◌, ◌<◌,
  String, ◌≡◌, refl, sym, ap, ◌≢◌, ◌⊎◌, inl, inr, if_neg, some, List, [], ◌∷◌, arith,
}
use kube_ops_agent.Agent.Cache.{CachedAgent, AgentCache, oldest, evict_oldest, make_room}

module _ {ℓ} {A : Type ℓ} where
  abbrev pub NamesEntries : List (String × CachedAgent A) → Type 0
  NamesEntries m = All (λ e. e.0 ≢ "") m

  -- The map has an entry with this key that was last used at this time.
  abbrev pub LastUsed : String × ℕ → List (String × CachedAgent A) → Type 0
  LastUsed best [] = ⊥
  LastUsed best ((k, v) ∷ m) = ((best.0 ≡ k) × (best.1 ≡ v.last_used)) ⊎ LastUsed best m

  abbrev pub IsOldest : ℕ → List (String × CachedAgent A) → Type 0
  IsOldest t m = All (λ e. t ≤ e.1.last_used) m

  oldest_from :
      (best : String × ℕ) (m : List (String × CachedAgent A))
      → best.0 ≢ ""
      → NamesEntries m
      → let r = oldest best m in
        (r.0 ≢ "") × (r.1 ≤ best.1) × IsOldest r.1 m × ((r ≡ best) ⊎ LastUsed r m)
  unfolding oldest
  oldest_from best [] h n = (h, omega arith, tt, inl refl)
  oldest_from best ((k, v) ∷ m) h (nk, n) =
      ground (arith, oldest_from best m h n, oldest_from (k, v.last_used) m nk n)

  lookup_of_LastUsed :
      (best : String × ℕ) (m : List (String × CachedAgent A))
      → HasDistinctKeys m
      → LastUsed best m
      → (v : CachedAgent A) × (lookup best.0 m ≡ some v) × (v.last_used ≡ best.1)
  unfolding lookup
  lookup_of_LastUsed best [] d h = absurd h
  lookup_of_LastUsed best ((k, v) ∷ m) d (inl h) = (v, ground arith, ground arith)
  lookup_of_LastUsed best ((k, v) ∷ m) d (inr h) =
      let (w, found, time) = lookup_of_LastUsed best m d.1 h in
      let other : best.0 ≢ k = λ e. d.0 (rw (← e) (HasKey-of_lookup best.0 w m found)) in
      (w, rw (if_neg _ other) found, time)

  -- On a map with no empty key the loop finds an entry with the least time of use.
  pub oldest-IsOldest :
      (m : List (String × CachedAgent A))
      → m ≢ []
      → NamesEntries m
      → HasDistinctKeys m
      → let r = oldest ("", 0) m in
        (r.0 ≢ "") × ((v : CachedAgent A) × (lookup r.0 m ≡ some v) × IsOldest v.last_used m)
  unfolding oldest str_dec
  oldest-IsOldest [] h n d = absurd (h refl)
  oldest-IsOldest ((k, v) ∷ m) h (nk, n) d =
      let (named, le, least, found) = oldest_from (k, v.last_used) m nk n in
      let best = oldest (k, v.last_used) m in
      let there : LastUsed best ((k, v) ∷ m) = ground (arith, found) in
      let (w, e, time) = lookup_of_LastUsed best ((k, v) ∷ m) d there in
      (named, (w, e, subst (λ t. IsOldest t ((k, v) ∷ m)) (sym time) (le, least)))

  abbrev pub Evicts : AgentCache A → Type ℓ
  Evicts c =
      (k : String) × (v : CachedAgent A) × (lookup k c.entries ≡ some v)
      × IsOldest v.last_used c.entries
      × (evict_oldest c ≡ record c { entries = delete k c.entries; evictions = c.evictions + 1 })

  -- From a cache that is not empty, has no empty key and no key twice, eviction removes the entry
  -- of one key, one that was used least recently, and counts it.
  pub evict_oldest-Evicts :
      (c : AgentCache A)
      → c.entries ≢ []
      → NamesEntries c.entries
      → HasDistinctKeys c.entries
      → Evicts c
  unfolding evict_oldest
  evict_oldest-Evicts c h n d =
      let (named, (v, e, least)) = oldest-IsOldest c.entries h n d in
      ((oldest ("", 0) c.entries).0, v, e, least, ground arith)

  -- The cache that `make_room` leaves has room, keeps the invariants, and differs from the old
  -- one in entries and evictions only.
  pub record HasRoom (c d : AgentCache A) : Type ℓ where
    pub room : length d.entries < d.max_size
    pub named : NamesEntries d.entries
    pub distinct : HasDistinctKeys d.entries
    pub same_size : d.max_size ≡ c.max_size
    pub same_ttl : d.ttl_sec ≡ c.ttl_sec
    pub same_idle : d.idle_sec ≡ c.idle_sec
    pub same_hits : d.hits ≡ c.hits
    pub same_misses : d.misses ≡ c.misses
    pub conserved : length d.entries + d.evictions ≡ length c.entries + c.evictions

  pub NamesEntries-delete :
      (k : String) (m : List (String × CachedAgent A)) → NamesEntries m → NamesEntries (delete k m)
  unfolding delete
  NamesEntries-delete k [] n = tt
  NamesEntries-delete k ((j, v) ∷ m) n = ground (arith, NamesEntries-delete k m n.1)

  pub NamesEntries-insert :
      (k : String) (v : CachedAgent A) (m : List (String × CachedAgent A))
      → k ≢ ""
      → NamesEntries m
      → NamesEntries (insert k v m)
  unfolding insert
  NamesEntries-insert k v [] h n = (h, tt)
  NamesEntries-insert k v ((j, w) ∷ m) h n = ground (arith, NamesEntries-insert k v m h n.1)

  ne-nil_of_full :
      (c : AgentCache A) → 0 < c.max_size → c.max_size ≤ length c.entries → c.entries ≢ []
  ne-nil_of_full c pos full e = omega (arith, ap length e)

  -- With more fuel than entries, and a positive bound, the loop ends with room for one entry.
  pub make_room-HasRoom :
      (fuel : ℕ) (c : AgentCache A)
      → length c.entries < fuel
      → 0 < c.max_size
      → NamesEntries c.entries
      → HasDistinctKeys c.entries
      → (d : AgentCache A) × (make_room fuel c ≡ some d) × HasRoom c d
  unfolding make_room
  make_room-HasRoom zero c f pos n d = elim f [ ]
  make_room-HasRoom (suc fuel) c f pos n d = elim (Bool-cases (leb c.max_size (length c.entries))) [
    | inr space ↦ (c, rw space, ground arith)
    | inl full ↦
        let (k, v, e, _, evicts) =
          evict_oldest-Evicts c (ne-nil_of_full c pos (ground arith)) n d in
        let shorter = length-delete_distinct k c.entries d (HasKey-of_lookup k v c.entries e) in
        let next = record c { entries = delete k c.entries; evictions = c.evictions + 1 } in
        let (r, made, room) =
          make_room-HasRoom fuel next (omega arith) pos (NamesEntries-delete k c.entries n)
            (HasDistinctKeys-delete k c.entries d) in
        (r, rw (full, evicts) made, ground (arith, room))
  ]
