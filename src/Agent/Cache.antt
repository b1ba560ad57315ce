-- ===== src/Agent/Cache.antt =====
-- internal/agent/cache.go: AgentCache. `A` stands for the agents of the agent framework, and the
-- factory that `GetOrCreate` calls on a miss for the value that it returns, `none` for an error.
-- Durations are compared in nanoseconds, where the code compares them as floating-point seconds.
pub mod Eviction
pub mod Invariant
pub mod Lookups
use kube_ops_agent.Base.{
  ltb, leb, ◌==◌, if◌then◌else◌, same, length, lookup, insert, delete, ℕ, zero, suc, ◌+◌, ◌-◌, ◌*◌,
  ◌/◌, String, Bool, true, false, ◌||◌, Option, none, some, List, [], ◌∷◌, ◌++◌,
}
use kube_ops_agent.Runtime.Config.{second}

pub record CachedAgent {ℓ} (A : Type ℓ) : Type ℓ where
  pub agent : A
  pub created_at : ℕ
  pub last_used : ℕ
  pub use_count : ℕ

pub record AgentCache {ℓ} (A : Type ℓ) : Type ℓ where
  pub entries : List (String × CachedAgent A)
  pub max_size : ℕ
  pub ttl_sec : ℕ
  pub idle_sec : ℕ
  pub hits : ℕ
  pub misses : ℕ
  pub evictions : ℕ

abbrev or_default : ℕ → ℕ → ℕ
or_default n d = if n == 0 then d else n

module _ {ℓ} {A : Type ℓ} where
  unfoldable pub new_agent_cache : ℕ → ℕ → ℕ → AgentCache A
  new_agent_cache max_size ttl_sec idle_sec = record {
    entries = [];
    max_size = or_default max_size 10;
    ttl_sec = or_default ttl_sec 3600;
    idle_sec = or_default idle_sec 600;
    hits = 0;
    misses = 0;
    evictions = 0;
  }

  -- The loop of `evictOldestLocked` over `oldestKey` and `oldestTime`.
  unfoldable pub oldest : String × ℕ → List (String × CachedAgent A) → String × ℕ
  oldest best [] = best
  oldest best ((k, v) ∷ m) =
      oldest (if same best.0 "" || ltb v.last_used best.1 then (k, v.last_used) else best) m

  unfoldable pub evict_oldest : AgentCache A → AgentCache A
  evict_oldest c =
      let (key, _) = oldest ("", 0) c.entries in
      if same key ""
      then c
      else record c { entries = delete key c.entries; evictions = c.evictions + 1 }

  -- `for len(c.cache) >= c.maxSize { c.evictOldestLocked() }`, with fuel.
  unfoldable pub make_room : ℕ → AgentCache A → Option (AgentCache A)
  make_room zero c = none
  make_room (suc fuel) c =
      let more = make_room fuel (evict_oldest c) in
      if leb c.max_size (length c.entries) then more else some c

  -- From `c.misses++` to the end of `GetOrCreate`.
  unfoldable pub create_entry :
      ℕ → ℕ → String → Option A → AgentCache A → Option (AgentCache A × Option A)
  create_entry fuel now key none c = some (record c { misses = c.misses + 1 }, none)
  create_entry fuel now key (some a) c =
      elim (make_room fuel (record c { misses = c.misses + 1 })) [
        | none ↦ none
        | some d ↦ some (
          record d {
            entries =
                insert key (record { agent = a; created_at = now; last_used = now; use_count = 1 })
                  d.entries;
          },
          some a,
        )
      ]

  -- The entry has outlived its time to live.
  abbrev pub is_expired : ℕ → AgentCache A → CachedAgent A → Bool
  is_expired now c ent = ltb (c.ttl_sec * second) (now - ent.created_at)

  -- The inner `none` is the factory's error, the outer one that the fuel ran out.
  unfoldable pub get_or_create :
      ℕ → ℕ → String → Option A → AgentCache A → Option (AgentCache A × Option A)
  unfolding create_entry
  get_or_create fuel now key create c = elim (lookup key c.entries) [
    | none ↦ create_entry fuel now key create c
    | some ent ↦
        if is_expired now c ent
        then create_entry fuel now key create
            (record c { entries = delete key c.entries; misses = c.misses + 1 })
        else some (
          record c {
            entries =
                insert key (record ent { last_used = now; use_count = ent.use_count + 1 })
                  c.entries;
            hits = c.hits + 1;
          },
          some ent.agent,
        )
  ]

  unfoldable pub remove : String → AgentCache A → AgentCache A × Bool
  remove key c = elim (lookup key c.entries) [
    | none ↦ (c, false)
    | some _ ↦ (record c { entries = delete key c.entries }, true)
  ]

  unfoldable pub clear : AgentCache A → AgentCache A
  clear c = record c { entries = [] }

  -- The loop of `CleanupIdle`: what stays, and how many went.
  unfoldable pub cleanup : ℕ → ℕ → List (String × CachedAgent A) → List (String × CachedAgent A) × ℕ
  cleanup now limit [] = ([], 0)
  cleanup now limit ((k, v) ∷ m) =
      let (rest, n) = cleanup now limit m in
      if ltb limit (now - v.last_used) then (rest, n + 1) else ((k, v) ∷ rest, n)

  unfoldable pub cleanup_idle : ℕ → AgentCache A → AgentCache A × ℕ
  unfolding cleanup
  cleanup_idle now c =
      let (rest, n) = cleanup now (c.idle_sec * second) c.entries in
      (record c { entries = rest }, n)
