-- ===== src/IdentityMap.antt =====
-- asceticddd/session/identitymap: the isolation strategies over the cache (strategy.go) and the
-- identity map of a session (identity_map.go). A strategy that caches holds the map's own cache, so
-- a strategy is a tag and takes the cache as an argument. The nil-like marker `nonexistent` is a
-- constructor of what the cache stores. Where `V` is an interface, the source's `result.(V)` in
-- `Get` panics for a nil that was added as a value; here a value is always one of `V`, and is found.
pub mod Lru
pub mod Spec
pub mod Refinement
pub mod Laws
mod Tests
use ascetic_ddd_go.Base.{ℕ, Option, none, some, Bool, true, false}
use ascetic_ddd_go.IdentityMap.Lru
use ascetic_ddd_go.IdentityMap.Lru.{LruCache, new_lru_cache}

pub data IsolationLevel : Type 0 where
  read_uncommitted read_committed repeatable_reads serializable : IsolationLevel
  other : ℕ → IsolationLevel

pub data IsolationStrategy : Type 0 where
  read_uncommitted_strategy read_committed_strategy : IsolationStrategy
  repeatable_reads_strategy serializable_strategy : IsolationStrategy

pub data Stored (V : Type 0) : Type 0 where
  existent : V → Stored V
  nonexistent : Stored V

pub data GetResult (V : Type 0) : Type 0 where
  found : V → GetResult V
  key_not_found object_not_found : GetResult V

pub record IdentityMap (K V : Type 0) : Type 0 where
  pub cache : LruCache K (Stored V)
  pub strategy : IsolationStrategy

abbrev pub Cache : Type 0 → Type 0 → Type 0
Cache K V = LruCache K (Stored V)

-- What a strategy makes of the cache's answer.
unfoldable pub repeatable_result : {V : Type 0} → Option (Stored V) → GetResult V
repeatable_result none = key_not_found
repeatable_result (some nonexistent) = key_not_found
repeatable_result (some (existent v)) = found v

unfoldable pub serializable_result : {V : Type 0} → Option (Stored V) → GetResult V
serializable_result none = key_not_found
serializable_result (some nonexistent) = object_not_found
serializable_result (some (existent v)) = found v

unfoldable pub repeatable_has : {V : Type 0} → Option (Stored V) → Bool
repeatable_has none = false
repeatable_has (some nonexistent) = false
repeatable_has (some (existent _)) = true

unfoldable pub serializable_has : {V : Type 0} → Option (Stored V) → Bool
serializable_has none = false
serializable_has (some _) = true

module _ {K V : Type 0} (dec : Discrete K) where
  unfoldable pub strategy_add : IsolationStrategy → Cache K V → K → V → Cache K V
  strategy_add read_uncommitted_strategy c key value = c
  strategy_add read_committed_strategy c key value = c
  strategy_add repeatable_reads_strategy c key value = Lru.add dec c key (existent value)
  strategy_add serializable_strategy c key value = Lru.add dec c key (existent value)

  unfoldable pub strategy_add_absent : IsolationStrategy → Cache K V → K → Cache K V
  strategy_add_absent read_uncommitted_strategy c key = c
  strategy_add_absent read_committed_strategy c key = c
  strategy_add_absent repeatable_reads_strategy c key = c
  strategy_add_absent serializable_strategy c key = Lru.add dec c key nonexistent

  -- The caching strategies ask the cache's `get`, which also makes the key the newest.
  unfoldable pub strategy_get : IsolationStrategy → Cache K V → K → Cache K V × GetResult V
  unfolding repeatable_result serializable_result
  strategy_get read_uncommitted_strategy c key = (c, key_not_found)
  strategy_get read_committed_strategy c key = (c, key_not_found)
  strategy_get repeatable_reads_strategy c key =
      let (c', value) = Lru.get dec c key in (c', repeatable_result value)
  strategy_get serializable_strategy c key =
      let (c', value) = Lru.get dec c key in (c', serializable_result value)

  unfoldable pub strategy_has : IsolationStrategy → Cache K V → K → Cache K V × Bool
  unfolding repeatable_has serializable_has
  strategy_has read_uncommitted_strategy c key = (c, false)
  strategy_has read_committed_strategy c key = (c, false)
  strategy_has repeatable_reads_strategy c key =
      let (c', value) = Lru.get dec c key in (c', repeatable_has value)
  strategy_has serializable_strategy c key =
      let (c', value) = Lru.get dec c key in (c', serializable_has value)

unfoldable pub strategy_of : IsolationLevel → IsolationStrategy
strategy_of read_uncommitted = read_uncommitted_strategy
strategy_of read_committed = read_committed_strategy
strategy_of repeatable_reads = repeatable_reads_strategy
strategy_of serializable = serializable_strategy
strategy_of (other _) = serializable_strategy

module _ {K V : Type 0} where
  unfoldable pub set_isolation_level : IdentityMap K V → IsolationLevel → IdentityMap K V
  unfolding strategy_of
  set_isolation_level m level = record m { strategy = strategy_of level }

  -- `New` builds the cache, and its only strategy comes from `SetIsolationLevel`.
  unfoldable pub new : ℕ → IsolationLevel → IdentityMap K V
  unfolding strategy_of new_lru_cache
  new cache_size level = record { cache = new_lru_cache cache_size; strategy = strategy_of level }

  unfoldable pub set_size : IdentityMap K V → ℕ → IdentityMap K V
  set_size m size = record m { cache = Lru.set_size m.cache size }

  unfoldable pub clear : IdentityMap K V → IdentityMap K V
  clear m = record m { cache = Lru.clear m.cache }

module _ {K V : Type 0} (dec : Discrete K) where
  unfoldable pub add : IdentityMap K V → K → V → IdentityMap K V
  unfolding strategy_add
  add m key value = record m { cache = strategy_add dec m.strategy m.cache key value }

  unfoldable pub add_absent : IdentityMap K V → K → IdentityMap K V
  unfolding strategy_add_absent
  add_absent m key = record m { cache = strategy_add_absent dec m.strategy m.cache key }

  unfoldable pub get : IdentityMap K V → K → IdentityMap K V × GetResult V
  unfolding strategy_get
  get m key =
      let (c, result) = strategy_get dec m.strategy m.cache key in (record m { cache = c }, result)

  unfoldable pub has : IdentityMap K V → K → IdentityMap K V × Bool
  unfolding strategy_has
  has m key =
      let (c, result) = strategy_has dec m.strategy m.cache key in (record m { cache = c }, result)

  unfoldable pub remove : IdentityMap K V → K → IdentityMap K V
  remove m key = record m { cache = Lru.remove dec m.cache key }
