-- ===== src/IdentityMap/Spec.antt =====
-- A list of bindings, oldest first, and the view that an isolation level (strategy.go) has of it.
use ascetic_ddd_go.Base.{ℕ, [], Option, none, some, Bool, true, false, if◌then◌else◌}
use ascetic_ddd_go.Base.Assoc.{lookup, delete}
use ascetic_ddd_go.IdentityMap
use ascetic_ddd_go.IdentityMap.{
  IdentityMap, Cache, IsolationLevel, read_uncommitted, read_committed, repeatable_reads,
  serializable, other, IsolationStrategy, read_uncommitted_strategy, read_committed_strategy,
  repeatable_reads_strategy, serializable_strategy, Stored, existent, nonexistent, GetResult, found,
  key_not_found, object_not_found, strategy_add, strategy_add_absent, strategy_get, strategy_has,
  repeatable_result, serializable_result, repeatable_has, serializable_has,
}
use ascetic_ddd_go.IdentityMap.Lru.Valid.{Recency, view, store, use_key}

pub data Call (K V : Type 0) : Type 0 where
  add : K → V → Call K V
  add_absent get has remove : K → Call K V
  clear : Call K V
  set_size : ℕ → Call K V
  set_isolation_level : IsolationLevel → Call K V

pub data Reply (V : Type 0) : Type 0 where
  done : Reply V
  got : GetResult V → Reply V
  had : Bool → Reply V

pub record Bindings (K V : Type 0) : Type 0 where
  pub size : ℕ
  pub strategy : IsolationStrategy
  pub entries : Recency K (Stored V)

abbrev pub caches : IsolationStrategy → Bool
caches read_uncommitted_strategy = false
caches read_committed_strategy = false
caches repeatable_reads_strategy = true
caches serializable_strategy = true

-- Only repeatable reads and serializable cache; a level that is not known counts as serializable.
abbrev pub promised_strategy : IsolationLevel → IsolationStrategy
promised_strategy read_uncommitted = read_uncommitted_strategy
promised_strategy read_committed = read_committed_strategy
promised_strategy repeatable_reads = repeatable_reads_strategy
promised_strategy serializable = serializable_strategy
promised_strategy (other _) = serializable_strategy

-- What a level shows of a binding.
abbrev pub shown : {V : Type 0} → IsolationStrategy → Option (Stored V) → GetResult V
shown _ none = key_not_found
shown repeatable_reads_strategy (some (existent v)) = found v
shown serializable_strategy (some (existent v)) = found v
shown serializable_strategy (some nonexistent) = object_not_found
shown _ _ = key_not_found

-- A key is there unless its binding is unknown to the level.
abbrev pub known : {V : Type 0} → GetResult V → Bool
known key_not_found = false
known _ = true

-- `has` of the serializable level counts a key that is known to be absent.
abbrev pub present : {V : Type 0} → IsolationStrategy → Option (Stored V) → Bool
present s o = known (shown s o)

abbrev pub records_absence : IsolationStrategy → Bool
records_absence serializable_strategy = true
records_absence _ = false

module _ {K V : Type 0} (dec : Discrete K) where
  -- The promised behaviour of a call.
  unfoldable pub promise : Bindings K V → Call K V → Bindings K V × Reply V
  promise b (add k v) =
      let stored : Bindings K V = record b {
        entries = store dec b.size k (existent v) b.entries;
      } in
      (if caches b.strategy then stored else b, done)
  promise b (add_absent k) =
      let stored : Bindings K V = record b { entries = store dec b.size k nonexistent b.entries } in
      (if records_absence b.strategy then stored else b, done)
  promise b (get k) =
      let used : Bindings K V = record b { entries = use_key dec k b.entries } in
      (if caches b.strategy then used else b, got (shown b.strategy (lookup dec k b.entries)))
  promise b (has k) =
      let used : Bindings K V = record b { entries = use_key dec k b.entries } in
      (if caches b.strategy then used else b, had (present b.strategy (lookup dec k b.entries)))
  promise b (remove k) = (record b { entries = delete dec k b.entries }, done)
  promise b clear = (record b { entries = [] }, done)
  promise b (set_size n) = (record b { size = n }, done)
  promise b (set_isolation_level l) = (record b { strategy = promised_strategy l }, done)

  -- The call of the source that a `Call` stands for.
  unfoldable pub perform : IdentityMap K V → Call K V → IdentityMap K V × Reply V
  perform m (add k v) = (IdentityMap.add dec m k v, done)
  perform m (add_absent k) = (IdentityMap.add_absent dec m k, done)
  perform m (get k) = let (m', r) = IdentityMap.get dec m k in (m', got r)
  perform m (has k) = let (m', r) = IdentityMap.has dec m k in (m', had r)
  perform m (remove k) = (IdentityMap.remove dec m k, done)
  perform m clear = (IdentityMap.clear m, done)
  perform m (set_size n) = (IdentityMap.set_size m n, done)
  perform m (set_isolation_level l) = (IdentityMap.set_isolation_level m l, done)

  -- The bindings that a map stands for.
  abbrev pub abstraction : IdentityMap K V → Bindings K V
  abstraction m = record { size = m.cache.size; strategy = m.strategy; entries = view m.cache }
