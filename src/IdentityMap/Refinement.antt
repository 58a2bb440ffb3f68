-- ===== src/IdentityMap/Refinement.antt =====
-- Calls on the map of asceticddd/session/identitymap/identity_map.go beside calls on the bindings
-- of IdentityMap/Spec.antt.
use ascetic_ddd_go.Base.{
  ℕ, arith, ◌≡◌, refl, ap, ◌∙◌, List, [], ◌∷◌, Option, none, some, false, if◌then◌else◌,
}
use ascetic_ddd_go.Base.Assoc.{lookup}
use ascetic_ddd_go.IdentityMap
use ascetic_ddd_go.IdentityMap.Lru
use ascetic_ddd_go.IdentityMap.{
  IdentityMap, Cache, IsolationLevel, IsolationStrategy, read_uncommitted_strategy,
  read_committed_strategy, repeatable_reads_strategy, serializable_strategy, Stored, existent,
  nonexistent, GetResult, found, key_not_found, object_not_found, strategy_of, strategy_add,
  strategy_add_absent, strategy_get, strategy_has, repeatable_result, serializable_result,
  repeatable_has, serializable_has,
}
use ascetic_ddd_go.IdentityMap.Lru.Valid.{view, store, use_key, IsValid}
use ascetic_ddd_go.IdentityMap.Lru.Refines.{
  Implements, new_lru_cache-IsValid, add-Implements, get-Implements, remove-Implements, size-add,
  size-get, size-remove, clear-IsValid, set_size-IsValid,
}
use ascetic_ddd_go.IdentityMap.Spec.{
  promised_strategy, Call, Reply, got, had, add, add_absent, get, has, remove, clear, set_size,
  set_isolation_level, Bindings, caches, shown, known, present, records_absence, promise, perform,
  abstraction,
}

module _ {V : Type 0} where
  hidden :
      (s : IsolationStrategy) (o : Option (Stored V)) → caches s ≡ false → key_not_found ≡ shown s o
  hidden s none h = refl
  hidden read_uncommitted_strategy (some x) h = ground arith
  hidden read_committed_strategy (some x) h = ground arith
  hidden repeatable_reads_strategy (some x) h = cc
  hidden serializable_strategy (some x) h = cc

  repeatable_result-shown :
      (o : Option (Stored V)) → repeatable_result o ≡ shown repeatable_reads_strategy o
  unfolding repeatable_result
  repeatable_result-shown o = ground arith

  serializable_result-shown :
      (o : Option (Stored V)) → serializable_result o ≡ shown serializable_strategy o
  unfolding serializable_result
  serializable_result-shown o = ground arith

  repeatable_has-present :
      (o : Option (Stored V)) → repeatable_has o ≡ present repeatable_reads_strategy o
  unfolding repeatable_has
  repeatable_has-present o = ground arith

  serializable_has-present :
      (o : Option (Stored V)) → serializable_has o ≡ present serializable_strategy o
  unfolding serializable_has
  serializable_has-present o = ground arith

module _ {K V : Type 0} (dec : Discrete K) where
  module _ (c : Cache K V) (k : K) (ok : IsValid dec c) where
    add_any :
        (s : IsolationStrategy) (v : V)
        → Implements dec
            (strategy_add dec s c k v)
            (if caches s then store dec c.size k (existent v) (view c) else view c)
          × ((strategy_add dec s c k v).size ≡ c.size)
    unfolding strategy_add
    add_any read_uncommitted_strategy v = ((ok, refl), refl)
    add_any read_committed_strategy v = ((ok, refl), refl)
    add_any repeatable_reads_strategy v =
        (add-Implements dec c k (existent v) ok, size-add dec c k (existent v))
    add_any serializable_strategy v =
        (add-Implements dec c k (existent v) ok, size-add dec c k (existent v))

    add_absent_any :
        (s : IsolationStrategy)
        → Implements dec
            (strategy_add_absent dec s c k)
            (if records_absence s then store dec c.size k nonexistent (view c) else view c)
          × ((strategy_add_absent dec s c k).size ≡ c.size)
    unfolding strategy_add_absent
    add_absent_any serializable_strategy =
        (add-Implements dec c k nonexistent ok, size-add dec c k nonexistent)
    add_absent_any _ = ((ok, refl), refl)

    get_any :
        (s : IsolationStrategy)
        → Implements dec
            (strategy_get dec s c k).0
            (if caches s then use_key dec k (view c) else view c)
          × ((strategy_get dec s c k).0.size ≡ c.size)
          × ((strategy_get dec s c k).1 ≡ shown s (lookup dec k (view c)))
    unfolding strategy_get
    get_any read_uncommitted_strategy = ((ok, refl), refl, hidden read_uncommitted_strategy _ refl)
    get_any read_committed_strategy = ((ok, refl), refl, hidden read_committed_strategy _ refl)
    get_any repeatable_reads_strategy =
        let (keeps, answer) = get-Implements dec c k ok in
        (keeps, size-get dec c k, ap repeatable_result answer ∙ repeatable_result-shown _)
    get_any serializable_strategy =
        let (keeps, answer) = get-Implements dec c k ok in
        (keeps, size-get dec c k, ap serializable_result answer ∙ serializable_result-shown _)

    has_any :
        (s : IsolationStrategy)
        → Implements dec
            (strategy_has dec s c k).0
            (if caches s then use_key dec k (view c) else view c)
          × ((strategy_has dec s c k).0.size ≡ c.size)
          × ((strategy_has dec s c k).1 ≡ present s (lookup dec k (view c)))
    unfolding strategy_has
    has_any read_uncommitted_strategy =
        ((ok, refl), refl, ap known (hidden read_uncommitted_strategy _ refl))
    has_any read_committed_strategy =
        ((ok, refl), refl, ap known (hidden read_committed_strategy _ refl))
    has_any repeatable_reads_strategy =
        let (keeps, answer) = get-Implements dec c k ok in
        (keeps, size-get dec c k, ap repeatable_has answer ∙ repeatable_has-present _)
    has_any serializable_strategy =
        let (keeps, answer) = get-Implements dec c k ok in
        (keeps, size-get dec c k, ap serializable_has answer ∙ serializable_has-present _)

  -- One call of the map keeps the cache sound, answers as promised, and leaves the promised
  -- bindings.
  pub perform-promise :
      (m : IdentityMap K V) (call : Call K V)
      → IsValid dec m.cache
      → IsValid dec (perform dec m call).0.cache
        × (abstraction dec (perform dec m call).0 ≡ (promise dec (abstraction dec m) call).0)
        × ((perform dec m call).1 ≡ (promise dec (abstraction dec m) call).1)
  unfolding perform promise IdentityMap.add IdentityMap.add_absent IdentityMap.get IdentityMap.has
      IdentityMap.remove IdentityMap.clear IdentityMap.set_size IdentityMap.set_isolation_level
      Lru.clear Lru.set_size
  perform-promise m (add k v) ok =
      let ((valid, entries), size) = add_any m.cache k ok m.strategy v in
      (valid, ground arith, refl)
  perform-promise m (add_absent k) ok =
      let ((valid, entries), size) = add_absent_any m.cache k ok m.strategy in
      (valid, ground arith, refl)
  perform-promise m (get k) ok =
      let ((valid, entries), size, answer) = get_any m.cache k ok m.strategy in
      (valid, ground arith, ap got answer)
  perform-promise m (has k) ok =
      let ((valid, entries), size, answer) = has_any m.cache k ok m.strategy in
      (valid, ground arith, ap had answer)
  perform-promise m (remove k) ok =
      let (valid, entries) = remove-Implements dec m.cache k ok in
      let size = size-remove dec m.cache k in (valid, ground arith, refl)
  perform-promise m clear ok = (clear-IsValid dec m.cache, refl, refl)
  perform-promise m (set_size n) ok = (set_size-IsValid dec m.cache n ok, refl, refl)
  perform-promise m (set_isolation_level l) ok = (ok, refl, refl)

  unfoldable pub run : IdentityMap K V → List (Call K V) → IdentityMap K V × List (Reply V)
  run m [] = (m, [])
  run m (call ∷ calls) =
      let (m', reply) = perform dec m call in
      let (m'', replies) = run m' calls in (m'', reply ∷ replies)

  unfoldable pub run_promise : Bindings K V → List (Call K V) → Bindings K V × List (Reply V)
  run_promise b [] = (b, [])
  run_promise b (call ∷ calls) =
      let (b', reply) = promise dec b call in
      let (b'', replies) = run_promise b' calls in (b'', reply ∷ replies)

  pub run_from :
      (m : IdentityMap K V) (calls : List (Call K V))
      → IsValid dec m.cache
      → IsValid dec (run m calls).0.cache
        × (abstraction dec (run m calls).0 ≡ (run_promise (abstraction dec m) calls).0)
        × ((run m calls).1 ≡ (run_promise (abstraction dec m) calls).1)
  unfolding run run_promise
  run_from m [] ok = (ok, refl, refl)
  run_from m (call ∷ calls) ok =
      let (ok', state, reply) = perform-promise m call ok in
      let (valid, final, replies) = run_from (perform dec m call).0 calls ok' in
      (valid, final ∙ ap (λ b. (run_promise b calls).0) state, cc)

  -- A new identity map, of any cache size and isolation level, answers every sequence of calls
  -- (add, add_absent, get, has, remove, clear, set_size, set_isolation_level) as the abstract
  -- promise does, a list of bindings in order of use that drops its oldest binding when a new key
  -- exceeds the size.
  pub run-promise :
      (cache_size : ℕ) (level : IsolationLevel) (calls : List (Call K V))
      → (run (IdentityMap.new cache_size level) calls).1
        ≡ (run_promise
            (record { size = cache_size; strategy = promised_strategy level; entries = [] })
            calls).1
  unfolding IdentityMap.new
  run-promise cache_size level calls =
      (run_from (IdentityMap.new cache_size level) calls (new_lru_cache-IsValid dec cache_size)).2
