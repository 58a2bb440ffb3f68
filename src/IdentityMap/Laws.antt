-- ===== src/IdentityMap/Laws.antt =====
-- What a client of the identity map can rely on, level by level.
use ascetic_ddd_go.Base.{
  ◌<◌, ◌≤◌, ◌≡◌, refl, ap, ◌≢◌, some, true, false, sym, ap₂, max, ◌∙◌, length, Bool-cases, inl, inr,
  arith,
}
use ascetic_ddd_go.Base.Assoc.{lookup}
use ascetic_ddd_go.IdentityMap
use ascetic_ddd_go.IdentityMap.{
  IdentityMap, Stored, existent, nonexistent, GetResult, found, key_not_found, object_not_found,
  strategy_of, IsolationLevel, serializable, repeatable_reads, repeatable_reads_strategy,
  serializable_strategy, IsolationStrategy, read_uncommitted_strategy, read_committed_strategy,
  read_committed, read_uncommitted,
}
use ascetic_ddd_go.IdentityMap.Lru.Valid.{view, store, IsValid}
use ascetic_ddd_go.IdentityMap.Lru.Recency.{oldest, lookup-store, lookup-store_other, length-store}
use ascetic_ddd_go.IdentityMap.Spec.{Call, Reply, caches, shown, promise, perform}
use ascetic_ddd_go.IdentityMap.Refinement.{perform-promise}

shown-existent :
    {V : Type 0} (s : IsolationStrategy) (v : V)
    → caches s ≡ true
    → shown s (some (existent v)) ≡ found v
shown-existent read_uncommitted_strategy v h = cc
shown-existent read_committed_strategy v h = cc
shown-existent repeatable_reads_strategy v h = refl
shown-existent serializable_strategy v h = refl

-- At the levels that do not cache, nothing is stored and nothing is found.
uncached :
    {K V : Type 0} (dec : Discrete K) (m : IdentityMap K V) (k : K) (v : V)
    → caches m.strategy ≡ false
    → (IdentityMap.add dec m k v ≡ m)
      × (IdentityMap.add_absent dec m k ≡ m)
      × (IdentityMap.get dec m k ≡ (m, key_not_found))
      × (IdentityMap.has dec m k ≡ (m, false))
unfolding IdentityMap.add IdentityMap.add_absent IdentityMap.get IdentityMap.has
uncached dec m k v h = ground arith

got_path : {V : Type 0} {x y : GetResult V} → Reply.got x ≡ Reply.got y → x ≡ y
got_path h = cc

module _ {K V : Type 0} (dec : Discrete K) where
  -- What a `get` answers, from the bindings.
  get-shown :
      (m : IdentityMap K V) (k : K)
      → IsValid dec m.cache
      → (IdentityMap.get dec m k).1 ≡ shown m.strategy (lookup dec k (view m.cache))
  unfolding perform promise
  get-shown m k ok = got_path (perform-promise dec m (Call.get k) ok).2

  module _ (m : IdentityMap K V) (k : K) (ok : IsValid dec m.cache) where
    bindings-add :
        (v : V)
        → caches m.strategy ≡ true
        → view (IdentityMap.add dec m k v).cache
          ≡ store dec m.cache.size k (existent v) (view m.cache)
    unfolding perform promise
    bindings-add v h = ap (λ b. b.entries) (perform-promise dec m (Call.add k v) ok).1 ∙ rw h

    -- In a map whose cache is valid, at a level that caches and with a cache size above 0, getting
    -- a key that was just added finds its value.
    pub get-add :
        (v : V)
        → caches m.strategy ≡ true
        → 0 < m.cache.size
        → (IdentityMap.get dec (IdentityMap.add dec m k v) k).1 ≡ found v
    unfolding perform IdentityMap.add
    get-add v h pos =
        let valid = (perform-promise dec m (Call.add k v) ok).0 in
        get-shown (IdentityMap.add dec m k v) k valid
        ∙ ap (λ o. shown m.strategy o)
            (ap (lookup dec k) (bindings-add v h)
              ∙ lookup-store dec m.cache.size k (existent v) (view m.cache) pos)
        ∙ shown-existent m.strategy v h

    -- In a map whose cache is valid and at a level that caches, adding a key changes what is got at
    -- another key only if that key is the least recently used one.
    pub get-add_other :
        (v : V) (j : K)
        → caches m.strategy ≡ true
        → k ≢ j
        → oldest dec (view m.cache) ≢ some j
        → (IdentityMap.get dec (IdentityMap.add dec m k v) j).1 ≡ (IdentityMap.get dec m j).1
    unfolding perform IdentityMap.add
    get-add_other v j h ne old =
        let valid = (perform-promise dec m (Call.add k v) ok).0 in
        get-shown (IdentityMap.add dec m k v) j valid
        ∙ ap (λ o. shown m.strategy o)
            (ap (lookup dec j) (bindings-add v h)
              ∙ lookup-store_other dec m.cache.size j k (existent v) (view m.cache) ne old)
        ∙ sym (get-shown m j ok)

    -- In a map whose cache is valid, at the serializable level and with a cache size above 0, a key
    -- recorded as absent is reported as an absent object, and after a change to repeatable reads as
    -- an unknown key.
    pub get-add_absent :
        m.strategy ≡ serializable_strategy
        → 0 < m.cache.size
        → let after : IdentityMap K V = IdentityMap.add_absent dec m k in
          ((IdentityMap.get dec after k).1 ≡ object_not_found)
          × ((IdentityMap.get dec (IdentityMap.set_isolation_level after repeatable_reads) k).1
              ≡ key_not_found)
    unfolding perform promise IdentityMap.add_absent IdentityMap.set_isolation_level
    get-add_absent h pos =
        let after : IdentityMap K V = IdentityMap.add_absent dec m k in
        let (valid, state, _) = perform-promise dec m (Call.add_absent k) ok in
        let bound : lookup dec k (view after.cache) ≡ some nonexistent =
          ap (λ b. lookup dec k b.entries) state
          ∙ rw h (lookup-store dec m.cache.size k nonexistent (view m.cache) pos) in
        (
          get-shown after k valid ∙ ap₂ shown h bound,
          get-shown (IdentityMap.set_isolation_level after repeatable_reads) k valid
              ∙ ap (λ o. shown repeatable_reads_strategy o) bound,
        )

    -- In a map whose cache is valid, adding a key leaves at most as many bindings as the larger of
    -- the cache size and the number before.
    pub length-add :
        (v : V)
        → length (view (IdentityMap.add dec m k v).cache) ≤ max m.cache.size (length (view m.cache))
    unfolding perform promise
    length-add v = elim (Bool-cases (caches m.strategy)) [
      | inl h ↦ rw (bindings-add v h) (length-store dec m.cache.size k (existent v) (view m.cache))
      | inr h ↦
          omega
            (arith, ap (λ (x : IdentityMap K V). length (view x.cache)) (uncached dec m k v h).0)
    ]
