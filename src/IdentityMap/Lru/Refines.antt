-- ===== src/IdentityMap/Lru/Refines.antt =====
-- The methods of `lruCache` (lru_cache.go) beside those of a recency list of bindings.
use ascetic_ddd_go.Base.{
  ℕ, ◌<◌, ◌≡◌, refl, sym, ◌∙◌, ap, subst, List, [], ◌∷◌, ◌++◌, map, map-append, Option, none, some,
  Bool, true, false, Option-cases, ◌⊎◌, inl, inr, length, length-map, ltb, Bool-cases, arith,
}
use ascetic_ddd_go.Base.Assoc.{lookup, delete, lookup-delete, delete-NodupKeys, length-delete}
use ascetic_ddd_go.IdentityMap.Lru.{
  Element, find, LruCache, new_lru_cache, evict, push, add, get, remove, has, clear, set_size,
}
use ascetic_ddd_go.IdentityMap.Lru.Order.{
  entry, index_of, lookup_of_index-none, delete_of_index-none, find_of_index, index_of-unlink,
  entries-unlink, length-unlink, UniqueKeys-unlink, All-unlink, UniqueIds-unlink,
}
use ascetic_ddd_go.IdentityMap.Lru.Valid.{
  Recency, view, trim, touch, store, use_key, IsValid, moved, index_of-moved, length-moved,
  moved-IsOrder, entries-moved, push-IsValid, evict_front-IsValid,
}

abbrev pub is_some : {A : Type 0} → Option A → Bool
is_some none = false
is_some (some _) = true

module _ {K V : Type 0} (dec : Discrete K) where
  pub new_lru_cache-IsValid : (size : ℕ) → IsValid {V = V} dec (new_lru_cache size)
  unfolding new_lru_cache lookup index_of
  new_lru_cache-IsValid size = record {
    indexed = λ k. refl;
    once = tt;
    counted = refl;
    ordered = record { fresh = tt; unique = tt; distinct = tt };
  }

  abbrev pub Implements : LruCache K V → Recency K V → Type 0
  Implements c l = IsValid dec c × (view c ≡ l)

  module _ (c : LruCache K V) (k : K) (v : IsValid dec c) where
    moved-Implements :
        (i : ℕ) (w : V)
        → index_of dec k c.order ≡ some i
        → Implements (record c { order = moved k i w c.order }) (touch dec k w (view c))
    moved-Implements i w h =
        let o = v.ordered in
        (
          record {
            indexed = λ j. v.indexed j ∙ sym (index_of-moved dec c.next k i w c.order o h j);
            once = v.once;
            counted = v.counted ∙ sym (length-moved dec c.next k i w c.order o h);
            ordered = moved-IsOrder dec c.next k i w c.order o h;
          },
          entries-moved dec c.next k i w c.order o h,
        )

    -- What a read of the map says of the recency list.
    lookup_cases :
        ((index_of dec k c.order ≡ none)
          × (lookup dec k c.items ≡ none)
          × (lookup dec k (view c) ≡ none))
        ⊎ ((e : Element K V) × (index_of dec k c.order ≡ some e.id)
            × (lookup dec k c.items ≡ some e.id)
            × (find e.id c.order ≡ some e)
            × (e.key ≡ k)
            × (lookup dec k (view c) ≡ some e.value))
    lookup_cases = elim (Option-cases (index_of dec k c.order)) [
      | inl h ↦ inl (h, v.indexed k ∙ h, lookup_of_index-none dec k c.order h)
      | inr (i, h) ↦
          let (e, found, key, id, value) = find_of_index dec k i c.order h v.ordered.unique in
          inr (e, rw id h, rw id (v.indexed k ∙ h), rw id found, key, value)
    ]

    -- `has` tells whether the key is bound.
    pub has-view : has dec c k ≡ is_some (lookup dec k (view c))
    unfolding has
    has-view = elim lookup_cases [
      | inl (_, miss, absent) ↦ ground (arith, miss, absent)
      | inr (e, _, hit, _, _, value) ↦ ground (arith, hit, value)
    ]

    get_miss : lookup dec k c.items ≡ none → get dec c k ≡ (c, none)
    unfolding get
    get_miss h = ground arith

    get_hit :
        (e : Element K V)
        → lookup dec k c.items ≡ some e.id
        → find e.id c.order ≡ some e
        → e.key ≡ k
        → get dec c k ≡ (record c { order = moved k e.id e.value c.order }, some e.value)
    unfolding get
    get_hit e h f q = ground (arith, ap (λ x. moved x e.id e.value c.order) q)

    -- `get` answers with the binding of the key, and makes it the newest.
    pub get-Implements :
        Implements (get dec c k).0 (use_key dec k (view c))
        × ((get dec c k).1 ≡ lookup dec k (view c))
    get-Implements = elim lookup_cases [
      | inl (_, miss, absent) ↦ rw (get_miss miss, absent, use_key) ((v, refl), refl)
      | inr (e, at, hit, found, key, value) ↦
          rw (get_hit e hit found key, value, use_key) (moved-Implements e.id e.value at, refl)
    ]

    -- `remove` drops the binding.
    pub remove-Implements : Implements (remove dec c k) (delete dec k (view c))
    unfolding remove
    remove-Implements = elim lookup_cases [
      | inl (at, miss, absent) ↦ rw (miss, remove) (v, sym (delete_of_index-none dec k c.order at))
      | inr (e, at, hit, _, _, _) ↦
          let o = v.ordered in
          rw (hit, remove)
            (
              record {
                indexed = λ j. ground (
                  arith,
                  lookup-delete dec k j c.items,
                  v.indexed j,
                  index_of-unlink dec k e.id j c.order at o.unique o.distinct,
                );
                once = delete-NodupKeys dec k c.items v.once;
                counted = omega (
                  arith,
                  length-delete dec k e.id c.items v.once hit,
                  length-unlink dec k e.id c.order at o.unique,
                  v.counted,
                );
                ordered = record {
                  fresh = All-unlink (λ n. n < c.next) e.id c.order o.fresh;
                  unique = UniqueIds-unlink e.id c.order o.unique;
                  distinct = UniqueKeys-unlink dec k e.id c.order at o.unique o.distinct;
                };
              },
              entries-unlink dec k e.id c.order at o.unique o.distinct,
            )
    ]

  evict_stays : (c : LruCache K V) → ltb c.size (length c.items) ≡ false → evict dec c ≡ c
  unfolding evict
  evict_stays c h = ground arith

  evict_drops :
      (c : LruCache K V) (e : Element K V) (es : List (Element K V))
      → c.order ≡ e ∷ es
      → ltb c.size (length c.items) ≡ true
      → evict dec c ≡ record c { order = es; items = delete dec e.key c.items }
  unfolding evict
  evict_drops c e es q h = ground arith

  -- The end of an insertion: the oldest binding goes if the list has outgrown the size.
  evict-Implements :
      (c : LruCache K V) (es : List (Element K V))
      → c.order ≡ es
      → IsValid dec c
      → Implements (evict dec c) (trim c.size (map entry es))
  evict-Implements c es q v =
      let n : length c.items ≡ length (map entry es) =
        v.counted ∙ ap length q ∙ sym (length-map entry es) in
      elim (Bool-cases (ltb c.size (length (map entry es)))) [
        | inl over ↦ evict_over es q over (ap (ltb c.size) n ∙ over)
        | inr fits ↦ rw (evict_stays c (ap (ltb c.size) n ∙ fits), fits) (v, ap (map entry) q)
      ]
    where
      evict_over :
          (es : List (Element K V))
          → c.order ≡ es
          → ltb c.size (length (map entry es)) ≡ true
          → ltb c.size (length c.items) ≡ true
          → Implements (evict dec c) (trim c.size (map entry es))
      evict_over [] q over h = absurd (ground arith)
      evict_over (e ∷ es) q over h =
          rw (evict_drops c e es q h, over) (evict_front-IsValid dec c e es v q, refl)

  module _ (c : LruCache K V) (k : K) (w : V) (v : IsValid dec c) where
    view-push : view (push dec c k w) ≡ view c ++ (k, w) ∷ []
    unfolding push
    view-push = rw map-append

    -- `add` makes the key the newest binding, and only a new key can push the oldest one out.
    pub add-Implements : Implements (add dec c k w) (store dec c.size k w (view c))
    unfolding add
    add-Implements = elim (lookup_cases c k v) [
      | inl (at, miss, absent) ↦
          rw (miss, absent, add, store)
            (subst (λ l. Implements (evict dec (push dec c k w)) (trim c.size l)) view-push
              (evict-Implements (push dec c k w) (push dec c k w).order refl
                (push-IsValid dec c k w v at)))
      | inr (e, at, hit, _, _, value) ↦
          rw (hit, value, add, store) (moved-Implements c k v e.id w at)
    ]

  -- Only `set_size` changes the size.
  module _ (c : LruCache K V) (k : K) where
    pub size-add : (w : V) → (add dec c k w).size ≡ c.size
    unfolding add
    size-add w = ground arith

    pub size-get : (get dec c k).0.size ≡ c.size
    unfolding get
    size-get = ground arith

    pub size-remove : (remove dec c k).size ≡ c.size
    unfolding remove
    size-remove = ground arith

  pub clear-IsValid : (c : LruCache K V) → IsValid dec (clear c)
  unfolding clear lookup index_of
  clear-IsValid c = record {
    indexed = λ k. refl;
    once = tt;
    counted = refl;
    ordered = record { fresh = tt; unique = tt; distinct = tt };
  }

  pub set_size-IsValid : (c : LruCache K V) (n : ℕ) → IsValid dec c → IsValid dec (set_size c n)
  unfolding set_size
  set_size-IsValid c n v = record {
    indexed = v.indexed;
    once = v.once;
    counted = v.counted;
    ordered = v.ordered;
  }
