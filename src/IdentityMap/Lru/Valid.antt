-- ===== src/IdentityMap/Lru/Valid.antt =====
-- The invariant of `lruCache` (lru_cache.go): the map and the list of elements stay in step.
use ascetic_ddd_go.Base.{
  ℕ, suc, ◌<◌, ◌≡◌, refl, ◌∙◌, ap, List, [], ◌∷◌, ◌++◌, map, map-append, none, some, if_pos, length,
  All, All-append, length-snoc, ltb, if◌then◌else◌, arith,
}
use ascetic_ddd_go.Base.Assoc.{
  lookup, delete, lookup-insert, lookup-delete, length-insert_new, NodupKeys, insert-NodupKeys,
  delete-NodupKeys, length-delete,
}
use ascetic_ddd_go.IdentityMap.Lru.{Element, unlink, move_to_back, LruCache, push}
use ascetic_ddd_go.IdentityMap.Lru.Order.{
  entry, UniqueIds, index_of, UniqueKeys, index_of-snoc, index_of-snoc_ne, UniqueKeys-snoc,
  index_of-unlink, entries-unlink, length-unlink, UniqueKeys-unlink, index_of-All, All-unlink,
  UniqueIds-unlink, unlink-All-ne, UniqueIds-snoc, All-ne_of_lt, All-lt-suc,
}

-- The bindings, oldest first.
abbrev pub Recency : Type 0 → Type 0 → Type 0
Recency K V = List (K × V)

abbrev pub view : {K V : Type 0} → LruCache K V → Recency K V
view c = map entry c.order

abbrev pub tail : {A : Type 0} → List A → List A
tail [] = []
tail (x ∷ xs) = xs

abbrev pub trim : {A : Type 0} → ℕ → List A → List A
trim size l = if ltb size (length l) then tail l else l

abbrev pub moved : {K V : Type 0} → K → ℕ → V → List (Element K V) → List (Element K V)
moved k i w es = move_to_back (record { id = i; key = k; value = w }) es

module _ {K V : Type 0} (dec : Discrete K) where
  -- The key becomes the newest binding.
  abbrev pub touch : K → V → Recency K V → Recency K V
  touch k v l = delete dec k l ++ (k, v) ∷ []

  -- A list that holds too much after a new key came in drops its oldest binding.
  abbrev pub store : ℕ → K → V → Recency K V → Recency K V
  store size k v l = elim (lookup dec k l) [
    | some _ ↦ touch k v l
    | none ↦ trim size (l ++ (k, v) ∷ [])
  ]

  abbrev pub use_key : K → Recency K V → Recency K V
  use_key k l = elim (lookup dec k l) [ none ↦ l | some v ↦ touch k v l ]

  -- What holds of an order of elements, apart from the map.
  pub record IsOrder (next : ℕ) (es : List (Element K V)) : Type 0 where
    pub fresh : All (λ e. e.id < next) es
    pub unique : UniqueIds es
    pub distinct : UniqueKeys dec es

  -- The map leads each key to the element that holds it, and to nothing else.
  pub record IsValid (c : LruCache K V) : Type 0 where
    pub indexed : (k : K) → lookup dec k c.items ≡ index_of dec k c.order
    pub once : NodupKeys dec c.items
    pub counted : length c.items ≡ length c.order
    pub ordered : IsOrder c.next c.order

  module _ (n : ℕ) (k : K) (i : ℕ) (w : V) (es : List (Element K V)) (o : IsOrder n es)
      (h : index_of dec k es ≡ some i) where
    pub unlinked_none : index_of dec k (unlink i es) ≡ none
    unlinked_none = ground (arith, index_of-unlink dec k i k es h o.unique o.distinct)

    pub index_of-moved : (j : K) → index_of dec j (moved k i w es) ≡ index_of dec j es
    unfolding move_to_back
    index_of-moved j =
        let e : Element K V = record { id = i; key = k; value = w } in
        let u = index_of-unlink dec k i j es h o.unique o.distinct in
        elim (dec k j) [
          | yes p ↦
              ground (arith, u, index_of-snoc dec j (unlink i es) e, ap (λ x. index_of dec x es) p)
          | no p ↦ ground (arith, u, index_of-snoc_ne dec j (unlink i es) e p)
        ]

    pub length-moved : length (moved k i w es) ≡ length es
    unfolding move_to_back
    length-moved = omega (
      arith,
      length-snoc {0} (unlink i es) (record { id = i; key = k; value = w }),
      length-unlink dec k i es h o.unique,
    )

    pub moved-IsOrder : IsOrder n (moved k i w es)
    unfolding move_to_back
    moved-IsOrder =
        let e : Element K V = record { id = i; key = k; value = w } in
        record {
          fresh =
              All-append (λ f. f.id < n) (unlink i es) (e ∷ [])
                (All-unlink (λ m. m < n) i es o.fresh)
                (index_of-All dec (λ m. m < n) k i es h o.fresh, tt);
          unique =
              UniqueIds-snoc (unlink i es) e (UniqueIds-unlink i es o.unique)
                (unlink-All-ne i es o.unique);
          distinct =
              UniqueKeys-snoc dec (unlink i es) e
                (UniqueKeys-unlink dec k i es h o.unique o.distinct) unlinked_none;
        }

    pub entries-moved : map entry (moved k i w es) ≡ touch k w (map entry es)
    unfolding move_to_back
    entries-moved = rw (map-append, entries-unlink dec k i es h o.unique o.distinct)

  pub push-IsValid :
      (c : LruCache K V) (k : K) (w : V)
      → IsValid c
      → index_of dec k c.order ≡ none
      → IsValid (push dec c k w)
  unfolding push
  push-IsValid c k w v h =
      let e : Element K V = record { id = c.next; key = k; value = w } in
      record {
        indexed = λ j. elim (dec k j) [
          | yes p ↦ ground (
            arith,
            lookup-insert dec k j c.next c.items,
            index_of-snoc dec j c.order e,
            ap (λ x. index_of dec x c.order) p,
          )
          | no p ↦ ground (
            arith,
            lookup-insert dec k j c.next c.items,
            index_of-snoc_ne dec j c.order e p,
            v.indexed j,
          )
        ];
        once = insert-NodupKeys dec k c.next c.items v.once;
        counted = omega (
          arith,
          length-insert_new dec k c.next c.items (v.indexed k ∙ h),
          length-snoc {0} c.order e,
          v.counted,
        );
        ordered = record {
          fresh =
              All-append (λ f. f.id < suc c.next) c.order (e ∷ [])
                (All-lt-suc c.next c.order v.ordered.fresh) (omega arith, tt);
          unique =
              UniqueIds-snoc c.order e v.ordered.unique
                (All-ne_of_lt c.next c.order v.ordered.fresh);
          distinct = UniqueKeys-snoc dec c.order e v.ordered.distinct h;
        };
      }

  pub evict_front-IsValid :
      (c : LruCache K V) (e : Element K V) (es : List (Element K V))
      → IsValid c
      → c.order ≡ e ∷ es
      → IsValid (record c { order = es; items = delete dec e.key c.items })
  unfolding index_of
  evict_front-IsValid c e es v q =
      let o : IsOrder c.next (e ∷ es) = rw q at v.ordered in
      let hit : lookup dec e.key c.items ≡ some e.id =
        v.indexed e.key ∙ ap (index_of dec e.key) q ∙ if_pos (dec e.key e.key) refl _ _ in
      record {
        indexed = λ j.
            let at_j = v.indexed j ∙ ap (index_of dec j) q in
            ground (arith, lookup-delete dec e.key j c.items, at_j, o.distinct.0);
        once = delete-NodupKeys dec e.key c.items v.once;
        counted =
            omega (arith, length-delete dec e.key e.id c.items v.once hit, v.counted, ap length q);
        ordered = record { fresh = o.fresh.1; unique = o.unique.1; distinct = o.distinct.1 };
      }
