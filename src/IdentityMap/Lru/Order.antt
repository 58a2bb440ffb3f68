-- ===== src/IdentityMap/Lru/Order.antt =====
-- The recency list of the cache: elements found by identity against elements found by key.
use ascetic_ddd_go.Base.{
  ℕ, suc, ◌<◌, ◌≡◌, refl, sym, ◌≢◌, List, [], ◌∷◌, ◌++◌, map, Option, none, some, ite, if_pos,
  if_neg, ℕ_discrete, length, All, All-append, arith,
}
use ascetic_ddd_go.Base.Assoc.{lookup, delete}
use ascetic_ddd_go.IdentityMap.Lru.{Element, find, unlink}

module _ {K V : Type 0} where
  abbrev pub entry : Element K V → K × V
  entry e = (e.key, e.value)

  abbrev pub UniqueIds : List (Element K V) → Type 0
  UniqueIds [] = Unit
  UniqueIds (e ∷ es) = All (λ f. f.id ≢ e.id) es × UniqueIds es

module _ {K V : Type 0} (dec : Discrete K) where
  -- The identity of the element that holds a key.
  unfoldable pub index_of : K → List (Element K V) → Option ℕ
  index_of k [] = none
  index_of k (e ∷ es) = ite (dec e.key k) (some e.id) (index_of k es)

  abbrev pub UniqueKeys : List (Element K V) → Type 0
  UniqueKeys [] = Unit
  UniqueKeys (e ∷ es) = (index_of e.key es ≡ none) × UniqueKeys es

  pub index_of-snoc :
      (j : K) (es : List (Element K V)) (e : Element K V)
      → index_of j es ≡ none
      → index_of j (es ++ e ∷ []) ≡ ite (dec e.key j) (some e.id) none
  unfolding index_of
  index_of-snoc j [] e h = refl
  index_of-snoc j (f ∷ es) e h = ground (arith, index_of-snoc j es e)

  pub index_of-snoc_ne :
      (j : K) (es : List (Element K V)) (e : Element K V)
      → e.key ≢ j
      → index_of j (es ++ e ∷ []) ≡ index_of j es
  unfolding index_of
  index_of-snoc_ne j [] e h = ground arith
  index_of-snoc_ne j (f ∷ es) e h = ground (arith, index_of-snoc_ne j es e)

  pub UniqueKeys-snoc :
      (es : List (Element K V)) (e : Element K V)
      → UniqueKeys es
      → index_of e.key es ≡ none
      → UniqueKeys (es ++ e ∷ [])
  unfolding index_of
  UniqueKeys-snoc [] e u h = (refl, tt)
  UniqueKeys-snoc (f ∷ es) e u h =
      (ground (arith, index_of-snoc_ne f.key es e), UniqueKeys-snoc es e u.1 (ground arith))

  pub lookup_of_index-none :
      (k : K) (es : List (Element K V)) → index_of k es ≡ none → lookup dec k (map entry es) ≡ none
  unfolding index_of lookup
  lookup_of_index-none k [] h = refl
  lookup_of_index-none k (e ∷ es) h = ground (arith, lookup_of_index-none k es)

  pub delete_of_index-none :
      (k : K) (es : List (Element K V))
      → index_of k es ≡ none
      → delete dec k (map entry es) ≡ map entry es
  unfolding index_of delete
  delete_of_index-none k [] h = refl
  delete_of_index-none k (e ∷ es) h = ground (arith, delete_of_index-none k es)

  index_of-ne :
      (k : K) (i n : ℕ) (es : List (Element K V))
      → index_of k es ≡ some i
      → All (λ f. f.id ≢ n) es
      → i ≢ n
  unfolding index_of
  index_of-ne k i n [] h a = cc
  index_of-ne k i n (e ∷ es) h a = elim (dec e.key k) [
    | yes p ↦ λ q. a.0 (ground arith)
    | no p ↦ index_of-ne k i n es (ground arith) a.1
  ]

  pub index_of-All :
      (P : ℕ → Type 0) (k : K) (i : ℕ) (es : List (Element K V))
      → index_of k es ≡ some i
      → All (λ e. P e.id) es
      → P i
  unfolding index_of
  index_of-All P k i [] h a = absurd (cc)
  index_of-All P k i (e ∷ es) h a = elim (dec e.key k) [
    | yes p ↦ let q : e.id ≡ i = ground arith in rw q at a.0
    | no p ↦ index_of-All P k i es (ground arith) a.1
  ]

  module _ (k : K) (i : ℕ) where
    -- An element that a key leads to is there, with the key, and holds what a lookup gives.
    pub find_of_index :
        (es : List (Element K V))
        → index_of k es ≡ some i
        → UniqueIds es
        → (e : Element K V) × (find i es ≡ some e)
          × (e.key ≡ k)
          × (e.id ≡ i)
          × (lookup dec k (map entry es) ≡ some e.value)
    unfolding index_of find lookup
    find_of_index [] h u = absurd (cc)
    find_of_index (e ∷ es) h u = elim (dec e.key k) [
      | yes p ↦ (e, ground arith, p, ground arith, ground arith)
      | no p ↦
          let r : index_of k es ≡ some i = ground arith in
          let ne : i ≢ e.id = index_of-ne k i e.id es r u.0 in
          let (f, found, key, id, value) = find_of_index es r u.1 in
          (f, ground arith, key, id, ground arith)
    ]

    -- To unlink that element is to delete its key.
    pub index_of-unlink :
        (j : K) (es : List (Element K V))
        → index_of k es ≡ some i
        → UniqueIds es
        → UniqueKeys es
        → index_of j (unlink i es) ≡ ite (dec k j) none (index_of j es)
    unfolding index_of unlink
    index_of-unlink j [] h u d = ground arith
    index_of-unlink j (e ∷ es) h u d = elim (dec e.key k) [
      | yes p ↦ ground arith
      | no p ↦
          let r : index_of k es ≡ some i = ground arith in
          let ne : i ≢ e.id = index_of-ne k i e.id es r u.0 in
          ground (arith, index_of-unlink j es r u.1 d.1)
    ]

    pub entries-unlink :
        (es : List (Element K V))
        → index_of k es ≡ some i
        → UniqueIds es
        → UniqueKeys es
        → map entry (unlink i es) ≡ delete dec k (map entry es)
    unfolding index_of unlink delete
    entries-unlink [] h u d = refl
    entries-unlink (e ∷ es) h u d = elim (dec e.key k) [
      | yes p ↦ ground (arith, delete_of_index-none k es)
      | no p ↦
          let r : index_of k es ≡ some i = ground arith in
          let ne : i ≢ e.id = index_of-ne k i e.id es r u.0 in
          ground (arith, entries-unlink es r u.1 d.1)
    ]

    pub length-unlink :
        (es : List (Element K V))
        → index_of k es ≡ some i
        → UniqueIds es
        → suc (length (unlink i es)) ≡ length es
    unfolding index_of unlink
    length-unlink [] h u = cc
    length-unlink (e ∷ es) h u = elim (dec e.key k) [
      | yes p ↦ ground arith
      | no p ↦
          let r : index_of k es ≡ some i = ground arith in
          let ne : i ≢ e.id = index_of-ne k i e.id es r u.0 in
          ground (arith, length-unlink es r u.1)
    ]

  pub UniqueKeys-unlink :
      (k : K) (i : ℕ) (es : List (Element K V))
      → index_of k es ≡ some i
      → UniqueIds es
      → UniqueKeys es
      → UniqueKeys (unlink i es)
  unfolding index_of unlink
  UniqueKeys-unlink k i [] h u d = tt
  UniqueKeys-unlink k i (e ∷ es) h u d = elim (dec e.key k) [
    | yes p ↦ let q : e.id ≡ i = ground arith in rw (if_pos _ q) d.1
    | no p ↦
        let r : index_of k es ≡ some i = ground arith in
        let ne : i ≢ e.id = index_of-ne k i e.id es r u.0 in
        rw (if_neg _ (λ q. ne (sym q))) (
          ground (arith, index_of-unlink k i e.key es r u.1 d.1),
          UniqueKeys-unlink k i es r u.1 d.1,
        )
  ]

module _ {K V : Type 0} (P : ℕ → Type 0) (i : ℕ) where
  pub All-unlink :
      (es : List (Element K V)) → All (λ e. P e.id) es → All (λ e. P e.id) (unlink i es)
  unfolding unlink
  All-unlink [] h = tt
  All-unlink (e ∷ es) h = elim (ℕ_discrete e.id i) [
    | yes p ↦ rw (if_pos _ p) h.1
    | no p ↦ rw (if_neg _ p) (h.0, All-unlink es h.1)
  ]

module _ {K V : Type 0} where
  pub UniqueIds-unlink : (i : ℕ) (es : List (Element K V)) → UniqueIds es → UniqueIds (unlink i es)
  unfolding unlink
  UniqueIds-unlink i [] h = tt
  UniqueIds-unlink i (e ∷ es) h = elim (ℕ_discrete e.id i) [
    | yes p ↦ rw (if_pos _ p) h.1
    | no p ↦ rw (if_neg _ p) (All-unlink (λ n. n ≢ e.id) i es h.0, UniqueIds-unlink i es h.1)
  ]

  -- What is unlinked is gone.
  pub unlink-All-ne :
      (i : ℕ) (es : List (Element K V)) → UniqueIds es → All (λ e. e.id ≢ i) (unlink i es)
  unfolding unlink
  unlink-All-ne i [] h = tt
  unlink-All-ne i (e ∷ es) h = elim (ℕ_discrete e.id i) [
    | yes p ↦ rw (if_pos _ p) (rw p at h.0)
    | no p ↦ rw (if_neg _ p) (p, unlink-All-ne i es h.1)
  ]

  pub UniqueIds-snoc :
      (es : List (Element K V)) (e : Element K V)
      → UniqueIds es
      → All (λ f. f.id ≢ e.id) es
      → UniqueIds (es ++ e ∷ [])
  UniqueIds-snoc [] e u h = (tt, tt)
  UniqueIds-snoc (f ∷ es) e u h = (
    All-append (λ g. g.id ≢ f.id) es (e ∷ []) u.0 ((λ q. h.0 (sym q)), tt),
    UniqueIds-snoc es e u.1 h.1,
  )

  pub All-ne_of_lt :
      (n : ℕ) (es : List (Element K V)) → All (λ e. e.id < n) es → All (λ e. e.id ≢ n) es
  All-ne_of_lt n [] h = tt
  All-ne_of_lt n (e ∷ es) h = (omega arith, All-ne_of_lt n es h.1)

  pub All-lt-suc :
      (n : ℕ) (es : List (Element K V)) → All (λ e. e.id < n) es → All (λ e. e.id < suc n) es
  All-lt-suc n [] h = tt
  All-lt-suc n (e ∷ es) h = (omega arith, All-lt-suc n es h.1)
