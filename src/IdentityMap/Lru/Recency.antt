-- ===== src/IdentityMap/Lru/Recency.antt =====
-- What a recency list holds after an insertion.
use ascetic_ddd_go.Base.{
  ℕ, ◌<◌, ◌≤◌, ◌≡◌, refl, ap, ◌≢◌, [], ◌∷◌, ◌++◌, Option, none, some, if_neg, max, ◌-◌, ◌∙◌, length,
  length-snoc, Option-cases, inl, inr, arith,
}
use ascetic_ddd_go.Base.Assoc.{lookup, delete, lookup-delete}
use ascetic_ddd_go.IdentityMap.Lru.Valid.{Recency, touch, store, trim}

module _ {K V : Type 0} (dec : Discrete K) where
  lookup-append :
      (k : K) (l m : Recency K V) → lookup dec k l ≡ none → lookup dec k (l ++ m) ≡ lookup dec k m
  unfolding lookup
  lookup-append k [] m h = refl
  lookup-append k ((j, v) ∷ l) m h = ground (arith, lookup-append k l m)

  lookup-append_other :
      (j k : K) (l : Recency K V) (v : V) → k ≢ j → lookup dec j (l ++ (k, v) ∷ []) ≡ lookup dec j l
  unfolding lookup
  lookup-append_other j k [] v h = ground arith
  lookup-append_other j k ((i, w) ∷ l) v h = ground (arith, lookup-append_other j k l v)

  lookup_last :
      (k : K) (l : Recency K V) (v : V)
      → lookup dec k l ≡ none
      → lookup dec k (l ++ (k, v) ∷ []) ≡ some v
  unfolding lookup
  lookup_last k l v h = ground (arith, lookup-append k l ((k, v) ∷ []) h)

  lookup-touch : (k : K) (v : V) (l : Recency K V) → lookup dec k (touch dec k v l) ≡ some v
  lookup-touch k v l = lookup_last k (delete dec k l) v (ground (arith, lookup-delete dec k k l))

  lookup-trim :
      (size : ℕ) (k : K) (v : V) (l : Recency K V)
      → 0 < size
      → lookup dec k l ≡ none
      → lookup dec k (trim size (l ++ (k, v) ∷ [])) ≡ some v
  unfolding lookup
  lookup-trim size k v [] h miss = ground arith
  lookup-trim size k v ((j, w) ∷ l) h miss = ground (arith, lookup_last k l v)

  -- A stored key is found again if the size is not 0.
  pub lookup-store :
      (size : ℕ) (k : K) (v : V) (l : Recency K V)
      → 0 < size
      → lookup dec k (store dec size k v l) ≡ some v
  lookup-store size k v l h = elim (Option-cases (lookup dec k l)) [
    | inr (w, hit) ↦ rw (hit, store) (lookup-touch k v l)
    | inl miss ↦ rw (miss, store) (lookup-trim size k v l h miss)
  ]

  -- The oldest key, the one that a new key can push out.
  abbrev pub oldest : Recency K V → Option K
  oldest [] = none
  oldest ((j, _) ∷ _) = some j

  lookup-trim_other :
      (size : ℕ) (j k : K) (v : V) (l : Recency K V)
      → k ≢ j
      → oldest l ≢ some j
      → lookup dec j (trim size (l ++ (k, v) ∷ [])) ≡ lookup dec j l
  unfolding lookup
  lookup-trim_other size j k v [] h old = ground arith
  lookup-trim_other size j k v ((i, w) ∷ l) h old =
      ground (arith, lookup-append_other j k l v h, ap {A = K} {B = Option K} some)

  pub lookup-store_other :
      (size : ℕ) (j k : K) (v : V) (l : Recency K V)
      → k ≢ j
      → oldest l ≢ some j
      → lookup dec j (store dec size k v l) ≡ lookup dec j l
  lookup-store_other size j k v l h old = elim (Option-cases (lookup dec k l)) [
    | inr (w, hit) ↦
        rw (hit, store)
          (lookup-append_other j k (delete dec k l) v h
            ∙ lookup-delete dec k j l
            ∙ if_neg (dec k j) h _ _)
    | inl miss ↦ rw (miss, store) (lookup-trim_other size j k v l h old)
  ]

  length-trim : (size : ℕ) (l : Recency K V) → length (trim size l) ≤ max size (length l - 1)
  length-trim size [] = ground arith
  length-trim size (e ∷ l) = ground arith

  length-delete-le : (k : K) (l : Recency K V) → length (delete dec k l) ≤ length l
  unfolding delete
  length-delete-le k [] = omega arith
  length-delete-le k ((j, w) ∷ l) = ground (arith, length-delete-le k l)

  length-delete-lt :
      (k : K) (v : V) (l : Recency K V)
      → lookup dec k l ≡ some v
      → length (delete dec k l) < length l
  unfolding delete lookup
  length-delete-lt k v [] h = cc
  length-delete-lt k v ((j, w) ∷ l) h = ground (arith, length-delete-lt k v l, length-delete-le k l)

  -- An insertion never grows a list beyond the size.
  pub length-store :
      (size : ℕ) (k : K) (v : V) (l : Recency K V)
      → length (store dec size k v l) ≤ max size (length l)
  length-store size k v l = elim (Option-cases (lookup dec k l)) [
    | inr (w, hit) ↦
        rw (hit, store)
          (omega (arith, length-snoc {0} (delete dec k l) (k, v), length-delete-lt k w l hit))
    | inl miss ↦
        rw (miss, store)
          (omega (arith, length-trim size (l ++ (k, v) ∷ []), length-snoc {0} l (k, v)))
  ]
