-- ===== src/Base/Assoc.antt =====
-- A Go map as an association list over keys with a decidable equality: a read, a write in place
-- or at the end, and `delete`.
use Prim.Native.Nat.{suc}
use mathlib.Core.Path.{◌≡◌, refl, ap}
use mathlib.Core.Logic.{ite, if_pos, if_neg}
use mathlib.Core.Option.{Option, none, some}
use mathlib.Core.List.{List, [], ◌∷◌}
use native.Mathlib.Omega.{arith}
use ascetic_ddd_go.Base.Lists.{length}

module _ {ℓ} {K V : Type ℓ} (dec : Discrete K) where
  unfoldable pub lookup : K → List (K × V) → Option V
  lookup k [] = none
  lookup k ((j, v) ∷ m) = ite (dec j k) (some v) (lookup k m)

  unfoldable pub insert : K → V → List (K × V) → List (K × V)
  insert k v [] = (k, v) ∷ []
  insert k v ((j, w) ∷ m) = ite (dec j k) ((k, v) ∷ m) ((j, w) ∷ insert k v m)

  unfoldable pub delete : K → List (K × V) → List (K × V)
  delete k [] = []
  delete k ((j, w) ∷ m) = ite (dec j k) (delete k m) ((j, w) ∷ delete k m)

  pub lookup-insert :
      (k j : K) (v : V) (m : List (K × V))
      → lookup j (insert k v m) ≡ ite (dec k j) (some v) (lookup j m)
  unfolding lookup insert
  lookup-insert k j v [] = refl
  lookup-insert k j v ((i, w) ∷ m) = ground (arith, lookup-insert k j v m)

  pub lookup-delete :
      (k j : K) (m : List (K × V)) → lookup j (delete k m) ≡ ite (dec k j) none (lookup j m)
  unfolding lookup delete
  lookup-delete k j [] = ground arith
  lookup-delete k j ((i, w) ∷ m) = ground (arith, lookup-delete k j m)

  pub length-insert_new :
      (k : K) (v : V) (m : List (K × V))
      → lookup k m ≡ none
      → length (insert k v m) ≡ suc (length m)
  unfolding lookup insert
  length-insert_new k v [] h = refl
  length-insert_new k v ((i, w) ∷ m) h = ground (arith, length-insert_new k v m)

  -- Each key is bound once.
  abbrev pub NodupKeys : List (K × V) → Type ℓ
  NodupKeys [] = Unit
  NodupKeys ((j, w) ∷ m) = (lookup j m ≡ none) × NodupKeys m

  pub insert-NodupKeys : (k : K) (v : V) (m : List (K × V)) → NodupKeys m → NodupKeys (insert k v m)
  unfolding insert lookup
  insert-NodupKeys k v [] h = (refl, tt)
  insert-NodupKeys k v ((j, w) ∷ m) h = elim (dec j k) [
    | yes p ↦ rw (if_pos _ p) (rw p at h.0, h.1)
    | no p ↦ rw (if_neg _ p) (ground (arith, lookup-insert k j v m), insert-NodupKeys k v m h.1)
  ]

  pub delete-NodupKeys : (k : K) (m : List (K × V)) → NodupKeys m → NodupKeys (delete k m)
  unfolding delete lookup
  delete-NodupKeys k [] h = tt
  delete-NodupKeys k ((j, w) ∷ m) h = elim (dec j k) [
    | yes p ↦ rw (if_pos _ p) (delete-NodupKeys k m h.1)
    | no p ↦ rw (if_neg _ p) (ground (arith, lookup-delete k j m), delete-NodupKeys k m h.1)
  ]

  pub delete_absent : (k : K) (m : List (K × V)) → lookup k m ≡ none → delete k m ≡ m
  unfolding delete lookup
  delete_absent k [] h = refl
  delete_absent k ((j, w) ∷ m) h = ground (arith, delete_absent k m)

  pub length-delete :
      (k : K) (v : V) (m : List (K × V))
      → NodupKeys m
      → lookup k m ≡ some v
      → suc (length (delete k m)) ≡ length m
  unfolding delete lookup
  length-delete k v [] n h = cc
  length-delete k v ((j, w) ∷ m) n h = elim (dec j k) [
    | yes p ↦
        let e : delete k m ≡ m = delete_absent k m (rw p at n.0) in
        rw (if_pos _ p) (ap (λ l. suc (length l)) e)
    | no p ↦ rw (if_neg _ p) (ap suc (length-delete k v m n.1 (ground arith)))
  ]
