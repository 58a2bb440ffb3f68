-- ===== src/Base/Lists.antt =====
-- Lists measured and indexed by native numbers, under the library's names, and predicates on
-- lists by recursion.
use Prim.Native.Nat.{ℕ, zero, suc, ◌+◌}
use mathlib.Core.Path.{◌≡◌, refl, ap}
use mathlib.Core.List.{List, [], ◌∷◌, ◌++◌, map}
use mathlib.Core.Option.{Option, none, some}
use native.Mathlib.Omega.{arith}

module _ {ℓ} {A : Type ℓ} where
  abbrev pub length : List A → ℕ
  length [] = 0
  length (x ∷ xs) = suc (length xs)

  abbrev pub get_elem? : List A → ℕ → Option A
  get_elem? [] i = none
  get_elem? (x ∷ xs) zero = some x
  get_elem? (x ∷ xs) (suc i) = get_elem? xs i

  pub length-append : (xs ys : List A) → length (xs ++ ys) ≡ length xs + length ys
  length-append [] ys = omega arith
  length-append (x ∷ xs) ys = omega (arith, length-append xs ys)

  pub length-snoc : (xs : List A) (y : A) → length (xs ++ y ∷ []) ≡ suc (length xs)
  length-snoc xs y = omega (arith, length-append xs (y ∷ []))

  abbrev pub All {κ} : (A → Type κ) → List A → Type κ
  All P [] = Unit
  All P (x ∷ xs) = P x × All P xs

  pub All-append {κ} : (P : A → Type κ) (xs ys : List A) → All P xs → All P ys → All P (xs ++ ys)
  All-append P [] ys h k = k
  All-append P (x ∷ xs) ys h k = (h.0, All-append P xs ys h.1 k)

  -- The last element, and the list without it: `s[len(s)-1]` and `s[:len(s)-1]`.
  abbrev pub unsnoc : List A → Option (List A × A)
  unsnoc [] = none
  unsnoc (x ∷ xs) = elim (unsnoc xs) [ none ↦ some ([], x) | some (ys, y) ↦ some (x ∷ ys, y) ]

  pub unsnoc-eq-none : (xs : List A) → unsnoc xs ≡ none → xs ≡ []
  unsnoc-eq-none [] h = refl
  unsnoc-eq-none (x ∷ xs) h = absurd (ground arith)

  pub unsnoc-eq-some : (xs ys : List A) (y : A) → unsnoc xs ≡ some (ys, y) → xs ≡ ys ++ y ∷ []
  unsnoc-eq-some [] ys y h = cc
  unsnoc-eq-some (x ∷ xs) ys y h = go (unsnoc xs) refl (unsnoc-eq-some xs)
    where
      go :
          (o : Option (List A × A))
          → unsnoc xs ≡ o
          → ((zs : List A) (z : A) → unsnoc xs ≡ some (zs, z) → xs ≡ zs ++ z ∷ [])
          → x ∷ xs ≡ ys ++ y ∷ []
      go none e rec = ground (arith, unsnoc-eq-none xs e)
      go (some (zs, z)) e rec = ground (arith, rec zs z e)

  pub unsnoc-snoc : (xs : List A) (y : A) → unsnoc (xs ++ y ∷ []) ≡ some (xs, y)
  unsnoc-snoc [] y = refl
  unsnoc-snoc (x ∷ xs) y = ground (arith, unsnoc-snoc xs y)

module _ {ℓ κ} {A : Type ℓ} {B : Type κ} (f : A → B) where
  pub length-map : (xs : List A) → length (map f xs) ≡ length xs
  length-map [] = refl
  length-map (x ∷ xs) = ap suc (length-map xs)
