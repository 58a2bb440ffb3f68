-- ===== src/Optional/Laws.antt =====
-- The functions of asceticddd/option/option.go beside those of the library's options.
use ascetic_ddd_go.Base.{◌≡◌, true, Option, none, some, arith, Bool-cases, ◌⊎◌, inl, inr}
use ascetic_ddd_go.Optional.{Optional, some_of, nothing_of, unwrap, map_optional, and_then}

module _ {T : Type 0} where
  -- There is a value, or the zero value in its place.
  abbrev pub IsZeroed : T → Optional T → Type 0
  IsZeroed zero_value o = (o.valid ≡ true) ⊎ (o.val ≡ zero_value)

abbrev pub bind : {T U : Type 0} → Option T → (T → Option U) → Option U
bind none f = none
bind (some x) f = f x

module _ {T U : Type 0} where
  -- If a function gives options that hold a value or the zero value, AndThen is the bind and Map
  -- the map of options, and what they give holds a value or the zero value again.
  pub unwrap-and_then :
      (zero_value : U) (o : Optional T) (f : T → Optional U) (g : T → U)
      → ((x : T) → IsZeroed zero_value (f x))
      → (unwrap (and_then zero_value o f) ≡ bind (unwrap o) (λ x. unwrap (f x)))
        × (unwrap (map_optional zero_value o g) ≡ bind (unwrap o) (λ x. some (g x)))
        × IsZeroed zero_value (and_then zero_value o f)
        × IsZeroed zero_value (map_optional zero_value o g)
  unfolding unwrap and_then map_optional some_of nothing_of
  unwrap-and_then zero_value o f g h = elim (Bool-cases o.valid) [
    | inl has ↦ (
      ground (arith, has),
      ground (arith, has),
      ground (arith, has, h o.val),
      inl (ground (arith, has)),
    )
    | inr lacks ↦ (
      ground (arith, lacks),
      ground (arith, lacks),
      inr (ground (arith, lacks)),
      inr (ground (arith, lacks)),
    )
  ]
