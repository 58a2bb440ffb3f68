-- ===== src/Optional.antt =====
-- asceticddd/option/option.go: Go's `Option[T]`, a value beside a flag. `Nothing` holds the zero
-- value of its type, which every function that makes one takes as `zero_value`.
pub mod Laws
use ascetic_ddd_go.Base.{Bool, true, false, not, if◌then◌else◌, Option, none, some}

pub record Optional (T : Type 0) : Type 0 where
  pub val : T
  pub valid : Bool

module _ {T : Type 0} where
  unfoldable pub some_of : T → Optional T
  some_of val = record { val = val; valid = true }

  unfoldable pub nothing_of : T → Optional T
  nothing_of zero_value = record { val = zero_value; valid = false }

  unfoldable pub is_some : Optional T → Bool
  is_some o = o.valid

  unfoldable pub is_nothing : Optional T → Bool
  is_nothing o = not o.valid

  -- `none` is the panic.
  unfoldable pub unwrap : Optional T → Option T
  unwrap o = if not o.valid then none else some o.val

  unfoldable pub unwrap_or : Optional T → T → T
  unwrap_or o def = if o.valid then o.val else def

  -- The closure is called only if there is no value.
  unfoldable pub unwrap_or_else : Optional T → (Unit {0} → T) → T
  unwrap_or_else o f = if o.valid then o.val else f tt

  unfoldable pub unwrap_or_zero : Optional T → T
  unwrap_or_zero o = o.val

  unfoldable pub or_optional : Optional T → Optional T → Optional T
  or_optional o optb = if o.valid then o else optb

  unfoldable pub or_else : Optional T → (Unit {0} → Optional T) → Optional T
  or_else o f = if o.valid then o else f tt

module _ {T U : Type 0} where
  unfoldable pub map_optional : U → Optional T → (T → U) → Optional U
  map_optional zero_value o f = if o.valid then some_of (f o.val) else nothing_of zero_value

  unfoldable pub map_or : Optional T → U → (T → U) → U
  map_or o def f = if o.valid then f o.val else def

  unfoldable pub and_then : U → Optional T → (T → Optional U) → Optional U
  and_then zero_value o f = if o.valid then f o.val else nothing_of zero_value
