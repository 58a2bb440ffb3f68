-- ===== src/Specification/Registry/Logic.antt =====
-- AND and OR of asceticddd/specification/domain/operators/registry.go on the three truth values.
use ascetic_ddd_go.Base.{ℕ, ◌≡◌, refl, true, false, if◌then◌else◌, leb}
use ascetic_ddd_go.Specification.Operators.{Any, nil, bool, op_and, op_or, ok}
use ascetic_ddd_go.Specification.Registry.{
  Values, OperatorRegistry, is_and, is_or, exec_and, exec_or, exec_binary,
}

-- The three truth values, in their order.
pub data Truth : Type 0 where
  no_ unknown yes_ : Truth

abbrev pub rank : Truth → ℕ
rank no_ = 0
rank unknown = 1
rank yes_ = 2

abbrev pub value_of : {X : Type 0} → Truth → Any X
value_of no_ = bool false
value_of unknown = nil
value_of yes_ = bool true

abbrev pub lesser : Truth → Truth → Truth
lesser a b = if leb (rank a) (rank b) then a else b

abbrev pub greater : Truth → Truth → Truth
greater a b = if leb (rank a) (rank b) then b else a

abbrev pub opposite : Truth → Truth
opposite no_ = yes_
opposite unknown = unknown
opposite yes_ = no_

module _ {E X Ty : Type 0} (values : Values X Ty) (reg : OperatorRegistry E X Ty) where
  -- Whatever is registered, AND of two of the values false, NULL and true gives the lesser and OR
  -- the greater of them, in the order false, NULL, true.
  pub exec_binary-Truth :
      (a b : Truth)
      → (exec_binary values reg (value_of a) op_and (value_of b) ≡ ok (value_of (lesser a b)))
        × (exec_binary values reg (value_of a) op_or (value_of b) ≡ ok (value_of (greater a b)))
  unfolding exec_binary exec_and exec_or is_and is_or
  exec_binary-Truth no_ no_ = (refl, refl)
  exec_binary-Truth no_ unknown = (refl, refl)
  exec_binary-Truth no_ yes_ = (refl, refl)
  exec_binary-Truth unknown no_ = (refl, refl)
  exec_binary-Truth unknown unknown = (refl, refl)
  exec_binary-Truth unknown yes_ = (refl, refl)
  exec_binary-Truth yes_ no_ = (refl, refl)
  exec_binary-Truth yes_ unknown = (refl, refl)
  exec_binary-Truth yes_ yes_ = (refl, refl)
