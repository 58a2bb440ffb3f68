-- ===== src/Specification/Registry/Laws.antt =====
-- What `ExecBinary` (registry.go) does to NULL, to operands of registered types, and to any
-- others.
use ascetic_ddd_go.Base.{
  ◌≡◌, refl, inl, inr, false, not, arith, ite, Option, none, some, ◌||◌, Option-cases,
}
use ascetic_ddd_go.Base.Assoc.{lookup, lookup-insert}
use ascetic_ddd_go.Specification.Operators.{
  Any, nil, bool, some_other, Operator, ok, op_eq, op_ne, Error, Result, err, unsupported_binary,
  left_operand, right_operand,
}
use ascetic_ddd_go.Specification.Registry.{
  Values, OperatorRegistry, BinaryOp, binary_key, is_nil, is_and, is_or, register_binary,
  lookup_binary, exec_binary, interface_fallback, if_implemented, operand_op,
}

-- The errors of = as errors of !=.
abbrev pub differing : {E : Type 0} → Error E → Error E
differing (unsupported_binary op_eq) = unsupported_binary op_ne
differing (left_operand op_eq) = left_operand op_ne
differing (right_operand op_eq) = right_operand op_ne
differing e = e

-- The negation of an answer of =, where NULL stays NULL.
abbrev pub negated : {E X : Type 0} → Result E (Any X) → Result E (Any X)
negated (ok (bool b)) = ok (bool (not b))
negated (ok x) = ok x
negated (err e) = err (differing e)

module _ {E X Ty : Type 0} (values : Values X Ty) where
  -- Every binary operator but AND and OR, registered or not, gives NULL when its left or its right
  -- operand is NULL.
  pub exec_binary-nil :
      (reg : OperatorRegistry E X Ty) (op : Operator) (x : Any X)
      → is_and op ≡ false
      → is_or op ≡ false
      → (exec_binary values reg nil op x ≡ ok nil) × (exec_binary values reg x op nil ≡ ok nil)
  unfolding exec_binary is_nil
  exec_binary-nil reg op nil h k = ground arith
  exec_binary-nil reg op (bool b) h k = ground arith
  exec_binary-nil reg op (some_other x) h k = ground arith

  -- For an operator other than AND and OR and operands that are not NULL, a registration runs its
  -- function on operands of its types and its operator, and changes nothing for others.
  pub exec_binary-register_binary :
      (reg : OperatorRegistry E X Ty) (op on : Operator) (s t : Ty) (fn : BinaryOp E X)
      (x y : Any X)
      → is_and op || is_or op ≡ false
      → is_nil x || is_nil y ≡ false
      → exec_binary values (register_binary values reg s on t fn) x op y
        ≡ ite
            (binary_key values.same_type (s, on, t) (values.type_of x, op, values.type_of y))
            (fn x y)
            (exec_binary values reg x op y)
  unfolding exec_binary lookup_binary register_binary
  exec_binary-register_binary reg op on s t fn x y h k = ground (
    arith,
    lookup-insert (binary_key values.same_type) (s, on, t) (values.type_of x, op, values.type_of y)
        fn reg.binary,
  )

  -- The functions registered for = and != on two types: none, or two of which the second answers
  -- the negation of the first.
  abbrev pub Opposed : Option (BinaryOp E X) → Option (BinaryOp E X) → Type 0
  Opposed none none = Unit
  Opposed (some equal) (some differ) = (x y : Any X) → differ x y ≡ negated (equal x y)
  Opposed _ _ = ¬ Unit

  -- If no function is registered for = and none for != on the types of two operands, or the one
  -- registered for != answers the negation of what the one registered for = does, then on these
  -- operands, NULL or not, with an equality of their own or without, != answers the negation of
  -- what = does: NULL where that is NULL, and with != in place of = in an error that tells of the
  -- operator.
  pub exec_binary-op_ne :
      (reg : OperatorRegistry E X Ty) (x y : Any X)
      → Opposed
          (lookup
            (binary_key values.same_type)
            (values.type_of x, op_eq, values.type_of y)
            reg.binary)
          (lookup
            (binary_key values.same_type)
            (values.type_of x, op_ne, values.type_of y)
            reg.binary)
      → exec_binary values reg x op_ne y ≡ negated (exec_binary values reg x op_eq y)
  unfolding exec_binary lookup_binary is_and is_or interface_fallback if_implemented operand_op
  exec_binary-op_ne reg x y h =
      go
        (lookup (binary_key values.same_type) (values.type_of x, op_eq, values.type_of y)
          reg.binary)
        (lookup (binary_key values.same_type) (values.type_of x, op_ne, values.type_of y)
          reg.binary)
        refl refl h
    where
      go :
          (f g : Option (BinaryOp E X))
          → lookup
              (binary_key values.same_type)
              (values.type_of x, op_eq, values.type_of y)
              reg.binary
            ≡ f
          → lookup
              (binary_key values.same_type)
              (values.type_of x, op_ne, values.type_of y)
              reg.binary
            ≡ g
          → Opposed f g
          → exec_binary values reg x op_ne y ≡ negated (exec_binary values reg x op_eq y)
      go none none eq ne h = elim (Option-cases (values.equal x)) [
        | inl lacks ↦ ground (arith, eq, ne, lacks)
        | inr (_, has) ↦ elim (Option-cases (values.equal y)) [
          | inl lacks ↦ ground (arith, eq, ne, has, lacks)
          | inr (_, has') ↦ ground (arith, eq, ne, has, has')
        ]
      ]
      go (some f) (some g) eq ne h = ground (arith, eq, ne, h x y)
      go none (some g) eq ne h = absurd (h tt)
      go (some f) none eq ne h = absurd (h tt)
