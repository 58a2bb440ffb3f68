-- ===== src/Specification/Registry.antt =====
-- asceticddd/specification/domain/operators/registry.go: `OperatorRegistry`, PostgreSQL's NULL
-- semantics over registered operator functions.
pub mod Laws
pub mod Logic
use ascetic_ddd_go.Base.{
  Bool, true, false, not, ◌&&◌, ◌||◌, if◌then◌else◌, List, [], Option, none, some,
}
use ascetic_ddd_go.Base.Assoc.{lookup, insert}
use ascetic_ddd_go.Specification.Operators.{
  Operator, Operator-discrete, op_eq, op_gt, op_lt, op_gte, op_lte, op_ne, op_is, op_and, op_or,
  op_not, op_add, op_sub, op_mul, op_div, op_mod, op_pos, op_neg, op_lshift, op_rshift, op_is_null,
  op_is_not_null, Any, nil, bool, some_other, Error, unsupported_binary, unsupported_unary,
  requires_bool, left_operand, right_operand, not_collection, not_bool, panic, other_error, Result,
  ok, err, ◌>>=◌,
}

-- The values other than `nil`: their run-time types, `reflect.TypeOf`, and the interfaces of
-- operators/interfaces.go that some of them implement. A test is `none` for a value that does not
-- implement the interface.
pub record Values (X Ty : Type 0) : Type 0 where
  pub type_of : Any X → Ty
  pub same_type : Discrete Ty
  pub equal : Any X → Option (Any X → Bool)
  pub greater_than : Any X → Option (Any X → Bool)
  pub greater_than_equal : Any X → Option (Any X → Bool)
  pub less_than : Any X → Option (Any X → Bool)
  pub less_than_equal : Any X → Option (Any X → Bool)

abbrev pub BinaryOp : Type 0 → Type 0 → Type 0
BinaryOp E X = Any X → Any X → Result E (Any X)

abbrev pub UnaryOp : Type 0 → Type 0 → Type 0
UnaryOp E X = Any X → Result E (Any X)

pub record OperatorRegistry (E X Ty : Type 0) : Type 0 where
  pub binary : List ((Ty × Operator × Ty) × BinaryOp E X)
  pub unary : List ((Operator × Ty) × UnaryOp E X)

unfoldable pub new_operator_registry : {E X Ty : Type 0} → OperatorRegistry E X Ty
new_operator_registry = record { binary = []; unary = [] }

pub binary_key : {Ty : Type 0} → Discrete Ty → Discrete (Ty × Operator × Ty)
binary_key same = hlevel (same, Operator-discrete)

pub unary_key : {Ty : Type 0} → Discrete Ty → Discrete (Operator × Ty)
unary_key same = hlevel (same, Operator-discrete)

unfoldable pub is_and : Operator → Bool
is_and op_and = true
is_and _ = false

unfoldable pub is_or : Operator → Bool
is_or op_or = true
is_or _ = false

unfoldable pub is_op_is_null : Operator → Bool
is_op_is_null op_is_null = true
is_op_is_null _ = false

unfoldable pub is_op_is_not_null : Operator → Bool
is_op_is_not_null op_is_not_null = true
is_op_is_not_null _ = false

unfoldable pub is_nil : {X : Type 0} → Any X → Bool
is_nil nil = true
is_nil _ = false

-- Three-valued AND: a NULL operand gives FALSE beside FALSE and NULL otherwise.
unfoldable pub exec_and : {E X : Type 0} → BinaryOp E X
exec_and nil (bool r) = if r then ok nil else ok (bool false)
exec_and nil right = ok nil
exec_and (bool l) nil = if l then ok nil else ok (bool false)
exec_and (bool l) (bool r) = ok (bool (l && r))
exec_and (bool l) (some_other x) = err (requires_bool op_and)
exec_and (some_other x) nil = ok nil
exec_and (some_other x) right = err (requires_bool op_and)

unfoldable pub exec_or : {E X : Type 0} → BinaryOp E X
exec_or nil (bool r) = if r then ok (bool true) else ok nil
exec_or nil right = ok nil
exec_or (bool l) nil = if l then ok (bool true) else ok nil
exec_or (bool l) (bool r) = ok (bool (l || r))
exec_or (bool l) (some_other x) = err (requires_bool op_or)
exec_or (some_other x) nil = ok nil
exec_or (some_other x) right = err (requires_bool op_or)

-- The closure that `interfaceFallback` returns, on its operands: the left one has the interface,
-- the right one is asserted to have it.
unfoldable pub operand_op :
    {E X : Type 0} → (Any X → Option (Any X → Bool)) → (Bool → Bool) → Operator → BinaryOp E X
operand_op has answer op left right = elim (has left) [
  | none ↦ err (left_operand op)
  | some compare ↦ elim (has right) [
    | none ↦ err (right_operand op)
    | some _ ↦ ok (bool (answer (compare right)))
  ]
]

unfoldable pub if_implemented :
    {E X : Type 0}
    → (Any X → Option (Any X → Bool))
    → (Bool → Bool)
    → Operator
    → Any X
    → Option (BinaryOp E X)
if_implemented has answer op left = elim (has left) [
  | none ↦ none
  | some _ ↦ some (operand_op has answer op)
]

module _ {E X Ty : Type 0} (values : Values X Ty) where
  unfoldable pub interface_fallback : Any X → Operator → Option (BinaryOp E X)
  interface_fallback left op_eq = if_implemented values.equal (λ b. b) op_eq left
  interface_fallback left op_ne = if_implemented values.equal not op_ne left
  interface_fallback left op_gt = if_implemented values.greater_than (λ b. b) op_gt left
  interface_fallback left op_gte = if_implemented values.greater_than_equal (λ b. b) op_gte left
  interface_fallback left op_lt = if_implemented values.less_than (λ b. b) op_lt left
  interface_fallback left op_lte = if_implemented values.less_than_equal (λ b. b) op_lte left
  interface_fallback left _ = none

  unfoldable pub register_binary :
      OperatorRegistry E X Ty → Ty → Operator → Ty → BinaryOp E X → OperatorRegistry E X Ty
  register_binary reg left op right fn = record reg {
    binary = insert (binary_key values.same_type) (left, op, right) fn reg.binary;
  }

  unfoldable pub register_unary :
      OperatorRegistry E X Ty → Operator → Ty → UnaryOp E X → OperatorRegistry E X Ty
  register_unary reg op operand fn = record reg {
    unary = insert (unary_key values.same_type) (op, operand) fn reg.unary;
  }

  unfoldable pub lookup_binary :
      OperatorRegistry E X Ty → Any X → Operator → Any X → Result E (BinaryOp E X)
  lookup_binary reg left op right =
      elim (lookup (binary_key values.same_type) (values.type_of left, op, values.type_of right)
        reg.binary) [
          | some fn ↦ ok fn
          | none ↦ elim (interface_fallback left op) [
            | some fallback ↦ ok fallback
            | none ↦ err (unsupported_binary op)
          ]
        ]

  unfoldable pub lookup_unary : OperatorRegistry E X Ty → Operator → Any X → Result E (UnaryOp E X)
  lookup_unary reg op operand =
      elim (lookup (unary_key values.same_type) (op, values.type_of operand) reg.unary) [
        | some fn ↦ ok fn
        | none ↦ err (unsupported_unary op)
      ]

  unfoldable pub exec_binary : OperatorRegistry E X Ty → Any X → Operator → Any X → Result E (Any X)
  exec_binary reg left op right =
      if is_and op
      then exec_and left right
      else if is_or op
      then exec_or left right
      else if is_nil left || is_nil right
      then ok nil
      else (lookup_binary reg left op right >>= λ fn. fn left right)

  unfoldable pub exec_unary : OperatorRegistry E X Ty → Operator → Any X → Result E (Any X)
  exec_unary reg op operand =
      if is_op_is_null op
      then ok (bool (is_nil operand))
      else if is_op_is_not_null op
      then ok (bool (not (is_nil operand)))
      else if is_nil operand
      then ok nil
      else (lookup_unary reg op operand >>= λ fn. fn operand)
