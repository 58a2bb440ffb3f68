-- ===== src/Specification.antt =====
-- asceticddd/specification/domain/nodes.go: the expressions of a specification, over a type `X` of
-- literal values.
pub mod Operators
pub mod Registry
pub mod Evaluation
pub mod Semantics
pub mod Laws
mod Tests
use ascetic_ddd_go.Base.{String, Bool, true, false, List, [], ◌∷◌, Option, none, some}
use ascetic_ddd_go.Specification.Operators.*

pub data Associativity : Type 0 where
  left_associative right_associative non_associative : Associativity

-- An object can stand for an expression: `Visitable` is the wider interface.
mutual
  pub data Visitable (X : Type 0) : Type 0 where
    value_node : X → Visitable X
    prefix_node : Operator → Visitable X → Associativity → Visitable X
    infix_node : Visitable X → Operator → Visitable X → Associativity → Visitable X
    postfix_node : Visitable X → Operator → Associativity → Visitable X
    field_node : EmptiableObject X → String → Visitable X
    object : EmptiableObject X → Visitable X

  pub data EmptiableObject (X : Type 0) : Type 0 where
    global_scope_node : EmptiableObject X
    object_node : EmptiableObject X → String → EmptiableObject X
    collection_node : EmptiableObject X → String → Visitable X → EmptiableObject X
    item_node : EmptiableObject X

module _ {X : Type 0} where
  unfoldable pub is_root : EmptiableObject X → Bool
  is_root global_scope_node = true
  is_root (object_node parent name) = false
  is_root (collection_node parent name predicate) = false
  is_root item_node = true

  unfoldable pub value : X → Visitable X
  value x = value_node x

  unfoldable pub new_prefix_node : Operator → Visitable X → Associativity → Visitable X
  new_prefix_node operator operand associativity = prefix_node operator operand associativity

  unfoldable pub new_infix_node : Visitable X → Operator → Visitable X → Associativity → Visitable X
  new_infix_node left operator right associativity = infix_node left operator right associativity

  unfoldable pub new_postfix_node : Visitable X → Operator → Associativity → Visitable X
  new_postfix_node operand operator associativity = postfix_node operand operator associativity

  unfoldable pub field : EmptiableObject X → String → Visitable X
  field obj name = field_node obj name

  unfoldable pub name_of : EmptiableObject X → String
  name_of global_scope_node = "Empty"
  name_of (object_node parent name) = name
  name_of (collection_node parent name predicate) = name
  name_of item_node = "@"

  -- The names of the objects above, outermost first, before the path that is already there.
  unfoldable pub path_above : EmptiableObject X → List String → List String
  path_above global_scope_node path = path
  path_above (object_node parent name) path = path_above parent (name ∷ path)
  path_above (collection_node parent name predicate) path = path_above parent (name ∷ path)
  path_above item_node path = path

  -- The path of the field `name` of an object.
  unfoldable pub extract_field_path : EmptiableObject X → String → List String
  extract_field_path obj name = path_above obj (name ∷ [])

  unfoldable pub wildcard : EmptiableObject X → Visitable X → EmptiableObject X
  wildcard parent predicate = collection_node parent "*" predicate

  unfoldable pub not_ : Visitable X → Visitable X
  not_ operand = prefix_node op_not operand right_associative

  unfoldable pub equal : Visitable X → Visitable X → Visitable X
  equal left right = infix_node left op_eq right non_associative

  unfoldable pub not_equal : Visitable X → Visitable X → Visitable X
  not_equal left right = infix_node left op_ne right non_associative

  unfoldable pub greater_than : Visitable X → Visitable X → Visitable X
  greater_than left right = infix_node left op_gt right non_associative

  unfoldable pub greater_than_equal : Visitable X → Visitable X → Visitable X
  greater_than_equal left right = infix_node left op_gte right non_associative

  unfoldable pub less_than : Visitable X → Visitable X → Visitable X
  less_than left right = infix_node left op_lt right non_associative

  unfoldable pub less_than_equal : Visitable X → Visitable X → Visitable X
  less_than_equal left right = infix_node left op_lte right non_associative

  unfoldable pub is : Visitable X → Visitable X → Visitable X
  is left right = infix_node left op_is right non_associative

  -- `none` is the panic of `aRights[0]` when there is no right operand.
  unfoldable pub fold_rights :
      (Visitable X → Visitable X → Visitable X)
      → Visitable X
      → List (Visitable X)
      → Option (Visitable X × Visitable X)
  fold_rights call left [] = none
  fold_rights call left (right ∷ []) = some (left, right)
  fold_rights call left (right ∷ next ∷ rights) = fold_rights call (call left right) (next ∷ rights)

  -- A call with one right operand: `foldRights` gives both operands back.
  unfoldable pub and_one : Visitable X → Visitable X → Visitable X
  and_one left right = infix_node left op_and right left_associative

  unfoldable pub or_one : Visitable X → Visitable X → Visitable X
  or_one left right = infix_node left op_or right left_associative

  unfoldable pub and : Visitable X → List (Visitable X) → Option (Visitable X)
  and left rights = elim (fold_rights and_one left rights) [
    | none ↦ none
    | some (l, r) ↦ some (infix_node l op_and r left_associative)
  ]

  unfoldable pub or : Visitable X → List (Visitable X) → Option (Visitable X)
  or left rights = elim (fold_rights or_one left rights) [
    | none ↦ none
    | some (l, r) ↦ some (infix_node l op_or r left_associative)
  ]

  unfoldable pub left_shift : Visitable X → Visitable X → Visitable X
  left_shift left right = infix_node left op_lshift right left_associative

  unfoldable pub right_shift : Visitable X → Visitable X → Visitable X
  right_shift left right = infix_node left op_rshift right left_associative

  unfoldable pub add : Visitable X → Visitable X → Visitable X
  add left right = infix_node left op_add right left_associative

  unfoldable pub sub : Visitable X → Visitable X → Visitable X
  sub left right = infix_node left op_sub right left_associative

  unfoldable pub mul : Visitable X → Visitable X → Visitable X
  mul left right = infix_node left op_mul right left_associative

  unfoldable pub div : Visitable X → Visitable X → Visitable X
  div left right = infix_node left op_div right left_associative

  unfoldable pub mod_ : Visitable X → Visitable X → Visitable X
  mod_ left right = infix_node left op_mod right left_associative

  unfoldable pub is_null : Visitable X → Visitable X
  is_null operand = postfix_node operand op_is_null non_associative

  unfoldable pub is_not_null : Visitable X → Visitable X
  is_not_null operand = postfix_node operand op_is_not_null non_associative
