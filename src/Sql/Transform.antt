-- ===== src/Sql/Transform.antt =====
-- asceticddd/specification/infrastructure: transform_visitor.go, which puts the nodes of a context
-- in place of fields and values, and composite_expression_node.go. A node of this package is an
-- expression, a composite of nodes, an operator on nodes, or the nil interface.
pub mod Composites
use ascetic_ddd_go.Base.{
  ℕ, zero, suc, ◌+◌, String, Bool, true, false, List, [], ◌∷◌, if◌then◌else◌, ◌==◌, Option, none,
  some,
}
use ascetic_ddd_go.Specification.{
  Associativity, left_associative, right_associative, non_associative, Visitable, value_node,
  prefix_node, infix_node, postfix_node, field_node, object, EmptiableObject, extract_field_path,
}
use ascetic_ddd_go.Specification.Operators.{Operator, op_eq, op_ne, op_and, op_not}

mutual
  pub data Node (X : Type 0) : Type 0 where
    absent : Node X
    expression : Visitable X → Node X
    composite : Nodes X → Node X
    prefix_of : Operator → Node X → Associativity → Node X
    infix_of : Node X → Operator → Node X → Associativity → Node X
    postfix_of : Node X → Operator → Associativity → Node X

  pub data Nodes (X : Type 0) : Type 0 where
    no_nodes : Nodes X
    node_and : Node X → Nodes X → Nodes X

-- A panic is a result of its own.
pub data Failure (E : Type 0) : Type 0 where
  different_length not_enough_composites panic : Failure E
  unsupported_operator : Operator → Failure E
  context_error : E → Failure E

pub data Transformed (E A : Type 0) : Type 0 where
  ok : A → Transformed E A
  err : Failure E → Transformed E A

infixl 5 ◌>>=◌
abbrev pub ◌>>=◌ : {E A B : Type 0} → Transformed E A → (A → Transformed E B) → Transformed E B
ok a >>= f = f a
err e >>= f = err e

abbrev pub count : {X : Type 0} → Nodes X → ℕ
count no_nodes = 0
count (node_and n ns) = suc (count ns)

abbrev pub and_two : {X : Type 0} → Node X → Node X → Node X
and_two left right = infix_of left op_and right left_associative

module _ {E X : Type 0} where
  -- `And`: without right operands, `foldRights` panics.
  unfoldable pub and_of : Node X → List (Node X) → Transformed E (Node X)
  and_of left [] = err panic
  and_of left (right ∷ []) = ok (and_two left right)
  and_of left (right ∷ next ∷ rights) = and_of (and_two left right) (next ∷ rights)

  -- `And(operands[0], operands[1:]...)`
  unfoldable pub and_all : List (Node X) → Transformed E (Node X)
  and_all [] = err panic
  and_all (left ∷ rights) = and_of left rights

  -- `Equal`, given whether the composites have one length, and then the operands.
  abbrev pub equal_all : Bool → Transformed E (List (Node X)) → Transformed E (Node X)
  equal_all true operands = operands >>= and_all
  equal_all false operands = err different_length

  unfoldable mutual
    pub equal_operands : Nodes X → Nodes X → Transformed E (List (Node X))
    equal_operands no_nodes no_nodes = ok []
    equal_operands no_nodes (node_and m ms) = ok []
    equal_operands (node_and n ns) no_nodes = err panic
    equal_operands (node_and n ns) (node_and m ms) = do
      operand ← equal_pair n m
      operands ← equal_operands ns ms
      ok (operand ∷ operands)

    pub equal_pair : Node X → Node X → Transformed E (Node X)
    equal_pair (composite ns) (composite ms) =
        equal_all (count ns == count ms) (equal_operands ns ms)
    equal_pair (composite ns) _ = err different_length
    equal_pair n m = ok (infix_of n op_eq m non_associative)

  unfoldable pub equal_composite : Nodes X → Nodes X → Transformed E (Node X)
  equal_composite ns ms = equal_all (count ns == count ms) (equal_operands ns ms)

  -- `NotEqual`, likewise.
  abbrev pub not_equal_all : Bool → Transformed E (List (Node X)) → Transformed E (Node X)
  not_equal_all true operands = do
    listed ← operands
    all ← and_all listed
    ok (prefix_of op_not all right_associative)
  not_equal_all false operands = err different_length

  unfoldable mutual
    pub not_equal_operands : Nodes X → Nodes X → Transformed E (List (Node X))
    not_equal_operands no_nodes no_nodes = ok []
    not_equal_operands no_nodes (node_and m ms) = ok []
    not_equal_operands (node_and n ns) no_nodes = err panic
    not_equal_operands (node_and n ns) (node_and m ms) = do
      operand ← not_equal_pair n m
      operands ← not_equal_operands ns ms
      ok (operand ∷ operands)

    pub not_equal_pair : Node X → Node X → Transformed E (Node X)
    not_equal_pair (composite ns) (composite ms) =
        not_equal_all (count ns == count ms) (not_equal_operands ns ms)
    not_equal_pair (composite ns) _ = err different_length
    not_equal_pair n m = ok (infix_of n op_ne m non_associative)

  unfoldable pub not_equal_composite : Nodes X → Nodes X → Transformed E (Node X)
  not_equal_composite ns ms = not_equal_all (count ns == count ms) (not_equal_operands ns ms)

  -- The end of `VisitInfix`.
  unfoldable pub combine : Node X → Operator → Node X → Associativity → Transformed E (Node X)
  combine (composite ns) op_eq (composite ms) associativity = equal_composite ns ms
  combine (composite ns) op_ne (composite ms) associativity = not_equal_composite ns ms
  combine (composite ns) op (composite ms) associativity = err (unsupported_operator op)
  combine (composite ns) op right associativity = err not_enough_composites
  combine left op right associativity = ok (infix_of left op right associativity)

-- Of values `V` to nodes over `X`.
pub record Context (E V X : Type 0) : Type 0 where
  pub attr_node : List String → Transformed E (Node X)
  pub context_value : V → Transformed E (Node X)

pub record TransformVisitor (E V X : Type 0) : Type 0 where
  pub current_node : Node X
  pub stack : List (Context E V X)
  pub context : Context E V X

module _ {E V X : Type 0} where
  unfoldable pub new_transform_visitor : Context E V X → TransformVisitor E V X
  new_transform_visitor context = record { current_node = absent; stack = []; context = context }

  unfoldable pub push : TransformVisitor E V X → Context E V X → TransformVisitor E V X
  push v ctx = record v { stack = v.context ∷ v.stack; context = ctx }

  unfoldable pub pop : TransformVisitor E V X → Transformed E (TransformVisitor E V X)
  pop v = elim v.stack [ [] ↦ err panic | c ∷ rest ↦ ok (record v { stack = rest; context = c }) ]

  -- An object leaves the visitor as it is.
  unfoldable pub accept :
      Visitable V → TransformVisitor E V X → Transformed E (TransformVisitor E V X)
  accept (value_node x) v = do
    node ← v.context.context_value x
    ok (record v { current_node = node })
  accept (field_node obj name) v = do
    node ← v.context.attr_node (extract_field_path obj name)
    ok (record v { current_node = node })
  accept (prefix_node op operand associativity) v = do
    v' ← accept operand v
    ok (record v' { current_node = prefix_of op v'.current_node associativity })
  accept (postfix_node operand op associativity) v = do
    v' ← accept operand v
    ok (record v' { current_node = postfix_of v'.current_node op associativity })
  accept (infix_node left op right associativity) v = do
    v' ← accept left v
    v'' ← accept right v'
    node ← combine v'.current_node op v''.current_node associativity
    ok (record v'' { current_node = node })
  accept (object obj) v = ok v

  unfoldable pub result : TransformVisitor E V X → Node X
  result v = v.current_node
