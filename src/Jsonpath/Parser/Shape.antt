-- ===== src/Jsonpath/Parser/Shape.antt =====
-- Where the nodes of templates of asceticddd/specification/domain/jsonpath/parser.go refer to items.
use Prim.Native.String.{String}
use ascetic_ddd_go.Base.{ℕ, Bool, true, false, List, [], ◌∷◌}
use ascetic_ddd_go.Specification.{
  Visitable, value_node, EmptiableObject, global_scope_node, object_node, item_node, and_one,
  or_one, not_, wildcard, equal, not_equal, greater_than, less_than, greater_than_equal,
  less_than_equal, Associativity, left_associative, non_associative, infix_node,
}
use ascetic_ddd_go.Specification.Operators.{
  Operator, op_eq, op_ne, op_gt, op_lt, op_gte, op_lte, op_and, op_or,
}
use ascetic_ddd_go.Specification.Semantics.{IsScope}
use ascetic_ddd_go.Specification.Semantics.Scoping.{HasNoWildcard, IsGlobal, IsUnnested}
use ascetic_ddd_go.Jsonpath.Parser.Printing.{
  Relation, eq, ne, gt, lt, gte, lte, Operand, Comparison, Conjunction, Disjunction, Template,
  specification, collection, index_behind, conjunction_behind, relation_node, field_of,
  collection_of, not_if, scope, comparison_node, ands_node, conjunction_node, ors_node,
  disjunction_node, template_node,
}

module _ {X : Type 0} where
  field_of-HasNoWildcard :
      (parent : EmptiableObject X) (name : String) (more : List String)
      → IsScope parent
      → HasNoWildcard (field_of parent name more)
  field_of-HasNoWildcard parent name [] h = h
  field_of-HasNoWildcard parent name (next ∷ names) h =
      field_of-HasNoWildcard (object_node parent name) next names h

  field_of-IsUnnested :
      (parent : EmptiableObject X) (name : String) (more : List String)
      → IsGlobal parent
      → IsUnnested (field_of parent name more)
  field_of-IsUnnested parent name [] h = h
  field_of-IsUnnested parent name (next ∷ names) h =
      field_of-IsUnnested (object_node parent name) next names h

  collection_of-IsUnnested :
      (parent : EmptiableObject X) (name : String) (more : List String) (predicate : Visitable X)
      → IsGlobal parent
      → HasNoWildcard predicate
      → IsUnnested (collection_of parent name more predicate)
  unfolding wildcard
  collection_of-IsUnnested parent name [] predicate h k = (h, k)
  collection_of-IsUnnested parent name (next ∷ names) predicate h k =
      collection_of-IsUnnested (object_node parent name) next names predicate h k

-- A property of nodes that holds of a disjunction if it holds of its comparisons.
module _ {X : Type 0} (value : Operand → ℕ → X) (inside : Bool) (P : Visitable X → Type 0)
    (P-node : (op : Operator) (left right : Visitable X) (a : Associativity)
      → P left
      → P right
      → P (infix_node left op right a))
    (P-not : (node : Visitable X) → P node → P (not_ node)) (P-value : (x : X) → P (value_node x))
    (P-field : (name : String) (more : List String)
      → P (field_of (scope value inside) name more)) where
  P-relation_node :
      (r : Relation) (left right : Visitable X) → P left → P right → P (relation_node r left right)
  unfolding equal not_equal greater_than less_than greater_than_equal less_than_equal
  P-relation_node eq left right h k = P-node op_eq left right non_associative h k
  P-relation_node ne left right h k = P-node op_ne left right non_associative h k
  P-relation_node gt left right h k = P-node op_gt left right non_associative h k
  P-relation_node lt left right h k = P-node op_lt left right non_associative h k
  P-relation_node gte left right h k = P-node op_gte left right non_associative h k
  P-relation_node lte left right h k = P-node op_lte left right non_associative h k

  P-not_if : (b : Bool) (node : Visitable X) → P node → P (not_if b node)
  P-not_if true node h = P-not node h
  P-not_if false node h = h

  P-comparison_node : (c : Comparison) (i : ℕ) → P (comparison_node value inside c i)
  P-comparison_node c i =
      let field = field_of (scope value inside) c.name c.more in
      P-not_if c.negated (relation_node c.relation field (value_node (value c.operand i))) (
        P-relation_node c.relation field (value_node (value c.operand i)) (P-field c.name c.more)
          (P-value (value c.operand i)))

  P-ands_node :
      (node : Visitable X) (cs : List Comparison) (i : ℕ)
      → P node
      → P (ands_node value inside node cs i)
  unfolding and_one
  P-ands_node node [] i h = h
  P-ands_node node (c ∷ cs) i h =
      P-ands_node (and_one node (comparison_node value inside c i)) cs (index_behind c.operand i) (
        P-node op_and node (comparison_node value inside c i) left_associative h
          (P-comparison_node c i))

  P-ors_node :
      (node : Visitable X) (es : List Conjunction) (i : ℕ)
      → P node
      → P (ors_node value inside node es i)
  unfolding or_one
  P-ors_node node [] i h = h
  P-ors_node node (e ∷ es) i h =
      let first = comparison_node value inside e.first i in
      P-ors_node (or_one node (conjunction_node value inside e i)) es (conjunction_behind e i) (
        P-node op_or node (conjunction_node value inside e i) left_associative h (
          P-ands_node first e.others (index_behind e.first.operand i)
            (P-comparison_node e.first i)))

  P-disjunction_node : (d : Disjunction) → P (disjunction_node value inside d)
  P-disjunction_node d =
      let first = comparison_node value inside d.first.first 0 in
      P-ors_node (conjunction_node value inside d.first 0) d.others (conjunction_behind d.first 0) (
        P-ands_node first d.first.others (index_behind d.first.first.operand 0)
          (P-comparison_node d.first.first 0))

pub template_node-IsUnnested :
    {X : Type 0} (value : Operand → ℕ → X) (t : Template) → IsUnnested (template_node value t)
unfolding not_
template_node-IsUnnested value (specification d) =
    P-disjunction_node value false IsUnnested (λ op left right a h k. (h, k)) (λ node h. h)
      (λ x. tt) (λ name more. field_of-IsUnnested global_scope_node name more tt) d
template_node-IsUnnested value (collection name more d) =
    collection_of-IsUnnested global_scope_node name more (disjunction_node value true d) tt (
      P-disjunction_node value true HasNoWildcard (λ op left right a h k. (h, k)) (λ node h. h)
        (λ x. tt) (λ field others. field_of-HasNoWildcard item_node field others tt) d)
