-- ===== src/Sql/Tests.antt =====
-- A store with items in a table of their own, and each property of its SQL text at a specification.
use Prim.Native.String.{String}
use ascetic_ddd_go.Base.{
  ℕ, ◌≡◌, refl, Bool, true, false, ◌==◌, [], ◌∷◌, ◌++◌, some, arith, if◌then◌else◌,
}
use ascetic_ddd_go.Specification.{
  Visitable, value_node, infix_node, field_node, object, global_scope_node, object_node,
  collection_node, item_node, left_associative, non_associative,
}
use ascetic_ddd_go.Specification.Operators.{op_gt, op_or, op_sub}
use ascetic_ddd_go.Sql.Schema.{
  SchemaRegistry, new_schema_registry, with_parent_alias, register_relational,
}
use ascetic_ddd_go.Sql.Postgresql.{PostgresqlVisitor, new_postgresql_visitor, accept}
use ascetic_ddd_go.Sql.Rendering.{render, site, extend}
use ascetic_ddd_go.Sql.Rendering.Laws.{accept-render}
use ascetic_ddd_go.Sql.Rendering.Placeholders.{IsNumbered, accept-IsNumbered}
use ascetic_ddd_go.Sql.Rendering.Nesting.{accept-regroup}
use ascetic_ddd_go.Sql.Transform.{
  Node, expression, composite, Nodes, no_nodes, node_and, equal_composite, not_equal_composite,
}
use ascetic_ddd_go.Sql.Transform.Composites.{
  Says, equal_composite-all_same, not_equal_composite-any_same,
}

abbrev decimal : ℕ → String
decimal n = if n == 1 then "1" else "2"

abbrev same_text : String → String
same_text s = s

abbrev schema : SchemaRegistry
schema =
    register_relational (with_parent_alias (new_schema_registry "stores") "s") "item" "items"
      "store_id" "id"

abbrev fresh : PostgresqlVisitor ℕ
fresh = new_postgresql_visitor (some schema)

-- Is some item above 5, or the rank above 7?
abbrev specification : Visitable ℕ
specification =
    infix_node
      (object (
        collection_node (object_node global_scope_node "item") "*"
          (infix_node (field_node item_node "price") op_gt (value_node 5) non_associative)))
      op_or (infix_node (field_node global_scope_node "rank") op_gt (value_node 7) non_associative)
      left_associative

abbrev field : String → Visitable ℕ
field name = field_node global_scope_node name

accept-render_example :
    accept decimal same_text same_text specification fresh
    ≡ extend fresh
        (render decimal same_text same_text (site fresh) specification 0 0)
        (5 ∷ 7 ∷ [])
        1
unfolding new_postgresql_visitor
accept-render_example = accept-render decimal same_text same_text specification fresh

fresh-IsNumbered : IsNumbered fresh
unfolding new_postgresql_visitor
fresh-IsNumbered = refl

accept-IsNumbered_example :
    IsNumbered (accept decimal same_text same_text specification fresh)
    × ((accept decimal same_text same_text specification fresh).parameters
        ≡ fresh.parameters ++ 5 ∷ 7 ∷ [])
accept-IsNumbered_example =
    accept-IsNumbered decimal same_text same_text specification fresh fresh-IsNumbered

accept-regroup_example :
    accept decimal same_text same_text
      (infix_node
        (field "a")
        op_sub
        (infix_node (field "b") op_sub (field "c") left_associative)
        left_associative)
      fresh
    ≡ accept decimal same_text same_text
        (infix_node
          (infix_node (field "a") op_sub (field "b") left_associative)
          op_sub
          (field "c")
          left_associative)
        fresh
accept-regroup_example =
    accept-regroup decimal same_text same_text op_sub left_associative (field "a") (field "b")
      (field "c") fresh

abbrev leaf : ℕ → Node ℕ
leaf n = expression (value_node n)

abbrev pair : Node ℕ → Node ℕ → Nodes ℕ
pair n m = node_and n (node_and m no_nodes)

-- Two nodes are equal if they are the same number.
abbrev same : Node ℕ → Node ℕ → Bool
same (expression (value_node n)) (expression (value_node m)) = n == m
same _ _ = false

equal_composite-all_same_example : Says same true (
    equal_composite {E = ℕ}
      (pair (leaf 1) (composite (pair (leaf 2) (leaf 3))))
      (pair (leaf 1) (composite (pair (leaf 2) (leaf 3)))))
equal_composite-all_same_example =
    equal_composite-all_same same ℕ (pair (leaf 1) (composite (pair (leaf 2) (leaf 3))))
      (pair (leaf 1) (composite (pair (leaf 2) (leaf 3)))) (omega arith)
      (tt, ((omega arith, (tt, (tt, tt))), tt))

-- Of (1, 2) and (1, 3), which are not equal; but some components are.
not_equal_composite-any_same_example :
    Says same true (not_equal_composite {E = ℕ} (pair (leaf 1) (leaf 2)) (pair (leaf 1) (leaf 3)))
not_equal_composite-any_same_example =
    not_equal_composite-any_same same ℕ (pair (leaf 1) (leaf 2)) (pair (leaf 1) (leaf 3))
      (omega arith) (tt, (tt, tt)) refl
