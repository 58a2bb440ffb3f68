-- ===== src/Specification/Tests.antt =====
-- A store of books as the context of a specification, and each property of specifications at it.
use ascetic_ddd_go.Base.{
  ℕ, String, ◌≡◌, refl, Bool, true, false, List, [], ◌∷◌, Option, none, some, ℕ_discrete, ◌==◌, ite,
}
use ascetic_ddd_go.Base.Assoc.{lookup}
use ascetic_ddd_go.Specification.{
  Visitable, value_node, infix_node, field_node, object, EmptiableObject, global_scope_node,
  object_node, collection_node, item_node, and, or, fold_rights, and_one, or_one, left_associative,
}
use ascetic_ddd_go.Specification.Operators.{
  Any, nil, bool, some_other, Result, ok, op_gt, op_eq, op_ne, op_and, op_or, ◌>>=◌,
}
use ascetic_ddd_go.Specification.Registry.{
  Values, OperatorRegistry, BinaryOp, new_operator_registry, register_binary, exec_binary,
  binary_key, is_and, is_or, is_nil, lookup_binary, interface_fallback, if_implemented, operand_op,
}
use ascetic_ddd_go.Specification.Registry.Logic.{no_, unknown, yes_}
use ascetic_ddd_go.Specification.Registry.Laws.{
  exec_binary-register_binary, negated, exec_binary-op_ne,
}
use ascetic_ddd_go.Specification.Evaluation.{
  Datum, context, contexts, plain, EvaluateVisitor, new_evaluate_visitor, accept, accept_object,
  result, push, pop, get_from, as_context, as_collection, or_value, visit_items, set_current_value,
}
use ascetic_ddd_go.Specification.Semantics.{scope_of}
use ascetic_ddd_go.Specification.Semantics.Stack.{accept-eval, meaning}
use ascetic_ddd_go.Specification.Semantics.Scoping.{
  denote, as_bool, last_item, accept-denote, wildcard-current_item,
}
use ascetic_ddd_go.Specification.Laws.{visited, accept-and}

-- A store, its shelf, and a book that is sold or not, with its price.
data Store : Type 0 where
  store shelf : Store
  book : Bool → ℕ → Store

data Missing : Type 0 where
  missing : Missing

abbrev Value : Type 0
Value = Any (Datum Store ℕ)

abbrev books : List Store
books = book false 3 ∷ book true 8 ∷ []

-- The store's one field is its shelf, the shelf's one slice is its books, and a book's one field
-- tells whether it is sold.
abbrev get : Store → String → Result Missing Value
get store name = ok (some_other (context shelf))
get shelf name = ok (some_other (contexts books))
get (book sold price) name = ok (bool sold)

abbrev type_of : Value → ℕ
type_of nil = 0
type_of (bool b) = 1
type_of (some_other x) = 2

abbrev same : Value → Option (Value → Bool)
same (some_other (plain x)) =
    some
      (λ other. elim other [ some_other d ↦ elim d [ plain y ↦ x == y | _ ↦ false ] | _ ↦ false ])
same _ = none

abbrev values : Values (Datum Store ℕ) ℕ
values = record {
  type_of = type_of;
  same_type = ℕ_discrete;
  equal = same;
  greater_than = λ x. none;
  greater_than_equal = λ x. none;
  less_than = λ x. none;
  less_than_equal = λ x. none;
}

abbrev registry : OperatorRegistry Missing (Datum Store ℕ) ℕ
registry = new_operator_registry

abbrev shelf_scope : EmptiableObject Value
shelf_scope = object_node global_scope_node "shelf"

abbrev is_sold : Visitable Value
is_sold = field_node item_node "sold"

-- Is a book sold?
abbrev any_sold : Visitable Value
any_sold = object (collection_node shelf_scope "*" is_sold)

abbrev sold_and_open : Visitable Value
sold_and_open = infix_node any_sold op_and (value_node (bool true)) left_associative

accept-eval_example :
    accept get values registry sold_and_open (new_evaluate_visitor store)
    ≡ meaning get values registry sold_and_open (new_evaluate_visitor store)
accept-eval_example =
    accept-eval get values registry sold_and_open (new_evaluate_visitor store) ((tt, tt), tt)

accept-denote_example :
    (accept get values registry sold_and_open (new_evaluate_visitor store) >>= result)
    ≡ (denote get values registry sold_and_open (some store) none >>= as_bool)
accept-denote_example = accept-denote get values registry sold_and_open store ((tt, tt), tt)

abbrev after : EvaluateVisitor Store ℕ
after = record {
  current_value = bool true;
  current_item = some (book true 8);
  stack = [];
  context = some store;
}

any_sold-run : accept get values registry any_sold (new_evaluate_visitor store) ≡ ok after
unfolding accept accept_object new_evaluate_visitor push pop get_from as_context as_collection
    visit_items or_value set_current_value
any_sold-run = refl

shelf-found :
    scope_of get shelf_scope (new_evaluate_visitor {X = ℕ} store).context none ≡ ok (some shelf)
unfolding scope_of new_evaluate_visitor get_from as_context
shelf-found = refl

wildcard-current_item_example : after.current_item ≡ last_item none books
unfolding new_evaluate_visitor get_from
wildcard-current_item_example =
    wildcard-current_item get values registry shelf_scope "*" is_sold (new_evaluate_visitor store)
      after (some shelf) books tt tt shelf-found refl any_sold-run

abbrev dearer : BinaryOp Missing (Datum Store ℕ)
dearer x y = ok (bool true)

abbrev three : Value
three = some_other (plain 3)

exec_binary-register_binary_example :
    exec_binary values (register_binary values registry 2 op_gt 2 dearer) three op_gt three
    ≡ ite
        (binary_key ℕ_discrete (2, op_gt, 2) (2, op_gt, 2))
        (dearer three three)
        (exec_binary values registry three op_gt three)
unfolding is_and is_or is_nil
exec_binary-register_binary_example =
    exec_binary-register_binary values registry op_gt op_gt 2 2 dearer three three refl refl

exec_binary-op_ne_example :
    exec_binary values registry three op_ne three
    ≡ negated (exec_binary values registry three op_eq three)
unfolding lookup new_operator_registry
exec_binary-op_ne_example = exec_binary-op_ne values registry three three tt

-- The equality of the values themselves is what the negation is of.
three_op_ne : exec_binary values registry three op_ne three ≡ ok (bool false)
unfolding is_nil lookup new_operator_registry exec_binary lookup_binary is_and is_or
    interface_fallback if_implemented operand_op
three_op_ne = refl

abbrev truth : Bool → Visitable Value
truth b = value_node (bool b)

any_sold-visited :
    visited get values registry any_sold (new_evaluate_visitor store) ≡ ok (bool true)
unfolding accept accept_object new_evaluate_visitor push pop get_from as_context as_collection
    visit_items or_value set_current_value
any_sold-visited = refl

-- Is a book sold, and is NULL, and is false?
accept-and_example :
    (visited get values registry
        (infix_node
          (infix_node any_sold op_and (value_node nil) left_associative)
          op_and
          (truth false)
          left_associative)
        (new_evaluate_visitor store)
      ≡ ok (bool false))
    × (visited get values registry
          (infix_node
            (infix_node any_sold op_or (value_node nil) left_associative)
            op_or
            (truth false)
            left_associative)
          (new_evaluate_visitor store)
        ≡ ok (bool true))
unfolding and or fold_rights and_one or_one accept set_current_value
accept-and_example =
    accept-and get values registry any_sold (value_node nil) (truth false ∷ []) yes_
      (unknown ∷ no_ ∷ []) (new_evaluate_visitor store) _ _
      ((tt, tt), any_sold-visited, (tt, refl, (tt, refl, tt))) refl refl

abbrev shelf_of : EmptiableObject Value → EmptiableObject Value
shelf_of obj = object_node (object_node obj "store") "shelf"
