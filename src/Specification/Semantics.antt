-- ===== src/Specification/Semantics.antt =====
-- What an expression means, without the stack of the visitor: a value, beside the item that is
-- current afterwards.
pub mod Stack
pub mod Scoping
use ascetic_ddd_go.Base.{
  ℕ, String, Bool, true, false, ◌≡◌, refl, ◌⊎◌, inl, inr, List, [], ◌∷◌, Option, none, some, arith,
}
use ascetic_ddd_go.Specification.{
  Visitable, value_node, prefix_node, infix_node, postfix_node, field_node, object, EmptiableObject,
  global_scope_node, object_node, collection_node, item_node,
}
use ascetic_ddd_go.Specification.Operators.{Any, bool, Result, ok, err, panic, Error, ◌>>=◌}
use ascetic_ddd_go.Specification.Registry.{Values, OperatorRegistry, exec_binary, exec_unary}
use ascetic_ddd_go.Specification.Evaluation.{Datum, get_from, as_context, as_collection, or_value}

pub Result-cases :
    {E A : Type 0} (r : Result E A) → ((a : A) × (r ≡ ok a)) ⊎ ((e : Error E) × (r ≡ err e))
Result-cases (ok a) = inl (a, refl)
Result-cases (err e) = inr (e, refl)

-- The path of a field: the global scope or the current item, and names below it.
abbrev pub IsScope : {X : Type 0} → EmptiableObject X → Type 0
IsScope global_scope_node = Unit
IsScope (object_node parent name) = IsScope parent
IsScope (collection_node parent name predicate) = ¬ Unit
IsScope item_node = Unit

-- Fields and collections stand below scopes, and the only objects used as expressions are
-- collections.
abbrev pub IsWellFormed : {X : Type 0} → Visitable X → Type 0
IsWellFormed (value_node x) = Unit
IsWellFormed (prefix_node op operand _) = IsWellFormed operand
IsWellFormed (postfix_node operand op _) = IsWellFormed operand
IsWellFormed (infix_node left op right _) = IsWellFormed left × IsWellFormed right
IsWellFormed (field_node obj name) = IsScope obj
IsWellFormed (object (collection_node parent name predicate)) =
    IsScope parent × IsWellFormed predicate
IsWellFormed (object _) = ¬ Unit

module _ {E C X : Type 0} where
  -- The context that a scope leads to.
  unfoldable pub scope_of :
      (C → String → Result E (Any (Datum C X)))
      → EmptiableObject (Any (Datum C X))
      → Option C
      → Option C
      → Result E (Option C)
  scope_of get global_scope_node scope item = ok scope
  scope_of get item_node scope item = ok item
  scope_of get (object_node parent name) scope item = do
    c ← scope_of get parent scope item
    value ← get_from get c name
    below ← as_context value
    ok (some below)
  scope_of get (collection_node parent name predicate) scope item = err panic

  unfoldable pub any_item :
      (Option C → Result E (Any (Datum C X) × Option C))
      → List C
      → Bool
      → Option C
      → Result E (Any (Datum C X) × Option C)
  any_item predicate [] result item = ok (bool result, item)
  any_item predicate (c ∷ cs) result item = do
    out ← predicate (some c)
    result' ← or_value result out.0
    any_item predicate cs result' out.1

module _ {E C X Ty : Type 0} (get : C → String → Result E (Any (Datum C X)))
    (values : Values (Datum C X) Ty) (registry : OperatorRegistry E (Datum C X) Ty) where
  unfoldable pub eval :
      Visitable (Any (Datum C X)) → Option C → Option C → Result E (Any (Datum C X) × Option C)
  eval (value_node x) scope item = ok (x, item)
  eval (prefix_node op operand _) scope item = do
    out ← eval operand scope item
    result ← exec_unary values registry op out.0
    ok (result, out.1)
  eval (postfix_node operand op _) scope item = do
    out ← eval operand scope item
    result ← exec_unary values registry op out.0
    ok (result, out.1)
  eval (infix_node left op right _) scope item = do
    l ← eval left scope item
    r ← eval right scope l.1
    result ← exec_binary values registry l.0 op r.0
    ok (result, r.1)
  eval (field_node obj name) scope item = do
    c ← scope_of get obj scope item
    value ← get_from get c name
    ok (value, item)
  eval (object (collection_node parent name predicate)) scope item = do
    c ← scope_of get parent scope item
    value ← get_from get c name
    items ← as_collection value
    any_item (λ i. eval predicate scope i) items false item
  eval (object _) scope item = err panic
