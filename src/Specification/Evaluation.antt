-- ===== src/Specification/Evaluation.antt =====
-- asceticddd/specification/domain/evaluate_visitor.go: `EvaluateVisitor`, over a type `C` of
-- contexts with their `Get` and a type `X` of the other values.
use ascetic_ddd_go.Base.{String, Bool, true, false, List, [], ◌∷◌, Option, none, some}
use ascetic_ddd_go.Specification.{
  Visitable, value_node, prefix_node, infix_node, postfix_node, field_node, object, EmptiableObject,
  global_scope_node, object_node, collection_node, item_node,
}
use ascetic_ddd_go.Specification.Operators.{
  Any, nil, bool, some_other, not_collection, not_bool, panic, Result, ok, err, ◌>>=◌,
}
use ascetic_ddd_go.Specification.Registry.{Values, OperatorRegistry, exec_binary, exec_unary}

-- The values that are neither `nil` nor a bool, as far as the visitor tells them apart.
pub data Datum (C X : Type 0) : Type 0 where
  context : C → Datum C X
  contexts : List C → Datum C X
  plain : X → Datum C X

-- An interface value that holds no context is `none`: a call of its method panics.
pub record EvaluateVisitor (C X : Type 0) : Type 0 where
  pub current_value : Any (Datum C X)
  pub current_item : Option C
  pub stack : List (Option C)
  pub context : Option C

unfoldable pub new_evaluate_visitor : {C X : Type 0} → C → EvaluateVisitor C X
new_evaluate_visitor c = record {
  current_value = nil;
  current_item = none;
  stack = [];
  context = some c;
}

module _ {C X : Type 0} where
  unfoldable pub push : EvaluateVisitor C X → Option C → EvaluateVisitor C X
  push v ctx = record v { stack = v.context ∷ v.stack; context = ctx }

  unfoldable pub set_current_value : EvaluateVisitor C X → Any (Datum C X) → EvaluateVisitor C X
  set_current_value v val = record v { current_value = val }

module _ {E C X : Type 0} where
  -- The index of an empty stack panics.
  unfoldable pub pop : EvaluateVisitor C X → Result E (EvaluateVisitor C X)
  pop v = elim v.stack [ [] ↦ err panic | c ∷ rest ↦ ok (record v { stack = rest; context = c }) ]

  unfoldable pub get_from :
      (C → String → Result E (Any (Datum C X))) → Option C → String → Result E (Any (Datum C X))
  get_from get none name = err panic
  get_from get (some c) name = get c name

  -- `obj.(Context)`
  unfoldable pub as_context : Any (Datum C X) → Result E C
  as_context (some_other (context c)) = ok c
  as_context _ = err panic

  unfoldable pub as_collection : Any (Datum C X) → Result E (List C)
  as_collection (some_other (contexts cs)) = ok cs
  as_collection _ = err not_collection

  -- `result || v.CurrentValue().(bool)`
  unfoldable pub or_value : Bool → Any (Datum C X) → Result E Bool
  or_value true val = ok true
  or_value false (bool b) = ok b
  or_value false _ = err panic

  -- The loop of `VisitCollection`, given the visit of the predicate.
  unfoldable pub visit_items :
      (EvaluateVisitor C X → Result E (EvaluateVisitor C X))
      → List C
      → Bool
      → EvaluateVisitor C X
      → Result E (EvaluateVisitor C X)
  visit_items predicate [] result v = ok (set_current_value v (bool result))
  visit_items predicate (c ∷ cs) result v = do
    v' ← predicate (record v { current_item = some c })
    result' ← or_value result v'.current_value
    visit_items predicate cs result' v'

module _ {E C X Ty : Type 0} (get : C → String → Result E (Any (Datum C X)))
    (values : Values (Datum C X) Ty) (registry : OperatorRegistry E (Datum C X) Ty) where
  unfoldable mutual
    pub accept : Visitable (Any (Datum C X)) → EvaluateVisitor C X → Result E (EvaluateVisitor C X)
    accept (value_node x) v = ok (set_current_value v x)
    accept (prefix_node op operand _) v = do
      v' ← accept operand v
      result ← exec_unary values registry op v'.current_value
      ok (set_current_value v' result)
    accept (postfix_node operand op _) v = do
      v' ← accept operand v
      result ← exec_unary values registry op v'.current_value
      ok (set_current_value v' result)
    accept (infix_node left op right _) v = do
      v' ← accept left v
      v'' ← accept right v'
      result ← exec_binary values registry v'.current_value op v''.current_value
      ok (set_current_value v'' result)
    accept (field_node obj name) v = do
      v' ← accept_object obj v
      v'' ← pop v'
      value ← get_from get v'.context name
      ok (set_current_value v'' value)
    accept (object obj) v = accept_object obj v

    pub accept_object :
        EmptiableObject (Any (Datum C X)) → EvaluateVisitor C X → Result E (EvaluateVisitor C X)
    accept_object global_scope_node v = ok (push v v.context)
    accept_object item_node v = ok (push v v.current_item)
    accept_object (object_node parent name) v = do
      v' ← accept_object parent v
      v'' ← pop v'
      value ← get_from get v'.context name
      ctx ← as_context value
      ok (push v'' (some ctx))
    accept_object (collection_node parent name predicate) v = do
      v' ← accept_object parent v
      v'' ← pop v'
      value ← get_from get v'.context name
      items ← as_collection value
      visit_items (accept predicate) items false v''

unfoldable pub result : {E C X : Type 0} → EvaluateVisitor C X → Result E Bool
result v = elim v.current_value [ bool b ↦ ok b | _ ↦ err not_bool ]
