-- ===== src/Specification/Semantics/Stack.antt =====
-- The stack of `EvaluateVisitor` (evaluate_visitor.go), beside the semantics without one.
use ascetic_ddd_go.Base.{
  String, Bool, false, ◌≡◌, refl, inl, inr, List, [], ◌∷◌, Option, some, arith,
}
use ascetic_ddd_go.Specification.{
  Visitable, value_node, prefix_node, infix_node, postfix_node, field_node, object, EmptiableObject,
  global_scope_node, object_node, collection_node, item_node,
}
use ascetic_ddd_go.Specification.Operators.{Any, Result, ok, ◌>>=◌}
use ascetic_ddd_go.Specification.Registry.{Values, OperatorRegistry}
use ascetic_ddd_go.Specification.Evaluation.{
  Datum, EvaluateVisitor, push, pop, set_current_value, get_from, as_collection, or_value,
  visit_items, accept, accept_object,
}
use ascetic_ddd_go.Specification.Semantics.{
  Result-cases, IsScope, IsWellFormed, scope_of, any_item, eval,
}

module _ {E C X Ty : Type 0} (get : C → String → Result E (Any (Datum C X)))
    (values : Values (Datum C X) Ty) (registry : OperatorRegistry E (Datum C X) Ty) where
  -- The visitor with another value and item, its stack and context as they were.
  abbrev pub answer : EvaluateVisitor C X → Any (Datum C X) × Option C → EvaluateVisitor C X
  answer v out = record v { current_value = out.0; current_item = out.1 }

  abbrev pub visit :
      Visitable (Any (Datum C X)) → EvaluateVisitor C X → Result E (EvaluateVisitor C X)
  visit e v = accept get values registry e v

  abbrev pub meaning :
      Visitable (Any (Datum C X)) → EvaluateVisitor C X → Result E (EvaluateVisitor C X)
  meaning e v = eval get values registry e v.context v.current_item >>= λ out. ok (answer v out)

  accept_object-scope_of :
      (o : EmptiableObject (Any (Datum C X))) (v : EvaluateVisitor C X)
      → IsScope o
      → accept_object get values registry o v
        ≡ (scope_of get o v.context v.current_item >>= λ c. ok (push v c))
  unfolding accept_object scope_of push pop
  accept_object-scope_of global_scope_node v h = refl
  accept_object-scope_of item_node v h = refl
  accept_object-scope_of (object_node parent name) v h =
      ground (arith, accept_object-scope_of parent v h)
  accept_object-scope_of (collection_node parent name predicate) v h = absurd (h tt)

  -- The loop over a collection, given that the visit of the predicate does what it means.
  visit_items-any_item :
      (predicate : EvaluateVisitor C X → Result E (EvaluateVisitor C X))
      (means : Option C → Option C → Result E (Any (Datum C X) × Option C))
      → ((v : EvaluateVisitor C X)
          → predicate v ≡ (means v.context v.current_item >>= λ out. ok (answer v out)))
      → (cs : List C) (found : Bool) (v : EvaluateVisitor C X)
      → visit_items predicate cs found v
        ≡ (any_item (means v.context) cs found v.current_item >>= λ out. ok (answer v out))
  unfolding visit_items any_item set_current_value
  visit_items-any_item predicate means h [] found v = refl
  visit_items-any_item predicate means h (c ∷ cs) found v =
      elim (Result-cases (means v.context (some c))) [
        | inr (e, fails) ↦ ground (arith, fails, h (record v { current_item = some c }))
        | inl (out, now) ↦ elim (Result-cases (or_value {E = E} found out.0)) [
          | inr (e, fails) ↦ ground (arith, now, fails, h (record v { current_item = some c }))
          | inl (found', or) ↦ ground (
            arith,
            now,
            or,
            h (record v { current_item = some c }),
            visit_items-any_item predicate means h cs found' (answer v out),
          )
        ]
      ]

  -- A visit of a well-formed expression, from any state of the visitor, ends with the value and the
  -- current item of the stackless semantics and with the stack and the context as they were; or
  -- with the error of that semantics.
  pub accept-eval :
      (e : Visitable (Any (Datum C X))) (v : EvaluateVisitor C X)
      → IsWellFormed e
      → visit e v ≡ meaning e v
  unfolding accept accept_object eval set_current_value push pop
  accept-eval (value_node x) v h = refl
  accept-eval (prefix_node op operand _) v h = ground (arith, accept-eval operand v h)
  accept-eval (postfix_node operand op _) v h = ground (arith, accept-eval operand v h)
  accept-eval (infix_node left op right _) v h =
      elim (Result-cases (eval get values registry left v.context v.current_item)) [
        | inr (e, fails) ↦ ground (arith, fails, accept-eval left v h.0)
        | inl (l, now) ↦
            ground (arith, now, accept-eval left v h.0, accept-eval right (answer v l) h.1)
      ]
  accept-eval (field_node obj name) v h = ground (arith, accept_object-scope_of obj v h)
  accept-eval (object global_scope_node) v h = absurd (h tt)
  accept-eval (object item_node) v h = absurd (h tt)
  accept-eval (object (object_node parent name)) v h = absurd (h tt)
  accept-eval (object (collection_node parent name predicate)) v h =
      let at = accept_object-scope_of parent v h.0 in
      elim (Result-cases (scope_of get parent v.context v.current_item)) [
        | inr (e, fails) ↦ ground (arith, fails, at)
        | inl (c, below) ↦ elim (Result-cases (get_from get c name)) [
          | inr (e, fails) ↦ ground (arith, below, fails, at)
          | inl (value, got) ↦ elim (Result-cases (as_collection {E = E} value)) [
            | inr (e, fails) ↦ ground (arith, below, got, fails, at)
            | inl (cs, listed) ↦
                let loop =
                  visit_items-any_item (accept get values registry predicate)
                    (eval get values registry predicate) (λ v'. accept-eval predicate v' h.1) cs
                    false v in
                ground (arith, below, got, listed, at, loop)
          ]
        ]
      ]
