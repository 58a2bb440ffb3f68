-- ===== src/Specification/Semantics/Scoping.antt =====
-- Which item an item reference of nodes.go means: a semantics with lexical items, beside the
-- visitor of evaluate_visitor.go.
use ascetic_ddd_go.Base.{
  String, Bool, false, ◌≡◌, refl, List, [], ◌∷◌, Option, none, some, arith, inl, inr,
}
use ascetic_ddd_go.Specification.{
  Visitable, value_node, prefix_node, infix_node, postfix_node, field_node, object, EmptiableObject,
  global_scope_node, object_node, collection_node, item_node,
}
use ascetic_ddd_go.Specification.Operators.{
  Any, bool, some_other, not_bool, Result, ok, err, panic, ◌>>=◌,
}
use ascetic_ddd_go.Specification.Registry.{Values, OperatorRegistry, exec_binary, exec_unary}
use ascetic_ddd_go.Specification.Evaluation.{
  Datum, contexts, EvaluateVisitor, new_evaluate_visitor, get_from, as_collection, or_value, accept,
  result,
}
use ascetic_ddd_go.Specification.Semantics.{
  Result-cases, IsScope, IsWellFormed, scope_of, any_item, eval,
}
use ascetic_ddd_go.Specification.Semantics.Stack.{accept-eval}

abbrev pub HasNoWildcard : {X : Type 0} → Visitable X → Type 0
HasNoWildcard (value_node x) = Unit
HasNoWildcard (prefix_node op operand _) = HasNoWildcard operand
HasNoWildcard (postfix_node operand op _) = HasNoWildcard operand
HasNoWildcard (infix_node left op right _) = HasNoWildcard left × HasNoWildcard right
HasNoWildcard (field_node obj name) = IsScope obj
HasNoWildcard (object _) = ¬ Unit

abbrev pub IsGlobal : {X : Type 0} → EmptiableObject X → Type 0
IsGlobal global_scope_node = Unit
IsGlobal (object_node parent name) = IsGlobal parent
IsGlobal (collection_node parent name predicate) = ¬ Unit
IsGlobal item_node = ¬ Unit

-- Items are referred to in the predicates of wildcards only, and these hold no further wildcard.
abbrev pub IsUnnested : {X : Type 0} → Visitable X → Type 0
IsUnnested (value_node x) = Unit
IsUnnested (prefix_node op operand _) = IsUnnested operand
IsUnnested (postfix_node operand op _) = IsUnnested operand
IsUnnested (infix_node left op right _) = IsUnnested left × IsUnnested right
IsUnnested (field_node obj name) = IsGlobal obj
IsUnnested (object (collection_node parent name predicate)) =
    IsGlobal parent × HasNoWildcard predicate
IsUnnested (object _) = ¬ Unit

global-IsScope : {X : Type 0} (o : EmptiableObject X) → IsGlobal o → IsScope o
global-IsScope global_scope_node h = tt
global-IsScope (object_node parent name) h = global-IsScope parent h
global-IsScope (collection_node parent name predicate) h = absurd (h tt)
global-IsScope item_node h = absurd (h tt)

no_wildcard-IsWellFormed : {X : Type 0} (e : Visitable X) → HasNoWildcard e → IsWellFormed e
no_wildcard-IsWellFormed (value_node x) h = tt
no_wildcard-IsWellFormed (prefix_node op operand _) h = no_wildcard-IsWellFormed operand h
no_wildcard-IsWellFormed (postfix_node operand op _) h = no_wildcard-IsWellFormed operand h
no_wildcard-IsWellFormed (infix_node left op right _) h =
    (no_wildcard-IsWellFormed left h.0, no_wildcard-IsWellFormed right h.1)
no_wildcard-IsWellFormed (field_node obj name) h = h
no_wildcard-IsWellFormed (object o) h = absurd (h tt)

unnested-IsWellFormed : {X : Type 0} (e : Visitable X) → IsUnnested e → IsWellFormed e
unnested-IsWellFormed (value_node x) h = tt
unnested-IsWellFormed (prefix_node op operand _) h = unnested-IsWellFormed operand h
unnested-IsWellFormed (postfix_node operand op _) h = unnested-IsWellFormed operand h
unnested-IsWellFormed (infix_node left op right _) h =
    (unnested-IsWellFormed left h.0, unnested-IsWellFormed right h.1)
unnested-IsWellFormed (field_node obj name) h = global-IsScope obj h
unnested-IsWellFormed (object global_scope_node) h = absurd (h tt)
unnested-IsWellFormed (object item_node) h = absurd (h tt)
unnested-IsWellFormed (object (object_node parent name)) h = absurd (h tt)
unnested-IsWellFormed (object (collection_node parent name predicate)) h =
    (global-IsScope parent h.0, no_wildcard-IsWellFormed predicate h.1)

module _ {C : Type 0} where
  -- The last item, or the one before the loop.
  unfoldable pub last_item : Option C → List C → Option C
  last_item item [] = item
  last_item item (c ∷ cs) = last_item (some c) cs

module _ {E C X : Type 0} where
  -- Is one of the values true? The first that is no bool, before any that is true, panics.
  unfoldable pub any_of :
      (C → Result E (Any (Datum C X))) → List C → Bool → Result E (Any (Datum C X))
  any_of predicate [] found = ok (bool found)
  any_of predicate (c ∷ cs) found = do
    value ← predicate c
    found' ← or_value found value
    any_of predicate cs found'

  unfoldable pub as_bool : Any (Datum C X) → Result E Bool
  as_bool (bool b) = ok b
  as_bool _ = err not_bool

module _ {E C X Ty : Type 0} (get : C → String → Result E (Any (Datum C X)))
    (values : Values (Datum C X) Ty) (registry : OperatorRegistry E (Datum C X) Ty) where
  -- The value of an expression whose items are those of the innermost wildcard around them.
  unfoldable pub denote :
      Visitable (Any (Datum C X)) → Option C → Option C → Result E (Any (Datum C X))
  denote (value_node x) scope item = ok x
  denote (prefix_node op operand _) scope item = do
    value ← denote operand scope item
    exec_unary values registry op value
  denote (postfix_node operand op _) scope item = do
    value ← denote operand scope item
    exec_unary values registry op value
  denote (infix_node left op right _) scope item = do
    l ← denote left scope item
    r ← denote right scope item
    exec_binary values registry l op r
  denote (field_node obj name) scope item = do c ← scope_of get obj scope item; get_from get c name
  denote (object (collection_node parent name predicate)) scope item = do
    c ← scope_of get parent scope item
    value ← get_from get c name
    items ← as_collection value
    any_of (λ i. denote predicate scope (some i)) items false
  denote (object _) scope item = err panic

  eval-no_wildcard :
      (e : Visitable (Any (Datum C X))) (scope item : Option C)
      → HasNoWildcard e
      → eval get values registry e scope item ≡ (denote e scope item >>= λ value. ok (value, item))
  unfolding eval denote
  eval-no_wildcard (value_node x) scope item h = refl
  eval-no_wildcard (prefix_node op operand _) scope item h =
      ground (arith, eval-no_wildcard operand scope item h)
  eval-no_wildcard (postfix_node operand op _) scope item h =
      ground (arith, eval-no_wildcard operand scope item h)
  eval-no_wildcard (infix_node left op right _) scope item h =
      ground (arith, eval-no_wildcard left scope item h.0, eval-no_wildcard right scope item h.1)
  eval-no_wildcard (field_node obj name) scope item h = ground arith
  eval-no_wildcard (object o) scope item h = absurd (h tt)

  scope_of-global :
      (o : EmptiableObject (Any (Datum C X))) (scope item : Option C)
      → IsGlobal o
      → scope_of get o scope item ≡ scope_of get o scope none
  unfolding scope_of
  scope_of-global global_scope_node scope item h = refl
  scope_of-global (object_node parent name) scope item h =
      ground (arith, scope_of-global parent scope item h)
  scope_of-global (collection_node parent name predicate) scope item h = absurd (h tt)
  scope_of-global item_node scope item h = absurd (h tt)

  -- The loop over a collection with such a predicate: its value, and the item it leaves.
  any_item-any_of :
      (predicate : Visitable (Any (Datum C X))) (scope : Option C) (cs : List C) (found : Bool)
      (item : Option C)
      → HasNoWildcard predicate
      → any_item (eval get values registry predicate scope) cs found item ≡ (
          any_of (λ i. denote predicate scope (some i)) cs found >>= λ value.
          ok (value, last_item item cs))
  unfolding any_item any_of last_item
  any_item-any_of predicate scope [] found item h = refl
  any_item-any_of predicate scope (c ∷ cs) found item h =
      elim (Result-cases (denote predicate scope (some c))) [
        | inr (e, fails) ↦ ground (arith, fails, eval-no_wildcard predicate scope (some c) h)
        | inl (value, now) ↦ elim (Result-cases (or_value {E = E} found value)) [
          | inr (e, fails) ↦ ground (arith, now, fails, eval-no_wildcard predicate scope (some c) h)
          | inl (found', or) ↦ ground (
            arith,
            now,
            or,
            eval-no_wildcard predicate scope (some c) h,
            any_item-any_of predicate scope cs found' (some c) h,
          )
        ]
      ]

  eval-denote :
      (e : Visitable (Any (Datum C X))) (scope item : Option C)
      → IsUnnested e
      → (eval get values registry e scope item >>= λ out. ok out.0) ≡ denote e scope none
  unfolding eval denote
  eval-denote (value_node x) scope item h = refl
  eval-denote (prefix_node op operand _) scope item h =
      ground (arith, eval-denote operand scope item h)
  eval-denote (postfix_node operand op _) scope item h =
      ground (arith, eval-denote operand scope item h)
  eval-denote (infix_node left op right _) scope item h =
      elim (Result-cases (eval get values registry left scope item)) [
        | inr (e, fails) ↦ ground (arith, fails, eval-denote left scope item h.0)
        | inl (l, now) ↦
            ground (arith, now, eval-denote left scope item h.0, eval-denote right scope l.1 h.1)
      ]
  eval-denote (field_node obj name) scope item h = ground (arith, scope_of-global obj scope item h)
  eval-denote (object global_scope_node) scope item h = absurd (h tt)
  eval-denote (object item_node) scope item h = absurd (h tt)
  eval-denote (object (object_node parent name)) scope item h = absurd (h tt)
  eval-denote (object (collection_node parent name predicate)) scope item h =
      let at = scope_of-global parent scope item h.0 in
      elim (Result-cases (scope_of get parent scope none)) [
        | inr (e, fails) ↦ ground (arith, fails, at)
        | inl (c, below) ↦ elim (Result-cases (get_from get c name)) [
          | inr (e, fails) ↦ ground (arith, below, fails, at)
          | inl (value, got) ↦ elim (Result-cases (as_collection {E = E} value)) [
            | inr (e, fails) ↦ ground (arith, below, got, fails, at)
            | inl (cs, listed) ↦
                let loop = any_item-any_of predicate scope cs false item h.1 in
                ground (arith, below, got, listed, at, loop)
          ]
        ]
      ]

  -- A visit of such an expression, from any state of the visitor, leaves the value that the scoped
  -- semantics gives it as the current value.
  pub accept-current_value :
      (e : Visitable (Any (Datum C X))) (v : EvaluateVisitor C X)
      → IsUnnested e
      → (accept get values registry e v >>= λ v'. ok v'.current_value) ≡ denote e v.context none
  accept-current_value e v h =
      let run = accept-eval get values registry e v (unnested-IsWellFormed e h) in
      let value = eval-denote e v.context v.current_item h in
      elim (Result-cases (eval get values registry e v.context v.current_item)) [
        | inr (e, fails) ↦ ground (arith, run, value, fails)
        | inl ((x, i), now) ↦ ground (arith, run, value, now)
      ]

  -- For an expression without nested wildcards that refers to items only in predicates of
  -- wildcards, a fresh visitor answers what the scoped semantics says, where an item reference
  -- means the element that the wildcard around it has reached; an error is the same error.
  pub accept-denote :
      (e : Visitable (Any (Datum C X))) (c : C)
      → IsUnnested e
      → (accept get values registry e (new_evaluate_visitor c) >>= result)
        ≡ (denote e (some c) none >>= as_bool)
  unfolding new_evaluate_visitor result as_bool
  accept-denote e c h =
      let run =
        accept-eval get values registry e (new_evaluate_visitor c) (unnested-IsWellFormed e h) in
      let value = eval-denote e (some c) none h in
      elim (Result-cases (eval get values registry e (some c) none)) [
        | inr (e, fails) ↦ ground (arith, run, value, fails)
        | inl ((x, i), now) ↦ ground (arith, run, value, now)
      ]

  -- If the visit of a wildcard over a scope, with a predicate that holds no wildcard, finds a
  -- collection and succeeds, the current item afterwards is the last of the collection, or the one
  -- before if the collection is empty: it is not restored.
  pub wildcard-current_item :
      (parent : EmptiableObject (Any (Datum C X))) (name : String)
      (predicate : Visitable (Any (Datum C X))) (v v' : EvaluateVisitor C X) (c : Option C)
      (cs : List C)
      → IsScope parent
      → HasNoWildcard predicate
      → scope_of get parent v.context v.current_item ≡ ok c
      → get_from get c name ≡ ok (some_other (contexts cs))
      → accept get values registry (object (collection_node parent name predicate)) v ≡ ok v'
      → v'.current_item ≡ last_item v.current_item cs
  unfolding eval as_collection
  wildcard-current_item parent name predicate v v' c cs scope flat below got ran =
      let run =
        accept-eval get values registry (object (collection_node parent name predicate)) v
          (scope, no_wildcard-IsWellFormed predicate flat) in
      let loop = any_item-any_of predicate v.context cs false v.current_item flat in
      elim (Result-cases (any_of (λ i. denote predicate v.context (some i)) cs false)) [
        | inr (e, fails) ↦ ground (arith, below, got, run, loop, fails, ran)
        | inl (value, now) ↦ ground (arith, below, got, run, loop, now, ran)
      ]
