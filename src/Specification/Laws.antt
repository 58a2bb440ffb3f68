-- ===== src/Specification/Laws.antt =====
-- Field paths and the nesting of And and Or, of nodes.go and evaluate_visitor.go in
-- asceticddd/specification/domain.
use ascetic_ddd_go.Base.{
  true, ◌≡◌, refl, List, [], ◌∷◌, ◌++◌, Option, none, some, foldl, arith, String, All, sym, ◌∙◌,
}
use ascetic_ddd_go.Specification.{
  Visitable, infix_node, left_associative, fold_rights, and_one, or_one, and, or,
}
use ascetic_ddd_go.Specification.{
  EmptiableObject, global_scope_node, object_node, item_node, collection_node, is_root, path_above,
  extract_field_path,
}
use ascetic_ddd_go.Specification.Operators.{Any, Operator, Result, ok, op_and, op_or, ◌>>=◌}
use ascetic_ddd_go.Specification.Registry.{Values, OperatorRegistry, exec_binary}
use ascetic_ddd_go.Specification.Registry.Logic.{
  Truth, value_of, lesser, greater, exec_binary-Truth,
}
use ascetic_ddd_go.Specification.Evaluation.{Datum, EvaluateVisitor, accept}
use ascetic_ddd_go.Specification.Semantics.Scoping.{IsUnnested, denote, accept-current_value}

module _ {X : Type 0} where
  -- The object that a path leads to from the global scope.
  abbrev pub object_at : List String → EmptiableObject X → EmptiableObject X
  object_at [] obj = obj
  object_at (name ∷ names) obj = object_at names (object_node obj name)

  path_above-object_at :
      (names path : List String) (obj : EmptiableObject X)
      → path_above (object_at names obj) path ≡ path_above obj (names ++ path)
  unfolding path_above
  path_above-object_at [] path obj = refl
  path_above-object_at (name ∷ names) path obj =
      path_above-object_at names path (object_node obj name)

  -- The path of a field below a root, the global scope or the current item, is the names on the way
  -- from the root to the field.
  pub extract_field_path-object_at :
      (root : EmptiableObject X) (names : List String) (name : String)
      → is_root root ≡ true
      → extract_field_path (object_at names root) name ≡ names ++ name ∷ []
  unfolding extract_field_path path_above is_root
  extract_field_path-object_at global_scope_node names name h =
      path_above-object_at names (name ∷ []) global_scope_node
  extract_field_path-object_at item_node names name h =
      path_above-object_at names (name ∷ []) item_node
  extract_field_path-object_at (object_node parent below) names name h = ground arith
  extract_field_path-object_at (collection_node parent below predicate) names name h = ground arith

  fold_rights-foldl :
      (call : Visitable X → Visitable X → Visitable X) (left right : Visitable X)
      (rights : List (Visitable X))
      → (l : Visitable X) × (r : Visitable X) × (fold_rights call left (right ∷ rights)
          ≡ some (l, r))
        × (call l r ≡ foldl call left (right ∷ rights))
  unfolding fold_rights
  fold_rights-foldl call left right [] = (left, right, refl, refl)
  fold_rights-foldl call left right (next ∷ rights) =
      fold_rights-foldl call (call left right) next rights

  and-none : (left : Visitable X) → (and left [] ≡ none) × (or left [] ≡ none)
  unfolding and or fold_rights
  and-none left = (refl, refl)

  -- And and Or nest their operands to the left, whatever their number, and panic if there is no
  -- operand but the first.
  pub and-foldl :
      (left right : Visitable X) (rights : List (Visitable X))
      → (and left [] ≡ none)
        × (or left [] ≡ none)
        × (and left (right ∷ rights) ≡ some (foldl and_one left (right ∷ rights)))
        × (or left (right ∷ rights) ≡ some (foldl or_one left (right ∷ rights)))
  unfolding and or and_one or_one
  and-foldl left right rights =
      let (l, r, apart, joined) = fold_rights-foldl and_one left right rights in
      let (l', r', apart', joined') = fold_rights-foldl or_one left right rights in
      (
        (and-none left).0,
        (and-none left).1,
        ground (arith, apart, joined),
        ground (arith, apart', joined'),
      )

module _ {E C X Ty : Type 0} (get : C → String → Result E (Any (Datum C X)))
    (values : Values (Datum C X) Ty) (registry : OperatorRegistry E (Datum C X) Ty) where
  -- What a visit of the expression leaves as the current value.
  abbrev pub visited :
      Visitable (Any (Datum C X)) → EvaluateVisitor C X → Result E (Any (Datum C X))
  visited e v = accept get values registry e v >>= λ v'. ok v'.current_value

  -- Operands without nested wildcards, and the truth values that visits of them leave, each from
  -- this state of the visitor.
  abbrev pub Visits : List (Visitable (Any (Datum C X))) → List Truth → EvaluateVisitor C X → Type 0
  Visits [] [] v = Unit
  Visits (e ∷ es) (t ∷ ts) v = IsUnnested e × (visited e v ≡ ok (value_of t)) × Visits es ts v
  Visits _ _ v = ¬ Unit

  -- The operands have these truth values in the scoped semantics.
  abbrev Truths : List (Visitable (Any (Datum C X))) → List Truth → Option C → Option C → Type 0
  Truths [] [] scope item = Unit
  Truths (e ∷ es) (t ∷ ts) scope item =
      (denote get values registry e scope item ≡ ok (value_of t)) × Truths es ts scope item
  Truths _ _ scope item = ¬ Unit

  -- A chain of one connective folds its effect on truth values.
  denote-chain :
      (op : Operator) (join : Truth → Truth → Truth)
      → ((t u : Truth)
          → exec_binary values registry (value_of t) op (value_of u) ≡ ok (value_of (join t u)))
      → (left : Visitable (Any (Datum C X))) (t : Truth) (es : List (Visitable (Any (Datum C X))))
        (ts : List Truth) (scope item : Option C)
      → denote get values registry left scope item ≡ ok (value_of t)
      → Truths es ts scope item
      → denote get values registry
          (foldl (λ l r. infix_node l op r left_associative) left es)
          scope
          item
        ≡ ok (value_of (foldl join t ts))
  unfolding denote
  denote-chain op join works left t [] [] scope item h hs = h
  denote-chain op join works left t (e ∷ es) (u ∷ ts) scope item h hs =
      denote-chain op join works (infix_node left op e left_associative) (join t u) es ts scope item
        (ground (arith, h, hs.0, works t u)) hs.1
  denote-chain op join works left t [] (u ∷ ts) scope item h hs = absurd (hs tt)
  denote-chain op join works left t (e ∷ es) [] scope item h hs = absurd (hs tt)

  Visits-Truths :
      (es : List (Visitable (Any (Datum C X)))) (ts : List Truth) (v : EvaluateVisitor C X)
      → Visits es ts v
      → All IsUnnested es × Truths es ts v.context none
  Visits-Truths [] [] v h = (tt, tt)
  Visits-Truths (e ∷ es) (t ∷ ts) v h =
      let (flat, truths) = Visits-Truths es ts v h.2 in
      ((h.0, flat), (sym (accept-current_value get values registry e v h.0) ∙ h.1, truths))
  Visits-Truths [] (t ∷ ts) v h = absurd (h tt)
  Visits-Truths (e ∷ es) [] v h = absurd (h tt)

  chain-IsUnnested :
      (op : Operator) (left : Visitable (Any (Datum C X))) (es : List (Visitable (Any (Datum C X))))
      → IsUnnested left
      → All IsUnnested es
      → IsUnnested (foldl (λ l r. infix_node l op r left_associative) left es)
  chain-IsUnnested op left [] h hs = h
  chain-IsUnnested op left (e ∷ es) h hs =
      chain-IsUnnested op (infix_node left op e left_associative) es (h, hs.0) hs.1

  visited-chain :
      (op : Operator) (join : Truth → Truth → Truth)
      → ((t u : Truth)
          → exec_binary values registry (value_of t) op (value_of u) ≡ ok (value_of (join t u)))
      → (left : Visitable (Any (Datum C X))) (t : Truth) (es : List (Visitable (Any (Datum C X))))
        (ts : List Truth) (v : EvaluateVisitor C X)
      → Visits (left ∷ es) (t ∷ ts) v
      → visited (foldl (λ l r. infix_node l op r left_associative) left es) v
        ≡ ok (value_of (foldl join t ts))
  visited-chain op join works left t es ts v h =
      let (flat, truths) = Visits-Truths (left ∷ es) (t ∷ ts) v h in
      accept-current_value get values registry
        (foldl (λ l r. infix_node l op r left_associative) left es) v
        (chain-IsUnnested op left es flat.0 flat.1)
      ∙ denote-chain op join works left t es ts v.context none truths.0 truths.1

  -- If the operands of And and Or are two or more expressions without nested wildcards that refer
  -- to items only in predicates of wildcards, and a visit of each, from one and the same state of
  -- the visitor, leaves true, false or NULL as the current value, then a visit of the conjunction
  -- from that state leaves the least of these values and a visit of the disjunction the greatest,
  -- in the order false, NULL, true.
  pub accept-and :
      (left right : Visitable (Any (Datum C X))) (rights : List (Visitable (Any (Datum C X))))
      (t : Truth) (ts : List Truth) (v : EvaluateVisitor C X)
      (all any : Visitable (Any (Datum C X)))
      → Visits (left ∷ right ∷ rights) (t ∷ ts) v
      → and left (right ∷ rights) ≡ some all
      → or left (right ∷ rights) ≡ some any
      → (visited all v ≡ ok (value_of (foldl lesser t ts)))
        × (visited any v ≡ ok (value_of (foldl greater t ts)))
  unfolding and_one or_one
  accept-and left right rights t ts v all any h conj disj =
      let (_, _, joined, joined') = and-foldl left right rights in
      (
        ground (
          arith,
          joined,
          conj,
          visited-chain op_and lesser (λ a b. (exec_binary-Truth values registry a b).0) left t
              (right ∷ rights) ts v h,
        ),
        ground (
          arith,
          joined',
          disj,
          visited-chain op_or greater (λ a b. (exec_binary-Truth values registry a b).1) left t
              (right ∷ rights) ts v h,
        ),
      )
