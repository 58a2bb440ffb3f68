-- ===== src/Sql/Transform/Composites.antt =====
-- What composites of asceticddd/specification/infrastructure/composite_expression_node.go mean.
use ascetic_ddd_go.Base.{
  ℕ, suc, ◌≤◌, ◌≡◌, refl, ap, ap₂, Bool, true, false, not, ◌&&◌, ◌||◌, List, [], ◌∷◌, ◌==◌, length,
  subst, arith,
}
use ascetic_ddd_go.Specification.{right_associative}
use ascetic_ddd_go.Specification.Operators.{op_eq, op_ne, op_and, op_not}
use ascetic_ddd_go.Sql.Transform.{
  Node, absent, expression, composite, prefix_of, infix_of, postfix_of, Nodes, no_nodes, node_and,
  Transformed, ok, err, ◌>>=◌, count, and_two, and_of, and_all, equal_all, not_equal_all,
  equal_composite, equal_operands, equal_pair, not_equal_composite, not_equal_operands,
  not_equal_pair,
}

and_assoc : (a b c : Bool) → (a && b) && c ≡ a && (b && c)
and_assoc true b c = refl
and_assoc false b c = refl

not-or : (a b : Bool) → not a && not b ≡ not (a || b)
not-or true b = refl
not-or false b = refl

abbrev mutual
  -- Composites of one shape: below the top, each has two or more components.
  pub IsMatching : {X : Type 0} → Nodes X → Nodes X → Type 0
  IsMatching no_nodes no_nodes = Unit
  IsMatching (node_and n ns) (node_and m ms) = IsMatchingPair n m × IsMatching ns ms
  IsMatching _ _ = ¬ Unit

  pub IsMatchingPair : {X : Type 0} → Node X → Node X → Type 0
  IsMatchingPair (composite ns) (composite ms) = (2 ≤ count ns) × IsMatching ns ms
  IsMatchingPair (composite ns) _ = ¬ Unit
  IsMatchingPair _ _ = Unit

abbrev pub IsPlain : {X : Type 0} → Node X → Type 0
IsPlain (composite ns) = ¬ Unit
IsPlain _ = Unit

-- No component is a composite.
abbrev pub IsFlat : {X : Type 0} → Nodes X → Type 0
IsFlat no_nodes = Unit
IsFlat (node_and n ns) = IsPlain n × IsFlat ns

count-IsMatching : {X : Type 0} (ns ms : Nodes X) → IsMatching ns ms → count ns ≡ count ms
count-IsMatching no_nodes no_nodes h = refl
count-IsMatching no_nodes (node_and m ms) h = absurd (h tt)
count-IsMatching (node_and n ns) no_nodes h = absurd (h tt)
count-IsMatching (node_and n ns) (node_and m ms) h = ap suc (count-IsMatching ns ms h.1)

count-same : {X : Type 0} (ns ms : Nodes X) → IsMatching ns ms → (count ns == count ms) ≡ true
count-same ns ms h = ground (arith, count-IsMatching ns ms h)

-- The truth of equations, inequations, conjunctions and negations, by when two nodes are equal.
module _ {X : Type 0} (same : Node X → Node X → Bool) where
  abbrev pub truth : Node X → Bool
  truth (infix_of left op_eq right _) = same left right
  truth (infix_of left op_ne right _) = not (same left right)
  truth (infix_of left op_and right _) = truth left && truth right
  truth (prefix_of op_not operand _) = not (truth operand)
  truth _ = false

  abbrev mutual
    -- Composites are equal component by component.
    pub all_same : Nodes X → Nodes X → Bool
    all_same no_nodes no_nodes = true
    all_same (node_and n ns) (node_and m ms) = both_same n m && all_same ns ms
    all_same _ _ = false

    pub both_same : Node X → Node X → Bool
    both_same (composite ns) (composite ms) = all_same ns ms
    both_same n m = same n m

  -- Is some component equal to the one at its place?
  abbrev pub any_same : Nodes X → Nodes X → Bool
  any_same (node_and n ns) (node_and m ms) = same n m || any_same ns ms
  any_same _ _ = false

  abbrev pub all_true : List (Node X) → Bool
  all_true [] = true
  all_true (n ∷ ns) = truth n && all_true ns

  -- What succeeds with a node of this truth, and with operands that are all true or not.
  abbrev pub Says : {E : Type 0} → Bool → Transformed E (Node X) → Type 0
  Says b (ok n) = truth n ≡ b
  Says b (err e) = ⊥

  negated :
      {E : Type 0} (b : Bool) (both : Transformed E (Node X))
      → Says (not b) both
      → Says b (both >>= λ all. ok (prefix_of op_not all right_associative))
  negated true (ok n) h = ap not h
  negated false (ok n) h = ap not h
  negated b (err f) h = h

  abbrev pub SaysAll : {E : Type 0} → Bool → ℕ → Transformed E (List (Node X)) → Type 0
  SaysAll b n (ok ns) = (all_true ns ≡ b) × (length ns ≡ n)
  SaysAll b n (err e) = ⊥

  module _ (E : Type 0) where
    and_of-Says :
        (left right : Node X) (rights : List (Node X))
        → Says (truth left && all_true (right ∷ rights)) (and_of {E = E} left (right ∷ rights))
    unfolding and_of
    and_of-Says left right [] = ground arith
    and_of-Says left right (next ∷ rights) =
        subst (λ b. Says b (and_of {E = E} (and_two left right) (next ∷ rights)))
          (and_assoc (truth left) (truth right) (all_true (next ∷ rights)))
          (and_of-Says (and_two left right) next rights)

    -- At every level, composites have one length, of two or more components.
    and_all-Says : (ns : List (Node X)) → 2 ≤ length ns → Says (all_true ns) (and_all {E = E} ns)
    unfolding and_all
    and_all-Says [] h = absurd (omega arith)
    and_all-Says (n ∷ []) h = absurd (omega arith)
    and_all-Says (n ∷ m ∷ ns) h = and_of-Says n m ns

    equal_all-Says :
        (b c : Bool) (n : ℕ) (operands : Transformed E (List (Node X)))
        → SaysAll b n operands
        → 2 ≤ n
        → c ≡ true
        → Says b (equal_all c operands)
    equal_all-Says b true n (ok ns) h two e =
        subst (λ t. Says t (and_all {E = E} ns)) h.0 (and_all-Says ns (omega (arith, h.1)))
    equal_all-Says b true n (err f) h two e = h
    equal_all-Says b false n operands h two e = ground (arith, e)

    not_equal_all-Says :
        (b c : Bool) (n : ℕ) (operands : Transformed E (List (Node X)))
        → SaysAll (not b) n operands
        → 2 ≤ n
        → c ≡ true
        → Says b (not_equal_all c operands)
    not_equal_all-Says b true n (ok ns) h two e =
        negated b (and_all {E = E} ns)
          (subst (λ t. Says t (and_all {E = E} ns)) h.0 (and_all-Says ns (omega (arith, h.1))))
    not_equal_all-Says b true n (err f) h two e = h
    not_equal_all-Says b false n operands h two e = ground (arith, e)

    SaysAll-cons :
        (b c : Bool) (n : ℕ) (first : Transformed E (Node X))
        (others : Transformed E (List (Node X)))
        → Says b first
        → SaysAll c n others
        → SaysAll (b && c) (suc n) (first >>= λ o. others >>= λ os. ok (o ∷ os))
    SaysAll-cons b c n (ok o) (ok os) h k = (ap₂ ◌&&◌ h k.0, ap suc k.1)
    SaysAll-cons b c n (ok o) (err f) h k = k
    SaysAll-cons b c n (err f) others h k = absurd h

    mutual
      unfolding equal_operands

      equal_operands-Says :
          (ns ms : Nodes X)
          → IsMatching ns ms
          → SaysAll (all_same ns ms) (count ns) (equal_operands {E = E} ns ms)
      equal_operands-Says no_nodes no_nodes h = (refl, refl)
      equal_operands-Says no_nodes (node_and m ms) h = absurd (h tt)
      equal_operands-Says (node_and n ns) no_nodes h = absurd (h tt)
      equal_operands-Says (node_and n ns) (node_and m ms) h =
          SaysAll-cons (both_same n m) (all_same ns ms) (count ns) (equal_pair {E = E} n m)
            (equal_operands {E = E} ns ms) (equal_pair-Says n m h.0) (equal_operands-Says ns ms h.1)

      equal_pair-Says :
          (n m : Node X) → IsMatchingPair n m → Says (both_same n m) (equal_pair {E = E} n m)
      equal_pair-Says (composite ns) (composite ms) h =
          equal_all-Says (all_same ns ms) (count ns == count ms) (count ns)
            (equal_operands {E = E} ns ms) (equal_operands-Says ns ms h.1) h.0
            (count-same ns ms h.1)
      equal_pair-Says (composite ns) absent h = absurd (h tt)
      equal_pair-Says (composite ns) (expression e) h = absurd (h tt)
      equal_pair-Says (composite ns) (prefix_of op e a) h = absurd (h tt)
      equal_pair-Says (composite ns) (infix_of l op r a) h = absurd (h tt)
      equal_pair-Says (composite ns) (postfix_of e op a) h = absurd (h tt)
      equal_pair-Says absent m h = refl
      equal_pair-Says (expression e) m h = refl
      equal_pair-Says (prefix_of op e a) m h = refl
      equal_pair-Says (infix_of l op r a) m h = refl
      equal_pair-Says (postfix_of e op a) m h = refl

    -- If two composites have one shape, with two or more components at every level, their
    -- equality is built without an error, and it is true just when the nodes at each place are
    -- equal.
    pub equal_composite-all_same :
        (ns ms : Nodes X)
        → 2 ≤ count ns
        → IsMatching ns ms
        → Says (all_same ns ms) (equal_composite {E = E} ns ms)
    unfolding equal_composite
    equal_composite-all_same ns ms two h =
        equal_all-Says (all_same ns ms) (count ns == count ms) (count ns)
          (equal_operands {E = E} ns ms) (equal_operands-Says ns ms h) two (count-same ns ms h)

    not_equal_pair-Says :
        (n m : Node X) → IsPlain n → Says (not (same n m)) (not_equal_pair {E = E} n m)
    unfolding not_equal_operands
    not_equal_pair-Says (composite ns) m h = absurd (h tt)
    not_equal_pair-Says absent m h = refl
    not_equal_pair-Says (expression e) m h = refl
    not_equal_pair-Says (prefix_of op e a) m h = refl
    not_equal_pair-Says (infix_of l op r a) m h = refl
    not_equal_pair-Says (postfix_of e op a) m h = refl

    not_equal_operands-Says :
        (ns ms : Nodes X)
        → IsFlat ns
        → count ns ≡ count ms
        → SaysAll (not (any_same ns ms)) (count ns) (not_equal_operands {E = E} ns ms)
    unfolding not_equal_operands
    not_equal_operands-Says no_nodes no_nodes flat h = (refl, refl)
    not_equal_operands-Says no_nodes (node_and m ms) flat h = absurd (omega (arith, h))
    not_equal_operands-Says (node_and n ns) no_nodes flat h = absurd (omega (arith, h))
    not_equal_operands-Says (node_and n ns) (node_and m ms) flat h =
        subst
          (λ b.
            SaysAll b (suc (count ns)) (not_equal_operands {E = E} (node_and n ns) (node_and m ms)))
          (not-or (same n m) (any_same ns ms))
          (SaysAll-cons (not (same n m)) (not (any_same ns ms)) (count ns)
            (not_equal_pair {E = E} n m) (not_equal_operands {E = E} ns ms)
            (not_equal_pair-Says n m flat.0)
            (not_equal_operands-Says ns ms flat.1 (omega (arith, h))))

    -- If two composites have one number of components, at least two, and no component of the
    -- first is a composite, their inequality is built without an error, and it is true just when
    -- some component is equal to the one at its place.
    pub not_equal_composite-any_same :
        (ns ms : Nodes X)
        → 2 ≤ count ns
        → IsFlat ns
        → count ns ≡ count ms
        → Says (any_same ns ms) (not_equal_composite {E = E} ns ms)
    unfolding not_equal_composite
    not_equal_composite-any_same ns ms two flat h =
        not_equal_all-Says (any_same ns ms) (count ns == count ms) (count ns)
          (not_equal_operands {E = E} ns ms) (not_equal_operands-Says ns ms flat h) two
          (ground (arith, h))
