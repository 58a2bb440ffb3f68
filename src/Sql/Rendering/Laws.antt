-- ===== src/Sql/Rendering/Laws.antt =====
-- The visitor of asceticddd/specification/infrastructure/postgresql_visitor.go beside the text
-- without its state.
use Prim.Native.String.{String}
use Prim.Native.String.{◌++◌ as ◌⊕◌}
use ascetic_ddd_go.Base.{
  ℕ, suc, ◌+◌, ◌≡◌, refl, sym, ap, ap₂, ◌∙◌, Bool, true, false, ◌&&◌, if◌then◌else◌, ltb, List, [],
  ◌∷◌, ◌++◌, Option, none, some, length, length-append, append-nil, append_assoc, arith,
}
use ascetic_ddd_go.Specification.{
  Visitable, value_node, prefix_node, infix_node, postfix_node, field_node, object, EmptiableObject,
  global_scope_node, object_node, collection_node, item_node, extract_field_path,
}
use ascetic_ddd_go.Sql.Schema.{CollectionMapping}
use ascetic_ddd_go.Sql.Postgresql.{
  Piece, raw, placeholder, operator_text, get_node_precedence_key, inner_precedence,
  PostgresqlVisitor, join, is_item_reference, prefix_text, relational_mapping, extract_field_name,
  write, visit, visit_value, visit_field, leave, enter_embedded, enter_relational, enter_collection,
  accept, accept_object,
}
use ascetic_ddd_go.Sql.Rendering.{
  values_of, object_values, collections_of, object_collections, enclose_at, alias_of, opening,
  render, render_object, site, extend,
}

-- A visitor with another text, other parameters and another number of collections.
abbrev pub with : {X : Type 0} → PostgresqlVisitor X → List Piece → List X → ℕ → PostgresqlVisitor X
with v pieces parameters counter = record v {
  sql = pieces;
  parameters = parameters;
  wildcard_counter = counter;
}

pub with-equal :
    {X : Type 0} (v : PostgresqlVisitor X) {p q : List Piece} {x y : List X} {k l : ℕ}
    → p ≡ q
    → x ≡ y
    → k ≡ l
    → with v p x k ≡ with v q y l
with-equal v {q = q} {x = x} {k = k} e f g =
    ap (λ p. with v p x k) e ∙ ap₂ (λ y l. with v q y l) f g

extend-extend :
    {X : Type 0} (v : PostgresqlVisitor X) (p q : List Piece) (x y : List X) (k l : ℕ)
    → extend (extend v p x k) q y l ≡ extend v (p ++ q) (x ++ y) (k + l)
extend-extend v p q x y k l =
    with-equal v (append_assoc v.sql p q) (append_assoc v.parameters x y) (omega arith)

write-extend :
    {X : Type 0} (v : PostgresqlVisitor X) (s : String) → write v s ≡ extend v (raw s ∷ []) [] 0
unfolding write
write-extend v s = with-equal v refl (sym (append-nil v.parameters)) (omega arith)

nothing : {X : Type 0} (v : PostgresqlVisitor X) → v ≡ extend v [] [] 0
nothing v = with-equal v (sym (append-nil v.sql)) (sym (append-nil v.parameters)) (omega arith)

-- A call that extends the visitor it is given, whatever that is, extends it in parentheses.
enclosed :
    {X : Type 0} (b : Bool) (inner : ℕ) (callable : PostgresqlVisitor X → PostgresqlVisitor X)
    (v : PostgresqlVisitor X) (body : List Piece) (x : List X) (k : ℕ)
    → ((before : List Piece)
        → callable (record v { precedence = inner; sql = before })
          ≡ extend (record v { precedence = inner; sql = before }) body x k)
    → (if b
        then record (write (callable (write (record v { precedence = inner }) "(")) ")") {
          precedence = v.precedence;
        }
        else record (callable (record v { precedence = inner })) { precedence = v.precedence })
      ≡ extend v (if b then raw "(" ∷ (body ++ raw ")" ∷ []) else body) x k
unfolding write
enclosed {X = X} true inner callable v body x k h =
    ap {A = PostgresqlVisitor X} (λ w. record (write w ")") { precedence = v.precedence })
      (h (v.sql ++ raw "(" ∷ []))
    ∙ with-equal v
        (ap (λ p. p ++ raw ")" ∷ []) (append_assoc v.sql (raw "(" ∷ []) body)
          ∙ append_assoc v.sql (raw "(" ∷ body) (raw ")" ∷ []))
        refl refl
enclosed {X = X} false inner callable v body x k h =
    ap {A = PostgresqlVisitor X} (λ w. record w { precedence = v.precedence }) (h v.sql)

visit-extend :
    {X : Type 0} (key : String) (callable : PostgresqlVisitor X → PostgresqlVisitor X)
    (v : PostgresqlVisitor X) (body : List Piece) (x : List X) (k : ℕ)
    → ((before : List Piece)
        → let w = record v { precedence = inner_precedence key v.precedence; sql = before } in
          callable w ≡ extend w body x k)
    → visit key callable v ≡ extend v (enclose_at (site v) key body) x k
unfolding visit
visit-extend key callable v body x k h =
    enclosed (ltb (inner_precedence key v.precedence) v.precedence)
      (inner_precedence key v.precedence) callable v body x k h

if-extend :
    {X : Type 0} (b : Bool) (v : PostgresqlVisitor X) (alias name path : String)
    → (if b then write (write (write v alias) ".") name else write v path)
      ≡ extend v (if b then raw alias ∷ raw "." ∷ raw name ∷ [] else raw path ∷ []) [] 0
unfolding write
if-extend true v alias name path =
    with-equal v
      (append_assoc (v.sql ++ raw alias ∷ []) (raw "." ∷ []) (raw name ∷ [])
        ∙ append_assoc v.sql (raw alias ∷ []) (raw "." ∷ raw name ∷ []))
      (sym (append-nil v.parameters)) (omega arith)
if-extend false v alias name path = write-extend v path

module _ {X : Type 0} (decimal : ℕ → String) (to_lower singular : String → String) where
  abbrev text : PostgresqlVisitor X → Visitable X → List Piece
  text v e = render decimal to_lower singular (site v) e v.wildcard_counter (length v.parameters)

  -- The visitor in front of the predicate of a collection, with its mapping.
  abbrev entered :
      Option CollectionMapping → EmptiableObject X → PostgresqlVisitor X → PostgresqlVisitor X
  entered mapping parent v =
      let alias = alias_of decimal to_lower singular mapping parent (suc v.wildcard_counter) in
      record v {
        wildcard_counter = suc v.wildcard_counter;
        in_wildcard = true;
        wildcard_alias = alias;
        sql = v.sql ++ opening decimal to_lower singular mapping (site v) parent alias;
      }

  enter-entered :
      (found : Option CollectionMapping) (parent : EmptiableObject X) (v : PostgresqlVisitor X)
      → elim found [
        | some mapping ↦ enter_relational decimal to_lower singular mapping parent v
        | none ↦ enter_embedded decimal to_lower singular parent v
      ]
        ≡ entered found parent v
  unfolding enter_relational enter_embedded
  enter-entered (some mapping) parent v = refl
  enter-entered none parent v = refl

  enter_collection-entered :
      (parent : EmptiableObject X) (v : PostgresqlVisitor X)
      → enter_collection decimal to_lower singular parent v
        ≡ entered (relational_mapping v.schema (extract_field_name parent)) parent v
  unfolding enter_collection
  enter_collection-entered parent v =
      enter-entered (relational_mapping v.schema (extract_field_name parent)) parent v

  mutual
    unfolding accept visit_value visit_field write leave

    accept-extend :
        (e : Visitable X) (v : PostgresqlVisitor X)
        → accept decimal to_lower singular e v
          ≡ extend v (text v e) (values_of e) (collections_of e)
    accept-extend (value_node x) v =
        with-equal v
          (ap (λ n. v.sql ++ placeholder n ∷ [])
            (length-append v.parameters (x ∷ []) ∙ omega arith))
          refl (omega arith)
    accept-extend (field_node obj name) v =
        if-extend (v.in_wildcard && is_item_reference obj) v v.wildcard_alias name
          (join (extract_field_path obj name))
    accept-extend (prefix_node op operand associativity) v =
        let key = get_node_precedence_key op associativity in
        let inside = record v { precedence = inner_precedence key v.precedence } in
        visit-extend key (λ w. accept decimal to_lower singular operand (write w (prefix_text op)))
          v (raw (prefix_text op) ∷ text inside operand) (values_of operand)
          (collections_of operand)
          (λ before.
            let w = record inside { sql = before } in
            accept-extend operand (write w (prefix_text op))
            ∙ with-equal w (append_assoc before (raw (prefix_text op) ∷ []) (text inside operand))
                refl refl)
    accept-extend (infix_node left op right associativity) v =
        let key = get_node_precedence_key op associativity in
        let inside = record v { precedence = inner_precedence key v.precedence } in
        let middle = " " ⊕ (operator_text op ⊕ " ") in
        let behind : ℕ → List Piece = λ n.
          render decimal to_lower singular (site inside) right
            (v.wildcard_counter + collections_of left) n in
        visit-extend key
          (λ w.
            accept decimal to_lower singular right
              (write (accept decimal to_lower singular left w) middle))
          v
          (text inside left ++ raw middle ∷ behind (length v.parameters + length (values_of left)))
          (values_of left ++ values_of right) (collections_of left + collections_of right)
          (λ before.
            let w = record inside { sql = before } in
            let first = extend w (text inside left) (values_of left) (collections_of left) in
            ap {A = PostgresqlVisitor X}
              (λ u. accept decimal to_lower singular right (write u middle)) (accept-extend left w)
            ∙ accept-extend right (write first middle)
            ∙ with-equal w
                (append_assoc (before ++ text inside left) (raw middle ∷ [])
                    (behind (length (v.parameters ++ values_of left)))
                  ∙ append_assoc before (text inside left)
                      (raw middle ∷ behind (length (v.parameters ++ values_of left)))
                  ∙ ap (λ n. before ++ (text inside left ++ raw middle ∷ behind n))
                      (length-append v.parameters (values_of left)))
                (append_assoc v.parameters (values_of left) (values_of right)) (omega arith))
    accept-extend (postfix_node operand op associativity) v =
        let key = get_node_precedence_key op associativity in
        let inside = record v { precedence = inner_precedence key v.precedence } in
        let end = " " ⊕ operator_text op in
        visit-extend key (λ w. write (accept decimal to_lower singular operand w) end) v
          (text inside operand ++ raw end ∷ []) (values_of operand) (collections_of operand)
          (λ before.
            let w = record inside { sql = before } in
            ap {A = PostgresqlVisitor X} (λ u. write u end) (accept-extend operand w)
            ∙ with-equal w (append_assoc before (text inside operand) (raw end ∷ [])) refl refl)
    accept-extend (object obj) v = accept_object-extend obj v

    accept_object-extend :
        (obj : EmptiableObject X) (v : PostgresqlVisitor X)
        → accept_object decimal to_lower singular obj v
          ≡ extend v
              (render_object decimal to_lower singular
                (site v)
                obj
                v.wildcard_counter
                (length v.parameters))
              (object_values obj)
              (object_collections obj)
    accept_object-extend global_scope_node v = nothing v
    accept_object-extend (object_node parent name) v = nothing v
    accept_object-extend item_node v = nothing v
    accept_object-extend (collection_node parent name predicate) v =
        let mapping = relational_mapping v.schema (extract_field_name parent) in
        let alias = alias_of decimal to_lower singular mapping parent (suc v.wildcard_counter) in
        let front = opening decimal to_lower singular mapping (site v) parent alias in
        let inside = entered mapping parent v in
        ap {A = PostgresqlVisitor X} (λ u. leave v (accept decimal to_lower singular predicate u))
          (enter_collection-entered parent v)
        ∙ ap {A = PostgresqlVisitor X} (leave v) (accept-extend predicate inside)
        ∙ with-equal v
            (append_assoc (v.sql ++ front) (text inside predicate) (raw ")" ∷ [])
              ∙ append_assoc v.sql front (text inside predicate ++ raw ")" ∷ []))
            refl (omega arith)

  -- Visiting an expression, from any state of the visitor and under any schema, adds to the
  -- text what the stateless rendering gives for the precedence and the wildcard around it,
  -- appends the values of the expression to the parameters and its collections to the counter,
  -- and leaves everything else as it was.
  pub accept-render :
      (e : Visitable X) (v : PostgresqlVisitor X)
      → accept decimal to_lower singular e v ≡ extend v (text v e) (values_of e) (collections_of e)
  accept-render e v = accept-extend e v
