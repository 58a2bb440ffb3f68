-- ===== src/Sql/Postgresql.antt =====
-- asceticddd/specification/infrastructure/postgresql_visitor.go: the SQL text of an expression. The
-- text is kept as the pieces that the visitor appends; a placeholder `$n` is a piece of its own. The
-- decimal text of a number, `strings.ToLower` and `inflection.Singular` are parameters. No visit
-- returns an error.
use Prim.Native.String.{String}
use Prim.Native.String.{◌++◌ as ◌⊕◌}
use text.Mathlib.Text.{◌==◌ as str_eq}
use ascetic_ddd_go.Base.{
  ℕ, suc, Bool, true, false, ◌&&◌, not, if◌then◌else◌, ltb, List, [], ◌∷◌, ◌++◌, Option, none, some,
  length,
}
use ascetic_ddd_go.Specification.{
  Associativity, left_associative, right_associative, non_associative, Visitable, value_node,
  prefix_node, infix_node, postfix_node, field_node, object, EmptiableObject, global_scope_node,
  object_node, collection_node, item_node, is_root, name_of, path_above, extract_field_path,
}
use ascetic_ddd_go.Specification.Operators.{
  Operator, op_eq, op_gt, op_lt, op_gte, op_lte, op_ne, op_is, op_and, op_or, op_not, op_add,
  op_sub, op_mul, op_div, op_mod, op_pos, op_neg, op_lshift, op_rshift, op_is_null, op_is_not_null,
}
use ascetic_ddd_go.Sql.Schema.{
  SchemaRegistry, CollectionMapping, ForeignKeyPair, is_relational, get_parent_ref, get,
}

pub data Piece : Type 0 where
  raw : String → Piece
  placeholder : ℕ → Piece

-- Go's texts of the constants.
abbrev pub operator_text : Operator → String
operator_text op_eq = "="
operator_text op_gt = ">"
operator_text op_lt = "<"
operator_text op_gte = ">="
operator_text op_lte = "<="
operator_text op_ne = "!="
operator_text op_is = "IS"
operator_text op_and = "AND"
operator_text op_or = "OR"
operator_text op_not = "NOT"
operator_text op_add = "+"
operator_text op_sub = "-"
operator_text op_mul = "*"
operator_text op_div = "/"
operator_text op_mod = "%"
operator_text op_pos = "+pos"
operator_text op_neg = "-neg"
operator_text op_lshift = "<<"
operator_text op_rshift = ">>"
operator_text op_is_null = "IS NULL"
operator_text op_is_not_null = "IS NOT NULL"

abbrev pub associativity_text : Associativity → String
associativity_text left_associative = "LEFT"
associativity_text right_associative = "RIGHT"
associativity_text non_associative = "NON"

unfoldable pub get_node_precedence_key : Operator → Associativity → String
get_node_precedence_key op associativity =
    operator_text op ⊕ (" " ⊕ associativity_text associativity)

-- The calls of `setPrecedence`.
abbrev pub precedence_mapping : List (String × ℕ)
precedence_mapping =
    (". LEFT", 160)
    ∷ (":: LEFT", 160)
    ∷ ("[ LEFT", 150)
    ∷ ("+ RIGHT", 140)
    ∷ ("- RIGHT", 140)
    ∷ ("^ LEFT", 130)
    ∷ ("* LEFT", 120)
    ∷ ("/ LEFT", 120)
    ∷ ("% LEFT", 120)
    ∷ ("+ LEFT", 110)
    ∷ ("- LEFT", 110)
    ∷ ("(any other operator) LEFT", 100)
    ∷ ("BETWEEN NON", 90)
    ∷ ("IN NON", 90)
    ∷ ("LIKE NON", 90)
    ∷ ("ILIKE NON", 90)
    ∷ ("SIMILAR NON", 90)
    ∷ ("< NON", 80)
    ∷ ("> NON", 80)
    ∷ ("= NON", 80)
    ∷ ("<= NON", 80)
    ∷ (">= NON", 80)
    ∷ ("!= NON", 80)
    ∷ ("IS NON", 70)
    ∷ ("ISNULL NON", 70)
    ∷ ("NOTNULL NON", 70)
    ∷ ("NOT RIGHT", 60)
    ∷ ("AND LEFT", 50)
    ∷ ("OR LEFT", 40)
    ∷ []

unfoldable pub find_precedence : String → List (String × ℕ) → Option ℕ
find_precedence key [] = none
find_precedence key ((k, p) ∷ rest) =
    let later = find_precedence key rest in if str_eq k key then some p else later

-- `innerPrecedence`, given the outer one.
unfoldable pub inner_precedence : String → ℕ → ℕ
inner_precedence key outer = elim (find_precedence key precedence_mapping) [
  | some p ↦ p
  | none ↦ elim (find_precedence "(any other operator) LEFT" precedence_mapping) [
    | some p ↦ p
    | none ↦ outer
  ]
]

pub record PostgresqlVisitor (X : Type 0) : Type 0 where
  pub sql : List Piece
  pub placeholder_index : ℕ
  pub parameters : List X
  pub precedence : ℕ
  pub in_wildcard : Bool
  pub wildcard_alias : String
  pub wildcard_counter : ℕ
  pub schema : Option SchemaRegistry

unfoldable pub new_postgresql_visitor : {X : Type 0} → Option SchemaRegistry → PostgresqlVisitor X
new_postgresql_visitor schema = record {
  sql = [];
  placeholder_index = 0;
  parameters = [];
  precedence = 0;
  in_wildcard = false;
  wildcard_alias = "";
  wildcard_counter = 0;
  schema = schema;
}

-- The option `PlaceholderIndex`.
unfoldable pub with_placeholder_index : {X : Type 0} → ℕ → PostgresqlVisitor X → PostgresqlVisitor X
with_placeholder_index index v = record v { placeholder_index = index }

-- `strings.Join(parts, ".")`
unfoldable pub join : List String → String
join [] = ""
join (part ∷ []) = part
join (part ∷ next ∷ parts) = part ⊕ ("." ⊕ join (next ∷ parts))

unfoldable pub is_item_reference : {X : Type 0} → EmptiableObject X → Bool
is_item_reference item_node = true
is_item_reference _ = false

-- The root that the parents of an object lead to.
unfoldable pub is_below_item : {X : Type 0} → EmptiableObject X → Bool
is_below_item global_scope_node = false
is_below_item item_node = true
is_below_item (object_node parent name) = is_below_item parent
is_below_item (collection_node parent name predicate) = is_below_item parent

abbrev pub is_empty : {A : Type 0} → List A → Bool
is_empty [] = true
is_empty (_ ∷ _) = false

unfoldable pub prefix_text : Operator → String
prefix_text op_pos = operator_text op_pos
prefix_text op_neg = operator_text op_neg
prefix_text op = operator_text op ⊕ " "

-- The conditions on the foreign keys, the first without an `AND`.
unfoldable pub key_conditions : String → String → List ForeignKeyPair → List Piece
key_conditions alias parent_ref [] = []
key_conditions alias parent_ref (fk ∷ fks) =
    raw alias
    ∷ raw "."
    ∷ raw fk.child_column
    ∷ raw " = "
    ∷ raw parent_ref
    ∷ raw "."
    ∷ raw fk.parent_column
    ∷ (let later = key_conditions alias parent_ref fks in
        if is_empty fks then [] else raw " AND " ∷ later)

-- The mapping of a collection that is stored in a table of its own.
unfoldable pub relational_mapping : Option SchemaRegistry → String → Option CollectionMapping
relational_mapping none field_name = none
relational_mapping (some schema) field_name =
    if is_relational schema field_name then get schema field_name else none

unfoldable pub relational_opening : CollectionMapping → String → String → List Piece
relational_opening mapping parent_ref alias =
    raw "EXISTS (SELECT 1 FROM "
    ∷ raw mapping.table
    ∷ raw " AS "
    ∷ raw alias
    ∷ raw " WHERE "
    ∷ (key_conditions alias parent_ref mapping.foreign_keys ++ raw " AND " ∷ [])

unfoldable pub get_parent_ref_for_relational : Option SchemaRegistry → Bool → String → String
get_parent_ref_for_relational schema in_wildcard alias =
    if in_wildcard && not (str_eq alias "")
    then alias
    else elim schema [ none ↦ "" | some registry ↦ get_parent_ref registry ]

module _ {X : Type 0} where
  unfoldable pub write : PostgresqlVisitor X → String → PostgresqlVisitor X
  write v s = record v { sql = v.sql ++ raw s ∷ [] }

  unfoldable pub visit :
      String
      → (PostgresqlVisitor X → PostgresqlVisitor X)
      → PostgresqlVisitor X
      → PostgresqlVisitor X
  visit key callable v =
      let inner = inner_precedence key v.precedence in
      let entered = record v { precedence = inner } in
      if ltb inner v.precedence
      then record (write (callable (write entered "(")) ")") { precedence = v.precedence }
      else record (callable entered) { precedence = v.precedence }

  unfoldable pub visit_value : X → PostgresqlVisitor X → PostgresqlVisitor X
  visit_value x v =
      let parameters = v.parameters ++ x ∷ [] in
      record v { parameters = parameters; sql = v.sql ++ placeholder (length parameters) ∷ [] }

  unfoldable pub visit_field :
      EmptiableObject X → String → PostgresqlVisitor X → PostgresqlVisitor X
  visit_field obj name v =
      if v.in_wildcard && is_item_reference obj
      then write (write (write v v.wildcard_alias) ".") name
      else write v (join (extract_field_path obj name))

  -- Of the parent of a collection.
  unfoldable pub extract_field_name : EmptiableObject X → String
  extract_field_name parent = if is_root parent then "" else name_of parent

  -- In a wildcard or not, with its alias.
  unfoldable pub extract_collection_path : EmptiableObject X → Bool → String → String
  extract_collection_path parent in_wildcard alias =
      let parts = path_above parent [] in
      if in_wildcard && is_below_item parent
      then (if is_empty parts then alias else alias ⊕ ("." ⊕ join parts))
      else join parts

  -- The closing parenthesis, and the wildcard around as it was.
  unfoldable pub leave : PostgresqlVisitor X → PostgresqlVisitor X → PostgresqlVisitor X
  leave outer v = record (write v ")") {
    in_wildcard = outer.in_wildcard;
    wildcard_alias = outer.wildcard_alias;
  }

  -- The text in front of the predicate.
  unfoldable pub embedded_opening : EmptiableObject X → Bool → String → String → List Piece
  embedded_opening parent in_wildcard outer alias =
      raw "EXISTS (SELECT 1 FROM unnest("
      ∷ raw (extract_collection_path parent in_wildcard outer)
      ∷ raw ") AS "
      ∷ raw alias
      ∷ raw " WHERE "
      ∷ []

  unfoldable pub result : PostgresqlVisitor X → List Piece × List X
  result v = (v.sql, v.parameters)

module _ {X : Type 0} (decimal : ℕ → String) (to_lower singular : String → String) where
  unfoldable pub extract_collection_name : EmptiableObject X → String
  extract_collection_name parent = if is_root parent then "item" else singular (name_of parent)

  unfoldable pub embedded_alias : EmptiableObject X → ℕ → String
  embedded_alias parent counter =
      to_lower (extract_collection_name parent) ⊕ ("_" ⊕ decimal counter)

  unfoldable pub relational_alias : CollectionMapping → EmptiableObject X → ℕ → String
  relational_alias mapping parent counter =
      if str_eq mapping.alias ""
      then embedded_alias parent counter
      else mapping.alias ⊕ ("_" ⊕ decimal counter)

  unfoldable pub enter_embedded : EmptiableObject X → PostgresqlVisitor X → PostgresqlVisitor X
  enter_embedded parent v =
      let alias = embedded_alias parent (suc v.wildcard_counter) in
      record v {
        wildcard_counter = suc v.wildcard_counter;
        in_wildcard = true;
        wildcard_alias = alias;
        sql = v.sql ++ embedded_opening parent v.in_wildcard v.wildcard_alias alias;
      }

  unfoldable pub enter_relational :
      CollectionMapping → EmptiableObject X → PostgresqlVisitor X → PostgresqlVisitor X
  enter_relational mapping parent v =
      let alias = relational_alias mapping parent (suc v.wildcard_counter) in
      let parent_ref = get_parent_ref_for_relational v.schema v.in_wildcard v.wildcard_alias in
      record v {
        wildcard_counter = suc v.wildcard_counter;
        in_wildcard = true;
        wildcard_alias = alias;
        sql = v.sql ++ relational_opening mapping parent_ref alias;
      }

  unfoldable pub enter_collection : EmptiableObject X → PostgresqlVisitor X → PostgresqlVisitor X
  enter_collection parent v = elim (relational_mapping v.schema (extract_field_name parent)) [
    | some mapping ↦ enter_relational mapping parent v
    | none ↦ enter_embedded parent v
  ]

  unfoldable mutual
    pub accept : Visitable X → PostgresqlVisitor X → PostgresqlVisitor X
    accept (value_node x) v = visit_value x v
    accept (field_node obj name) v = visit_field obj name v
    accept (prefix_node op operand associativity) v =
        visit (get_node_precedence_key op associativity)
          (λ w. accept operand (write w (prefix_text op))) v
    accept (infix_node left op right associativity) v =
        visit (get_node_precedence_key op associativity)
          (λ w. accept right (write (accept left w) (" " ⊕ (operator_text op ⊕ " ")))) v
    accept (postfix_node operand op associativity) v =
        visit (get_node_precedence_key op associativity)
          (λ w. write (accept operand w) (" " ⊕ operator_text op)) v
    accept (object obj) v = accept_object obj v

    pub accept_object : EmptiableObject X → PostgresqlVisitor X → PostgresqlVisitor X
    accept_object global_scope_node v = v
    accept_object (object_node parent name) v = v
    accept_object item_node v = v
    accept_object (collection_node parent name predicate) v =
        leave v (accept predicate (enter_collection parent v))

  unfoldable pub compile_to_sql : Visitable X → List Piece × List X
  compile_to_sql exp = result (accept exp (new_postgresql_visitor none))
