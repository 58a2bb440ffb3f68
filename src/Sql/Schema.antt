-- ===== src/Sql/Schema.antt =====
-- asceticddd/specification/infrastructure/schema.go: how the collections of an aggregate are stored.
use Prim.Native.String.{String}
use text.Mathlib.Text.{◌==◌ as str_eq}
use text.Mathlib.TextEquality.{eq_iff}
use ascetic_ddd_go.Base.{
  Bool, true, false, sym, ◌∙◌, inl, inr, Bool-cases, List, [], ◌∷◌, Option, none, some,
  if◌then◌else◌,
}
use mathlib.Core.Bool.{false≢true}
use ascetic_ddd_go.Base.Assoc.{lookup, insert}

-- The keys of Go's `map[string]…`.
pub String-discrete : Discrete String
String-discrete s t = elim (Bool-cases (str_eq s t)) [
  | inl h ↦ yes ((eq_iff s t).0 h)
  | inr h ↦ no (λ e. false≢true (sym h ∙ (eq_iff s t).1 e))
]

pub data StorageType : Type 0 where
  storage_embedded storage_relational : StorageType

pub record ForeignKeyPair : Type 0 where
  pub child_column : String
  pub parent_column : String

pub record CollectionMapping : Type 0 where
  pub storage : StorageType
  pub table : String
  pub foreign_keys : List ForeignKeyPair
  pub alias : String

pub record SchemaRegistry : Type 0 where
  pub parent_table : String
  pub parent_alias : String
  pub collections : List (String × CollectionMapping)

unfoldable pub new_schema_registry : String → SchemaRegistry
new_schema_registry parent_table = record {
  parent_table = parent_table;
  parent_alias = "";
  collections = [];
}

unfoldable pub with_parent_alias : SchemaRegistry → String → SchemaRegistry
with_parent_alias r alias = record r { parent_alias = alias }

unfoldable pub register : SchemaRegistry → String → CollectionMapping → SchemaRegistry
register r field_name mapping = record r {
  collections = insert String-discrete field_name mapping r.collections;
}

unfoldable pub register_embedded : SchemaRegistry → String → SchemaRegistry
register_embedded r field_name =
    register r field_name
      (record { storage = storage_embedded; table = ""; foreign_keys = []; alias = "" })

unfoldable pub register_relational_composite :
    SchemaRegistry → String → String → List ForeignKeyPair → SchemaRegistry
register_relational_composite r field_name table foreign_keys = register r field_name (record {
  storage = storage_relational;
  table = table;
  foreign_keys = foreign_keys;
  alias = "";
})

unfoldable pub register_relational :
    SchemaRegistry → String → String → String → String → SchemaRegistry
register_relational r field_name table child_column parent_column =
    register_relational_composite r field_name table
      (record { child_column = child_column; parent_column = parent_column } ∷ [])

unfoldable pub get : SchemaRegistry → String → Option CollectionMapping
get r field_name = lookup String-discrete field_name r.collections

abbrev pub is_storage_embedded : StorageType → Bool
is_storage_embedded storage_embedded = true
is_storage_embedded storage_relational = false

abbrev pub is_storage_relational : StorageType → Bool
is_storage_relational storage_embedded = false
is_storage_relational storage_relational = true

-- Embedded, if it is not registered.
unfoldable pub is_embedded : SchemaRegistry → String → Bool
is_embedded r field_name = elim (get r field_name) [
  | none ↦ true
  | some mapping ↦ is_storage_embedded mapping.storage
]

unfoldable pub is_relational : SchemaRegistry → String → Bool
is_relational r field_name = elim (get r field_name) [
  | none ↦ false
  | some mapping ↦ is_storage_relational mapping.storage
]

unfoldable pub get_parent_ref : SchemaRegistry → String
get_parent_ref r = if str_eq r.parent_alias "" then r.parent_table else r.parent_alias
