-- ===== src/Saga/Resolver.antt =====
-- asceticddd/saga/activity_resolver.go: `MapBasedResolver`. Activity types are told apart by a
-- "pointer" computed from the activity that they create: a hash of its `TypeName`, on 64 bits, if
-- it has one, and 0 otherwise.
pub mod Laws
use ascetic_ddd_go.Base.{
  ℕ, ◌+◌, ◌*◌, ◌%◌, ◌^◌, List, [], ◌∷◌, Option, none, some, ℕ_discrete, foldl,
}
use ascetic_ddd_go.Base.Assoc.{lookup, insert}

-- The type names are kept as bytes.
abbrev pub Name : Type 0
Name = List ℕ

unfoldable pub Name-discrete : Discrete Name
Name-discrete = hlevel ℕ_discrete

-- `none` for an activity that is no `NamedActivity`.
abbrev pub TypeNames : Type 0 → Type 0
TypeNames T = T → Option Name

-- `hash = hash*31 + uintptr(name[i])`
unfoldable pub hash_name : Name → ℕ
hash_name name = foldl (λ hash byte. (hash * 31 + byte) % 2 ^ 64) 0 name

unfoldable pub get_activity_type_pointer : {T : Type 0} → TypeNames T → T → ℕ
get_activity_type_pointer names t = elim (names t) [ some name ↦ hash_name name | none ↦ 0 ]

pub record MapBasedResolver (T : Type 0) : Type 0 where
  pub name_to_type : List (Name × T)
  pub type_to_name : List (ℕ × Name)

unfoldable pub new_map_based_resolver : {T : Type 0} → MapBasedResolver T
new_map_based_resolver = record { name_to_type = []; type_to_name = [] }

module _ {T : Type 0} (names : TypeNames T) where
  unfoldable pub register : MapBasedResolver T → Name → T → MapBasedResolver T
  register r name t =
      let known : Name = elim (names t) [ some own ↦ own | none ↦ name ] in
      record {
        name_to_type = insert Name-discrete name t r.name_to_type;
        type_to_name = insert ℕ_discrete (get_activity_type_pointer names t) known r.type_to_name;
      }

  -- `none` is the error "activity type not registered".
  unfoldable pub resolve : MapBasedResolver T → Name → Option T
  resolve r name = lookup Name-discrete name r.name_to_type

  unfoldable pub get_name : MapBasedResolver T → T → Option Name
  get_name r t = elim (lookup ℕ_discrete (get_activity_type_pointer names t) r.type_to_name) [
    | some name ↦ some name
    | none ↦ names t
  ]
