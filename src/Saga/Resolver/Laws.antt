-- ===== src/Saga/Resolver/Laws.antt =====
-- The names and types that registrations leave in the map-based resolver (activity_resolver.go).
use ascetic_ddd_go.Base.{ℕ, ◌≡◌, ◌≢◌, sym, ap, ◌∙◌, Option, none, some, ℕ_discrete, arith}
use ascetic_ddd_go.Base.Assoc.{lookup-insert}
use ascetic_ddd_go.Saga.Resolver.{
  Name, Name-discrete, TypeNames, get_activity_type_pointer, MapBasedResolver, register, resolve,
  get_name,
}

module _ {T : Type 0} (names : TypeNames T) where
  -- The type has a name in the resolver that leads back to it.
  abbrev pub Known : MapBasedResolver T → T → Type 0
  Known r t = (name : Name) × (get_name names r t ≡ some name) × (resolve names r name ≡ some t)

  pointer_unnamed : (t : T) → names t ≡ none → get_activity_type_pointer names t ≡ 0
  unfolding get_activity_type_pointer
  pointer_unnamed t h = ground arith

  -- Registering a named activity under its own name makes it known.
  pub register-Known :
      (r : MapBasedResolver T) (name : Name) (t : T)
      → names t ≡ some name
      → Known (register names r name t) t
  unfolding register get_name resolve
  register-Known r name t own = (
    name,
    ground (
      arith,
      lookup-insert ℕ_discrete (get_activity_type_pointer names t)
          (get_activity_type_pointer names t) name r.type_to_name,
    ),
    ground (arith, lookup-insert Name-discrete name name t r.name_to_type),
  )

  -- If a type is known to the resolver (its name leads back to it), registering another type under
  -- its own TypeName keeps it known, provided that the pointers of the two types differ and the new
  -- name is not the name of the first.
  pub register-Known_other :
      (r : MapBasedResolver T) (name : Name) (t u : T)
      → names t ≡ some name
      → Known r u
      → get_activity_type_pointer names t ≢ get_activity_type_pointer names u
      → get_name names r u ≢ some name
      → Known (register names r name t) u
  unfolding register get_name resolve
  register-Known_other r name t u own (other, named, back) apart differs = (
    other,
    ground (arith, lookup-insert ℕ_discrete p q name r.type_to_name),
    ground (
      arith,
      lookup-insert Name-discrete name other t r.name_to_type,
      ap {A = Name} {B = Option Name} some,
    ),
  )
    where
      p : ℕ
      p = get_activity_type_pointer names t

      q : ℕ
      q = get_activity_type_pointer names u

  -- Two activities without a `TypeName` share one pointer: the later registration takes over the
  -- name of the earlier, which then leads to the wrong activity.
  pub register_unnamed :
      (r : MapBasedResolver T) (name later : Name) (t u : T)
      → names t ≡ none
      → names u ≡ none
      → let r' : MapBasedResolver T = register names (register names r name t) later u in
        (get_name names r' t ≡ some later) × (resolve names r' later ≡ some u)
  unfolding register get_name resolve
  register_unnamed r name later t u ht hu =
      let p = get_activity_type_pointer names u in
      let same : get_activity_type_pointer names t ≡ p =
        pointer_unnamed t ht ∙ sym (pointer_unnamed u hu) in
      (
        ground (
          arith,
          same,
          lookup-insert ℕ_discrete p p later (register names r name t).type_to_name,
        ),
        ground (
          arith,
          lookup-insert Name-discrete later later u (register names r name t).name_to_type,
        ),
      )
