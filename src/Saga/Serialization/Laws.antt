-- ===== src/Saga/Serialization/Laws.antt =====
-- A slip to the wire and back (routing_slip_serialization.go), with any resolver and with the
-- map-based one.
use ascetic_ddd_go.Base.{
  ℕ, suc, ◌≡◌, refl, List, [], ◌∷◌, none, some, arith, All, ◌++◌, ◌+◌, length,
}
use ascetic_ddd_go.Saga.{
  RoutingSlip, WorkItem, WorkLog, Activities, new_work_item, new_routing_slip,
}
use ascetic_ddd_go.Saga.Resolver
use ascetic_ddd_go.Saga.Resolver.{Name, TypeNames, MapBasedResolver, register, get_name}
use ascetic_ddd_go.Saga.Resolver.Laws.{register_unnamed}
use ascetic_ddd_go.Saga.Serialization.{
  ActivityTypeResolver, SerializableWorkItem, SerializableWorkLog, work_log, ok, err, ◌>>=◌,
  serialize_logs, restore_logs, serialize_items, restore_items, to_serializable, from_serializable,
}

module _ {T N A R W : Type 0} (acts : Activities T A R W)
    (resolver : ActivityTypeResolver T N) where
  -- The type has a name that leads back to it, and its activities say that they are of it.
  abbrev pub Named : T → Type 0
  Named t =
      (name : N) × (resolver.get_name t ≡ some name)
      × (resolver.resolve name ≡ some t)
      × (acts.activity_type t ≡ t)

  logs_back :
      (i : ℕ) (logs : List (WorkLog T R))
      → All (λ log. Named log.activity_type) logs
      → (out : List (SerializableWorkLog N R)) × (serialize_logs resolver i logs ≡ ok out)
        × (restore_logs resolver acts i out ≡ ok logs)
  unfolding serialize_logs restore_logs
  logs_back i [] h = ([], refl, refl)
  logs_back i (log ∷ logs) h =
      let (name, named, back, own) = h.0 in
      let (out, there, again) = logs_back (suc i) logs h.1 in
      (
        record { activity_type_name = name; result = log.result } ∷ out,
        ground (arith, named, there),
        ground (arith, back, again, own),
      )

  items_back :
      (i : ℕ) (items : List (WorkItem T A))
      → All (λ item. Named item.activity_type) items
      → (out : List (SerializableWorkItem N A)) × (serialize_items resolver i items ≡ ok out)
        × (restore_items resolver i out ≡ ok items)
  unfolding serialize_items restore_items
  items_back i [] h = ([], refl, refl)
  items_back i (item ∷ items) h =
      let (name, named, back, own) = h.0 in
      let (out, there, again) = items_back (suc i) items h.1 in
      (
        record { activity_type_name = name; arguments = item.arguments } ∷ out,
        ground (arith, named, there),
        ground (arith, back, again),
      )

  -- If each activity type of the slip has a name that the resolver leads back to it, and its
  -- activities report that type, then serializing the slip succeeds and restoring the result gives
  -- the slip back.
  pub from_serializable-to_serializable :
      (rs : RoutingSlip T A R)
      → All (λ log. Named log.activity_type) rs.completed_work_logs
      → All (λ item. Named item.activity_type) rs.next_work_items
      → (to_serializable acts resolver rs >>= from_serializable acts resolver) ≡ ok rs
  unfolding to_serializable from_serializable
  from_serializable-to_serializable rs logs items =
      let (l, there_l, back_l) = logs_back 0 rs.completed_work_logs logs in
      let (i, there_i, back_i) = items_back 0 rs.next_work_items items in
      ground (arith, there_l, back_l, there_i, back_i)

  serialize_logs-err :
      (i : ℕ) (good : List (WorkLog T R)) (bad : WorkLog T R) (rest : List (WorkLog T R))
      → All (λ log. Named log.activity_type) good
      → resolver.get_name bad.activity_type ≡ none
      → serialize_logs resolver i (good ++ bad ∷ rest) ≡ err (work_log (i + length good))
  unfolding serialize_logs
  serialize_logs-err i [] bad rest h e = ground arith
  serialize_logs-err i (log ∷ good) bad rest h e =
      let (name, named, _, _) = h.0 in
      ground (arith, named, serialize_logs-err (suc i) good bad rest h.1 e)

  -- If all logs before a log are of types that have names leading back to them, and the type of
  -- that log has no name, serializing the slip fails with the index of that log.
  pub to_serializable-err :
      (rs : RoutingSlip T A R) (good : List (WorkLog T R)) (bad : WorkLog T R)
      (rest : List (WorkLog T R))
      → rs.completed_work_logs ≡ good ++ bad ∷ rest
      → All (λ log. Named log.activity_type) good
      → resolver.get_name bad.activity_type ≡ none
      → to_serializable acts resolver rs ≡ err (work_log (length good))
  unfolding to_serializable
  to_serializable-err rs good bad rest split named nameless =
      ground (arith, serialize_logs-err 0 good bad rest named nameless)

abbrev pub resolver_of :
    {T : Type 0} → TypeNames T → MapBasedResolver T → ActivityTypeResolver T Name
resolver_of names r = record { resolve = Resolver.resolve names r; get_name = get_name names r }

-- If two activity types without a TypeName are registered, an item of the first comes back from
-- serialization, without an error, as an item of the one registered last.
pub unnamed_confused :
    {T A R W : Type 0} (acts : Activities T A R W) (names : TypeNames T) (r : MapBasedResolver T)
    (name later : Name) (t u : T) (arguments : A)
    → names t ≡ none
    → names u ≡ none
    → let resolver = resolver_of names (register names (register names r name t) later u) in
      (to_serializable acts resolver (new_routing_slip (new_work_item t arguments ∷ []))
        >>= from_serializable acts resolver)
      ≡ ok (new_routing_slip (new_work_item u arguments ∷ []))
unfolding to_serializable from_serializable serialize_items restore_items serialize_logs
    restore_logs new_routing_slip new_work_item
unnamed_confused acts names r name later t u arguments ht hu =
    let (named, back) = register_unnamed names r name later t u ht hu in ground (arith, named, back)
