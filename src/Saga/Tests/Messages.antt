-- ===== src/Saga/Tests/Messages.antt =====
-- The sample saga as messages between hosts, and its slips on the wire.
use text.Mathlib.TextEquality.{eq_iff}
use ascetic_ddd_go.Base.{
  ℕ, ◌≡◌, ◌≢◌, refl, List, [], ◌∷◌, Option, some, none, arith, ℕ_discrete, inl, inr, sym, ◌∙◌,
}
use ascetic_ddd_go.Base.Assoc.{lookup, insert}
use ascetic_ddd_go.Saga.{RoutingSlip, new_routing_slip, new_work_item}
use ascetic_ddd_go.Saga.Rollback.{slip_of}
use ascetic_ddd_go.Saga.Attempt.{attempt, conclude}
use ascetic_ddd_go.Saga.Host.{drive}
use ascetic_ddd_go.Saga.Host.Delivery.{Among, Routable, Willing, forward, final, drive-conclude}
use ascetic_ddd_go.Saga.Resolver.{
  Name, TypeNames, MapBasedResolver, new_map_based_resolver, register, get_name,
}
use ascetic_ddd_go.Saga.Resolver.{get_activity_type_pointer, hash_name}
use ascetic_ddd_go.Saga.Resolver.Laws.{Known, register-Known, register-Known_other}
use ascetic_ddd_go.Saga.Serialization.{work_log, ok, err, ◌>>=◌, to_serializable, from_serializable}
use ascetic_ddd_go.Saga.Serialization.Laws.{
  Named, from_serializable-to_serializable, to_serializable-err, resolver_of, unnamed_confused,
}
use ascetic_ddd_go.Saga.Tests.{
  Kind, hotel, car, flight, travel, failing, item, log, work_address, compensation_address,
}

abbrev hosts : List Kind
hosts = hotel ∷ car ∷ flight ∷ []

hosted : (t : Kind) → Among t hosts
hosted hotel = inl refl
hosted car = inr (inl refl)
hosted flight = inr (inr (inl refl))

work_named : (t : Kind) → work_address t ≢ ""
work_named hotel = ground (arith, eq_iff (work_address hotel) "")
work_named car = ground (arith, eq_iff (work_address car) "")
work_named flight = ground (arith, eq_iff (work_address flight) "")

compensation_named : (t : Kind) → compensation_address t ≢ ""
compensation_named hotel = ground (arith, eq_iff (compensation_address hotel) "")
compensation_named car = ground (arith, eq_iff (compensation_address car) "")
compensation_named flight = ground (arith, eq_iff (compensation_address flight) "")

apart : (t u : Kind) → compensation_address t ≢ work_address u
apart hotel hotel = ground (arith, eq_iff (compensation_address hotel) (work_address hotel))
apart hotel car = ground (arith, eq_iff (compensation_address hotel) (work_address car))
apart hotel flight = ground (arith, eq_iff (compensation_address hotel) (work_address flight))
apart car hotel = ground (arith, eq_iff (compensation_address car) (work_address hotel))
apart car car = ground (arith, eq_iff (compensation_address car) (work_address car))
apart car flight = ground (arith, eq_iff (compensation_address car) (work_address flight))
apart flight hotel = ground (arith, eq_iff (compensation_address flight) (work_address hotel))
apart flight car = ground (arith, eq_iff (compensation_address flight) (work_address car))
apart flight flight = ground (arith, eq_iff (compensation_address flight) (work_address flight))

routes : Routable travel hosts
routes = record { work_named = work_named; compensation_named = compensation_named; apart = apart }

willing : Willing travel hosts
willing t l rs w = (refl, refl)

drive-conclude_example :
    drive travel hosts 8
      (forward travel hosts routes (slip_of travel failing []))
      (slip_of travel failing [])
      []
    ≡ final travel hosts routes willing (conclude travel (attempt travel failing [] []))
drive-conclude_example =
    drive-conclude travel hosts routes willing 8 failing [] []
      (λ item w l h. hosted l.activity_type)
      (hosted hotel, (hosted car, (hosted flight, (hosted hotel, tt)))) tt (omega arith)

-- The car and the flight have type names; the hotel has none.
abbrev names : TypeNames Kind
names hotel = none
names car = some (99 ∷ [])
names flight = some (102 ∷ [])

abbrev known : MapBasedResolver Kind
known = register names (register names new_map_based_resolver (99 ∷ []) car) (102 ∷ []) flight

-- Only the flight has a type name.
abbrev few_names : TypeNames Kind
few_names hotel = none
few_names car = none
few_names flight = some (102 ∷ [])

car-Known : Known names (register names new_map_based_resolver (99 ∷ []) car) car
car-Known = register-Known names new_map_based_resolver (99 ∷ []) car refl

name_of-car :
    get_name names (register names new_map_based_resolver (99 ∷ []) car) car ≡ some (99 ∷ [])
unfolding register get_name new_map_based_resolver get_activity_type_pointer hash_name lookup insert
    ℕ_discrete
name_of-car = refl

pointers-apart : get_activity_type_pointer names flight ≢ get_activity_type_pointer names car
unfolding get_activity_type_pointer hash_name
pointers-apart = ground arith

names-apart : ◌≢◌ {A = Option Name} (some (99 ∷ [])) (some (102 ∷ []))
names-apart = ground arith

register-Known_other_example : Known names known car
register-Known_other_example =
    register-Known_other names (register names new_map_based_resolver (99 ∷ []) car) (102 ∷ [])
      flight car refl car-Known pointers-apart (λ e. names-apart (sym name_of-car ∙ e))

flight-Known : Known names known flight
flight-Known =
    register-Known names (register names new_map_based_resolver (99 ∷ []) car) (102 ∷ []) flight
      refl

car-Named : Named travel (resolver_of names known) car
car-Named = let (name, named, back) = register-Known_other_example in (name, named, back, refl)

flight-Named : Named travel (resolver_of names known) flight
flight-Named = let (name, named, back) = flight-Known in (name, named, back, refl)

-- A trip whose car is booked and whose flights are still to book.
abbrev under_way : RoutingSlip Kind ℕ ℕ
under_way = record {
  completed_work_logs = log car 1 ∷ [];
  next_work_items = item flight 2 ∷ item car 3 ∷ [];
}

from_serializable-to_serializable_example :
    (to_serializable travel (resolver_of names known) under_way
      >>= from_serializable travel (resolver_of names known))
    ≡ ok under_way
from_serializable-to_serializable_example =
    from_serializable-to_serializable travel (resolver_of names known) under_way (car-Named, tt)
      (flight-Named, (car-Named, tt))

abbrev stays : RoutingSlip Kind ℕ ℕ
stays = record {
  completed_work_logs = log flight 1 ∷ log hotel 2 ∷ log car 3 ∷ [];
  next_work_items = [];
}

hotel-nameless : (resolver_of names known).get_name hotel ≡ none
unfolding register get_name new_map_based_resolver get_activity_type_pointer hash_name lookup insert
    ℕ_discrete
hotel-nameless = refl

to_serializable-err_example :
    to_serializable travel (resolver_of names known) stays ≡ err (work_log 1)
to_serializable-err_example =
    to_serializable-err travel (resolver_of names known) stays (log flight 1 ∷ []) (log hotel 2)
      (log car 3 ∷ []) refl (flight-Named, tt) hotel-nameless

unnamed_confused_example :
    let resolver = resolver_of few_names (
      register few_names
        (register few_names new_map_based_resolver (104 ∷ []) hotel)
        (99 ∷ [])
        car) in
    (to_serializable travel resolver (new_routing_slip (new_work_item hotel 5 ∷ []))
      >>= from_serializable travel resolver)
    ≡ ok (new_routing_slip (new_work_item car 5 ∷ []))
unnamed_confused_example =
    unnamed_confused travel few_names new_map_based_resolver (104 ∷ []) (99 ∷ []) hotel car 5 refl
      refl
