-- ===== src/Saga/Tests.antt =====
-- A travel saga, as in asceticddd/saga/examples: its runs, and each property of the saga at it.
mod Composites
mod Messages
use Prim.Native.String.{String}
use text.Mathlib.TextEquality.{eq_iff}
use ascetic_ddd_go.Base.{
  ℕ, ◌+◌, ◌≤◌, ◌≡◌, ◌≢◌, refl, List, [], ◌∷◌, Option, none, some, Bool, true, false, if◌then◌else◌,
  ◌==◌, arith, All, length, ℕ_discrete, inl, inr, zero, suc, get_elem?,
}
use ascetic_ddd_go.Base.Assoc.{lookup, insert}
use ascetic_ddd_go.Saga.{
  RoutingSlip, WorkItem, WorkLog, WorkOutcome, done, nothing, failed, Error, activity_error, Answer,
  Activities, new_routing_slip, new_work_item, process_next, settle, undo_last, is_completed,
  is_in_progress,
}
use ascetic_ddd_go.Saga.Composite.{CompositeType, new_fallback_activity}
use ascetic_ddd_go.Saga.Execution.{undo_all, execute, give_up}
use ascetic_ddd_go.Saga.Rollback.{
  Shrinks, Plain, Reliable, IsUndone, undo_all_total, rollback, slip_of, result, undo_all-rollback,
}
use ascetic_ddd_go.Saga.Attempt.{IsAtomic, execute_total, attempt, conclude, execute-attempt}

pub data Kind : Type 0 where
  hotel car flight : Kind

-- The world is the trace of what was done and undone, latest first.
pub data Event : Type 0 where
  reserved cancelled : Kind → ℕ → Event

-- A reservation for 0 persons is turned down, one for more than 9 is an error.
abbrev reserve : Kind → WorkItem Kind ℕ → List Event → WorkOutcome Kind ℕ × List Event
reserve t item w =
    if item.arguments == 0
    then (nothing, w)
    else if item.arguments == 10
    then (failed (activity_error 10), w)
    else (
      done (record { activity_type = t; result = item.arguments }),
      reserved t item.arguments ∷ w,
    )

abbrev work_address : Kind → String
work_address hotel = "sb://./hotelReservations"
work_address car = "sb://./carReservations"
work_address flight = "sb://./flightReservations"

abbrev compensation_address : Kind → String
compensation_address hotel = "sb://./hotelCancellations"
compensation_address car = "sb://./carCancellations"
compensation_address flight = "sb://./flightCancellations"

abbrev pub travel : Activities Kind ℕ ℕ (List Event)
travel = record {
  do_work = reserve;
  compensate = λ t log rs w. ((true, none), rs, cancelled t log.result ∷ w);
  work_item_queue_address = work_address;
  compensation_queue_address = compensation_address;
  activity_type = λ t. t;
}

abbrev item : Kind → ℕ → WorkItem Kind ℕ
item t n = record { activity_type = t; arguments = n }

abbrev log : Kind → ℕ → WorkLog Kind ℕ
log t n = record { activity_type = t; result = n }

abbrev trip : List (WorkItem Kind ℕ)
trip = item hotel 2 ∷ item car 3 ∷ []

-- The flight is turned down.
abbrev failing : List (WorkItem Kind ℕ)
failing = item hotel 2 ∷ item car 3 ∷ item flight 0 ∷ item hotel 1 ∷ []

program : Unit {0}
unfolding execute give_up undo_all process_next settle undo_last is_completed is_in_progress attempt
    conclude rollback
program = tt

-- What was reserved is cancelled in reverse order.
execute-failing :
    execute travel 4 4 (slip_of travel failing []) []
    ≡ some (
      (false, none),
      slip_of travel (item hotel 1 ∷ []) [],
      cancelled hotel 2 ∷ cancelled car 3 ∷ reserved car 3 ∷ reserved hotel 2 ∷ [],
    )
unfolding program
execute-failing = refl

travel-Shrinks : Shrinks travel
travel-Shrinks t l rs w = omega arith

travel-Plain : Plain travel
travel-Plain t l rs w = refl

travel-Reliable : Reliable travel
travel-Reliable t l rs w = refl

abbrev two_logs : List (WorkLog Kind ℕ)
two_logs = log car 3 ∷ log hotel 2 ∷ []

undo_all_total_example :
    (r : Option Error × RoutingSlip Kind ℕ ℕ × List Event) × (undo_all travel 2
        (slip_of travel [] two_logs)
        []
      ≡ some r)
    × IsUndone travel r
undo_all_total_example =
    undo_all_total travel 2 (slip_of travel [] two_logs) [] travel-Shrinks (omega arith)

undo_all-rollback_example :
    undo_all travel 2 (slip_of travel [] two_logs) []
    ≡ result travel [] (rollback travel [] two_logs [])
undo_all-rollback_example = undo_all-rollback travel 2 [] two_logs [] travel-Plain (omega arith)

execute_total_example :
    (r : Answer × RoutingSlip Kind ℕ ℕ × List Event) × (execute travel 4 4
        (slip_of travel failing [])
        []
      ≡ some r)
    × IsAtomic travel r
execute_total_example =
    execute_total travel 4 4 (slip_of travel failing []) failing [] travel-Shrinks refl
      (omega arith) (omega arith)

execute-attempt_example :
    execute travel 4 4 (slip_of travel failing []) []
    ≡ some (conclude travel (attempt travel failing [] []))
execute-attempt_example =
    execute-attempt travel 4 4 failing [] [] travel-Plain (omega arith) (omega arith)
