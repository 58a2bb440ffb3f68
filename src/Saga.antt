-- ===== src/Saga.antt =====
-- asceticddd/saga: work items, work logs and the routing slip (work_item.go, work_log.go,
-- activity.go, routing_slip.go). An activity type is a value of `T`, and `Activities` says what the
-- activities that the types create do. `W` is the state of the world that activities read and
-- change; a context is not modelled. A compensation is handed the slip and may change it.
use ascetic_ddd_go.Base.{
  ℕ, ◌≡◌, List, [], ◌∷◌, ◌++◌, Option, none, some, Bool, true, false, String, unsnoc, length, ◌≤◌,
}
pub mod Execution
pub mod Rollback
pub mod Attempt
pub mod Composite
pub mod Fallback
pub mod Parallel
pub mod Host
pub mod Resolver
pub mod Serialization
mod Tests

pub record WorkItem (T A : Type 0) : Type 0 where
  pub activity_type : T
  pub arguments : A

pub record WorkLog (T R : Type 0) : Type 0 where
  pub activity_type : T
  pub result : R

pub record RoutingSlip (T A R : Type 0) : Type 0 where
  pub completed_work_logs : List (WorkLog T R)
  pub next_work_items : List (WorkItem T A)

-- `ErrInvalidOperation`, and what an activity returns.
pub data Error : Type 0 where
  invalid_operation : Error
  activity_error : ℕ → Error

-- What `DoWork` returns: a log, nil, or an error.
pub data WorkOutcome (T R : Type 0) : Type 0 where
  done : WorkLog T R → WorkOutcome T R
  nothing : WorkOutcome T R
  failed : Error → WorkOutcome T R

-- What Go returns as `(bool, error)`.
abbrev pub Answer : Type 0
Answer = Bool × Option Error

-- The interface `Activity`, at each activity type.
pub record Activities (T A R W : Type 0) : Type 0 where
  pub do_work : T → WorkItem T A → W → WorkOutcome T R × W
  pub compensate : T → WorkLog T R → RoutingSlip T A R → W → Answer × RoutingSlip T A R × W
  pub work_item_queue_address : T → String
  pub compensation_queue_address : T → String
  pub activity_type : T → T

unfoldable pub new_work_item : {T A : Type 0} → T → A → WorkItem T A
new_work_item t arguments = record { activity_type = t; arguments = arguments }

-- The activity is the one that the type `t` creates.
unfoldable pub new_work_log : {T A R W : Type 0} → Activities T A R W → T → R → WorkLog T R
new_work_log acts t result = record { activity_type = acts.activity_type t; result = result }

unfoldable pub new_routing_slip : {T A R : Type 0} → List (WorkItem T A) → RoutingSlip T A R
new_routing_slip items = record { completed_work_logs = []; next_work_items = items }

module _ {T A R : Type 0} where
  unfoldable pub is_completed : RoutingSlip T A R → Bool
  is_completed rs = elim rs.next_work_items [ [] ↦ true | _ ∷ _ ↦ false ]

  unfoldable pub is_in_progress : RoutingSlip T A R → Bool
  is_in_progress rs = elim rs.completed_work_logs [ [] ↦ false | _ ∷ _ ↦ true ]

module _ {T A R W : Type 0} (acts : Activities T A R W) where
  unfoldable pub settle : RoutingSlip T A R → WorkOutcome T R → Answer × RoutingSlip T A R
  settle rs (failed e) = ((false, none), rs)
  settle rs (done log) =
      ((true, none), record rs { completed_work_logs = rs.completed_work_logs ++ log ∷ [] })
  settle rs nothing = ((false, none), rs)

  unfoldable pub process_next : RoutingSlip T A R → W → Answer × RoutingSlip T A R × W
  unfolding settle
  process_next rs w = elim rs.next_work_items [
    | [] ↦ ((false, some invalid_operation), rs, w)
    | item ∷ rest ↦
        let (outcome, w') = acts.do_work item.activity_type item w in
        let (answer, rs') = settle (record rs { next_work_items = rest }) outcome in
        (answer, rs', w')
  ]

  unfoldable pub undo_last : RoutingSlip T A R → W → Answer × RoutingSlip T A R × W
  undo_last rs w = elim (unsnoc rs.completed_work_logs) [
    | none ↦ ((false, some invalid_operation), rs, w)
    | some (rest, log) ↦
        acts.compensate log.activity_type log (record rs { completed_work_logs = rest }) w
  ]

  -- The empty address stands for "no next activity".
  unfoldable pub progress_uri : RoutingSlip T A R → String
  progress_uri rs = elim rs.next_work_items [
    | [] ↦ ""
    | item ∷ _ ↦ acts.work_item_queue_address item.activity_type
  ]

  unfoldable pub compensation_uri : RoutingSlip T A R → String
  compensation_uri rs = elim (unsnoc rs.completed_work_logs) [
    | none ↦ ""
    | some (_, log) ↦ acts.compensation_queue_address log.activity_type
  ]
