-- ===== src/Saga/Fallback.antt =====
-- asceticddd/saga/fallback_activity.go: alternatives are tried in order until one succeeds. `none`
-- stands for a loop that took more rounds than the slip had items and logs.
pub mod Laws
use ascetic_ddd_go.Base.{
  ℕ, zero, suc, ◌+◌, List, [], ◌∷◌, Option, none, some, Bool, true, false, String, length, map,
}
use ascetic_ddd_go.Saga.{
  RoutingSlip, WorkLog, WorkOutcome, done, nothing, failed, Error, Answer, Activities, is_completed,
  is_in_progress, process_next, undo_last,
}
use ascetic_ddd_go.Saga.Execution.{undo_all, execute}
use ascetic_ddd_go.Saga.Composite.{CompositeType, new_fallback_activity}

module _ {T A R W : Type 0} (acts : Activities T A R W) where
  -- `executeAlternative`, with a round for each item and a compensation for each item and log.
  unfoldable pub execute_alternative :
      RoutingSlip T A R → W → Option (Answer × RoutingSlip T A R × W)
  execute_alternative rs w =
      execute acts (length rs.next_work_items)
        (length rs.next_work_items + length rs.completed_work_logs) rs w

  unfoldable pub do_work :
      List (RoutingSlip T A R)
      → W
      → Option (WorkOutcome CompositeType (RoutingSlip T A R) × List (RoutingSlip T A R) × W)
  do_work [] w = some (nothing, [], w)
  do_work (alternative ∷ rest) w = elim (execute_alternative alternative w) [
    | none ↦ none
    | some ((success, err), alternative', w') ↦ elim err [
      | some e ↦ some (failed e, alternative' ∷ rest, w')
      | none ↦ elim success [
        | true ↦ some (
          done (record { activity_type = new_fallback_activity; result = alternative' }),
          alternative' ∷ rest,
          w',
        )
        | false ↦ elim (do_work rest w') [
          | none ↦ none
          | some (outcome, rest', w'') ↦ some (outcome, alternative' ∷ rest', w'')
        ]
      ]
    ]
  ]

  unfoldable pub compensate :
      WorkLog CompositeType (RoutingSlip T A R) → W → Option (Answer × RoutingSlip T A R × W)
  compensate work_log w =
      let succeeded = work_log.result in
      elim (undo_all acts (length succeeded.completed_work_logs) succeeded w) [
        | none ↦ none
        | some (err, rs, w') ↦ elim err [
          | none ↦ some ((true, none), rs, w')
          | some e ↦ some ((false, some e), rs, w')
        ]
      ]
