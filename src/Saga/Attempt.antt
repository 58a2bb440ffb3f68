-- ===== src/Saga/Attempt.antt =====
-- The forward loop of fallback_activity.go with its compensation loop, beside a description
-- without loops.
use ascetic_ddd_go.Base.{
  ℕ, zero, suc, ◌+◌, ◌≤◌, ◌≡◌, refl, sym, ap, ◌∙◌, List, [], ◌∷◌, ◌++◌, reverse-cons, Option, none,
  some, Bool, true, false, length, length-snoc, Option-cases, inl, inr, arith,
}
use ascetic_ddd_go.Saga.{
  RoutingSlip, WorkLog, WorkItem, WorkOutcome, done, nothing, failed, Error, Answer, Activities,
  is_completed, process_next,
}
use ascetic_ddd_go.Saga.Execution.{execute, give_up}
use ascetic_ddd_go.Saga.Rollback.{
  Shrinks, Plain, IsUndone, undo_all_total, rollback, slip_of, undo_all-rollback,
}

abbrev pub log_of : {T R : Type 0} → WorkOutcome T R → Option (WorkLog T R)
log_of (done log) = some log
log_of nothing = none
log_of (failed _) = none

module _ {T A R W : Type 0} (acts : Activities T A R W) where
  -- All the work done, or all of it undone, unless a compensation returned an error.
  abbrev pub IsAtomic : Answer × RoutingSlip T A R × W → Type 0
  IsAtomic ((true, _), rs, w) = rs.next_work_items ≡ []
  IsAtomic ((false, none), rs, w) = rs.completed_work_logs ≡ []
  IsAtomic ((false, some e), rs, w) = Unit

  module _ (rs : RoutingSlip T A R) (item : WorkItem T A) (rest : List (WorkItem T A)) (w : W)
      (head : rs.next_work_items ≡ item ∷ rest) where
    abbrev pub worked : WorkOutcome T R × W
    worked = acts.do_work item.activity_type item w

    -- One round of the loop, by what the activity returns.
    pub execute_done :
        (fuel undo_fuel : ℕ) (log : WorkLog T R)
        → log_of worked.0 ≡ some log
        → execute acts (suc fuel) undo_fuel rs w
          ≡ execute acts fuel undo_fuel
              (record {
                completed_work_logs = rs.completed_work_logs ++ log ∷ [];
                next_work_items = rest;
              })
              worked.1
    unfolding execute is_completed process_next
    execute_done fuel undo_fuel log e = ground arith

    pub execute_failed :
        (fuel undo_fuel : ℕ)
        → log_of worked.0 ≡ none
        → execute acts (suc fuel) undo_fuel rs w
          ≡ give_up acts undo_fuel
              (record { completed_work_logs = rs.completed_work_logs; next_work_items = rest })
              worked.1
    unfolding execute is_completed process_next
    execute_failed fuel undo_fuel h = ground arith

  give_up_total :
      (fuel : ℕ) (rs : RoutingSlip T A R) (w : W)
      → Shrinks acts
      → length rs.completed_work_logs ≤ fuel
      → (r : Answer × RoutingSlip T A R × W) × (give_up acts fuel rs w ≡ some r) × IsAtomic r
  unfolding give_up
  give_up_total fuel rs w shrinks h =
      let ((err, rs', w'), runs, undone) = undo_all_total acts fuel rs w shrinks h in
      (((false, err), rs', w'), rw (runs, give_up), IsAtomic_of_IsUndone err rs' w' undone)
    where
      IsAtomic_of_IsUndone :
          (err : Option Error) (rs : RoutingSlip T A R) (w : W)
          → IsUndone acts (err, rs, w)
          → IsAtomic ((false, err), rs, w)
      IsAtomic_of_IsUndone none rs w h = h
      IsAtomic_of_IsUndone (some e) rs w h = tt

  -- If no compensation adds a log to a slip, fuel for one round for each pending item and one
  -- compensation for each item and log is enough for the loops to end: on success no item is left,
  -- and on a failure without an error no log is.
  pub execute_total :
      (fuel undo_fuel : ℕ) (rs : RoutingSlip T A R) (next : List (WorkItem T A)) (w : W)
      → Shrinks acts
      → rs.next_work_items ≡ next
      → length next ≤ fuel
      → length next + length rs.completed_work_logs ≤ undo_fuel
      → (r : Answer × RoutingSlip T A R × W) × (execute acts fuel undo_fuel rs w ≡ some r)
        × IsAtomic r
  unfolding execute is_completed
  execute_total zero undo_fuel rs [] w shrinks e h k = (((true, none), rs, w), ground arith, e)
  execute_total (suc fuel) undo_fuel rs [] w shrinks e h k =
      (((true, none), rs, w), ground arith, e)
  execute_total zero undo_fuel rs (item ∷ rest) w shrinks e h k = absurd (omega arith)
  execute_total (suc fuel) undo_fuel rs (item ∷ rest) w shrinks e h k =
      elim (Option-cases (log_of (worked rs item rest w e).0)) [
        | inl bad ↦
            let (r, runs, atomic) =
              give_up_total undo_fuel
                (record { completed_work_logs = rs.completed_work_logs; next_work_items = rest })
                (worked rs item rest w e).1 shrinks (omega arith) in
            (r, execute_failed rs item rest w e fuel undo_fuel bad ∙ runs, atomic)
        | inr (log, good) ↦
            let (r, runs, atomic) =
              execute_total fuel undo_fuel
                (record {
                  completed_work_logs = rs.completed_work_logs ++ log ∷ [];
                  next_work_items = rest;
                })
                rest (worked rs item rest w e).1 shrinks refl (omega arith)
                (omega (arith, length-snoc {0} rs.completed_work_logs log)) in
            (r, execute_done rs item rest w e fuel undo_fuel log good ∙ runs, atomic)
      ]

  -- The work from the first item on, by recursion on the items: the logs are kept latest first.
  unfoldable pub attempt :
      List (WorkItem T A)
      → List (WorkLog T R)
      → W
      → Bool × List (WorkItem T A) × List (WorkLog T R) × W
  attempt [] logs w = (true, [], logs, w)
  attempt (item ∷ rest) logs w =
      let (outcome, w') = acts.do_work item.activity_type item w in
      elim (log_of outcome) [
        | some log ↦ attempt rest (log ∷ logs) w'
        | none ↦ (false, rest, logs, w')
      ]

  -- What follows the work: nothing, or the rollback of every log.
  unfoldable pub conclude :
      Bool × List (WorkItem T A) × List (WorkLog T R) × W → Answer × RoutingSlip T A R × W
  conclude (true, next, logs, w) = ((true, none), slip_of acts next logs, w)
  conclude (false, next, logs, w) =
      let (err, left, w') = rollback acts next logs w in ((false, err), slip_of acts next left, w')

  pub attempt_done :
      (item : WorkItem T A) (rest : List (WorkItem T A)) (logs : List (WorkLog T R)) (w : W)
      (log : WorkLog T R)
      → log_of (acts.do_work item.activity_type item w).0 ≡ some log
      → attempt (item ∷ rest) logs w
        ≡ attempt rest (log ∷ logs) (acts.do_work item.activity_type item w).1
  unfolding attempt
  attempt_done item rest logs w log h = ground arith

  pub attempt_failed :
      (item : WorkItem T A) (rest : List (WorkItem T A)) (logs : List (WorkLog T R)) (w : W)
      → log_of (acts.do_work item.activity_type item w).0 ≡ none
      → attempt (item ∷ rest) logs w
        ≡ (false, rest, logs, (acts.do_work item.activity_type item w).1)
  unfolding attempt
  attempt_failed item rest logs w h = ground arith

  give_up-conclude :
      (fuel : ℕ) (next : List (WorkItem T A)) (logs : List (WorkLog T R)) (w : W)
      → Plain acts
      → length logs ≤ fuel
      → give_up acts fuel (slip_of acts next logs) w ≡ some (conclude (false, next, logs, w))
  unfolding give_up conclude
  give_up-conclude fuel next logs w plain h =
      rw (undo_all-rollback acts fuel next logs w plain h, give_up) refl

  -- If compensations leave the routing slip alone, and the fuel allows one round for each pending
  -- item and one compensation for each item and log, then the loops that carry out a slip end as
  -- the description says: the items are done in order, and at the first that fails the logs are
  -- undone from the last to the first, until a compensation returns an error.
  pub execute-attempt :
      (fuel undo_fuel : ℕ) (next : List (WorkItem T A)) (logs : List (WorkLog T R)) (w : W)
      → Plain acts
      → length next ≤ fuel
      → length next + length logs ≤ undo_fuel
      → execute acts fuel undo_fuel (slip_of acts next logs) w
        ≡ some (conclude (attempt next logs w))
  unfolding execute is_completed attempt conclude
  execute-attempt zero undo_fuel [] logs w plain h k = refl
  execute-attempt (suc fuel) undo_fuel [] logs w plain h k = refl
  execute-attempt zero undo_fuel (item ∷ rest) logs w plain h k = absurd (omega arith)
  execute-attempt (suc fuel) undo_fuel (item ∷ rest) logs w plain h k =
      let rs = slip_of acts (item ∷ rest) logs in
      let w' = (worked rs item rest w refl).1 in
      elim (Option-cases (log_of (worked rs item rest w refl).0)) [
        | inl bad ↦
            execute_failed rs item rest w refl fuel undo_fuel bad
            ∙ give_up-conclude undo_fuel rest logs w' plain (omega arith)
            ∙ ap (λ x. some (conclude x)) (sym (attempt_failed item rest logs w bad))
        | inr (log, good) ↦
            execute_done rs item rest w refl fuel undo_fuel log good
            ∙ ap
                (λ l.
                  execute acts fuel undo_fuel
                    (record { completed_work_logs = l; next_work_items = rest }) w')
                (sym (reverse-cons log logs))
            ∙ execute-attempt fuel undo_fuel rest (log ∷ logs) w' plain (omega arith) (omega arith)
            ∙ ap (λ x. some (conclude x)) (sym (attempt_done item rest logs w log good))
      ]
