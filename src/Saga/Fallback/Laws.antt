-- ===== src/Saga/Fallback/Laws.antt =====
-- The alternatives of a fallback activity (fallback_activity.go) before and after it.
use ascetic_ddd_go.Base.{
  ◌≡◌, refl, List, [], ◌∷◌, Option, none, some, Bool, true, false, length, arith,
}
use ascetic_ddd_go.Saga.{
  RoutingSlip, WorkLog, WorkOutcome, done, nothing, failed, Error, Answer, Activities,
}
use ascetic_ddd_go.Saga.Composite.{CompositeType, new_fallback_activity}
use ascetic_ddd_go.Saga.Rollback.{Shrinks, Reliable, undo_all_reliable}
use ascetic_ddd_go.Saga.Attempt.{IsAtomic, execute_total}
use ascetic_ddd_go.Saga.Fallback.{execute_alternative, do_work, compensate}
use native.Mathlib.Nat.{le_refl}

abbrev pub Outcome : Type 0 → Type 0 → Type 0 → Type 0
Outcome T A R = WorkOutcome CompositeType (RoutingSlip T A R)

module _ {T A R W : Type 0} (acts : Activities T A R W) where
  -- From the alternatives and the world, the outcome, the alternatives as they are left and the
  -- world. Each alternative that is reached runs to its end; it is skipped when that is (false,
  -- nil), and then only.
  pub data Tried
      : List (RoutingSlip T A R) → W → Outcome T A R → List (RoutingSlip T A R) → W → Type 0 where
    exhausted : {w : W} → Tried [] w nothing [] w
    first :
        {rs rs' : RoutingSlip T A R} {rest : List (RoutingSlip T A R)} {w w' : W}
        → execute_alternative acts rs w ≡ some ((true, none), rs', w')
        → rs'.next_work_items ≡ []
        → Tried
            (rs ∷ rest)
            w
            (done (record { activity_type = new_fallback_activity; result = rs' }))
            (rs' ∷ rest)
            w'
    skip :
        {rs rs' : RoutingSlip T A R} {rest rest' : List (RoutingSlip T A R)} {o : Outcome T A R}
        {w w' w'' : W}
        → execute_alternative acts rs w ≡ some ((false, none), rs', w')
        → rs'.completed_work_logs ≡ []
        → Tried rest w' o rest' w''
        → Tried (rs ∷ rest) w o (rs' ∷ rest') w''
    stuck :
        {rs rs' : RoutingSlip T A R} {rest : List (RoutingSlip T A R)} {success : Bool} {e : Error}
        {w w' : W}
        → execute_alternative acts rs w ≡ some ((success, some e), rs', w')
        → Tried (rs ∷ rest) w (failed e) (rs' ∷ rest) w'

module _ {T A R W : Type 0} (acts : Activities T A R W) (shrinks : Shrinks acts) where
  execute_alternative_total :
      (rs : RoutingSlip T A R) (w : W)
      → (r : Answer × RoutingSlip T A R × W) × (execute_alternative acts rs w ≡ some r)
        × IsAtomic acts r
  unfolding execute_alternative
  execute_alternative_total rs w =
      execute_total acts _ _ rs rs.next_work_items w shrinks refl (le_refl _) (le_refl _)

  abbrev Runs : List (RoutingSlip T A R) → W → Type 0
  Runs alternatives w =
      (o : Outcome T A R) × (after : List (RoutingSlip T A R)) × (w' : W) × (do_work acts
          alternatives w
        ≡ some (o, after, w'))
      × Tried acts alternatives w o after w'

  tried :
      (rs : RoutingSlip T A R) (rest : List (RoutingSlip T A R)) (w : W) (success : Bool)
      (err : Option Error) (rs' : RoutingSlip T A R) (w' : W)
      → execute_alternative acts rs w ≡ some ((success, err), rs', w')
      → IsAtomic acts ((success, err), rs', w')
      → Runs rest w'
      → Runs (rs ∷ rest) w
  unfolding do_work
  tried rs rest w true none rs' w' runs atomic rec = (
    done (record { activity_type = new_fallback_activity; result = rs' }),
    rs' ∷ rest,
    w',
    ground arith,
    first runs atomic,
  )
  tried rs rest w false none rs' w' runs atomic (o, rest', w'', more, t) =
      (o, rs' ∷ rest', w'', ground arith, skip runs atomic t)
  tried rs rest w success (some e) rs' w' runs atomic rec =
      (failed e, rs' ∷ rest, w', ground arith, stuck runs)

  -- If no compensation adds a log to a slip, DoWork of a fallback activity ends, and goes through
  -- the alternatives in their order, each in the world that the one before left, as the relation
  -- Tried says: one whose run ends with false and no error has no log left and the next is tried;
  -- the first whose run ends with true has no item left and is the result; the first whose run
  -- ends with an error ends it with that error; the alternatives after that one are as they were,
  -- and nil means that all were tried.
  pub do_work-Tried : (alternatives : List (RoutingSlip T A R)) (w : W) → Runs alternatives w
  unfolding do_work
  do_work-Tried [] w = (nothing, [], w, refl, exhausted)
  do_work-Tried (rs ∷ rest) w =
      let (((success, err), rs', w'), runs, atomic) = execute_alternative_total rs w in
      tried rs rest w success err rs' w' runs atomic (do_work-Tried rest w')

  -- If no compensation adds a log to a slip or returns an error, Compensate of a fallback activity
  -- ends with true and no error, and no log of the alternative is left.
  pub compensate-undone :
      (work_log : WorkLog CompositeType (RoutingSlip T A R)) (w : W)
      → Reliable acts
      → (rs : RoutingSlip T A R) × (w' : W) × (compensate acts work_log w
          ≡ some ((true, none), rs, w'))
        × (rs.completed_work_logs ≡ [])
  unfolding compensate
  compensate-undone work_log w reliable =
      let (rs, w', runs, undone) =
        undo_all_reliable acts (length work_log.result.completed_work_logs) work_log.result w
          shrinks reliable (le_refl _) in
      (rs, w', rw (runs, compensate), undone)
