-- ===== src/Saga/Parallel/Runs.antt =====
-- What one branch of parallel_activity.go goes through from its start to its end, in the worlds
-- that the other branches leave to it.
use ascetic_ddd_go.Base.{
  ◌≡◌, refl, sym, ap, All, length, length-snoc, subst, List, [], ◌∷◌, ◌++◌, none, some, true, false,
  Option-cases, inl, inr, arith,
}
use ascetic_ddd_go.Saga.{
  RoutingSlip, WorkItem, WorkLog, WorkOutcome, done, nothing, failed, Error, Answer, Activities,
  is_completed, process_next,
}
use ascetic_ddd_go.Saga.Rollback.{undo_last_cases}
use ascetic_ddd_go.Saga.Parallel.{Branch, running, undoing, finished, step, compensate_step}
use ascetic_ddd_go.Saga.Parallel.Traces.{Trace, Walk, stay, move}

-- The outcomes of an item that is not done: nil and an error.
abbrev pub IsRefused : {T R : Type 0} → WorkOutcome T R → Type 0
IsRefused (done _) = ¬ Unit
IsRefused _ = Unit

-- Steps that leave the world as it is.
abbrev pub IsIdle : {W : Type 0} → Trace W → Type 0
IsIdle t = All (λ c. c.1 ≡ c.0) t

module _ {T A R W : Type 0} (acts : Activities T A R W) where
  -- The compensation of a log by its activity, which gets the slip without the log.
  abbrev pub compensated :
      RoutingSlip T A R → List (WorkLog T R) → WorkLog T R → W → Answer × RoutingSlip T A R × W
  compensated rs rest log w =
      acts.compensate log.activity_type log (record rs { completed_work_logs = rest }) w

  -- From a slip, the steps, the answer and the slip that is left: the logs are compensated from
  -- the last to the first, up to an error.
  pub data Undoing : RoutingSlip T A R → Trace W → Answer → RoutingSlip T A R → Type 0 where
    all_undone :
        {rs : RoutingSlip T A R} {t : Trace W}
        → rs.completed_work_logs ≡ []
        → IsIdle t
        → Undoing rs t (false, none) rs
    undo :
        {rs rs' : RoutingSlip T A R} {t : Trace W} {a : Answer} {rest : List (WorkLog T R)}
        {log : WorkLog T R} (w : W)
        → rs.completed_work_logs ≡ rest ++ log ∷ []
        → (compensated rs rest log w).0.1 ≡ none
        → Undoing (compensated rs rest log w).1 t a rs'
        → Undoing rs ((w, (compensated rs rest log w).2) ∷ t) a rs'
    stuck :
        {rs : RoutingSlip T A R} {t : Trace W} {rest : List (WorkLog T R)} {log : WorkLog T R}
        {err : Error} (w : W)
        → rs.completed_work_logs ≡ rest ++ log ∷ []
        → (compensated rs rest log w).0.1 ≡ some err
        → IsIdle t
        → Undoing rs
            ((w, (compensated rs rest log w).2) ∷ t)
            (false, some err)
            (compensated rs rest log w).1

  -- The items are worked off in their order, and the log of each is added, up to an item that is
  -- not done; then the logs are undone.
  pub data Working : RoutingSlip T A R → Trace W → Answer → RoutingSlip T A R → Type 0 where
    all_worked :
        {rs : RoutingSlip T A R} {t : Trace W}
        → rs.next_work_items ≡ []
        → IsIdle t
        → Working rs t (true, none) rs
    work :
        {rs rs' : RoutingSlip T A R} {t : Trace W} {a : Answer} {item : WorkItem T A}
        {rest : List (WorkItem T A)} {log : WorkLog T R} {w w' : W}
        → rs.next_work_items ≡ item ∷ rest
        → acts.do_work item.activity_type item w ≡ (done log, w')
        → Working
            (record {
              completed_work_logs = rs.completed_work_logs ++ log ∷ [];
              next_work_items = rest;
            })
            t
            a
            rs'
        → Working rs ((w, w') ∷ t) a rs'
    refused :
        {rs rs' : RoutingSlip T A R} {t : Trace W} {a : Answer} {item : WorkItem T A}
        {rest : List (WorkItem T A)} {o : WorkOutcome T R} {w w' : W}
        → rs.next_work_items ≡ item ∷ rest
        → acts.do_work item.activity_type item w ≡ (o, w')
        → IsRefused o
        → Undoing (record rs { next_work_items = rest }) t a rs'
        → Working rs ((w, w') ∷ t) a rs'

  -- The logs are compensated from the last to the first, errors or not.
  pub data Compensating : RoutingSlip T A R → Trace W → RoutingSlip T A R → Type 0 where
    all_compensated :
        {rs : RoutingSlip T A R} {t : Trace W}
        → rs.completed_work_logs ≡ []
        → IsIdle t
        → Compensating rs t rs
    compensate :
        {rs rs' : RoutingSlip T A R} {t : Trace W} {rest : List (WorkLog T R)} {log : WorkLog T R}
        (w : W)
        → rs.completed_work_logs ≡ rest ++ log ∷ []
        → Compensating (compensated rs rest log w).1 t rs'
        → Compensating rs ((w, (compensated rs rest log w).2) ∷ t) rs'

  -- Where a branch that has ended came from.
  abbrev pub Reached : Branch T A R → Trace W → Branch T A R → Type 0
  Reached (running rs) t (finished a rs') = Working rs t a rs'
  Reached (undoing rs) t (finished a rs') = Undoing rs t a rs'
  Reached (finished a₀ rs₀) t (finished a rs') = (a ≡ a₀) × (rs' ≡ rs₀) × IsIdle t
  Reached _ t _ = Unit

  running_back :
      (logs : List (WorkLog T R)) (next : List (WorkItem T A)) (w : W) (t : Trace W) (a : Answer)
      (rs' : RoutingSlip T A R)
      → let rs : RoutingSlip T A R = record {
        completed_work_logs = logs;
        next_work_items = next;
      } in
        Reached (step acts (running rs) w).0 t (finished a rs')
        → Working rs ((w, (step acts (running rs) w).1) ∷ t) a rs'
  unfolding step is_completed process_next
  running_back logs [] w t a rs' h = rw (h.0, h.1) (all_worked refl (refl, h.2))
  running_back logs (item ∷ rest) w t a rs' h =
      go (acts.do_work item.activity_type item w).0 (acts.do_work item.activity_type item w).1 refl
    where
      before : RoutingSlip T A R
      before = record { completed_work_logs = logs; next_work_items = item ∷ rest }

      after : List (WorkLog T R) → RoutingSlip T A R
      after l = record { completed_work_logs = l; next_work_items = rest }

      from :
          (x : Branch T A R × W)
          → step acts (running before) w ≡ x
          → (Reached x.0 t (finished a rs') → Working before ((w, x.1) ∷ t) a rs')
          → Working before ((w, (step acts (running before) w).1) ∷ t) a rs'
      from x moved k =
          subst (λ y. Working before ((w, y.1) ∷ t) a rs') (sym moved)
            (k (subst (λ y. Reached y.0 t (finished a rs')) moved h))

      go :
          (o : WorkOutcome T R) (w' : W)
          → acts.do_work item.activity_type item w ≡ (o, w')
          → Working before ((w, (step acts (running before) w).1) ∷ t) a rs'
      go (done log) w' e =
          from (running (after (logs ++ log ∷ [])), w') (ground arith) (work refl e)
      go nothing w' e = from (undoing (after logs), w') (ground arith) (refused refl e tt)
      go (failed x) w' e = from (undoing (after logs), w') (ground arith) (refused refl e tt)

  undoing_back :
      (rs : RoutingSlip T A R) (w : W) (t : Trace W) (a : Answer) (rs' : RoutingSlip T A R)
      → Reached (step acts (undoing rs) w).0 t (finished a rs')
      → Undoing rs ((w, (step acts (undoing rs) w).1) ∷ t) a rs'
  unfolding step
  undoing_back rs w t a rs' h = elim (undo_last_cases acts rs w) [
    | inl (empty, idle) ↦
        from (finished (false, none) rs, w) (ground arith)
          (λ k. rw (k.0, k.1) (all_undone empty (refl, k.2)))
    | inr (rest, log, split, busy, e) ↦ elim (Option-cases (compensated rs rest log w).0.1) [
      | inl fine ↦
          from (undoing (compensated rs rest log w).1, (compensated rs rest log w).2) (ground arith)
            (undo w split fine)
      | inr (err, bad) ↦
          from
            (
              finished (false, some err) (compensated rs rest log w).1,
              (compensated rs rest log w).2,
            )
            (ground arith) (λ k. rw (k.0, k.1) (stuck w split bad k.2))
    ]
  ]
    where
      from :
          (x : Branch T A R × W)
          → step acts (undoing rs) w ≡ x
          → (Reached x.0 t (finished a rs') → Undoing rs ((w, x.1) ∷ t) a rs')
          → Undoing rs ((w, (step acts (undoing rs) w).1) ∷ t) a rs'
      from x moved k =
          subst (λ y. Undoing rs ((w, y.1) ∷ t) a rs') (sym moved)
            (k (subst (λ y. Reached y.0 t (finished a rs')) moved h))

  step_back :
      (b : Branch T A R) (w : W) (t : Trace W) (b' : Branch T A R)
      → Reached (step acts b w).0 t b'
      → Reached b ((w, (step acts b w).1) ∷ t) b'
  unfolding step
  step_back (running rs) w t (finished a rs') h =
      running_back rs.completed_work_logs rs.next_work_items w t a rs' h
  step_back (undoing rs) w t (finished a rs') h = undoing_back rs w t a rs' h
  step_back (finished a₀ rs₀) w t (finished a rs') h = (h.0, h.1, (refl, h.2))
  step_back (running rs) w t (running rs') h = tt
  step_back (running rs) w t (undoing rs') h = tt
  step_back (undoing rs) w t (running rs') h = tt
  step_back (undoing rs) w t (undoing rs') h = tt
  step_back (finished a₀ rs₀) w t (running rs') h = tt
  step_back (finished a₀ rs₀) w t (undoing rs') h = tt

  -- A branch that has ended has worked off its slip, or has been refused and undone it.
  pub Walk-Reached : {t : Trace W} {b b' : Branch T A R} → Walk (step acts) b t b' → Reached b t b'
  Walk-Reached (stay {b = running rs}) = tt
  Walk-Reached (stay {b = undoing rs}) = tt
  Walk-Reached (stay {b = finished a rs}) = (refl, refl, tt)
  Walk-Reached (move {b} {b'} {t} w walk) = step_back b w t b' (Walk-Reached walk)

  Compensating-idle :
      {rs rs' : RoutingSlip T A R} {t : Trace W} (w : W)
      → Compensating rs t rs'
      → rs.completed_work_logs ≡ []
      → Compensating rs ((w, w) ∷ t) rs'
  Compensating-idle w (all_compensated h idle) empty = all_compensated h (refl, idle)
  Compensating-idle w (compensate {rest} {log} w' split k) empty =
      absurd (omega (arith, ap length empty, ap length split, length-snoc {0} rest log))

  -- A compensation with nothing left has gone through all logs.
  pub Walk-Compensating :
      {t : Trace W} {rs rs' : RoutingSlip T A R}
      → Walk (compensate_step acts) rs t rs'
      → rs'.completed_work_logs ≡ []
      → Compensating rs t rs'
  unfolding compensate_step
  Walk-Compensating stay h = all_compensated h tt
  Walk-Compensating (move {b = rs} {b' = rs'} {t} w walk) h =
      let next = Walk-Compensating walk h in
      elim (undo_last_cases acts rs w) [
        | inl (empty, idle) ↦
            let moved : compensate_step acts rs w ≡ (rs, w) = ground arith in
            subst (λ x. Compensating rs ((w, x.1) ∷ t) rs') (sym moved)
              (Compensating-idle w (subst (λ x. Compensating x.0 t rs') moved next) empty)
        | inr (rest, log, split, busy, e) ↦
            let moved : compensate_step acts rs w
                ≡ ((compensated rs rest log w).1, (compensated rs rest log w).2) =
              ground arith in
            subst (λ x. Compensating rs ((w, x.1) ∷ t) rs') (sym moved)
              (compensate w split (subst (λ x. Compensating x.0 t rs') moved next))
      ]
