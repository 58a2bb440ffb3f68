-- ===== src/Saga/Rollback.antt =====
-- The compensation loops of asceticddd/saga, beside a description without loops.
use ascetic_ddd_go.Base.{
  ℕ, zero, suc, ◌≤◌, ◌≡◌, refl, sym, ap, ap₂, ◌∙◌, ◌⊎◌, List, [], ◌∷◌, ◌++◌, reverse, reverse-cons,
  Option, none, some, true, false, unsnoc, unsnoc-snoc, unsnoc-eq-none, unsnoc-eq-some, length,
  length-snoc, Option-cases, inl, inr, arith,
}
use ascetic_ddd_go.Saga.{
  RoutingSlip, WorkLog, WorkItem, Error, Answer, Activities, is_in_progress, undo_last,
}
use ascetic_ddd_go.Saga.Execution.{undo_all}

module _ {T A R W : Type 0} (acts : Activities T A R W) where
  -- No compensation adds a completed work log to the slip.
  abbrev pub Shrinks : Type 0
  Shrinks =
      (t : T) (log : WorkLog T R) (rs : RoutingSlip T A R) (w : W)
      → length (acts.compensate t log rs w).1.completed_work_logs ≤ length rs.completed_work_logs

  -- Compensations leave the slip alone.
  abbrev pub Plain : Type 0
  Plain =
      (t : T) (log : WorkLog T R) (rs : RoutingSlip T A R) (w : W)
      → (acts.compensate t log rs w).1 ≡ rs

  -- No compensation returns an error.
  abbrev pub Reliable : Type 0
  Reliable =
      (t : T) (log : WorkLog T R) (rs : RoutingSlip T A R) (w : W)
      → (acts.compensate t log rs w).0.1 ≡ none

  -- A slip has nothing to undo, or a last log, which `undo_last` hands to its activity.
  pub undo_last_cases :
      (rs : RoutingSlip T A R) (w : W)
      → ((rs.completed_work_logs ≡ []) × (is_in_progress rs ≡ false))
        ⊎ ((rest : List (WorkLog T R)) × (log : WorkLog T R) × (rs.completed_work_logs
              ≡ rest ++ log ∷ [])
            × (is_in_progress rs ≡ true)
            × (undo_last acts rs w
                ≡ acts.compensate log.activity_type log
                    (record rs { completed_work_logs = rest })
                    w))
  unfolding undo_last is_in_progress
  undo_last_cases rs w = go (unsnoc rs.completed_work_logs) refl
    where
      go :
          (o : Option (List (WorkLog T R) × WorkLog T R))
          → unsnoc rs.completed_work_logs ≡ o
          → ((rs.completed_work_logs ≡ []) × (is_in_progress rs ≡ false))
            ⊎ ((rest : List (WorkLog T R)) × (log : WorkLog T R) × (rs.completed_work_logs
                  ≡ rest ++ log ∷ [])
                × (is_in_progress rs ≡ true)
                × (undo_last acts rs w
                    ≡ acts.compensate log.activity_type log
                        (record rs { completed_work_logs = rest })
                        w))
      go none e = let empty = unsnoc-eq-none rs.completed_work_logs e in inl (empty, ground arith)
      go (some (rest, log)) e = inr (
        rest,
        log,
        unsnoc-eq-some rs.completed_work_logs rest log e,
        ground arith,
        rw (e, undo_last),
      )

  -- The result of the loop: an error, or a slip with nothing left to undo.
  abbrev pub IsUndone : Option Error × RoutingSlip T A R × W → Type 0
  IsUndone (none, rs, w) = rs.completed_work_logs ≡ []
  IsUndone (some e, rs, w) = Unit

  pub undo_all_stop :
      (fuel : ℕ) (rs : RoutingSlip T A R) (w : W)
      → is_in_progress rs ≡ false
      → undo_all acts fuel rs w ≡ some (none, rs, w)
  unfolding undo_all
  undo_all_stop zero rs w h = ground arith
  undo_all_stop (suc fuel) rs w h = ground arith

  pub undo_all_step :
      (fuel : ℕ) (rs : RoutingSlip T A R) (w : W)
      → is_in_progress rs ≡ true
      → (undo_last acts rs w).0.1 ≡ none
      → undo_all acts (suc fuel) rs w
        ≡ undo_all acts fuel (undo_last acts rs w).1 (undo_last acts rs w).2
  unfolding undo_all
  undo_all_step fuel rs w h e = ground arith

  pub undo_all_error :
      (fuel : ℕ) (rs : RoutingSlip T A R) (w : W) (err : Error)
      → is_in_progress rs ≡ true
      → (undo_last acts rs w).0.1 ≡ some err
      → undo_all acts (suc fuel) rs w
        ≡ some (some err, (undo_last acts rs w).1, (undo_last acts rs w).2)
  unfolding undo_all
  undo_all_error fuel rs w err h e = ground arith

  -- If no compensation adds a log to a slip, fuel for one round for each log is enough for the loop
  -- that undoes it to end, with no log left unless a compensation returned an error.
  pub undo_all_total :
      (fuel : ℕ) (rs : RoutingSlip T A R) (w : W)
      → Shrinks
      → length rs.completed_work_logs ≤ fuel
      → (r : Option Error × RoutingSlip T A R × W) × (undo_all acts fuel rs w ≡ some r) × IsUndone r
  undo_all_total zero rs w shrinks h = elim (undo_last_cases rs w) [
    | inl (empty, idle) ↦ ((none, rs, w), undo_all_stop zero rs w idle, empty)
    | inr (rest, log, split, _, _) ↦
        absurd (omega (arith, ap length split, length-snoc {0} rest log))
  ]
  undo_all_total (suc fuel) rs w shrinks h = elim (undo_last_cases rs w) [
    | inl (empty, idle) ↦ ((none, rs, w), undo_all_stop (suc fuel) rs w idle, empty)
    | inr (rest, log, split, busy, e) ↦ elim (Option-cases (undo_last acts rs w).0.1) [
      | inl fine ↦
          let fewer = shrinks log.activity_type log (record rs { completed_work_logs = rest }) w in
          let (r, runs, undone) =
            undo_all_total fuel (undo_last acts rs w).1 (undo_last acts rs w).2 shrinks (
              omega (
                arith,
                ap length split,
                length-snoc {0} rest log,
                fewer,
                ap (λ x. length x.1.completed_work_logs) e,
              )) in
          (r, undo_all_step fuel rs w busy fine ∙ runs, undone)
      | inr (err, bad) ↦ (
        (some err, (undo_last acts rs w).1, (undo_last acts rs w).2),
        undo_all_error fuel rs w err busy bad,
        tt,
      )
    ]
  ]

  -- Where no compensation returns an error, the loop ends with nothing left to undo.
  pub undo_all_reliable :
      (fuel : ℕ) (rs : RoutingSlip T A R) (w : W)
      → Shrinks
      → Reliable
      → length rs.completed_work_logs ≤ fuel
      → (rs' : RoutingSlip T A R) × (w' : W) × (undo_all acts fuel rs w ≡ some (none, rs', w'))
        × (rs'.completed_work_logs ≡ [])
  undo_all_reliable zero rs w shrinks reliable h = elim (undo_last_cases rs w) [
    | inl (empty, idle) ↦ (rs, w, undo_all_stop zero rs w idle, empty)
    | inr (rest, log, split, _, _) ↦
        absurd (omega (arith, ap length split, length-snoc {0} rest log))
  ]
  undo_all_reliable (suc fuel) rs w shrinks reliable h = elim (undo_last_cases rs w) [
    | inl (empty, idle) ↦ (rs, w, undo_all_stop (suc fuel) rs w idle, empty)
    | inr (rest, log, split, busy, e) ↦
        let rs₁ : RoutingSlip T A R = record rs { completed_work_logs = rest } in
        let (rs', w', runs, undone) =
          undo_all_reliable fuel (undo_last acts rs w).1 (undo_last acts rs w).2 shrinks reliable (
            omega (
              arith,
              ap length split,
              length-snoc {0} rest log,
              shrinks log.activity_type log rs₁ w,
              ap (λ x. length x.1.completed_work_logs) e,
            )) in
        (
          rs',
          w',
          undo_all_step fuel rs w busy (ap (λ x. x.0.1) e ∙ reliable log.activity_type log rs₁ w)
              ∙ runs,
          undone,
        )
  ]

  -- Compensation in reverse order, by recursion on the logs, latest first. It stops at the first
  -- error, and the logs that it has not come to stay.
  unfoldable pub rollback :
      List (WorkItem T A) → List (WorkLog T R) → W → Option Error × List (WorkLog T R) × W
  rollback next [] w = (none, [], w)
  rollback next (log ∷ earlier) w =
      let rs : RoutingSlip T A R = record {
        completed_work_logs = reverse earlier;
        next_work_items = next;
      } in
      let ((_, err), _, w') = acts.compensate log.activity_type log rs w in
      let rest = rollback next earlier w' in
      elim err [ none ↦ rest | some e ↦ (some e, earlier, w') ]

  module _ (next : List (WorkItem T A)) (log : WorkLog T R) (earlier : List (WorkLog T R))
      (w : W) where
    abbrev pub compensated : Answer × RoutingSlip T A R × W
    compensated =
        acts.compensate log.activity_type log
          (record { completed_work_logs = reverse earlier; next_work_items = next }) w

    pub rollback_step :
        compensated.0.1 ≡ none
        → rollback next (log ∷ earlier) w ≡ rollback next earlier compensated.2
    unfolding rollback
    rollback_step h = ground arith

    pub rollback_error :
        (err : Error)
        → compensated.0.1 ≡ some err
        → rollback next (log ∷ earlier) w ≡ (some err, earlier, compensated.2)
    unfolding rollback
    rollback_error err h = ground arith

  abbrev pub slip_of : List (WorkItem T A) → List (WorkLog T R) → RoutingSlip T A R
  slip_of next logs = record { completed_work_logs = reverse logs; next_work_items = next }

  pub snoc_slip : List (WorkItem T A) → List (WorkLog T R) → WorkLog T R → RoutingSlip T A R
  snoc_slip next logs log = record {
    completed_work_logs = logs ++ log ∷ [];
    next_work_items = next;
  }

  pub is_in_progress-snoc :
      (next : List (WorkItem T A)) (logs : List (WorkLog T R)) (log : WorkLog T R)
      → is_in_progress (snoc_slip next logs log) ≡ true
  unfolding is_in_progress snoc_slip
  is_in_progress-snoc next [] log = refl
  is_in_progress-snoc next (x ∷ logs) log = refl

  pub undo_last-snoc :
      (next : List (WorkItem T A)) (logs : List (WorkLog T R)) (log : WorkLog T R) (w : W)
      → undo_last acts (snoc_slip next logs log) w
        ≡ acts.compensate log.activity_type log
            (record { completed_work_logs = logs; next_work_items = next })
            w
  unfolding undo_last snoc_slip
  undo_last-snoc next logs log w = rw (unsnoc-snoc logs log, undo_last)

  pub slip_of-cons :
      (next : List (WorkItem T A)) (log : WorkLog T R) (earlier : List (WorkLog T R))
      → slip_of next (log ∷ earlier) ≡ snoc_slip next (reverse earlier) log
  unfolding snoc_slip
  slip_of-cons next log earlier =
      ap (λ l. record { completed_work_logs = l; next_work_items = next })
        (reverse-cons log earlier)

  -- What the loop leaves behind.
  abbrev pub result :
      List (WorkItem T A)
      → Option Error × List (WorkLog T R) × W
      → Option (Option Error × RoutingSlip T A R × W)
  result next (err, logs, w) = some (err, slip_of next logs, w)

  -- If compensations leave the slip alone and the fuel is at least the number of logs, the loop
  -- that undoes a slip hands its logs to their compensations from the last to the first, and stops
  -- at the first error.
  pub undo_all-rollback :
      (fuel : ℕ) (next : List (WorkItem T A)) (logs : List (WorkLog T R)) (w : W)
      → Plain
      → length logs ≤ fuel
      → undo_all acts fuel (slip_of next logs) w ≡ result next (rollback next logs w)
  unfolding rollback is_in_progress
  undo_all-rollback fuel next [] w plain h = undo_all_stop fuel (slip_of next []) w refl
  undo_all-rollback zero next (log ∷ earlier) w plain h = absurd (omega arith)
  undo_all-rollback (suc fuel) next (log ∷ earlier) w plain h =
      let rs = snoc_slip next (reverse earlier) log in
      let busy = is_in_progress-snoc next (reverse earlier) log in
      let last = undo_last-snoc next (reverse earlier) log w in
      let t = log.activity_type in
      let comp = acts.compensate t log (slip_of next earlier) w in
      rw (slip_of-cons next log earlier) (elim (Option-cases comp.0.1) [
        | inl fine ↦
            undo_all_step fuel rs w busy (ap (λ x. x.0.1) last ∙ fine)
            ∙ ap₂ (undo_all acts fuel) (ap (λ x. x.1) last ∙ plain t log (slip_of next earlier) w)
                (ap (λ x. x.2) last)
            ∙ undo_all-rollback fuel next earlier comp.2 plain (omega arith)
            ∙ sym (ap (result next) (rollback_step next log earlier w fine))
        | inr (err, bad) ↦
            undo_all_error fuel rs w err busy (ap (λ x. x.0.1) last ∙ bad)
            ∙ ap₂ (λ x y. some (some err, x, y))
                (ap (λ x. x.1) last ∙ plain t log (slip_of next earlier) w) (ap (λ x. x.2) last)
            ∙ sym (ap (result next) (rollback_error next log earlier w err bad))
      ])
