-- ===== src/Saga/Host/Delivery.antt =====
-- A slip on its way between the hosts of activity_host.go, beside the local loops.
use text.Mathlib.TextEquality.{eq_iff}
use ascetic_ddd_go.Base.{
  ℕ, zero, suc, ◌+◌, ◌≤◌, ◌≡◌, ◌≢◌, refl, sym, ap, ◌∙◌, ◌⊎◌, List, [], ◌∷◌, reverse, reverse-cons,
  Option, none, some, true, false, String, length, Option-cases, inl, inr, arith, All, unsnoc-snoc,
}
use ascetic_ddd_go.Saga.{
  RoutingSlip, WorkItem, WorkLog, WorkOutcome, Error, Answer, Activities, is_completed,
  process_next, progress_uri, compensation_uri,
}
use ascetic_ddd_go.Saga.Rollback.{
  rollback, slip_of, is_in_progress-snoc, undo_last-snoc, slip_of-cons, rollback_step,
}
use ascetic_ddd_go.Saga.Attempt.{log_of, attempt, conclude, attempt_done, attempt_failed}
use ascetic_ddd_go.Saga.Host.{
  Dispatch, quiet, send, send_to, process_forward_message, process_backward_message, accept_message,
  deliver, drive,
}

abbrev pub Among : {T : Type 0} → T → List T → Type 0
Among t [] = ⊥
Among t (h ∷ hosts) = (h ≡ t) ⊎ Among t hosts

module _ {T A R W : Type 0} (acts : Activities T A R W) (hosts : List T) where
  -- What the transport relies on: addresses are not empty, and no address serves both directions.
  pub record Routable : Type 0 where
    pub work_named : (t : T) → acts.work_item_queue_address t ≢ ""
    pub compensation_named : (t : T) → acts.compensation_queue_address t ≢ ""
    pub apart : (t u : T) → acts.compensation_queue_address t ≢ acts.work_item_queue_address u

  -- Compensations succeed, leave the slip alone and let the backward path go on.
  abbrev pub Willing : Type 0
  Willing =
      (t : T) (log : WorkLog T R) (rs : RoutingSlip T A R) (w : W)
      → ((acts.compensate t log rs w).0 ≡ (true, none)) × ((acts.compensate t log rs w).1 ≡ rs)

  module _ (routes : Routable) where
    deliver_forward :
        (ts : List T) (t : T) (rs : RoutingSlip T A R) (w : W)
        → Among t ts
        → deliver acts ts (acts.work_item_queue_address t) rs w ≡ process_forward_message acts rs w
    unfolding deliver accept_message
    deliver_forward [] t rs w h = absurd h
    deliver_forward (u ∷ ts) t rs w (inl here) =
        let clash = routes.apart u t in
        let same : acts.work_item_queue_address u ≡ acts.work_item_queue_address t =
          ap acts.work_item_queue_address here in
        ground (
          arith,
          clash,
          same,
          eq_iff (acts.compensation_queue_address u) (acts.work_item_queue_address t),
          eq_iff (acts.work_item_queue_address u) (acts.work_item_queue_address t),
        )
    deliver_forward (u ∷ ts) t rs w (inr later) = ground (
      arith,
      routes.apart u t,
      eq_iff (acts.compensation_queue_address u) (acts.work_item_queue_address t),
      deliver_forward ts t rs w later,
    )

    deliver_backward :
        (ts : List T) (t : T) (rs : RoutingSlip T A R) (w : W)
        → Among t ts
        → deliver acts ts (acts.compensation_queue_address t) rs w
          ≡ process_backward_message acts rs w
    unfolding deliver accept_message
    deliver_backward [] t rs w h = absurd h
    deliver_backward (u ∷ ts) t rs w (inl here) =
        let same : acts.compensation_queue_address u ≡ acts.compensation_queue_address t =
          ap acts.compensation_queue_address here in
        ground (
          arith,
          same,
          eq_iff (acts.compensation_queue_address u) (acts.compensation_queue_address t),
        )
    deliver_backward (u ∷ ts) t rs w (inr later) = ground (
      arith,
      (λ (e : acts.work_item_queue_address u ≡ acts.compensation_queue_address t).
          routes.apart t u (sym e)),
      eq_iff (acts.work_item_queue_address u) (acts.compensation_queue_address t),
      deliver_backward ts t rs w later,
    )

    send_to_named : (uri : String) → uri ≢ "" → send_to uri ≡ send uri
    unfolding send_to
    send_to_named uri h = ground (arith, eq_iff uri "")

    -- The message that starts or goes on with the backward path of a slip.
    abbrev backward : RoutingSlip T A R → Dispatch
    backward rs = send_to (compensation_uri acts rs)

    -- ... and with the forward path.
    abbrev pub forward : RoutingSlip T A R → Dispatch
    forward rs = send_to (progress_uri acts rs)

    backward-nil : (next : List (WorkItem T A)) → backward (slip_of acts next []) ≡ quiet
    unfolding compensation_uri send_to
    backward-nil next = refl

    backward-cons :
        (next : List (WorkItem T A)) (log : WorkLog T R) (earlier : List (WorkLog T R))
        → backward (slip_of acts next (log ∷ earlier))
          ≡ send (acts.compensation_queue_address log.activity_type)
    unfolding compensation_uri
    backward-cons next log earlier =
        rw (reverse-cons log earlier, compensation_uri, unsnoc-snoc)
          (send_to_named _ (routes.compensation_named log.activity_type))

    module _ (willing : Willing) where
      -- One message of the backward path.
      backward_message :
          (next : List (WorkItem T A)) (log : WorkLog T R) (earlier : List (WorkLog T R)) (w : W)
          → let w' = (acts.compensate log.activity_type log (slip_of acts next earlier) w).2 in
            process_backward_message acts (slip_of acts next (log ∷ earlier)) w
            ≡ (backward (slip_of acts next earlier), slip_of acts next earlier, w')
      unfolding process_backward_message
      backward_message next log earlier w =
          let rs = slip_of acts next earlier in
          let last = undo_last-snoc acts next (reverse earlier) log w in
          let (answer, same) = willing log.activity_type log rs w in
          rw (slip_of-cons acts next log earlier) (
            ground (
              arith,
              is_in_progress-snoc acts next (reverse earlier) log,
              last,
              answer,
              same,
              ap (compensation_uri acts) same,
            ))

      rollback_willing :
          (next : List (WorkItem T A)) (log : WorkLog T R) (earlier : List (WorkLog T R)) (w : W)
          → rollback acts next (log ∷ earlier) w
            ≡ rollback acts next earlier
                (acts.compensate log.activity_type log (slip_of acts next earlier) w).2
      rollback_willing next log earlier w =
          rollback_step acts next log earlier w
            (ap (λ x. x.1) (willing log.activity_type log (slip_of acts next earlier) w).0)

      -- The backward path undoes every log, whichever hosts the messages go to.
      drive-backward :
          (fuel : ℕ) (next : List (WorkItem T A)) (logs : List (WorkLog T R)) (w : W)
          → All (λ log. Among log.activity_type hosts) logs
          → length logs ≤ fuel
          → drive acts hosts fuel (backward (slip_of acts next logs)) (slip_of acts next logs) w
            ≡ some (none, slip_of acts next [], (rollback acts next logs w).2)
      unfolding drive rollback
      drive-backward fuel next [] w listed h =
          ap (λ d. drive acts hosts fuel d (slip_of acts next []) w) (backward-nil next)
      drive-backward zero next (log ∷ earlier) w listed h = absurd (omega arith)
      drive-backward (suc fuel) next (log ∷ earlier) w listed h =
          let t = log.activity_type in
          let rs = slip_of acts next (log ∷ earlier) in
          let message =
            deliver_backward hosts t rs w listed.0 ∙ backward_message next log earlier w in
          ap (λ d. drive acts hosts (suc fuel) d rs w) (backward-cons next log earlier)
          ∙ ap (λ x. drive acts hosts fuel x.0 x.1 x.2) message
          ∙ drive-backward fuel next earlier _ listed.1 (omega arith)
          ∙ ap (λ x. some (none, slip_of acts next [], x.2))
              (sym (rollback_willing next log earlier w))

      -- Without errors nothing is left of a rollback.
      rollback_all :
          (next : List (WorkItem T A)) (logs : List (WorkLog T R)) (w : W)
          → (rollback acts next logs w).1 ≡ []
      unfolding rollback
      rollback_all next [] w = refl
      rollback_all next (log ∷ earlier) w =
          ap (λ x. x.1) (rollback_willing next log earlier w) ∙ rollback_all next earlier _

      -- One message of the forward path, by what the activity returns.
      module _ (item : WorkItem T A) (rest : List (WorkItem T A)) (logs : List (WorkLog T R))
          (w : W) where
        abbrev outcome : WorkOutcome T R × W
        outcome = acts.do_work item.activity_type item w

        forward_done :
            (log : WorkLog T R)
            → log_of outcome.0 ≡ some log
            → process_forward_message acts (slip_of acts (item ∷ rest) logs) w ≡ (
              forward (slip_of acts rest (log ∷ logs)),
              slip_of acts rest (log ∷ logs),
              outcome.1,
            )
        unfolding process_forward_message is_completed process_next
        forward_done log h = rw (reverse-cons log logs) (ground arith)

        forward_failed :
            log_of outcome.0 ≡ none
            → process_forward_message acts (slip_of acts (item ∷ rest) logs) w
              ≡ (backward (slip_of acts rest logs), slip_of acts rest logs, outcome.1)
        unfolding process_forward_message is_completed process_next
        forward_failed h = ground arith

      -- Every activity type that the saga comes to has a host.
      abbrev pub Hosted : Type 0
      Hosted =
          (item : WorkItem T A) (w : W) (log : WorkLog T R)
          → log_of (acts.do_work item.activity_type item w).0 ≡ some log
          → Among log.activity_type hosts

      abbrev pub final :
          Answer × RoutingSlip T A R × W → Option (Option Error × RoutingSlip T A R × W)
      final (_, rs, w) = some (none, rs, w)

      conclude_failed :
          (next : List (WorkItem T A)) (logs : List (WorkLog T R)) (w : W)
          → final (conclude acts (false, next, logs, w))
            ≡ some (none, slip_of acts next [], (rollback acts next logs w).2)
      unfolding conclude
      conclude_failed next logs w =
          ap (λ l. some (none, slip_of acts next l, (rollback acts next logs w).2))
            (rollback_all next logs w)

      drive_nil :
          (fuel : ℕ) (logs : List (WorkLog T R)) (w : W)
          → drive acts hosts fuel (forward (slip_of acts [] logs)) (slip_of acts [] logs) w
            ≡ final (conclude acts (attempt acts [] logs w))
      unfolding drive progress_uri send_to attempt conclude
      drive_nil fuel logs w = refl

      -- If addresses are named and no address serves both directions, compensations succeed, leave
      -- the slip alone and go on backward, and each pending item, log and log to come is of an
      -- activity that has a host, then fuel of two messages for each item and one for each log is
      -- enough for the messages between hosts to end, and they leave the slip and the world that
      -- the local attempt leaves.
      pub drive-conclude :
          (fuel : ℕ) (next : List (WorkItem T A)) (logs : List (WorkLog T R)) (w : W)
          → Hosted
          → All (λ item. Among item.activity_type hosts) next
          → All (λ log. Among log.activity_type hosts) logs
          → length next + length next + length logs ≤ fuel
          → drive acts hosts fuel (forward (slip_of acts next logs)) (slip_of acts next logs) w
            ≡ final (conclude acts (attempt acts next logs w))
      unfolding drive progress_uri
      drive-conclude fuel [] logs w hosted items listed h = drive_nil fuel logs w
      drive-conclude zero (item ∷ rest) logs w hosted items listed h = absurd (omega arith)
      drive-conclude (suc fuel) (item ∷ rest) logs w hosted items listed h =
          let t = item.activity_type in
          let rs = slip_of acts (item ∷ rest) logs in
          let arrives = deliver_forward hosts t rs w items.0 in
          let start =
            ap (λ d. drive acts hosts (suc fuel) d rs w) (send_to_named _ (routes.work_named t)) in
          elim (Option-cases (log_of (acts.do_work t item w).0)) [
            | inl bad ↦
                start
                ∙ ap (λ x. drive acts hosts fuel x.0 x.1 x.2)
                    (arrives ∙ forward_failed item rest logs w bad)
                ∙ drive-backward fuel rest logs _ listed (omega arith)
                ∙ sym (conclude_failed rest logs _)
                ∙ ap (λ x. final (conclude acts x)) (sym (attempt_failed acts item rest logs w bad))
            | inr (log, good) ↦
                start
                ∙ ap (λ x. drive acts hosts fuel x.0 x.1 x.2)
                    (arrives ∙ forward_done item rest logs w log good)
                ∙ drive-conclude fuel rest (log ∷ logs) _ hosted items.1
                    (hosted item w log good, listed) (omega arith)
                ∙ ap (λ x. final (conclude acts x))
                    (sym (attempt_done acts item rest logs w log good))
          ]
