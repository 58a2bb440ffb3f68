-- ===== src/Saga/Host.antt =====
-- asceticddd/saga/activity_host.go: a host executes one activity type. `send` is not part of the
-- program: a host's answer says which message it hands over, with the slip. `deliver` offers a
-- message to the hosts in turn, as a transport does that tries `AcceptMessage` on each.
pub mod Delivery
use text.Mathlib.Text.{◌==◌ as str_eq}
use ascetic_ddd_go.Base.{
  ℕ, zero, suc, List, [], ◌∷◌, Option, none, some, Bool, true, false, String, if◌then◌else◌,
}
use ascetic_ddd_go.Saga.{
  RoutingSlip, Error, Answer, Activities, is_completed, is_in_progress, process_next, undo_last,
  progress_uri, compensation_uri,
}

pub data Dispatch : Type 0 where
  quiet : Dispatch
  send : String → Dispatch
  refused : Error → Dispatch

-- `if uri != "" { return ah.send(ctx, uri, routingSlip) }; return nil`
unfoldable pub send_to : String → Dispatch
send_to uri = if str_eq uri "" then quiet else send uri

module _ {T A R W : Type 0} (acts : Activities T A R W) where
  unfoldable pub process_forward_message : RoutingSlip T A R → W → Dispatch × RoutingSlip T A R × W
  process_forward_message rs w = elim (is_completed rs) [
    | true ↦ (quiet, rs, w)
    | false ↦
        let ((success, err), rs', w') = process_next acts rs w in
        elim err [
          | some e ↦ (refused e, rs', w')
          | none ↦ (
            send_to
                (elim success [ true ↦ progress_uri acts rs' | false ↦ compensation_uri acts rs' ]),
            rs',
            w',
          )
        ]
  ]

  unfoldable pub process_backward_message : RoutingSlip T A R → W → Dispatch × RoutingSlip T A R × W
  process_backward_message rs w = elim (is_in_progress rs) [
    | false ↦ (quiet, rs, w)
    | true ↦
        let ((continue_backward, err), rs', w') = undo_last acts rs w in
        elim err [
          | some e ↦ (refused e, rs', w')
          | none ↦ (
            send_to (elim continue_backward [
              | true ↦ compensation_uri acts rs'
              | false ↦ progress_uri acts rs'
            ]),
            rs',
            w',
          )
        ]
  ]

  -- The host of the activity type `t`.
  unfoldable pub accept_message :
      T → String → RoutingSlip T A R → W → Bool × Dispatch × RoutingSlip T A R × W
  accept_message t uri rs w =
      let backward = process_backward_message rs w in
      let forward = process_forward_message rs w in
      if str_eq (acts.compensation_queue_address t) uri
      then (true, backward.0, backward.1, backward.2)
      else if str_eq (acts.work_item_queue_address t) uri
      then (true, forward.0, forward.1, forward.2)
      else (false, quiet, rs, w)

  -- The transport: the first host that accepts a message handles it.
  pub deliver : List T → String → RoutingSlip T A R → W → Dispatch × RoutingSlip T A R × W
  deliver [] uri rs w = (quiet, rs, w)
  deliver (t ∷ hosts) uri rs w =
      let (accepted, dispatch, rs', w') = accept_message t uri rs w in
      let others = deliver hosts uri rs w in if accepted then (dispatch, rs', w') else others

  -- One message after another, until a host sends none; `none` if the fuel runs out.
  pub drive :
      List T → ℕ → Dispatch → RoutingSlip T A R → W → Option (Option Error × RoutingSlip T A R × W)
  drive hosts fuel quiet rs w = some (none, rs, w)
  drive hosts fuel (refused e) rs w = some (some e, rs, w)
  drive hosts zero (send uri) rs w = none
  drive hosts (suc fuel) (send uri) rs w =
      let (dispatch, rs', w') = deliver hosts uri rs w in drive hosts fuel dispatch rs' w'
