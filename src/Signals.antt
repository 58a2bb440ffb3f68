-- ===== src/Signals.antt =====
-- asceticddd/signals: `SignalImp` and `CompositeSignalImp`, over ids `I` (an `any` that is compared
-- by `==`), events `V`, errors `Err` and a world `W` that observers change. The delegates of a
-- composite are taken to be different signals, composites among them. Observers do not
-- attach or detach while they are notified. A disposable detaches the id that it was made for.
pub mod Laws
mod Tests
use ascetic_ddd_go.Base.{
  List, [], ◌∷◌, ◌++◌, map, foldl, Option, none, some, Bool, true, false, if◌then◌else◌, ite,
}

-- The error of a run, or `none`, and the world after it.
abbrev pub Observer : Type 0 → Type 0 → Type 0 → Type 0
Observer V Err W = V → W → Option Err × W

pub record Entry (I V Err W : Type 0) : Type 0 where
  pub id : I
  pub observer : Observer V Err W

pub record SignalImp (I V Err W : Type 0) : Type 0 where
  pub observers : List (Entry I V Err W)

mutual
  -- The implementations of the interface `Signal`.
  pub data Signal (I V Err W : Type 0) : Type 0 where
    signal_imp : SignalImp I V Err W → Signal I V Err W
    composite_signal_imp : Delegates I V Err W → Signal I V Err W

  -- The list of the delegates of a composite signal.
  pub data Delegates (I V Err W : Type 0) : Type 0 where
    no_delegates : Delegates I V Err W
    delegate : Signal I V Err W → Delegates I V Err W → Delegates I V Err W

module _ {I V Err W : Type 0} where
  unfoldable pub new_signal : SignalImp I V Err W
  new_signal = record { observers = [] }

  -- The first of the ids given, or the one made from the observer.
  unfoldable pub resolve_id : (Observer V Err W → I) → Observer V Err W → List I → I
  resolve_id make_id observer [] = make_id observer
  resolve_id make_id observer (id ∷ ids) = id

  unfoldable pub notify_all : List (Entry I V Err W) → Observer V Err W
  notify_all [] event w = (none, w)
  notify_all (e ∷ es) event w =
      let out : Option Err × W = e.observer event w in
      elim out.0 [ some err ↦ (some err, out.1) | none ↦ notify_all es event out.1 ]

  unfoldable pub notify : SignalImp I V Err W → Observer V Err W
  notify s = notify_all s.observers

module _ {I V Err W : Type 0} (dec : Discrete I) where
  unfoldable pub is_attached : I → List (Entry I V Err W) → Bool
  is_attached id [] = false
  is_attached id (e ∷ es) = ite (dec e.id id) true (is_attached id es)

  -- The signal, and what the disposable that is returned detaches.
  unfoldable pub attach_id : I → Observer V Err W → SignalImp I V Err W → SignalImp I V Err W
  attach_id id observer s =
      if is_attached id s.observers
      then s
      else record { observers = s.observers ++ record { id = id; observer = observer } ∷ [] }

  -- The first entry with the id is taken out.
  unfoldable pub without : I → List (Entry I V Err W) → List (Entry I V Err W)
  without id [] = []
  without id (e ∷ es) = ite (dec e.id id) es (e ∷ without id es)

  unfoldable pub detach_id : I → SignalImp I V Err W → SignalImp I V Err W
  detach_id id s = record { observers = without id s.observers }

  module _ (make_id : Observer V Err W → I) where
    unfoldable pub attach :
        Observer V Err W → List I → SignalImp I V Err W → SignalImp I V Err W × I
    attach observer ids s =
        (attach_id (resolve_id make_id observer ids) observer s, resolve_id make_id observer ids)

    unfoldable pub detach : Observer V Err W → List I → SignalImp I V Err W → SignalImp I V Err W
    detach observer ids s = detach_id (resolve_id make_id observer ids) s

    unfoldable mutual
      pub signal_attach : Observer V Err W → List I → Signal I V Err W → Signal I V Err W
      signal_attach observer ids (signal_imp s) = signal_imp (attach observer ids s).0
      signal_attach observer ids (composite_signal_imp delegates) =
          composite_signal_imp (composite_attach observer ids delegates)

      pub composite_attach : Observer V Err W → List I → Delegates I V Err W → Delegates I V Err W
      composite_attach observer ids no_delegates = no_delegates
      composite_attach observer ids (delegate s delegates) =
          delegate (signal_attach observer ids s) (composite_attach observer ids delegates)

    unfoldable mutual
      pub signal_detach : Observer V Err W → List I → Signal I V Err W → Signal I V Err W
      signal_detach observer ids (signal_imp s) = signal_imp (detach observer ids s)
      signal_detach observer ids (composite_signal_imp delegates) =
          composite_signal_imp (composite_detach observer ids delegates)

      pub composite_detach : Observer V Err W → List I → Delegates I V Err W → Delegates I V Err W
      composite_detach observer ids no_delegates = no_delegates
      composite_detach observer ids (delegate s delegates) =
          delegate (signal_detach observer ids s) (composite_detach observer ids delegates)

module _ {I V Err W : Type 0} where
  unfoldable mutual
    pub signal_notify : Signal I V Err W → Observer V Err W
    signal_notify (signal_imp s) event w = notify s event w
    signal_notify (composite_signal_imp delegates) event w = composite_notify delegates event w

    pub composite_notify : Delegates I V Err W → Observer V Err W
    composite_notify no_delegates event w = (none, w)
    composite_notify (delegate s delegates) event w =
        let out : Option Err × W = signal_notify s event w in
        elim out.0 [ some err ↦ (some err, out.1) | none ↦ composite_notify delegates event out.1 ]
