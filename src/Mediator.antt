-- ===== src/Mediator.antt =====
-- asceticddd/mediator/mediator.go: `MediatorImp`, over requests and events `Q` with their run-time
-- types `Ty`, sessions `S`, results `R`, errors `Err` and a world `W` that handlers change. Handlers
-- and subscribers do not change the mediator that calls them.
pub mod Laws
mod Tests
use ascetic_ddd_go.Base.{List, [], ◌∷◌, ◌++◌, foldl, reverse, Option, none, some, ite}
use ascetic_ddd_go.Base.Assoc.{lookup, insert, delete}

-- A result, which is `none` for `nil`, or an error.
pub data Outcome (R Err : Type 0) : Type 0 where
  returned : Option R → Outcome R Err
  failed : Err → Outcome R Err

abbrev pub Handler : Type 0 → Type 0 → Type 0 → Type 0 → Type 0 → Type 0
Handler Q S R Err W = S → Q → W → Outcome R Err × W

abbrev pub Pipeline : Type 0 → Type 0 → Type 0 → Type 0 → Type 0 → Type 0
Pipeline Q S R Err W = S → Q → Handler Q S R Err W → W → Outcome R Err × W

abbrev pub EventHandler : Type 0 → Type 0 → Type 0 → Type 0 → Type 0
EventHandler Q S Err W = S → Q → W → Option Err × W

-- The key is the code pointer of the handler.
pub record SubscriberEntry (Q S Err W K : Type 0) : Type 0 where
  pub key : K
  pub handler : EventHandler Q S Err W

pub record MediatorImp (Q Ty S R Err W K : Type 0) : Type 0 where
  pub subscribers : List (Ty × List (SubscriberEntry Q S Err W K))
  pub handlers : List (Ty × Handler Q S R Err W)
  pub broadcast_pipelines : List (Pipeline Q S R Err W)
  pub pipelines : List (Ty × List (Pipeline Q S R Err W))

abbrev pub or_empty : {A : Type 0} → Option (List A) → List A
or_empty none = []
or_empty (some xs) = xs

module _ {Q S R Err W : Type 0} where
  unfoldable pub wrap_pipeline : Pipeline Q S R Err W → Handler Q S R Err W → Handler Q S R Err W
  wrap_pipeline pipeline next session request = pipeline session request next

  -- The loop from the last pipeline to the first.
  unfoldable pub wrap_all : List (Pipeline Q S R Err W) → Handler Q S R Err W → Handler Q S R Err W
  wrap_all all handler =
      foldl (λ current pipeline. wrap_pipeline pipeline current) handler (reverse all)

module _ {Q S Err W K : Type 0} where
  unfoldable pub publish_all : List (SubscriberEntry Q S Err W K) → EventHandler Q S Err W
  publish_all [] session event w = (none, w)
  publish_all (e ∷ es) session event w =
      let out : Option Err × W = e.handler session event w in
      elim out.0 [ some err ↦ (some err, out.1) | none ↦ publish_all es session event out.1 ]

  unfoldable pub without_key :
      Discrete K → K → List (SubscriberEntry Q S Err W K) → List (SubscriberEntry Q S Err W K)
  without_key dec key [] = []
  without_key dec key (e ∷ es) = ite (dec e.key key) es (e ∷ without_key dec key es)

module _ {Q Ty S R Err W K : Type 0} (dec : Discrete Ty) (key_dec : Discrete K)
    (type_of : Q → Ty) where
  unfoldable pub execute_pipelines :
      MediatorImp Q Ty S R Err W K → S → Q → Handler Q S R Err W → W → Outcome R Err × W
  execute_pipelines m session request handler =
      wrap_all (m.broadcast_pipelines ++ or_empty (lookup dec (type_of request) m.pipelines))
        handler session request

  unfoldable pub send : MediatorImp Q Ty S R Err W K → S → Q → W → Outcome R Err × W
  send m session request w = elim (lookup dec (type_of request) m.handlers) [
    | none ↦ (returned none, w)
    | some handler ↦ execute_pipelines m session request handler w
  ]

  unfoldable pub publish : MediatorImp Q Ty S R Err W K → S → Q → W → Option Err × W
  publish m session event w =
      publish_all (or_empty (lookup dec (type_of event) m.subscribers)) session event w

  unfoldable pub register :
      MediatorImp Q Ty S R Err W K → Ty → Handler Q S R Err W → MediatorImp Q Ty S R Err W K
  register m req_type handler = record m { handlers = insert dec req_type handler m.handlers }

  -- `none` is `ErrHandlerNotRegistered`.
  unfoldable pub unregister :
      MediatorImp Q Ty S R Err W K → Ty → Option (MediatorImp Q Ty S R Err W K)
  unregister m req_type = elim (lookup dec req_type m.handlers) [
    | none ↦ none
    | some _ ↦ some (record m { handlers = delete dec req_type m.handlers })
  ]

  unfoldable pub subscribe :
      MediatorImp Q Ty S R Err W K → Ty → K → EventHandler Q S Err W → MediatorImp Q Ty S R Err W K
  subscribe m event_type key handler = record m {
    subscribers =
        insert dec event_type
          (or_empty (lookup dec event_type m.subscribers)
            ++ record { key = key; handler = handler } ∷ [])
          m.subscribers;
  }

  -- No entry is written when there is none with the key; writing the same list is no change.
  unfoldable pub unsubscribe : MediatorImp Q Ty S R Err W K → Ty → K → MediatorImp Q Ty S R Err W K
  unsubscribe m event_type key = elim (lookup dec event_type m.subscribers) [
    | none ↦ m
    | some entries ↦ record m {
      subscribers = insert dec event_type (without_key key_dec key entries) m.subscribers;
    }
  ]

  unfoldable pub add_pipeline :
      MediatorImp Q Ty S R Err W K → Ty → Pipeline Q S R Err W → MediatorImp Q Ty S R Err W K
  add_pipeline m req_type pipeline = record m {
    pipelines =
        insert dec req_type (or_empty (lookup dec req_type m.pipelines) ++ pipeline ∷ [])
          m.pipelines;
  }

  unfoldable pub add_broadcast_pipeline :
      MediatorImp Q Ty S R Err W K → Pipeline Q S R Err W → MediatorImp Q Ty S R Err W K
  add_broadcast_pipeline m pipeline = record m {
    broadcast_pipelines = m.broadcast_pipelines ++ pipeline ∷ [];
  }
