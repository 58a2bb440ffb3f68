-- ===== src/Mediator/Tests.antt =====
-- A mediator of two request types, and each property of mediators at it.
use ascetic_ddd_go.Base.{
  ℕ, ◌≡◌, refl, List, [], ◌∷◌, ◌+◌, none, some, ℕ_discrete, if◌then◌else◌, ◌==◌, ite, arith,
}
use ascetic_ddd_go.Base.Assoc.{lookup, insert, delete}
use ascetic_ddd_go.Mediator.{
  SubscriberEntry, returned, failed, Handler, Pipeline, EventHandler, MediatorImp,
  execute_pipelines, send, publish, register, unregister, subscribe, unsubscribe, wrap_all,
  wrap_pipeline,
}
use ascetic_ddd_go.Mediator.Laws.{
  around, pipelines_of, then_call, send-register, send-unregister, publish-subscribe,
  publish-unsubscribe, subscribe_all,
}

-- A request is its type and a number. Results are numbers, and the world is a log.
abbrev Request : Type 0
Request = ℕ × ℕ

abbrev type_of : Request → ℕ
type_of request = request.0

-- Adds the session's number; refuses 0.
abbrev adding : Handler Request ℕ ℕ ℕ (List ℕ)
adding session request log =
    if request.1 == 0 then (failed session, log) else (returned (some (session + request.1)), log)

-- Writes its number down and goes on.
abbrev logging : ℕ → Pipeline Request ℕ ℕ ℕ (List ℕ)
logging n session request next log = next session request (n ∷ log)

abbrev listening : ℕ → EventHandler Request ℕ ℕ (List ℕ)
listening n session event log = if event.1 == 0 then (some n, log) else (none, n ∷ log)

abbrev mediator : MediatorImp Request ℕ ℕ ℕ ℕ (List ℕ) ℕ
mediator = record {
  subscribers = (1, record { key = 11; handler = listening 11 } ∷ []) ∷ [];
  handlers = (2, adding) ∷ [];
  broadcast_pipelines = logging 1 ∷ [];
  pipelines = (1, logging 2 ∷ logging 3 ∷ []) ∷ [];
}

send-run :
    send ℕ_discrete ℕ_discrete type_of
      (register ℕ_discrete ℕ_discrete type_of mediator 1 adding)
      5
      (1, 4)
      []
    ≡ (returned (some 9), 3 ∷ 2 ∷ 1 ∷ [])
unfolding send register execute_pipelines lookup insert ℕ_discrete wrap_all wrap_pipeline
send-run = refl

send-register_example :
    send ℕ_discrete ℕ_discrete type_of
      (register ℕ_discrete ℕ_discrete type_of mediator 1 adding)
      5
      (1, 4)
      []
    ≡ ite
        (ℕ_discrete 1 1)
        (around (pipelines_of ℕ_discrete ℕ_discrete type_of mediator 1) adding 5 (1, 4) [])
        (send ℕ_discrete ℕ_discrete type_of mediator 5 (1, 4) [])
send-register_example = send-register ℕ_discrete ℕ_discrete type_of mediator 1 adding 5 (1, 4) []

abbrev silent : MediatorImp Request ℕ ℕ ℕ ℕ (List ℕ) ℕ
silent = record mediator { handlers = [] }

send-unregister_example :
    send ℕ_discrete ℕ_discrete type_of silent 5 (2, 4) []
    ≡ ite
        (ℕ_discrete 2 2)
        (returned none, [])
        (send ℕ_discrete ℕ_discrete type_of mediator 5 (2, 4) [])
unfolding unregister lookup delete ℕ_discrete
send-unregister_example =
    send-unregister ℕ_discrete ℕ_discrete type_of mediator silent 2 5 (2, 4) [] refl

publish-subscribe_example :
    publish ℕ_discrete ℕ_discrete type_of
      (subscribe ℕ_discrete ℕ_discrete type_of mediator 1 12 (listening 12))
      5
      (1, 4)
      []
    ≡ ite
        (ℕ_discrete 1 1)
        (then_call
          (listening 12)
          5
          (1, 4)
          (publish ℕ_discrete ℕ_discrete type_of mediator 5 (1, 4) []))
        (publish ℕ_discrete ℕ_discrete type_of mediator 5 (1, 4) [])
publish-subscribe_example =
    publish-subscribe ℕ_discrete ℕ_discrete type_of mediator 1 12 (listening 12) 5 (1, 4) []

-- Subscribed after the handler, one of them under the same key.
abbrev later : List (SubscriberEntry Request ℕ ℕ (List ℕ) ℕ)
later =
    record { key = 12; handler = listening 13 } ∷ record { key = 14; handler = listening 14 } ∷ []

publish-unsubscribe_example :
    publish ℕ_discrete ℕ_discrete type_of
      (unsubscribe ℕ_discrete ℕ_discrete type_of
        (subscribe_all ℕ_discrete ℕ_discrete type_of
          (subscribe ℕ_discrete ℕ_discrete type_of mediator 1 12 (listening 12))
          1
          later)
        1
        12)
      5
      (1, 4)
      []
    ≡ publish ℕ_discrete ℕ_discrete type_of
        (subscribe_all ℕ_discrete ℕ_discrete type_of mediator 1 later)
        5
        (1, 4)
        []
unfolding lookup ℕ_discrete
publish-unsubscribe_example =
    publish-unsubscribe ℕ_discrete ℕ_discrete type_of mediator 1 12 (listening 12) later 5 (1, 4) []
      (ground arith, tt)
