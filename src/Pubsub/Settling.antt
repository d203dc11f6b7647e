-- ===== src/Pubsub/Settling.antt =====
-- How the subscriber of internal/pubsub/subscriber.go settles a message: acknowledged, or refused
-- to be delivered again.
use permissions_api.Base.{
  ◌≡◌, ◌↔◌, refl, none, some, Option, true, false, Bool, List, [], ◌∷◌, ◌==◌, All, if◌then◌else◌,
  arith,
}
use permissions_api.Dict.{Runtime}
use permissions_api.Types
use permissions_api.Types.{Resource}
use permissions_api.Query.Messages.{Error, Outcome, ok, err, panic}
use permissions_api.Query.Engine.{Engine, new_resource_from_id, get_resource_type}
use permissions_api.Query.Monad.{Backend, State, M, attempted, bound, pure}
use permissions_api.Query.Relations.{create_relationships, remove_relationships}
use permissions_api.Pubsub.{
  Problem, of_engine, unknown_resource_type, Message, Actions, Handled, acked, naked, settlement,
  settled_by, process_in, respond_request, problem_of, apply_or_report, create_typed, create_in,
  handle_create_event, handle_delete_event, process_event,
}

-- A message that was sent replies is refused only if one of them was not delivered.
abbrev pub IsSettled : {S : Type 0} → Message → Outcome Handled × S → Type 0
IsSettled msg (ok h, s) =
    (settlement h ≡ acked) ↔ ((msg.error ≡ none) × All (λ ps. msg.reply ps ≡ none) h.replies)
IsSettled msg (err x, s) = ⊥
IsSettled msg (panic, s) = Unit

module _ (b : Backend) (e : Engine) (g : Runtime) (msg : Message) where
  responded :
      (problems : List Problem)
      → msg.error ≡ none
      → (settlement (respond_request msg problems) ≡ acked) ↔ (
          (msg.error ≡ none)
          × All (λ ps. msg.reply ps ≡ none) (respond_request msg problems).replies)
  unfolding respond_request
  responded problems clean = go (msg.reply problems)
    where
      go :
          (r : Option Error)
          → (settled_by r ≡ acked) ↔ ((msg.error ≡ none) × ((r ≡ none) × Unit {0}))
      go none = (λ _. (clean, (refl, tt)), λ _. refl)
      go (some x) = ground arith

  applied :
      (write : List Types.Relationship → M b (Unit {0}))
      (x : List Types.Relationship × List Problem) (s : State b)
      → msg.error ≡ none
      → IsSettled msg (apply_or_report b e write msg x s)
  applied write (rels, []) s clean = go (write rels s)
    where
      go :
          (y : Outcome (Unit {0}) × State b)
          → IsSettled msg (bound (λ x. pure (respond_request msg (problem_of x))) (attempted y))
      go (ok _, t) = responded [] clean
      go (err x, t) = responded (of_engine x ∷ []) clean
      go (panic, t) = tt
  applied write (rels, problem ∷ problems) s clean = responded (problem ∷ problems) clean

  created :
      (s : State b) (r : Outcome Resource)
      → msg.error ≡ none
      → IsSettled msg (create_in b e g msg r s)
  created s (err x) clean = responded (of_engine x ∷ []) clean
  created s panic clean = tt
  created s (ok resource) clean = typed (get_resource_type e resource.type)
    where
      typed : (o : Option Types.ResourceType) → IsSettled msg (create_typed b e g msg resource o s)
      typed none = responded (unknown_resource_type ∷ []) clean
      typed (some t) = applied (create_relationships b e g) _ s clean

  -- Unless its handling panics, a message is acknowledged exactly if it carries no error and each
  -- reply that it was sent was delivered, whatever the reply reports.
  pub process_event-IsSettled :
      (actions : Actions) (s : State b) → IsSettled msg (process_event b e g actions msg s)
  unfolding process_event handle_create_event handle_delete_event
  process_event-IsSettled actions s = go msg.error refl
    where
      unsettled :
          (x : Error) → msg.error ≡ some x → (naked ≡ acked) ↔ ((msg.error ≡ none) × Unit {0})
      unsettled x h = ground arith

      chosen :
          (w d : Bool)
          → msg.error ≡ none
          → IsSettled msg (
              (if w
                  then handle_create_event b e g msg
                  else if d
                  then handle_delete_event b e g msg
                  else pure (record { replies = []; error = none }))
                s)
      chosen true d clean = created s (new_resource_from_id b.prefix e msg.object_id) clean
      chosen false true clean = applied (remove_relationships b e g) _ s clean
      chosen false false clean = (λ _. (clean, tt), λ _. refl)

      go : (o : Option Error) → msg.error ≡ o → IsSettled msg (process_in b e g actions msg o s)
      go none h = chosen (msg.action == actions.write) (msg.action == actions.delete) h
      go (some x) h = unsettled x h
