-- ===== src/Pubsub/Replies.antt =====
-- What the subscriber of internal/pubsub/subscriber.go replies to a message.
use permissions_api.Base.{
  String, ◌≡◌, ◌≢◌, inl, inr, refl, sym, Option, ap, ◌∙◌, none, some, Option-cases, List, [], ◌∷◌,
  ◌++◌, map, All, arith,
}
use permissions_api.Dict.{Runtime}
use permissions_api.Types
use permissions_api.Types.{Resource}
use permissions_api.Query.Messages.{
  Error, Outcome, ok, err, panic, Reply, answer, failure, touch, delete,
}
use permissions_api.Query.Engine.{Engine, new_resource_from_id, get_resource_type}
use permissions_api.Query.Updates.{relationships_to_updates}
use permissions_api.Query.Monad.{Backend, State, M, attempted, bound, pure}
use permissions_api.Query.Relations.{create_relationships, remove_relationships}
use permissions_api.Query.Permission.{IsAdmitted}
use permissions_api.Query.Tokens.{admitted, answer_to}
use permissions_api.Query.Inversion.{new_resource_from_id-ne-panic}
use permissions_api.Pubsub.{
  Problem, of_engine, unknown_resource_type, invalid_request, Message, Handled, respond_request,
  problem_of, type_problems, relationships_of, apply_or_report, all_problems, create_typed,
  create_in, object_of, handle_create_event, handle_delete_event,
}
use permissions_api.Pubsub.Answers.{
  IsWellFormed, known_type, type_known, relationships_of_lem, append-eq-nil, IsRead-of,
}

module _ (b : Backend) (e : Engine) (g : Runtime) (msg : Message) where
  -- The problems of a write, given what SpiceDB answers to it.
  abbrev pub write_problems : Reply String → List Problem
  write_problems (answer token) = []
  write_problems (failure x) = of_engine x ∷ []

  -- One reply is sent, with no problem if SpiceDB took the write and with its error if not, and the
  -- handler returns the error of sending it.
  abbrev pub IsSent : Reply String → Outcome Handled → Type 0
  IsSent r x =
      x ≡ ok (record { replies = write_problems r ∷ []; error = msg.reply (write_problems r) })

  abbrev replied : Outcome (Unit {0}) × State b → Outcome Handled × State b
  replied x = bound (λ x. pure (respond_request msg (problem_of x))) (attempted x)

  replied_write :
      (x : Outcome (Unit {0}) × State b) (r : Reply String)
      → x.0 ≡ answer_to b r
      → (replied x).0 ≡ ok (respond_request msg (write_problems r))
  replied_write (y, s) (answer token) h = rw h refl
  replied_write (y, s) (failure x) h = rw h refl

  create_reads :
      (rels : List Types.Relationship) (s : State b)
      → IsWellFormed b e msg rels
      → handle_create_event b e g msg s ≡ replied (create_relationships b e g rels s)
  unfolding handle_create_event
  create_reads rels s (resource, (p, t), valid, h) =
      ap (λ r. create_in b e g msg r s) p
      ∙ (elim (Option-cases (get_resource_type e resource.type)) [
        | inl n ↦ absurd (t n)
        | inr (_, n) ↦
            ap (λ o. create_typed b e g msg resource o s) n
            ∙ rw (valid, relationships_of_lem b e resource msg.relations rels h) refl
      ])

  delete_reads :
      (rels : List Types.Relationship) (s : State b)
      → IsWellFormed b e msg rels
      → handle_delete_event b e g msg s ≡ replied (remove_relationships b e g rels s)
  unfolding handle_delete_event
  delete_reads rels s (resource, (p, t), valid, h) =
      rw
        (
          p,
          known_type b e resource.type t,
          valid,
          relationships_of_lem b e resource msg.relations rels h,
        )
        refl

  -- To a well-formed message whose relationships the policy admits, the subscriber sends one reply,
  -- without a problem if SpiceDB takes the write and with its error if not, and returns the error of
  -- sending it; the same for a message that asks for them to be deleted.
  pub handle_event_lem :
      (rels : List Types.Relationship) (s : State b)
      → IsWellFormed b e msg rels
      → All (IsAdmitted e) rels
      → IsSent
          (b.spice_write (relationships_to_updates e rels touch) s.world).0
          (handle_create_event b e g msg s).0
        × IsSent
            (b.spice_write (relationships_to_updates e rels delete) s.world).0
            (handle_delete_event b e g msg s).0
  unfolding respond_request
  handle_event_lem rels s h k =
      let (created, removed) = admitted b e g rels s k in
      (
        ap (λ x. x.0) (create_reads rels s h)
            ∙ replied_write (create_relationships b e g rels s) _ created,
        ap (λ x. x.0) (delete_reads rels s h)
            ∙ replied_write (remove_relationships b e g rels s) _ removed,
      )

  -- The message is only sent one reply, with problems, and nothing is changed; the handler returns
  -- the error of sending it.
  abbrev pub IsRefused : Outcome Handled × State b → State b → Type 0
  IsRefused x s =
      (problems : List Problem) × (problems ≢ [])
      × (x ≡ (ok (record { replies = problems ∷ []; error = msg.reply problems }), s))

  reported :
      (write : List Types.Relationship → M b (Unit {0}))
      (x : List Types.Relationship × List Problem) (s : State b)
      → x.1 ≢ []
      → IsRefused (apply_or_report b e write msg x s) s
  unfolding respond_request
  reported write (rels, []) s h = absurd (h refl)
  reported write (rels, problem ∷ problems) s h = (problem ∷ problems, ground arith, refl)

  validation_empty : (xs : List Error) → map invalid_request xs ≡ [] → xs ≡ []
  validation_empty [] h = refl
  validation_empty (x ∷ xs) h = ground arith

  typed-IsRefused :
      (s : State b) (resource : Resource)
      → ¬ ((rels : List Types.Relationship) × IsWellFormed b e msg rels)
      → new_resource_from_id b.prefix e msg.object_id ≡ ok resource
      → (o : Option Types.ResourceType) → get_resource_type e resource.type ≡ o
      → IsRefused (create_typed b e g msg resource o s) s
  unfolding respond_request
  typed-IsRefused s resource h p none n = (unknown_resource_type ∷ [], ground arith, refl)
  typed-IsRefused s resource h p (some t) n =
      let read = relationships_of b e resource msg.relations in
      reported (create_relationships b e g)
        (all_problems b e (map invalid_request msg.validation) read) s
        (λ q.
          let (valid, none_found) = append-eq-nil b e _ read.1 q in
          h (
            read.0,
            (
              resource,
              (p, λ m. let clash = sym n ∙ m in ground arith),
              validation_empty msg.validation valid,
              IsRead-of b e resource msg.relations none_found,
            ),
          ))

  create-IsRefused :
      (s : State b)
      → ¬ ((rels : List Types.Relationship) × IsWellFormed b e msg rels)
      → (r : Outcome Resource) → new_resource_from_id b.prefix e msg.object_id ≡ r
      → IsRefused (create_in b e g msg r s) s
  unfolding respond_request
  create-IsRefused s h (err x) p = (of_engine x ∷ [], ground arith, refl)
  create-IsRefused s h panic p = absurd (new_resource_from_id-ne-panic b.prefix e msg.object_id p)
  create-IsRefused s h (ok resource) p =
      typed-IsRefused s resource h p (get_resource_type e resource.type) refl

  delete-IsRefused :
      (s : State b)
      → ¬ ((rels : List Types.Relationship) × IsWellFormed b e msg rels)
      → (r : Outcome Resource) → new_resource_from_id b.prefix e msg.object_id ≡ r
      → let (resource, found) = object_of b e r in
        IsRefused
          (apply_or_report b e
            (remove_relationships b e g)
            msg
            (all_problems b e
              (map invalid_request msg.validation ++ found)
              (relationships_of b e resource msg.relations))
            s)
          s
  delete-IsRefused s h panic p = absurd (new_resource_from_id-ne-panic b.prefix e msg.object_id p)
  delete-IsRefused s h (err x) p = reported (remove_relationships b e g) _ s (λ q.
      let (left, _) = append-eq-nil b e (map invalid_request msg.validation ++ _) _ q in
      let (_, clash) = append-eq-nil b e (map invalid_request msg.validation) _ left in
      ground arith)
  delete-IsRefused s h (ok resource) p =
      let read = relationships_of b e resource msg.relations in
      let types = type_problems b e resource.type in
      reported (remove_relationships b e g)
        (all_problems b e (map invalid_request msg.validation ++ types) read) s
        (λ q.
          let (left, none_found) =
            append-eq-nil b e (map invalid_request msg.validation ++ types) read.1 q in
          let (valid, known) = append-eq-nil b e (map invalid_request msg.validation) types left in
          h (
            read.0,
            (
              resource,
              (p, type_known b e resource.type known),
              validation_empty msg.validation valid,
              IsRead-of b e resource msg.relations none_found,
            ),
          ))

  -- A message that is not well formed, whether to create or to delete, is sent one reply, with at
  -- least one problem, nothing is called or changed, and the handler returns the error of sending the
  -- reply.
  pub handle_event-IsRefused :
      (s : State b)
      → ¬ ((rels : List Types.Relationship) × IsWellFormed b e msg rels)
      → IsRefused (handle_create_event b e g msg s) s
        × IsRefused (handle_delete_event b e g msg s) s
  unfolding handle_create_event handle_delete_event
  handle_event-IsRefused s h = (
    create-IsRefused s h (new_resource_from_id b.prefix e msg.object_id) refl,
    delete-IsRefused s h (new_resource_from_id b.prefix e msg.object_id) refl,
  )
