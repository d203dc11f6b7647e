-- ===== src/Tests/Messages.antt =====
-- The subscriber of internal/pubsub/subscriber.go at small inputs.
use permissions_api.Base.{◌≡◌, ◌≢◌, refl, inl, none, List, [], ◌∷◌}
use permissions_api.Dict.{lookup}
use permissions_api.Types
use permissions_api.Types.{Resource}
use permissions_api.Query.Messages.{ok, failed, touch, delete}
use permissions_api.Query.Engine.{new_resource_from_id, get_resource_type}
use permissions_api.Query.Updates.{relationships_to_updates}
use permissions_api.Pubsub.{
  Message, Actions, handle_create_event, handle_delete_event, process_event,
}
use permissions_api.Query.Permission.{IsFirst}
use permissions_api.Pubsub.Answers.{IsWellFormed}
use permissions_api.Pubsub.Replies.{IsSent, IsRefused, handle_event_lem, handle_event-IsRefused}
use permissions_api.Pubsub.Settling.{IsSettled, process_event-IsSettled}
use permissions_api.Tests.Inputs.{in_order}
use permissions_api.Tests.World.{calm, engine, tenant_type, at_rest}

abbrev place : Resource
place = record { type = "tenant"; id = "tnntten" }

abbrev message : Message
message = record {
  error = none;
  action = "write";
  object_id = "tnntten";
  relations = record { relation = "parent"; subject_id = "tnntten" } ∷ [];
  validation = [];
  reply = λ ps. none;
}

abbrev parents : List Types.Relationship
parents = record { resource = place; relation = "parent"; subject = place } ∷ []

found : new_resource_from_id calm.prefix engine "tnntten" ≡ ok place
unfolding new_resource_from_id lookup
found = refl

typed : get_resource_type engine "tenant" ≢ none
unfolding get_resource_type lookup
typed h = cc

tenant_found : IsFirst "tenant" (tenant_type ∷ []) tenant_type
tenant_found = inl (refl, refl)

well_formed : IsWellFormed calm engine message parents
well_formed = (place, (found, typed), refl, (place, [], (found, typed), refl, refl))

handle_event_lem_example :
    IsSent calm engine in_order message
      (calm.spice_write (relationships_to_updates engine parents touch) tt).0
      (handle_create_event calm engine in_order message at_rest).0
    × IsSent calm engine in_order message
        (calm.spice_write (relationships_to_updates engine parents delete) tt).0
        (handle_delete_event calm engine in_order message at_rest).0
handle_event_lem_example =
    handle_event_lem calm engine in_order message parents at_rest well_formed
      ((tenant_type, tenant_found, tenant_type, tenant_found, inl (refl, inl refl)), tt)

-- A message whose validation fails.
abbrev rejected : Message
rejected = record message { validation = failed ∷ [] }

handle_event-IsRefused_example :
    IsRefused calm engine in_order rejected
      (handle_create_event calm engine in_order rejected at_rest)
      at_rest
    × IsRefused calm engine in_order rejected
        (handle_delete_event calm engine in_order rejected at_rest)
        at_rest
handle_event-IsRefused_example =
    handle_event-IsRefused calm engine in_order rejected at_rest
      (λ (rels, (resource, named, valid, read)). cc)

abbrev actions : Actions
actions = record { write = "write"; delete = "delete" }

process_event-IsSettled_example :
    IsSettled message (process_event calm engine in_order actions message at_rest)
process_event-IsSettled_example =
    process_event-IsSettled calm engine in_order message actions at_rest
