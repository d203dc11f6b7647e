-- ===== src/Api/Relationships.antt =====
-- The handlers that list relationships of internal/api/relationships.go.
use permissions_api.Base.{ℕ, String, List, map}
use permissions_api.Dict.{Runtime}
use permissions_api.Types
use permissions_api.Query.Messages.{Error, invalid_type}
use permissions_api.Query.Engine.{Engine}
use permissions_api.Query.Monad.{Backend}
use permissions_api.Query.Listings.{list_relationships_from, list_relationships_to}
use permissions_api.Api.Http.{Response, H, respond, ◌>>=◌, engine, parse, always, resource_of}

-- A field that is not set is left out of the body.
pub record RelationshipItem : Type 0 where
  pub resource_id : String
  pub relation : String
  pub subject_id : String

abbrev pub unsupported_status : Error → ℕ
unsupported_status invalid_type = 400
unsupported_status x = 500

abbrev from_item : Types.Relationship → RelationshipItem
from_item rel = record { resource_id = ""; relation = rel.relation; subject_id = rel.subject.id }

abbrev to_item : Types.Relationship → RelationshipItem
to_item rel = record { resource_id = rel.resource.id; relation = rel.relation; subject_id = "" }

module _ (b : Backend) (e : Engine) where
  unfoldable pub relationship_list_from : String → H b (Response (List RelationshipItem))
  relationship_list_from id = do
    resource_id ← parse 400 id
    resource ← resource_of b e (always 400) resource_id
    rels ← engine (always 500) (list_relationships_from b e resource)
    respond 200 (map from_item rels)

  unfoldable pub relationship_list_to : Runtime → String → H b (Response (List RelationshipItem))
  relationship_list_to g id = do
    resource_id ← parse 400 id
    resource ← resource_of b e (always 400) resource_id
    rels ← engine unsupported_status (list_relationships_to b e g resource)
    respond 200 (map to_item rels)
