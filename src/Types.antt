-- ===== src/Types.antt =====
-- The domain types of internal/types/types.go. A pointer to an empty struct holds no more than
-- whether it is nil, so it is a `Bool`, true if it is set. An identifier is its text, and a time
-- the number that the database gives.
use permissions_api.Base.{String, ℕ, Bool, Option, List}

pub record Role : Type 0 where
  pub id : String
  pub name : String
  pub manager : String
  pub actions : List String
  pub resource_id : String
  pub created_by : String
  pub updated_by : String
  pub created_at : ℕ
  pub updated_at : ℕ

pub record TargetType : Type 0 where
  pub name : String
  pub subject_identifier : String
  pub subject_relation : String

pub record ResourceTypeRelationship : Type 0 where
  pub relation : String
  pub types : List TargetType

pub record ConditionRelationshipAction : Type 0 where
  pub relation : String
  pub action_name : String

pub record Condition : Type 0 where
  pub role_binding : Bool
  pub role_binding_v2 : Bool
  pub relationship_action : Option ConditionRelationshipAction

pub record ConditionSet : Type 0 where
  pub conditions : List Condition

pub record Action : Type 0 where
  pub name : String
  pub conditions : List Condition
  pub condition_sets : List ConditionSet

pub record ResourceType : Type 0 where
  pub name : String
  pub id_prefix : String
  pub relationships : List ResourceTypeRelationship
  pub actions : List Action

pub record Resource : Type 0 where
  pub type : String
  pub id : String

pub record RoleBindingSubject : Type 0 where
  pub subject_resource : Resource

pub record Relationship : Type 0 where
  pub resource : Resource
  pub relation : String
  pub subject : Resource

pub record RoleBinding : Type 0 where
  pub id : String
  pub resource_id : String
  pub manager : String
  pub role_id : String
  pub subject_ids : List String
  pub created_by : String
  pub updated_by : String
  pub created_at : ℕ
  pub updated_at : ℕ
