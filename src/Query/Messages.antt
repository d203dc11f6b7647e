-- ===== src/Query/Messages.antt =====
-- What the engine of internal/query exchanges with SpiceDB and with the database: the messages
-- that the source builds, with the fields that it sets, the rows of internal/storage, and errors.
use permissions_api.Base.{String, ℕ, Option}

-- The sentinel errors of internal/query/errors.go that the modelled operations return, those of
-- internal/storage/errors.go that are tested for, an identifier that gidx refuses, a request that
-- SpiceDB rejects as invalid or as failing a precondition, and any other.
pub data Error : Type 0 where
  action_not_assigned invalid_action invalid_namespace invalid_type invalid_relationship : Error
  role_not_found role_binding_not_found invalid_role_binding_subject_type : Error
  role_binding_has_no_relationships role_v2_resource_not_defined delete_role_in_use : Error
  no_role_found storage_role_binding_not_found role_already_exists role_name_taken : Error
  bad_id rejected failed : Error

-- What a call of Go gives: a result, an error, or a panic.
pub data Outcome (A : Type 0) : Type 0 where
  ok : A → Outcome A
  err : Error → Outcome A
  panic : Outcome A

-- What a call of the outside answers.
pub data Reply (A : Type 0) : Type 0 where
  answer : A → Reply A
  failure : Error → Reply A

pub data Operation : Type 0 where
  create touch delete unspecified : Operation

pub record ObjectReference : Type 0 where
  pub object_type : String
  pub object_id : String

pub record SubjectReference : Type 0 where
  pub object : ObjectReference
  pub optional_relation : String

pub record Relationship : Type 0 where
  pub resource : ObjectReference
  pub relation : String
  pub subject : SubjectReference

pub record Update : Type 0 where
  pub operation : Operation
  pub relationship : Relationship

pub record SubjectFilter : Type 0 where
  pub subject_type : String
  pub optional_subject_id : String
  pub optional_relation : Option String

pub record Filter : Type 0 where
  pub resource_type : String
  pub optional_resource_id : String
  pub optional_relation : String
  pub optional_subject_filter : Option SubjectFilter

pub data Consistency : Type 0 where
  minimize_latency : Consistency
  at_least_as_fresh : String → Consistency
  fully_consistent : Consistency

pub record CheckRequest : Type 0 where
  pub consistency : Consistency
  pub resource : ObjectReference
  pub permission : String
  pub subject : ObjectReference

pub record LookupRequest : Type 0 where
  pub consistency : Consistency
  pub resource : ObjectReference
  pub permission : String
  pub subject_object_type : String

-- A role as the database holds it, `storage.Role`.
pub record StorageRole : Type 0 where
  pub id : String
  pub name : String
  pub manager : String
  pub resource_id : String
  pub created_by : String
  pub updated_by : String
  pub created_at : ℕ
  pub updated_at : ℕ
