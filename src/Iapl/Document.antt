-- ===== src/Iapl/Document.antt =====
-- The policy document of internal/iapl/policy.go and how documents are merged, with the data
-- types of internal/iapl/rbac.go. A file that has been decoded is the list of its YAML documents;
-- opening and decoding it is outside the model and may fail.
use permissions_api.Base.{
  String, Bool, Option, none, some, List, [], ◌∷◌, ◌++◌, ◌&&◌, is_some, if◌then◌else◌,
}
use permissions_api.Types.{TargetType, ConditionSet, ConditionRelationshipAction}

-- The sentinel errors of internal/iapl/errors.go, one for a prefix that gidx refuses, and one for
-- a file that cannot be opened or decoded.
pub data Error : Type 0 where
  type_exists action_binding_exists unknown_type invalid_condition : Error
  unknown_relation unknown_action missing_relationship duplicate_rbac_definition : Error
  bad_prefix bad_file : Error

pub record ResourceRoleBindingV2 : Type 0 where
  pub inherit_permissions_from : List String
  pub inherit_all_actions : Bool

pub record Relationship : Type 0 where
  pub relation : String
  pub target_types : List TargetType

pub record ResourceType : Type 0 where
  pub name : String
  pub id_prefix : String
  pub role_binding_v2 : Option ResourceRoleBindingV2
  pub relationships : List Relationship

pub record Union : Type 0 where
  pub name : String
  pub resource_types : List TargetType

pub record Action : Type 0 where
  pub name : String

pub record Condition : Type 0 where
  pub role_binding : Bool
  pub role_binding_v2 : Bool
  pub relationship_action : Option ConditionRelationshipAction

pub record ActionBinding : Type 0 where
  pub action_name : String
  pub type_name : String
  pub conditions : List Condition
  pub condition_sets : List ConditionSet

pub record RbacResourceDefinition : Type 0 where
  pub name : String
  pub id_prefix : String

pub record Rbac : Type 0 where
  pub role_resource : RbacResourceDefinition
  pub role_binding_resource : RbacResourceDefinition
  pub role_subject_types : List String
  pub role_owners : List String
  pub role_binding_subjects : List TargetType

pub record PolicyDocument : Type 0 where
  pub resource_types : List ResourceType
  pub unions : List Union
  pub actions : List Action
  pub action_bindings : List ActionBinding
  pub rbac : Option Rbac

abbrev pub empty_document : PolicyDocument
empty_document = record {
  resource_types = [];
  unions = [];
  actions = [];
  action_bindings = [];
  rbac = none;
}

-- `if other.RBAC != nil { p.RBAC = other.RBAC }`
abbrev pub later_rbac : Option Rbac → Option Rbac → Option Rbac
later_rbac old none = old
later_rbac old (some new) = some new

unfoldable pub merge_with_policy_document : PolicyDocument → PolicyDocument → PolicyDocument
merge_with_policy_document p other = record {
  resource_types = p.resource_types ++ other.resource_types;
  unions = p.unions ++ other.unions;
  actions = p.actions ++ other.actions;
  action_bindings = p.action_bindings ++ other.action_bindings;
  rbac = later_rbac p.rbac other.rbac;
}

pub data Loaded : Type 0 where
  ok : PolicyDocument → Loaded
  err : Error → Loaded

-- What the decoder gives for a file: documents to the end of the file, or to an error.
pub data Decoded : Type 0 where
  eof : Decoded
  fault : Decoded
  next : PolicyDocument → Decoded → Decoded

-- The decoding loop of `loadPolicyDocumentFromFile`.
unfoldable pub merge_file : PolicyDocument → Decoded → Loaded
merge_file final eof = ok final
merge_file final fault = err bad_file
merge_file final (next p rest) =
    let more = merge_file (merge_with_policy_document final p) rest in
    if is_some final.rbac && is_some p.rbac then err duplicate_rbac_definition else more

-- `none` stands for a path that cannot be opened.
unfoldable pub load_policy_document_from_file : Option Decoded → Loaded
load_policy_document_from_file none = err bad_file
load_policy_document_from_file (some file) = merge_file empty_document file

unfoldable pub load_files_from : PolicyDocument → List (Option Decoded) → Loaded
load_files_from p [] = ok p
load_files_from p (f ∷ fs) = elim (load_policy_document_from_file f) [
  | ok q ↦ load_files_from (merge_with_policy_document p q) fs
  | err e ↦ err e
]

unfoldable pub load_policy_document_from_files : List (Option Decoded) → Loaded
load_policy_document_from_files = load_files_from empty_document
