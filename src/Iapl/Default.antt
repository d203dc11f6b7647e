-- ===== src/Iapl/Default.antt =====
-- The policy that is used where none is configured (internal/iapl/default.go).
use permissions_api.Base.{String, Bool, true, false, Option, none, some, List, [], ◌∷◌}
use permissions_api.Dict.{Runtime}
use permissions_api.Iapl.Document.{
  Error, Relationship, ResourceType, Union, Action, Condition, ActionBinding, PolicyDocument,
}
use permissions_api.Iapl.Policy.{Policy, named, new_policy}
use permissions_api.Iapl.Validate.{validate}

abbrev type_of : String → String → List Relationship → ResourceType
type_of name id_prefix relationships = record {
  name = name;
  id_prefix = id_prefix;
  role_binding_v2 = none;
  relationships = relationships;
}

abbrev relation_to : String → String → Relationship
relation_to relation target = record { relation = relation; target_types = named target ∷ [] }

abbrev by_role_binding : Condition
by_role_binding = record {
  role_binding = true;
  role_binding_v2 = false;
  relationship_action = none;
}

abbrev by_relationship : String → String → Condition
by_relationship relation action = record {
  role_binding = false;
  role_binding_v2 = false;
  relationship_action = some (record { relation = relation; action_name = action });
}

-- An action on a type, by a role or by the same action on what the relation leads to.
abbrev binding_of : String → String → String → ActionBinding
binding_of action type_name relation = record {
  action_name = action;
  type_name = type_name;
  conditions = by_role_binding ∷ by_relationship relation action ∷ [];
  condition_sets = [];
}

abbrev default_unions : List Union
default_unions =
    record { name = "subject"; resource_types = named "user" ∷ named "client" ∷ [] }
    ∷ record { name = "resourceowner"; resource_types = named "tenant" ∷ [] }
    ∷ []

abbrev action_named : String → Action
action_named name = record { name = name }

abbrev pub default_policy_document : PolicyDocument
default_policy_document = record {
  resource_types =
      type_of "role" "permrol" (relation_to "subject" "subject" ∷ [])
      ∷ type_of "user" "idntusr" []
      ∷ type_of "client" "idntcli" []
      ∷ type_of "tenant" "tnntten" (relation_to "parent" "tenant" ∷ [])
      ∷ type_of "loadbalancer" "loadbal" (relation_to "owner" "resourceowner" ∷ [])
      ∷ [];
  unions = default_unions;
  actions =
      action_named "loadbalancer_create"
      ∷ action_named "loadbalancer_get"
      ∷ action_named "loadbalancer_list"
      ∷ action_named "loadbalancer_update"
      ∷ action_named "loadbalancer_delete"
      ∷ [];
  action_bindings =
      binding_of "loadbalancer_create" "resourceowner" "parent"
      ∷ binding_of "loadbalancer_get" "resourceowner" "parent"
      ∷ binding_of "loadbalancer_update" "resourceowner" "parent"
      ∷ binding_of "loadbalancer_list" "resourceowner" "parent"
      ∷ binding_of "loadbalancer_delete" "resourceowner" "parent"
      ∷ binding_of "loadbalancer_get" "loadbalancer" "owner"
      ∷ binding_of "loadbalancer_update" "loadbalancer" "owner"
      ∷ binding_of "loadbalancer_delete" "loadbalancer" "owner"
      ∷ [];
  rbac = none;
}

abbrev accepted : Policy → Option Error → Option Policy
accepted v none = some v
accepted v (some x) = none

-- `none` stands for the panic.
unfoldable pub default_policy : Runtime → (String → Bool) → Option Policy
default_policy g prefix_ok =
    let v = new_policy g default_policy_document in accepted v (validate g prefix_ok v)
