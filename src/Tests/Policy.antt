-- ===== src/Tests/Policy.antt =====
-- The policy of internal/iapl/policy.go at small documents.
use permissions_api.Base.{
  Exists, ◌++◌, arith, any, first_error, ◌≡◌, ◌↔◌, refl, true, some, [], ◌∷◌, map,
}
use permissions_api.Dict.{Dict, lookup, insert}
use permissions_api.Types
use mathlib.Core.List.{flatten}
use permissions_api.Iapl.Expand.{Means, new_policy-Binds}
use permissions_api.Iapl.Merge.{
  joined, decoded, load_policy_document_from_files_lem, duplicate_rbac_lem,
}
use permissions_api.Iapl.Document.{
  ok, err, duplicate_rbac_definition, load_policy_document_from_files,
}
use permissions_api.Iapl.Policy.{
  Policy, new_policy, start, index, expand_rbac, expand_action_bindings, expand_resource_types,
  expand_resource_type, expand_target_types, expand_action_binding, add_binding,
}
use permissions_api.Iapl.Validate
use permissions_api.Iapl.Validate.{validate, is_bound}
use permissions_api.Iapl.Valid.Spec.{Binds}
use permissions_api.Iapl.Default.{default_policy_document, default_policy}
use permissions_api.Tests.Inputs.{target, in_order, tenants, with_rbac}

-- The default policy is accepted.
default_accepted :
    default_policy in_order (λ _. true) ≡ some (new_policy in_order default_policy_document)
unfolding default_policy validate Validate.validate_unions Validate.validate_union
    Validate.validate_union_member Validate.validate_resource_types Validate.validate_resource_type
    Validate.validate_relationship Validate.validate_target_type Validate.validate_action_bindings
    Validate.validate_bindings_from Validate.validate_action_binding Validate.validate_conditions
    Validate.validate_condition Validate.num_clauses Validate.validate_condition_relationship_action
    Validate.find_by_relation Validate.is_bound Validate.validate_roles Validate.find_relationship
    Validate.find_action_binding new_policy start index expand_rbac expand_action_bindings
    expand_resource_types expand_resource_type expand_target_types expand_action_binding add_binding
    lookup insert any first_error
default_accepted = refl

new_policy-Binds_example :
    let bound =
      Exists
        (λ b. (b.action_name ≡ "view") × Means tenants.unions b.type_name "tenant")
        tenants.action_bindings in
    (Binds (new_policy in_order tenants).bn "view" "tenant" ↔ bound)
    × ((is_bound (new_policy in_order tenants).rb "tenant" "view" ≡ true) ↔ bound)
new_policy-Binds_example = new_policy-Binds in_order tenants "view" "tenant" refl

load_policy_document_from_files_lem_example :
    load_policy_document_from_files
      (map (λ ds. some (decoded ds)) ((tenants ∷ []) ∷ (with_rbac ∷ []) ∷ []))
    ≡ ok (joined (flatten ((tenants ∷ []) ∷ (with_rbac ∷ []) ∷ [])))
load_policy_document_from_files_lem_example =
    load_policy_document_from_files_lem ((tenants ∷ []) ∷ (with_rbac ∷ []) ∷ [])
      (omega arith, (omega arith, tt))

duplicate_rbac_lem_example :
    (load_policy_document_from_files (some (decoded ((with_rbac ∷ []) ++ (with_rbac ∷ []))) ∷ [])
      ≡ err duplicate_rbac_definition)
    × (load_policy_document_from_files
          (some (decoded (with_rbac ∷ [])) ∷ some (decoded (with_rbac ∷ [])) ∷ [])
        ≡ ok (joined ((with_rbac ∷ []) ++ (with_rbac ∷ []))))
duplicate_rbac_lem_example = duplicate_rbac_lem (with_rbac ∷ []) (with_rbac ∷ []) refl refl

abbrev policy : Policy
policy = record {
  rt = [];
  un = ("owner", record { name = "owner"; resource_types = target "tenant" ∷ [] }) ∷ [];
  ac = [];
  rb = [];
  bn = [];
  p = tenants;
}
