-- ===== src/Iapl/Schema/Called.antt =====
-- What `Schema` of internal/iapl/policy.go should give for each resource type of a policy: what the
-- bindings of the type call for, written out without the functions of the code.
use Prim.Native.String
use permissions_api.Base.{
  String, Bool, true, false, ◌≡◌, refl, ap, ◌∙◌, Option, none, some, List, [], ◌∷◌, ◌++◌, map,
  Bool-cases, inl, inr, ◌==◌, when, if◌then◌else◌, Option-cases,
}
use mathlib.Core.Option
use mathlib.Core.List.{flat_map}
use permissions_api.Dict.{lookup}
use permissions_api.Types
use permissions_api.Iapl.Document.{
  ResourceRoleBindingV2, Relationship, ResourceType, Condition, ActionBinding,
}
use permissions_api.Iapl.Rbac.{
  create_role_binding_actions_for_resource, create_role_binding_conditions_for_action,
}
use permissions_api.Iapl.Policy.{Policy}
use permissions_api.Iapl.Schema.{role_binding_v2_of, out_conditions, out_action}
use permissions_api.Iapl.Schema.Spec.{
  condition_relationships, relationships_for, actions_for, uses_role_bindings,
  role_binding_actions_for, grown_type,
}

-- The bindings of a type, in their order.
abbrev pub own : String → List ActionBinding → List ActionBinding
own n [] = []
own n (b ∷ bn) = if b.type_name == n then b ∷ own n bn else own n bn

abbrev pub plain : Option Types.ConditionRelationshipAction → Types.Condition
plain action = record {
  role_binding = false;
  role_binding_v2 = false;
  relationship_action = action;
}

abbrev pub through : String → String → Types.Condition
through action relation = plain (some (record { relation = relation; action_name = action }))

-- By a grant of the action, or through each of the relations.
abbrev pub granted : String → List String → List Types.Condition
granted action relations =
    record {
      role_binding = false;
      role_binding_v2 = true;
      relationship_action = some (record { relation = "grant"; action_name = action });
    }
    ∷ map (through action) relations

-- The relations that all actions are inherited through.
abbrev pub inherited_through : Bool → List String → List String
inherited_through true relations = relations
inherited_through false relations = []

-- The conditions for one condition of a binding: a role binding of the first kind, one of the
-- second kind, on a type that has those, or a relation to follow.
abbrev pub called_conditions :
    String
    → Option ResourceRoleBindingV2
    → Bool
    → Bool
    → Option Types.ConditionRelationshipAction
    → List Types.Condition
called_conditions action rbv2 true v2 follow =
    record {
      role_binding = true;
      role_binding_v2 = false;
      relationship_action =
          some (record { relation = String.◌++◌ action "_rel"; action_name = "" });
    }
    ∷ []
called_conditions action (some r) false true follow =
    granted action (inherited_through r.inherit_all_actions r.inherit_permissions_from)
called_conditions action none false true follow = plain follow ∷ []
called_conditions action rbv2 false false follow = plain follow ∷ []

abbrev conditions_of : String → Option ResourceRoleBindingV2 → Condition → List Types.Condition
conditions_of action rbv2 c =
    called_conditions action rbv2 c.role_binding c.role_binding_v2 c.relationship_action

abbrev pub called_action : Option ResourceRoleBindingV2 → ActionBinding → Types.Action
called_action rbv2 b = record {
  name = b.action_name;
  conditions = flat_map (conditions_of b.action_name rbv2) b.conditions;
  condition_sets = b.condition_sets;
}

-- A role binding of the first kind needs a relation from the type to the subjects of roles.
abbrev pub called_relationship : String → Condition → List Types.ResourceTypeRelationship
called_relationship action c =
    if c.role_binding
    then record {
      relation = String.◌++◌ action "_rel";
      types = record { name = "role"; subject_identifier = ""; subject_relation = "subject" } ∷ [];
    }
      ∷ []
    else []

abbrev pub called_relationships : ActionBinding → List Types.ResourceTypeRelationship
called_relationships b = flat_map (called_relationship b.action_name) b.conditions

-- The actions on role bindings.
abbrev pub management : List String → List Types.Action
management relations =
    map
      (λ action. record {
        name = action;
        conditions = granted action relations;
        condition_sets = [];
      })
      ("iam_rolebinding_create" ∷ "iam_rolebinding_update" ∷ "iam_rolebinding_delete"
        ∷ "iam_rolebinding_get" ∷ "iam_rolebinding_list" ∷ [])

-- They are called for once, if the type has role bindings of the second kind and uses them.
abbrev pub called_management : Option ResourceRoleBindingV2 → Bool → List Types.Action
called_management none used = []
called_management (some r) used = when used (management r.inherit_permissions_from)

abbrev pub declared : Relationship → Types.ResourceTypeRelationship
declared rel = record { relation = rel.relation; types = rel.target_types }

abbrev pub expected_type : Policy → String → ResourceType → Types.ResourceType
expected_type v n rt = record {
  name = rt.name;
  id_prefix = rt.id_prefix;
  relationships = map declared rt.relationships ++ flat_map called_relationships (own n v.bn);
  actions =
      map (called_action rt.role_binding_v2) (own n v.bn)
      ++ called_management rt.role_binding_v2 (uses_role_bindings n v.bn);
}

inherits-eq :
    (all : Bool) (relations : List String)
    → (if all then relations else []) ≡ inherited_through all relations
inherits-eq true relations = refl
inherits-eq false relations = refl

conditions-eq :
    (action : String) (rbv2 : Option ResourceRoleBindingV2) (v1 v2 : Bool)
    (follow : Option Types.ConditionRelationshipAction)
    → out_conditions action rbv2
        (record { role_binding = v1; role_binding_v2 = v2; relationship_action = follow })
      ≡ called_conditions action rbv2 v1 v2 follow
unfolding out_conditions create_role_binding_conditions_for_action
conditions-eq action rbv2 true v2 follow = refl
conditions-eq action (some r) false true follow =
    ap (granted action) (inherits-eq r.inherit_all_actions r.inherit_permissions_from)
conditions-eq action none false true follow = refl
conditions-eq action rbv2 false false follow = refl

conditions_lem :
    (action : String) (rbv2 : Option ResourceRoleBindingV2) (c : Condition)
    → out_conditions action rbv2 c ≡ conditions_of action rbv2 c
conditions_lem action rbv2 c =
    conditions-eq action rbv2 c.role_binding c.role_binding_v2 c.relationship_action

action_lem :
    (rbv2 : Option ResourceRoleBindingV2) (b : ActionBinding)
    → out_action b rbv2 ≡ called_action rbv2 b
unfolding out_action
action_lem rbv2 b = λ i. record {
  name = b.action_name;
  conditions = flat_map (λ c. conditions_lem b.action_name rbv2 c i) b.conditions;
  condition_sets = b.condition_sets;
}

actions_lem :
    (rbv2 : Option ResourceRoleBindingV2) (n : String) (bn : List ActionBinding)
    → actions_for rbv2 n bn ≡ map (called_action rbv2) (own n bn)
unfolding actions_for
actions_lem rbv2 n [] = refl
actions_lem rbv2 n (b ∷ bn) = elim (Bool-cases (b.type_name == n)) [
  | inl e ↦ rw (e, actions_lem rbv2 n bn, action_lem rbv2 b) refl
  | inr e ↦ rw (e, actions_lem rbv2 n bn) refl
]

condition_relationships_lem :
    (action : String) (cs : List Condition)
    → condition_relationships action cs ≡ flat_map (called_relationship action) cs
unfolding condition_relationships flat_map
condition_relationships_lem action [] = refl
condition_relationships_lem action (c ∷ cs) = elim (Bool-cases c.role_binding) [
  | inl e ↦ rw (e, condition_relationships_lem action cs) refl
  | inr e ↦ rw (e, condition_relationships_lem action cs) refl
]

relationships_lem :
    (n : String) (bn : List ActionBinding)
    → relationships_for n bn ≡ flat_map called_relationships (own n bn)
unfolding relationships_for flat_map
relationships_lem n [] = refl
relationships_lem n (b ∷ bn) = elim (Bool-cases (b.type_name == n)) [
  | inl e ↦
      rw (e, condition_relationships_lem b.action_name b.conditions, relationships_lem n bn) refl
  | inr e ↦ rw (e, relationships_lem n bn) refl
]

management_lem :
    (rbv2 : Option ResourceRoleBindingV2) (n : String) (bn : List ActionBinding)
    → role_binding_actions_for rbv2 n bn ≡ called_management rbv2 (uses_role_bindings n bn)
unfolding role_binding_actions_for create_role_binding_actions_for_resource
    create_role_binding_conditions_for_action
management_lem none n bn = refl
management_lem (some r) n bn = refl

type_lem :
    (v : Policy) (n : String) (rt : ResourceType)
    → role_binding_v2_of v n ≡ rt.role_binding_v2
    → grown_type v n rt ≡ expected_type v n rt
unfolding grown_type
type_lem v n rt e = λ i. record {
  name = rt.name;
  id_prefix = rt.id_prefix;
  relationships = map declared rt.relationships ++ relationships_lem n v.bn i;
  actions =
      (ap (λ r. actions_for r n v.bn) e ∙ actions_lem rt.role_binding_v2 n v.bn) i
      ++ (ap (λ r. role_binding_actions_for r n v.bn) e ∙ management_lem rt.role_binding_v2 n v.bn)
          i;
}

-- The loops give the types that are called for.
pub grown_type_lem :
    (v : Policy) (n : String)
    → Option.map (grown_type v n) (lookup n v.rt) ≡ Option.map (expected_type v n) (lookup n v.rt)
unfolding role_binding_v2_of
grown_type_lem v n = elim (Option-cases (lookup n v.rt)) [
  | inl e ↦ rw e refl
  | inr (rt, e) ↦ rw e (ap some (type_lem v n rt (rw (e, role_binding_v2_of) refl)))
]
