-- ===== src/Iapl/Valid/Spec.antt =====
-- What a valid policy is, stated without the loops, flags and indexes of `Validate` in
-- internal/iapl/policy.go.
use permissions_api.Base.{
  String, ◌≡◌, ◌≢◌, ◌⊎◌, Bool, true, false, none, some, List, [], ◌∷◌, All, Exists, Holds,
}
use permissions_api.Dict.{lookup}
use permissions_api.Types.{TargetType, ConditionRelationshipAction}
use permissions_api.Iapl.Document.{Relationship, ResourceType, Union, Condition, ActionBinding}
use permissions_api.Iapl.Policy.{Policy}
use permissions_api.Iapl.Validate.{relationships_of, role_owners_of}

-- The policy has a resource type of that name.
abbrev pub Declares : Policy → String → Type 0
Declares v name = lookup name v.rt ≢ none

abbrev pub IsValidUnion : Policy → Union → Type 0
IsValidUnion v u = (lookup u.name v.rt ≡ none) × All (λ t. Declares v t.name) u.resource_types

abbrev pub HasRelation : List Relationship → String → Type 0
HasRelation rels name = Exists (λ rel. rel.relation ≡ name) rels

-- Some binding of the policy gives the action to the type.
abbrev pub Binds : List ActionBinding → String → String → Type 0
Binds bn action_name type_name =
    Exists (λ b. (b.action_name ≡ action_name) × (b.type_name ≡ type_name)) bn

-- A target's type is declared, and its subject relation, if it has one, is a relation or a bound
-- action of that type.
abbrev pub IsValidTarget : Policy → TargetType → Type 0
IsValidTarget v t =
    Declares v t.name
    × ((t.subject_relation ≡ "")
        ⊎ (HasRelation (relationships_of v t.name) t.subject_relation
            ⊎ Binds v.bn t.subject_relation t.name))

abbrev pub IsValidRelationship : Policy → Relationship → Type 0
IsValidRelationship v rel = All (IsValidTarget v) rel.target_types

abbrev pub IsValidResourceType : (String → Bool) → Policy → String × ResourceType → Type 0
IsValidResourceType prefix_ok v e =
    (prefix_ok e.1.id_prefix ≡ true) × All (IsValidRelationship v) e.1.relationships

-- The first relationship of that name satisfies `P`.
abbrev pub FirstNamed : String → (Relationship → Type 0) → List Relationship → Type 0
FirstNamed name P [] = ⊥
FirstNamed name P (rel ∷ rels) =
    ((name ≡ rel.relation) × P rel) ⊎ ((name ≢ rel.relation) × FirstNamed name P rels)

-- The action of a condition on another resource is bound to all that the relation leads to, if
-- the condition names an action.
abbrev pub LeadsToAction : Policy → String → Relationship → Type 0
LeadsToAction v action rel = (action ≡ "") ⊎ All (λ t. Binds v.bn action t.name) rel.target_types

-- A condition on another resource names a relation of the type.
abbrev pub IsValidStep : Policy → ResourceType → ConditionRelationshipAction → Type 0
IsValidStep v rt c = FirstNamed c.relation (LeadsToAction v c.action_name) rt.relationships

-- Exactly one of the three kinds of condition, and a valid one.
abbrev pub IsValidCondition : Policy → ResourceType → Condition → Type 0
IsValidCondition v rt c =
    ((c.role_binding ≡ true) × (c.role_binding_v2 ≡ false) × (c.relationship_action ≡ none))
    ⊎ (((c.role_binding ≡ false) × (c.role_binding_v2 ≡ true) × (c.relationship_action ≡ none))
        ⊎ ((c.role_binding ≡ false)
            × (c.role_binding_v2 ≡ false)
            × ((a : ConditionRelationshipAction) × (c.relationship_action ≡ some a)
                × IsValidStep v rt a)))

abbrev pub IsValidBinding : Policy → ActionBinding → Type 0
IsValidBinding v b =
    (b.action_name ≢ "")
    × (b.type_name ≢ "")
    × (lookup b.action_name v.ac ≢ none)
    × Holds (λ rt. All (IsValidCondition v rt) b.conditions) (lookup b.type_name v.rt)

abbrev pub Differs : ActionBinding → ActionBinding → Type 0
Differs b c = ¬ ((b.action_name ≡ c.action_name) × (b.type_name ≡ c.type_name))

-- No action is bound to a type twice.
abbrev pub AreDistinct : List ActionBinding → Type 0
AreDistinct [] = Unit
AreDistinct (b ∷ bs) = All (Differs b) bs × AreDistinct bs

pub record IsValid (prefix_ok : String → Bool) (v : Policy) : Type 0 where
  pub unions : All (IsValidUnion v) v.p.unions
  pub resource_types : All (IsValidResourceType prefix_ok v) v.rt
  pub bindings : All (IsValidBinding v) v.bn
  pub distinct : AreDistinct v.bn
  pub role_owners : All (Declares v) (role_owners_of v.p.rbac)
