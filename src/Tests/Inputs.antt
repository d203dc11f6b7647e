-- ===== src/Tests/Inputs.antt =====
-- A runtime that visits maps in the order of their entries, and small policies and engines.
use permissions_api.Base.{String, true, false, none, some, refl, [], ◌∷◌, Permᴰ}
use permissions_api.Dict.{Dict, Runtime}
use permissions_api.Types
use permissions_api.Iapl.Document
use permissions_api.Iapl.Document.{PolicyDocument, Rbac}

pub same : {V : Type 0} (d : Dict V) → Permᴰ d d
same [] = Permᴰ.nil
same (e ∷ d) = Permᴰ.cons refl (same d)

abbrev pub in_order : Runtime
in_order = record { order = λ V d. d; visits = λ V d. same d }

abbrev pub target : String → Types.TargetType
target name = record { name = name; subject_identifier = ""; subject_relation = "" }

abbrev pub v1_condition : Document.Condition
v1_condition = record { role_binding = true; role_binding_v2 = false; relationship_action = none }

abbrev pub v2_condition : Document.Condition
v2_condition = record { role_binding = false; role_binding_v2 = true; relationship_action = none }

abbrev pub parent_view : Document.Condition
parent_view = record {
  role_binding = false;
  role_binding_v2 = false;
  relationship_action = some (record { relation = "parent"; action_name = "view" });
}

-- A tenant may be viewed by a role of its own or by whoever may view its parent.
abbrev pub tenants : PolicyDocument
tenants = record {
  resource_types =
      record {
        name = "tenant";
        id_prefix = "tnntten";
        role_binding_v2 =
            some (record { inherit_permissions_from = "parent" ∷ []; inherit_all_actions = false });
        relationships = record { relation = "parent"; target_types = target "owner" ∷ [] } ∷ [];
      }
      ∷ [];
  unions = record { name = "owner"; resource_types = target "tenant" ∷ [] } ∷ [];
  actions = record { name = "view" } ∷ record { name = "edit" } ∷ [];
  action_bindings =
      record {
        action_name = "view";
        type_name = "owner";
        conditions = v1_condition ∷ parent_view ∷ [];
        condition_sets = [];
      }
      ∷ record {
        action_name = "edit";
        type_name = "tenant";
        conditions = v2_condition ∷ [];
        condition_sets = [];
      }
      ∷ [];
  rbac = none;
}

abbrev pub rbac : Rbac
rbac = record {
  role_resource = record { name = "rolev2"; id_prefix = "permrv2" };
  role_binding_resource = record { name = "role_binding"; id_prefix = "permrbn" };
  role_subject_types = "user" ∷ [];
  role_owners = "tenant" ∷ [];
  role_binding_subjects = target "user" ∷ [];
}

abbrev pub with_rbac : PolicyDocument
with_rbac = record {
  resource_types = [];
  unions = [];
  actions = [];
  action_bindings = [];
  rbac = some rbac;
}
