-- ===== src/Query/Updates.antt =====
-- The relationships and updates that the engine writes to SpiceDB (internal/query/relations.go and
-- internal/query/rolebindings.go).
use Prim.Native.Char.{Char, code}
use Prim.Native.String
use Prim.Native.Nat.{compare, Ordering}
use mathlib.Core.Option
use permissions_api.Base.{
  ℕ, String, Bool, true, false, ◌&&◌, Option, none, some, List, [], ◌∷◌, ◌++◌, map, if◌then◌else◌,
}
use permissions_api.Dict.{lookup}
use permissions_api.Types
use permissions_api.Types.{Resource}
use permissions_api.Iapl.Rbac.{
  rolebinding_role_relation, rolebinding_subject_relation, grant_relationship,
}
use permissions_api.Query.Messages.{
  Outcome, ok, err, invalid_role_binding_subject_type, Operation, create, touch, delete,
  unspecified, ObjectReference, Relationship, Update, Filter,
}
use permissions_api.Query.Engine.{Engine}

abbrev pub role_subject_relation : String
role_subject_relation = "subject"

-- e.namespace + "/" + name
abbrev pub namespaced : Engine → String → String
namespaced e name = String.◌++◌ e.namespace (String.◌++◌ "/" name)

unfoldable pub resource_to_spicedb_ref : Engine → Resource → ObjectReference
resource_to_spicedb_ref e r = record { object_type = namespaced e r.type; object_id = r.id }

unfoldable pub action_to_relation : String → String
action_to_relation action = String.◌++◌ action "_rel"

abbrev pub is_char : ℕ → Char → Bool
is_char n c = elim (compare (code c) n) [ Ordering.eq ↦ true | _ ↦ false ]

-- Whether a text begins with "_rel".
unfoldable pub begins_with_rel : String → Bool
begins_with_rel (String.◌∷◌ a (String.◌∷◌ b (String.◌∷◌ c (String.◌∷◌ d s)))) =
    is_char b'_' a && is_char b'r' b && is_char b'e' c && is_char b'l' d
begins_with_rel _ = false

-- `strings.Cut(relation, "_rel")`: what stands before the first "_rel", if there is one.
unfoldable pub cut_rel : String → Option String
cut_rel String.[] = none
cut_rel (String.◌∷◌ c s) =
    if begins_with_rel (String.◌∷◌ c s) then some "" else Option.map (String.◌∷◌ c) (cut_rel s)

-- `none` is the panic on a relation that is not a role's.
unfoldable pub relation_to_action : String → Option String
relation_to_action relation = cut_rel relation

-- The update that gives or takes one action of a v1 role.
abbrev pub role_update : ObjectReference → ObjectReference → Operation → String → Update
role_update resource_ref role_ref operation action = record {
  operation = operation;
  relationship = record {
    resource = resource_ref;
    relation = action_to_relation action;
    subject = record { object = role_ref; optional_relation = role_subject_relation };
  };
}

-- `roleRelationships`, given the role's resource.
unfoldable pub role_relationships : Engine → Resource → List String → Resource → List Update
role_relationships e role_resource actions resource =
    map
      (role_update (resource_to_spicedb_ref e resource) (resource_to_spicedb_ref e role_resource)
        touch)
      actions

unfoldable pub role_resource_relationships_touch_delete :
    Engine → Resource → Resource → List String → List String → List Update
role_resource_relationships_touch_delete e role_resource resource touch_actions delete_actions =
    let resource_ref = resource_to_spicedb_ref e resource in
    let role_ref = resource_to_spicedb_ref e role_resource in
    map (role_update resource_ref role_ref touch) touch_actions
    ++ map (role_update resource_ref role_ref delete) delete_actions

abbrev relationship_update : Engine → Operation → Types.Relationship → Update
relationship_update e operation rel = record {
  operation = operation;
  relationship = record {
    resource = resource_to_spicedb_ref e rel.resource;
    relation = rel.relation;
    subject = record { object = resource_to_spicedb_ref e rel.subject; optional_relation = "" };
  };
}

unfoldable pub relationships_to_updates : Engine → List Types.Relationship → Operation → List Update
relationships_to_updates e rels operation = map (relationship_update e operation) rels

-- The operation that undoes another; an unspecified one is skipped.
abbrev pub inverse : Operation → Option Operation
inverse create = some delete
inverse touch = some delete
inverse delete = some touch
inverse unspecified = none

-- The updates of `rollbackUpdates`: the inverses, last first. The code walks the indices from the
-- end; here each update goes behind those after it.
unfoldable pub rollbacks : List Update → List Update
rollbacks [] = []
rollbacks (u ∷ us) =
    rollbacks us
    ++ elim (inverse u.operation) [ none ↦ [] | some op ↦ record u { operation = op } ∷ [] ]

unfoldable pub subject_role_rel_create : Engine → Resource → String → Update
subject_role_rel_create e subject role_id = record {
  operation = create;
  relationship = record {
    resource = resource_to_spicedb_ref e (record { type = "role"; id = role_id });
    relation = role_subject_relation;
    subject = record { object = resource_to_spicedb_ref e subject; optional_relation = "" };
  };
}

unfoldable pub subject_role_rel_delete : Engine → Resource → String → Filter
subject_role_rel_delete e subject role_id = record {
  resource_type = namespaced e "role";
  optional_resource_id = role_id;
  optional_relation = role_subject_relation;
  optional_subject_filter = some (record {
    subject_type = namespaced e subject.type;
    optional_subject_id = subject.id;
    optional_relation = none;
  });
}

unfoldable pub rolebinding_subject_relationship : Engine → Resource → String → Outcome Relationship
rolebinding_subject_relationship e subj rb_id = elim (lookup subj.type e.rolebinding_subjects_map) [
  | none ↦ err invalid_role_binding_subject_type
  | some conf ↦ ok (record {
    resource = record {
      object_type = namespaced e e.rbac.role_binding_resource.name;
      object_id = rb_id;
    };
    relation = rolebinding_subject_relation;
    subject = record {
      object = record { object_type = namespaced e conf.name; object_id = subj.id };
      optional_relation = conf.subject_relation;
    };
  })
]

unfoldable pub rolebinding_role_relationship : Engine → String → String → Relationship
rolebinding_role_relationship e role_id rb_id = record {
  resource = record {
    object_type = namespaced e e.rbac.role_binding_resource.name;
    object_id = rb_id;
  };
  relation = rolebinding_role_relation;
  subject = record {
    object = record { object_type = namespaced e e.rbac.role_resource.name; object_id = role_id };
    optional_relation = "";
  };
}

unfoldable pub rolebinding_grant_resource_relationship : Engine → Resource → String → Relationship
rolebinding_grant_resource_relationship e resource rb_id = record {
  resource = record { object_type = namespaced e resource.type; object_id = resource.id };
  relation = grant_relationship;
  subject = record {
    object = record {
      object_type = namespaced e e.rbac.role_binding_resource.name;
      object_id = rb_id;
    };
    optional_relation = "";
  };
}
