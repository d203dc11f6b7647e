-- ===== src/Tests/World.antt =====
-- A database and a SpiceDB that answer always the same, and an engine with one type.
use permissions_api.Base.{true, List, [], ◌∷◌}
use permissions_api.Types
use permissions_api.Types.{Resource}
use permissions_api.Query.Messages.{failed, answer, failure, StorageRole}
use permissions_api.Query.Engine.{Engine}
use permissions_api.Query.Monad.{Backend, State}
use permissions_api.Tests.Inputs.{rbac, target}

abbrev pub stored_role : StorageRole
stored_role = record {
  id = "permrv2-a";
  name = "viewers";
  manager = "";
  resource_id = "tnntten-a";
  created_by = "";
  updated_by = "";
  created_at = 0;
  updated_at = 0;
}

abbrev pub stored_binding : Types.RoleBinding
stored_binding = record {
  id = "permrbn-a";
  resource_id = "tnntten-a";
  manager = "";
  role_id = "";
  subject_ids = [];
  created_by = "";
  updated_by = "";
  created_at = 0;
  updated_at = 0;
}

abbrev pub calm : Backend
calm = record {
  World = Unit;
  begin_tx = λ w. (answer tt, w);
  commit_tx = λ w. (answer tt, w);
  rollback_tx = λ w. (answer tt, w);
  store_get_role_by_id = λ id w. (answer stored_role, w);
  store_create_role = λ actor id name manager res w. (answer stored_role, w);
  store_update_role = λ actor id name w. (answer stored_role, w);
  store_delete_role = λ id w. (answer stored_role, w);
  store_batch_get_roles = λ ids w. (answer (stored_role ∷ []), w);
  store_list_resource_roles = λ id w. (answer (stored_role ∷ []), w);
  store_lock_role = λ id w. (answer tt, w);
  store_get_role_binding = λ id w. (answer stored_binding, w);
  store_create_role_binding = λ actor id res manager w. (answer stored_binding, w);
  store_update_role_binding = λ actor id w. (answer stored_binding, w);
  store_delete_role_binding = λ id w. (answer tt, w);
  store_lock_role_binding = λ id w. (answer tt, w);
  store_upsert_zed_token = λ id token w. (answer tt, w);
  store_latest_zed_token = λ id w. (answer "token", w);
  spice_write = λ us w. (answer "token", w);
  spice_read = λ f w. (answer [], w);
  spice_delete = λ f w. (answer tt, w);
  spice_check = λ req w. (answer true, w);
  spice_lookup_subjects = λ req w. (answer (answer "permrv2-a" ∷ []), w);
  new_id = λ prefix w. (answer "permrbn-a", w);
  parse_id = λ id. answer id;
  prefix = λ id. id;
}

-- A database in which no transaction can begin.
abbrev pub stuck : Backend
stuck = record calm { begin_tx = λ w. (failure failed, w) }

abbrev pub tenant_type : Types.ResourceType
tenant_type = record {
  name = "tenant";
  id_prefix = "tnntten";
  relationships = record { relation = "parent"; types = target "tenant" ∷ [] } ∷ [];
  actions = record { name = "view"; conditions = []; condition_sets = [] } ∷ [];
}

abbrev pub engine : Engine
engine = record {
  namespace = "infra";
  schema = tenant_type ∷ [];
  schema_prefix_map = ("tnntten", tenant_type) ∷ [];
  schema_type_map = ("tenant", tenant_type) ∷ [];
  schema_subject_relation_map = [];
  schema_roleables = [];
  rbac = rbac;
  rolebinding_subjects_map = ("user", target "user") ∷ [];
  rbac_v2_resource_types = [];
}

abbrev pub tenant : Resource
tenant = record { type = "tenant"; id = "tnntten-a" }

abbrev pub user : Resource
user = record { type = "user"; id = "idntusr-a" }

abbrev pub role : Resource
role = record { type = "rolev2"; id = "permrv2-a" }

abbrev pub subjects : List Types.RoleBindingSubject
subjects = record { subject_resource = user } ∷ []

abbrev pub at_rest : State calm
at_rest = record { world = tt; log = [] }

abbrev pub at_rest' : State stuck
at_rest' = record { world = tt; log = [] }
