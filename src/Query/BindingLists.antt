-- ===== src/Query/BindingLists.antt =====
-- The lists of role bindings of internal/query/rolebindings.go.
use permissions_api.Base.{
  String, Bool, true, not, ◌&&◌, Option, none, some, List, [], ◌∷◌, ◌==◌, is_empty, if◌then◌else◌,
}
use permissions_api.Types.{Resource, RoleBinding}
use permissions_api.Iapl.Rbac.{grant_relationship}
use permissions_api.Query.Messages.{
  Error, Outcome, ok, err, panic, Reply, answer, failure, Relationship, Filter,
}
use permissions_api.Query.Engine.{Engine}
use permissions_api.Query.Updates.{namespaced}
use permissions_api.Query.Monad.{Backend, State, M, pure, ◌>>=◌, ◌>>◌, call, check}
use permissions_api.Query.RoleBindings.{get_role_binding}
use permissions_api.Query.Listings.{new_resource_from_id_string}

-- A value that a filter asks for, if it asks.
abbrev pub is_asked : Option String → String → Bool
is_asked none x = true
is_asked (some y) x = x == y

module _ (b : Backend) (e : Engine) where
  abbrev grants_on : Resource → Filter
  grants_on resource = record {
    resource_type = namespaced e resource.type;
    optional_resource_id = resource.id;
    optional_relation = grant_relationship;
    optional_subject_filter = some (record {
      subject_type = namespaced e e.rbac.role_binding_resource.name;
      optional_subject_id = "";
      optional_relation = none;
    });
  }

  -- The binding of a grant; its error is kept as a value.
  abbrev pub caught : {A : Type 0} → Outcome A × State b → Outcome (Reply A) × State b
  caught (r, s) = elim r [
    | ok a ↦ (ok (answer a), s)
    | err x ↦ (ok (failure x), s)
    | panic ↦ (panic, s)
  ]

  unfoldable pub binding_of_grant : Relationship → M b (Reply RoleBinding)
  unfolding new_resource_from_id_string get_role_binding
  binding_of_grant rel s = caught (
      (do
        res ← new_resource_from_id_string b e rel.subject.object.object_id
        get_role_binding b e res)
        s)

  -- A binding that the filters keep: the manager's, the role's, and one with subjects.
  abbrev pub is_kept : Option String → Option String → RoleBinding → Bool
  is_kept manager role_id rb =
      is_asked manager rb.manager && (is_asked role_id rb.role_id && not (is_empty rb.subject_ids))

  -- One round of the loop, given what the later ones collect: the bindings and the first error.
  abbrev pub collected :
      Option String
      → Option String
      → Reply RoleBinding
      → List RoleBinding × Option Error
      → List RoleBinding × Option Error
  collected manager role_id (failure x) (rbs, _) = (rbs, some x)
  collected manager role_id (answer rb) (rbs, x) =
      (if is_kept manager role_id rb then rb ∷ rbs else rbs, x)

  unfoldable pub collect_bindings :
      Option String → Option String → List Relationship → M b (List RoleBinding × Option Error)
  collect_bindings manager role_id [] = pure ([], none)
  collect_bindings manager role_id (rel ∷ rels) = do
    rb ← binding_of_grant rel
    rest ← collect_bindings manager role_id rels
    pure (collected manager role_id rb rest)

  abbrev pub listed : List RoleBinding × Option Error → M b (List RoleBinding)
  listed (rbs, x) = check x >> pure rbs

  -- `listRoleBindings`, with the manager and the role that are asked for.
  unfoldable pub list_bindings : Resource → Option String → Option String → M b (List RoleBinding)
  unfolding collect_bindings
  list_bindings resource role_id manager = do
    grant_rel ← call (b.spice_read (grants_on resource))
    found ← collect_bindings manager role_id grant_rel
    listed found

  unfoldable pub list_role_bindings : Resource → Option String → M b (List RoleBinding)
  unfolding list_bindings
  list_role_bindings resource optional_role = list_bindings resource optional_role none

  unfoldable pub list_manager_role_bindings :
      String → Resource → Option String → M b (List RoleBinding)
  unfolding list_bindings
  list_manager_role_bindings manager resource optional_role =
      list_bindings resource optional_role (some manager)
