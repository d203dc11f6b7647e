-- ===== src/Api/RoleBindings.antt =====
-- The handlers of role bindings of internal/api/rolebindings.go.
use permissions_api.Base.{String, Option, none, some, List, [], ◌∷◌}
use permissions_api.Types.{RoleBinding, RoleBindingSubject}
use permissions_api.Query.Engine.{Engine}
use permissions_api.Query.Monad.{Backend}
use permissions_api.Query.RoleBindings.{
  create_role_binding, update_role_binding, delete_role_binding, get_role_binding,
  get_role_binding_resource,
}
use permissions_api.Query.BindingLists.{list_role_bindings, list_manager_role_bindings}
use permissions_api.Api.Http.{
  done, Response, H, Context, respond, ◌>>=◌, ◌>>◌, engine, bind, parse, error_response,
  resource_of, current_subject, check_action_with_response,
}

pub record RoleBindingRequest : Type 0 where
  pub role_id : String
  pub subject_ids : List String
  pub manager : String

pub record RolebindingUpdateRequest : Type 0 where
  pub subject_ids : List String

module _ (b : Backend) (e : Engine) (c : Context) where
  -- The loop over the subjects of a body, up to the first that is refused.
  unfoldable pub subjects_of_ids : List String → H b (List RoleBindingSubject)
  subjects_of_ids [] = λ s. (done [], s)
  subjects_of_ids (sid ∷ sids) = do
    subj ← resource_of b e error_response sid
    rest ← subjects_of_ids sids
    λ s. (done (record { subject_resource = subj } ∷ rest), s)

  unfoldable pub role_binding_create :
      String → Option RoleBindingRequest → H b (Response RoleBinding)
  unfolding current_subject check_action_with_response subjects_of_ids
  role_binding_create id body' = do
    resource_id ← parse 400 id
    body ← bind 500 body'
    resource ← resource_of b e error_response resource_id
    actor ← current_subject b e c
    check_action_with_response b e actor "iam_rolebinding_create" resource
    role_id ← parse 400 body.role_id
    role_resource ← resource_of b e error_response role_id
    subjects ← subjects_of_ids body.subject_ids
    rb ←
        engine error_response
          (create_role_binding b e actor resource role_resource body.manager subjects)
    respond 201 rb

  unfoldable pub role_bindings_list : String → Option String → H b (Response (List RoleBinding))
  unfolding current_subject check_action_with_response
  role_bindings_list id manager = do
    resource_id ← parse 400 id
    resource ← resource_of b e error_response resource_id
    subject_resource ← current_subject b e c
    check_action_with_response b e subject_resource "iam_rolebinding_list" resource
    rbs ← engine error_response (elim manager [
      | none ↦ list_role_bindings b e resource none
      | some m ↦ list_manager_role_bindings b e m resource none
    ])
    respond 200 rbs

  unfoldable pub role_binding_delete : String → H b (Response (Unit {0}))
  unfolding current_subject check_action_with_response
  role_binding_delete rb_id = do
    rolebinding_id ← parse 400 rb_id
    rb_res ← resource_of b e error_response rolebinding_id
    actor ← current_subject b e c
    resource ← engine error_response (get_role_binding_resource b e rb_res)
    check_action_with_response b e actor "iam_rolebinding_delete" resource
    engine error_response (delete_role_binding b e rb_res)
    respond 200 tt

  unfoldable pub role_binding_get : String → H b (Response RoleBinding)
  unfolding current_subject check_action_with_response
  role_binding_get rb_id = do
    rolebinding_id ← parse 400 rb_id
    rb_res ← resource_of b e error_response rolebinding_id
    actor ← current_subject b e c
    rb ← engine error_response (get_role_binding b e rb_res)
    resource ← resource_of b e error_response rb.resource_id
    check_action_with_response b e actor "iam_rolebinding_get" resource
    respond 200 rb

  unfoldable pub role_binding_update :
      String → Option RolebindingUpdateRequest → H b (Response RoleBinding)
  unfolding current_subject check_action_with_response subjects_of_ids
  role_binding_update rb_id body' = do
    rolebinding_id ← parse 400 rb_id
    rb_res ← resource_of b e error_response rolebinding_id
    actor ← current_subject b e c
    resource ← engine error_response (get_role_binding_resource b e rb_res)
    check_action_with_response b e actor "iam_rolebinding_update" resource
    body ← bind 500 body'
    subjects ← subjects_of_ids body.subject_ids
    rb ← engine error_response (update_role_binding b e actor rb_res subjects)
    respond 200 rb
