-- ===== src/Query/RolesV2/NoActions.antt =====
-- What `UpdateRoleV2` of internal/query/roles_v2.go answers if it is given a new name and no
-- actions.
use mathlib.Core.List.{flat_map}
use permissions_api.Base.{String, ◌≡◌, ◌≢◌, refl, ap, ◌∙◌, false, [], ◌==◌, eq_iff, arith}
use permissions_api.Types.{Resource, Role}
use permissions_api.Query.Messages.{ok, StorageRole}
use permissions_api.Query.Engine.{Engine}
use permissions_api.Query.Diff.{diff}
use permissions_api.Query.Monad.{
  Backend, State, M, bound, cleaned, ◌>>=◌, ◌>>◌, call, pure, on_error, begin_context,
  commit_context, rollback_context, write_relationships,
}
use permissions_api.Query.Roles.{role_of, lock_role_for_update}
use permissions_api.Query.RolesV2.{
  update_role_v2, change_role_v2, apply_role_v2_update, get_role_v2,
}

module _ (b : Backend) (e : Engine) (actor role_resource : Resource) (name : String)
    (role : Role) where
  -- The role that is answered, given the row that the database returned.
  abbrev pub stripped : StorageRole → Role
  stripped row = record (role_of row []) { id = role.id }

  abbrev finished : StorageRole → M b Role
  finished row = on_error (commit_context b) (rollback_context b) >> pure (stripped row)

  abbrev saved : StorageRole → M b Role
  saved row = on_error (write_relationships b []) (rollback_context b) >> finished row

  different : (x y : String) → x ≢ y → (x == y) ≡ false
  different x y n = ground (arith, eq_iff x y)

  changes :
      (s : State b)
      → name ≢ ""
      → name ≢ role.name
      → change_role_v2 b e actor role_resource name [] role s
        ≡ apply_role_v2_update b e actor role_resource role name [] [] [] s
  unfolding diff
  changes s n m = rw (different name "" n, different name role.name m) refl

  -- If the transaction begins, the role is locked and found, and a new name is given with no
  -- actions, and the database and SpiceDB answer no error, `UpdateRoleV2` answers the role with no
  -- actions, whatever its actions are, and has written no update to SpiceDB.
  pub update_role_v2_no_actions :
      (s s₁ s₂ s₃ s₄ s₅ s₆ : State b) (row : StorageRole) (token : String)
      → begin_context b s ≡ (ok tt, s₁)
      → lock_role_for_update b e role_resource s₁ ≡ (ok tt, s₂)
      → get_role_v2 b e role_resource s₂ ≡ (ok role, s₃)
      → name ≢ ""
      → name ≢ role.name
      → call (b.store_update_role actor.id role.id name) s₃ ≡ (ok row, s₄)
      → write_relationships b [] s₄ ≡ (ok token, s₅)
      → commit_context b s₅ ≡ (ok tt, s₆)
      → update_role_v2 b e actor role_resource name [] s ≡ (ok (stripped row), s₆)
  unfolding update_role_v2 apply_role_v2_update flat_map
  update_role_v2_no_actions s s₁ s₂ s₃ s₄ s₅ s₆ row token h₁ h₂ h₃ n m h₄ h₅ h₆ =
      let change = change_role_v2 b e actor role_resource name [] in
      let get = on_error (get_role_v2 b e role_resource) (rollback_context b) >>= change in
      let lock = on_error (lock_role_for_update b e role_resource) (rollback_context b) >> get in
      ap (bound (λ _. lock)) h₁
      ∙ ap (λ r. bound (λ _. get) (cleaned (rollback_context b) r)) h₂
      ∙ ap (λ r. bound change (cleaned (rollback_context b) r)) h₃
      ∙ changes s₃ n m
      ∙ ap (λ r. bound saved (cleaned (rollback_context b) r)) h₄
      ∙ ap (λ r. bound (λ _. finished row) (cleaned (rollback_context b) r)) h₅
      ∙ ap (λ r. bound (λ _. pure (stripped row)) (cleaned (rollback_context b) r)) h₆
