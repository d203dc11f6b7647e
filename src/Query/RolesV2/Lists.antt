-- ===== src/Query/RolesV2/Lists.antt =====
-- The two lists of v2 roles of internal/query/roles_v2.go.
use permissions_api.Base.{String, ◌≡◌, refl, List, [], ◌∷◌, map, ◌==◌, if◌then◌else◌}
use permissions_api.Types.{Resource, Role}
use permissions_api.Query.Messages.{Outcome, ok, err, panic, StorageRole}
use permissions_api.Query.Engine.{Engine}
use permissions_api.Query.Monad.{Backend, State, pure, bound}
use permissions_api.Query.RolesV2.{
  list_roles_v2, list_manager_roles_v2, managed, stored_roles_of, without_actions,
}

-- The roles of a manager among roles.
abbrev pub of_manager : String → List Role → List Role
of_manager manager [] = []
of_manager manager (r ∷ rs) =
    if r.manager == manager then r ∷ of_manager manager rs else of_manager manager rs

abbrev pub of_manager_in : {S : Type 0} → String → Outcome (List Role) × S → Outcome (List Role) × S
of_manager_in manager (ok rs, s) = (ok (of_manager manager rs), s)
of_manager_in manager (err x, s) = (err x, s)
of_manager_in manager (panic, s) = (panic, s)

module _ (b : Backend) (e : Engine) where
  managed_lem :
      (manager : String) (rs : List StorageRole)
      → managed b e manager rs ≡ of_manager manager (map (without_actions b e) rs)
  unfolding managed
  managed_lem manager [] = refl
  managed_lem manager (r ∷ rs) = rw (managed_lem manager rs) refl

  -- `ListManagerRolesV2` answers what `ListRolesV2` would have answered, less the roles of other
  -- managers, with the same errors and the same calls.
  pub list_manager_roles_v2_lem :
      (manager : String) (owner : Resource) (s : State b)
      → list_manager_roles_v2 b e manager owner s
        ≡ of_manager_in manager (list_roles_v2 b e owner s)
  unfolding list_manager_roles_v2 list_roles_v2
  list_manager_roles_v2_lem manager owner s = go (stored_roles_of b e owner s)
    where
      go :
          (x : Outcome (List StorageRole) × State b)
          → bound (λ rs. pure (managed b e manager rs)) x
            ≡ of_manager_in manager (bound (λ rs. pure (map (without_actions b e) rs)) x)
      go (ok rs, s) = rw (managed_lem manager rs) refl
      go (err x, s) = refl
      go (panic, s) = refl
