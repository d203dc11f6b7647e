-- ===== src/Iapl/Valid/Accepts.antt =====
-- `Validate` of internal/iapl/policy.go accepts exactly the valid policies.
use permissions_api.Base.{String, ◌≡◌, ◌↔◌, Bool, none, arith}
use permissions_api.Dict.{Runtime}
use permissions_api.Iapl.Policy.{Policy}
use permissions_api.Iapl.Built.{IsIndexed}
use permissions_api.Iapl.Validate.{validate}
use permissions_api.Iapl.Valid.Spec.{IsValid}
use permissions_api.Iapl.Valid.Types.{unions_iff, resource_types_iff, roles_iff}
use permissions_api.Iapl.Valid.Bindings.{action_bindings_iff}

-- With an index of the bindings that is up to date the checks together accept the valid policies.
pub validate_iff :
    (g : Runtime) (prefix_ok : String → Bool) (v : Policy)
    → IsIndexed v
    → (validate g prefix_ok v ≡ none) ↔ IsValid prefix_ok v
unfolding validate
validate_iff g prefix_ok v indexed = ground (
  arith,
  unions_iff v,
  resource_types_iff v g prefix_ok,
  action_bindings_iff v indexed,
  roles_iff v,
)
