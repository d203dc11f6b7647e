-- ===== src/Iapl/Schema/Complete.antt =====
-- `Schema` of internal/iapl/policy.go as a whole.
use mathlib.Core.Option
use mathlib.Core.Option.{some-injective}
use permissions_api.Base.{String, ◌≡◌, Option, [], map}
use permissions_api.Dict.{Dict, lookup, Runtime}
use permissions_api.Dict.Keys.{AreKeysDistinct}
use permissions_api.Types
use permissions_api.Iapl.Document.{ResourceType}
use permissions_api.Iapl.Policy.{Policy}
use permissions_api.Iapl.Schema.{SchemaState}
use permissions_api.Iapl.Schema.Spec.{grown_type}
use permissions_api.Iapl.Schema.Called.{expected_type}
use permissions_api.Iapl.Schema.Maps.{entries}

-- The types of the schema are those of the policy, each once, as the loops let it grow.
abbrev pub IsGrown : Policy → Dict Types.ResourceType → Type 0
IsGrown v types =
    AreKeysDistinct types
    × ((n : String) → lookup n types ≡ Option.map (grown_type v n) (lookup n v.rt))

-- The types of the schema are those of the policy, each once, with what its bindings call for.
abbrev pub IsSchema : Policy → Dict Types.ResourceType → Type 0
IsSchema v types =
    AreKeysDistinct types
    × ((n : String) → lookup n types ≡ Option.map (expected_type v n) (lookup n v.rt))

module _ (g : Runtime) (v : Policy) (distinct : AreKeysDistinct v.rt) where
  start_state : SchemaState
  start_state = record { type_map = entries g v.rt distinct; rbv2_actions = [] }
