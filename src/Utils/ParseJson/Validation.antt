-- ===== src/Utils/ParseJson/Validation.antt =====
-- ValidateJSON on objects.
use distributed_testing_syst.Base.{List, Str, true, ◌≡◌}
use distributed_testing_syst.Base.Outcome.{throws}
use distributed_testing_syst.Extern.Json.{Json}
use distributed_testing_syst.Utils.ParseJson.{validate_json}

module _ (J : Json) where
  -- On an object with at least one key ValidateJSON throws, whatever fields are expected of it.
  pub validate_json-object :
      (v : J.Value) (k : Str) (fields : List Str)
      → J.contains v k ≡ true
      → (message : Str) × (validate_json J v fields ≡ throws message)
  unfolding validate_json
  validate_json-object v k fields h = let r = J.to_array-object v k h in (r.message, rw (r.refused))
