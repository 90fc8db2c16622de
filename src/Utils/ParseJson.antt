-- ===== src/Utils/ParseJson.antt =====
-- utils/parse_json.cpp.
pub mod Fields
pub mod Validation
use distributed_testing_syst.Base.{
  List, [], ◌∷◌, ◌++◌, Str, str, Bool, true, false, Option, none, some, if◌then◌else◌, map,
}
use distributed_testing_syst.Base.Outcome.{Outcome, value, traverse, ◌>>=◌}
use distributed_testing_syst.Extern.Json.{Json}
use distributed_testing_syst.Utils.Expected.{Expected, expected, unexpected}

join_rest : Str → Str → List Str → Str
join_rest joined separator [] = joined
join_rest joined separator (x ∷ xs) = join_rest ((joined ++ separator) ++ x) separator xs

unfoldable pub join : List Str → Str → Str
unfolding join_rest
join [] separator = []
join (x ∷ xs) separator = join_rest x separator xs

module _ (J : Json) where
  unfoldable pub find_missing_json_fields : List Str → J.Value → List Str
  find_missing_json_fields [] json_data = []
  find_missing_json_fields (field_name ∷ fields) json_data =
      let rest = find_missing_json_fields fields json_data in
      if J.contains json_data field_name then rest else field_name ∷ rest

  -- `missingFields.empty()` decides.
  abbrev pub report_missing : J.Value → List Str → Expected J.Value Str
  report_missing data' [] = expected data'
  report_missing data' (x ∷ xs) =
      unexpected (str "field's weren't specified: " ++ join (x ∷ xs) (str ","))

  unfoldable pub parse_json : Str → List Str → Expected J.Value Str
  parse_json serialized_json expected_fields = elim (J.parse serialized_json) [
    | none ↦ unexpected (str "bad json")
    | some v ↦ report_missing v (find_missing_json_fields expected_fields v)
  ]

  abbrev pub is_empty : List Str → Bool
  is_empty [] = true
  is_empty (x ∷ xs) = false

  -- The call passes its two arguments in the opposite order, so `data` is converted to a vector of
  -- strings, and the vector of field names to JSON.
  unfoldable pub validate_json : J.Value → List Str → Outcome Bool
  validate_json data' expected_fields = do
    elements ← J.to_array data'
    names ← traverse J.to_str elements
    value (is_empty (find_missing_json_fields names (J.of_array (map J.of_str expected_fields))))
