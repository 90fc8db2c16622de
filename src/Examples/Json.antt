-- ===== src/Examples/Json.antt =====
-- JSON documents.
use distributed_testing_syst.Base.{◌≡◌, ◌↔◌, refl, List, [], ◌∷◌, Str, str, All, true, some}
use distributed_testing_syst.Base.Outcome.{value, throws}
use distributed_testing_syst.Utils.Expected.{expected}
use distributed_testing_syst.Utils.ParseJson.{find_missing_json_fields, parse_json, validate_json}
use distributed_testing_syst.Utils.ParseJson.Fields.{parse_json-expected_iff}
use distributed_testing_syst.Utils.ParseJson.Validation.{validate_json-object}
use distributed_testing_syst.Tabasco.Data.{TaskMetaData, Builds, builds_to_json, builds_from_json}
use distributed_testing_syst.Tabasco.Data.RoundTrip.{builds_from_json-builds_to_json}
use distributed_testing_syst.Sample.Trees.{Tree, num, obj, member, end, tree_json}

abbrev document : Tree
document = obj (member (str "taskId") (num 7) end)

abbrev fields : List Str
fields = str "taskId" ∷ str "initScript" ∷ []

missing : find_missing_json_fields tree_json fields document ≡ str "initScript" ∷ []
unfolding find_missing_json_fields
missing = refl

parse_json-expected_iff_example :
    (parse_json tree_json (str "7") (str "taskId" ∷ []) ≡ expected document)
    ↔ (tree_json.parse (str "7") ≡ some document)
      × All (λ k. tree_json.contains document k ≡ true) (str "taskId" ∷ [])
parse_json-expected_iff_example =
    parse_json-expected_iff tree_json (str "7") (str "taskId" ∷ []) document

validate_json-object_example :
    (message : Str) × (validate_json tree_json document (str "taskId" ∷ []) ≡ throws message)
validate_json-object_example =
    validate_json-object tree_json document (str "taskId") (str "taskId" ∷ []) refl

abbrev meta_data : TaskMetaData
meta_data = record { task_id = 7; batches = (1 ∷ 2 ∷ []) ∷ (3 ∷ []) ∷ []; batch_size = 1024 }

abbrev builds : Builds
builds = record {
  items =
      record { id = 1; init_script = str "make"; execute_script = str "./run" }
      ∷ record { id = 2; init_script = str "cmake ."; execute_script = [] }
      ∷ [];
}

builds_from_json-builds_to_json_example :
    builds_from_json tree_json (builds_to_json tree_json builds) ≡ value builds
builds_from_json-builds_to_json_example = builds_from_json-builds_to_json tree_json builds
