-- ===== src/Tabasco/Data.antt =====
-- task_batcher_storage_coordinator/common/storage_client/data_repr.{h,cpp}.
pub mod RoundTrip
use distributed_testing_syst.Base.{
  ℕ, List, [], ◌∷◌, Str, str, Bool, true, false, if◌then◌else◌, map,
}
use distributed_testing_syst.Base.Outcome.{Outcome, value, traverse, ◌>>=◌}
use distributed_testing_syst.Extern.Json.{Json}

pub record TaskTests : Type 0 where
  pub input_tests : List Str
  pub output_tests : List Str

pub record Task : Type 0 where
  pub id : ℕ
  pub tests : TaskTests

pub record TaskMetaData : Type 0 where
  pub task_id : ℕ
  pub batches : List (List ℕ)
  pub batch_size : ℕ

pub record Build : Type 0 where
  pub id : ℕ
  pub init_script : Str
  pub execute_script : Str

pub record Builds : Type 0 where
  pub items : List Build

module _ (J : Json) where
  -- `if (data.contains(key)) { field = data[key]; }`, with the conversion to the field's type.
  abbrev pub read_field : {A : Type 0} → J.Value → Str → (J.Value → Outcome A) → A → Outcome A
  read_field v key convert default =
      if J.contains v key then (do w ← J.index v key; convert w) else value default

  -- The conversions between std::vector<std::vector<size_t>> and JSON.
  abbrev pub batches_to_json : List (List ℕ) → J.Value
  batches_to_json batches = J.of_array (map (λ batch. J.of_array (map J.of_nat batch)) batches)

  abbrev pub batch_of_json : J.Value → Outcome (List ℕ)
  batch_of_json v = do elements ← J.to_array v; traverse J.to_nat elements

  abbrev pub batches_of_json : J.Value → Outcome (List (List ℕ))
  batches_of_json v = do elements ← J.to_array v; traverse batch_of_json elements

  unfoldable pub meta_to_json : TaskMetaData → J.Value
  meta_to_json m =
      let v = J.assign J.null (str "taskId") (J.of_nat m.task_id) in
      let w = J.assign v (str "batches") (batches_to_json m.batches) in
      J.assign w (str "batchSize") (J.of_nat m.batch_size)

  unfoldable pub meta_from_json : J.Value → Outcome TaskMetaData
  meta_from_json v = do
    batches ← read_field v (str "batches") batches_of_json []
    task_id ← read_field v (str "taskId") J.to_nat 0
    batch_size ← read_field v (str "batchSize") J.to_nat 0
    value (record { task_id = task_id; batches = batches; batch_size = batch_size })

  unfoldable pub build_to_json : Build → J.Value
  build_to_json b =
      let v = J.assign J.null (str "id") (J.of_nat b.id) in
      let w = J.assign v (str "initScript") (J.of_str b.init_script) in
      J.assign w (str "executeScript") (J.of_str b.execute_script)

  unfoldable pub build_from_json : J.Value → Outcome Build
  build_from_json v = do
    id ← read_field v (str "id") J.to_nat 0
    init_script ← read_field v (str "initScript") J.to_str []
    execute_script ← read_field v (str "executeScript") J.to_str []
    value (record { id = id; init_script = init_script; execute_script = execute_script })

  unfoldable pub builds_to_json : Builds → J.Value
  unfolding build_to_json
  builds_to_json bs = J.assign J.null (str "builds") (J.of_array (map build_to_json bs.items))

  unfoldable pub builds_from_json : J.Value → Outcome Builds
  unfolding build_from_json
  builds_from_json v = do
    list ← J.index v (str "builds")
    items ← traverse build_from_json (J.items list)
    value (record { items = items })
