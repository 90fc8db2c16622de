-- ===== src/Examples/Faults.antt =====
-- Requests that read past the end of a vector.
use distributed_testing_syst.Base.{◌≡◌, refl, [], ◌∷◌, str, length, arith}
use distributed_testing_syst.Base.Outcome.{value, undefined, traverse}
use distributed_testing_syst.Base.Number.{stoull}
use distributed_testing_syst.Base.{to_string}
use distributed_testing_syst.Base.Int.{to_int64}
use distributed_testing_syst.Extern.Crow.{new_response}
use distributed_testing_syst.Extern.Mongo.{upsert_first}
use distributed_testing_syst.Utils.Expected.{expected}
use distributed_testing_syst.Utils.ParseJson.{parse_json, find_missing_json_fields}
use distributed_testing_syst.Sample.Trees.{tree_json}
use distributed_testing_syst.Sample.Database.{Coll, list_mongo, empty_coll}
use distributed_testing_syst.Sample.Requests.{Request, list_crow}
use distributed_testing_syst.Tabasco.Batches.{split_into_batches}
use distributed_testing_syst.Tabasco.Data.{Task, TaskMetaData, meta_to_json}
use distributed_testing_syst.Tabasco.Server.{Server}
use distributed_testing_syst.Tabasco.Storage.{
  upsert_task_tests, upsert_task_meta_data, get_task_meta_data,
}
use distributed_testing_syst.Tabasco.Storage.Fetch.{Answers}
use distributed_testing_syst.Tabasco.Storage.Written.{Converts}
use distributed_testing_syst.Tabasco.Http.Uploads.{parsed, parse_tests, upload_tests}
use distributed_testing_syst.Tabasco.Grpc.{get_batch}
use distributed_testing_syst.Tabasco.Data.{meta_from_json}
use distributed_testing_syst.Tabasco.Grpc.Batches.{empty_reply}
use distributed_testing_syst.Tabasco.EndToEnd.Faults.{get_batch-past_end, upload_none-get_batch}

abbrev start : Server tree_json list_mongo
start = record {
  batch_size = 4;
  builds = empty_coll;
  task_meta = empty_coll;
  task_tests = empty_coll;
}

answers : (c : Coll) → Answers tree_json list_mongo c
answers c = record { one = λ f. (_, refl); all = λ f. (_, refl) }

converts : Converts tree_json list_mongo
converts d = (_, refl)

-- A task with no tests.
abbrev request : Request
request = record { text = []; params = []; parts = (str "taskData.json", str "7") ∷ [] }

abbrev task : Task
task = record { id = 7; tests = record { input_tests = []; output_tests = [] } }

program : Unit {0}
unfolding stoull to_string to_int64 parse_json find_missing_json_fields split_into_batches
    upsert_task_tests upsert_task_meta_data upsert_first meta_to_json parse_tests upload_tests
program = tt

after : Server tree_json list_mongo
after = (upload_tests tree_json list_mongo list_crow request new_response start).1

accepted : parse_tests tree_json list_crow request new_response ≡ value (parsed task)
unfolding program
accepted = refl

done :
    upload_tests tree_json list_mongo list_crow request new_response start
    ≡ (value new_response, after)
unfolding program after
done = refl

upload_none-get_batch_example :
    (m : TaskMetaData) × (get_task_meta_data tree_json list_mongo 7 after.task_meta
      ≡ value (expected m))
    × (length m.batches ≡ 1)
    × (get_batch tree_json list_mongo after (record { task_id = 7; batch_id = 0 }) empty_reply
        ≡ undefined)
upload_none-get_batch_example =
    upload_none-get_batch tree_json list_mongo list_crow request start after new_response task done
      refl accepted refl
      (record {
        task_meta = answers after.task_meta;
        task_tests = answers after.task_tests;
        converts = converts;
      })

abbrev meta_data : TaskMetaData
meta_data = record { task_id = 7; batches = [] ∷ []; batch_size = 4 }

stored : get_task_meta_data tree_json list_mongo 7 after.task_meta ≡ value (expected meta_data)
unfolding program after get_task_meta_data meta_from_json traverse
stored = refl

get_batch-past_end_example :
    get_batch tree_json list_mongo after (record { task_id = 7; batch_id = 3 }) empty_reply
    ≡ undefined
get_batch-past_end_example =
    get_batch-past_end tree_json list_mongo after 7 meta_data stored 3 empty_reply (omega arith)
