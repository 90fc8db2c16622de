-- ===== src/Examples/Upload.antt =====
-- An upload of two tests, and what the services read after it.
use distributed_testing_syst.Base.{◌≡◌, refl, [], ◌∷◌, str, length, none, arith}
use distributed_testing_syst.Base.Outcome.{value}
use distributed_testing_syst.Base.Number.{stoull}
use distributed_testing_syst.Base.{to_string}
use distributed_testing_syst.Base.Int.{to_int64}
use distributed_testing_syst.Extern.Crow.{new_response}
use distributed_testing_syst.Extern.Mongo.{upsert_first}
use distributed_testing_syst.Utils.Expected.{expected}
use distributed_testing_syst.Utils.ParseJson.{parse_json, find_missing_json_fields}
use distributed_testing_syst.Sample.Trees.{tree_json}
use distributed_testing_syst.Sample.Database.{Coll, list_mongo, empty_coll}
use distributed_testing_syst.Sample.Requests.{Request, list_crow}
use distributed_testing_syst.Tabasco.Batches.{split_into_batches}
use distributed_testing_syst.Tabasco.Data.{Task, TaskMetaData, meta_to_json}
use distributed_testing_syst.Tabasco.Server.{Server}
use distributed_testing_syst.Tabasco.Storage.{
  upsert_task_tests, upsert_task_meta_data, get_task_meta_data, tests_of_batch,
}
use distributed_testing_syst.Tabasco.Storage.Fetch.{Answers, HoldsTests, tests_of_batch-eq}
use distributed_testing_syst.Tabasco.Storage.Upload.{IsTable, uploaded, upsert_task_tests-IsTable}
use distributed_testing_syst.Tabasco.Http.Order.{upload_tests-tests_first}
use distributed_testing_syst.Base.{◌⊎◌}
use distributed_testing_syst.Tabasco.Http.Accepted.{Accepted}
use distributed_testing_syst.Tabasco.Storage.Written.{Converts}
use distributed_testing_syst.Tabasco.Http.Uploads.{parsed, parse_tests, upload_tests}
use distributed_testing_syst.Tabasco.Grpc.{ok}
use distributed_testing_syst.Tabasco.Grpc.Batches.{fetch_batches}
use distributed_testing_syst.Tabasco.EndToEnd
use distributed_testing_syst.Tabasco.EndToEnd.Others

abbrev start : Server tree_json list_mongo
start = record {
  batch_size = 4;
  builds = empty_coll;
  task_meta = empty_coll;
  task_tests = empty_coll;
}

abbrev request : Request
request = record {
  text = [];
  params = [];
  parts =
      (str "taskData.json", str "7")
      ∷ (str "1_input", str "ab")
      ∷ (str "1_output", str "c")
      ∷ (str "2_input", str "d")
      ∷ (str "2_output", str "ef")
      ∷ [];
}

abbrev task : Task
task = record {
  id = 7;
  tests = record { input_tests = str "ab" ∷ str "d" ∷ []; output_tests = str "c" ∷ str "ef" ∷ [] };
}

answers : (c : Coll) → Answers tree_json list_mongo c
answers c = record { one = λ f. (_, refl); all = λ f. (_, refl) }

converts : Converts tree_json list_mongo
converts d = (_, refl)

program : Unit {0}
unfolding stoull to_string to_int64 parse_json find_missing_json_fields split_into_batches
    upsert_task_tests upsert_task_meta_data upsert_first meta_to_json parse_tests upload_tests
program = tt

after : Server tree_json list_mongo
after = (upload_tests tree_json list_mongo list_crow request new_response start).1

accepted : parse_tests tree_json list_crow request new_response ≡ value (parsed task)
unfolding program
accepted = refl

done :
    upload_tests tree_json list_mongo list_crow request new_response start
    ≡ (value new_response, after)
unfolding program after
done = refl

upload-fetch_example :
    (m : TaskMetaData) × (get_task_meta_data tree_json list_mongo 7 after.task_meta
      ≡ value (expected m))
    × (fetch_batches tree_json list_mongo after 7 (length m.batches) 0
        ≡ value (ok, record { input = task.tests.input_tests; output = task.tests.output_tests }))
upload-fetch_example =
    EndToEnd.upload-fetch tree_json list_mongo list_crow request start after new_response task []
      done refl accepted (record { rows = tt; keyed = tt }) (omega arith) (omega arith)
      (record {
        task_meta = answers after.task_meta;
        task_tests = answers after.task_tests;
        converts = converts;
      })

started : IsTable tree_json list_mongo start.task_tests []
started = record { rows = tt; keyed = tt }

stored : IsTable tree_json list_mongo after.task_tests (uploaded task [])
stored =
    EndToEnd.upload_tests-IsTable tree_json list_mongo list_crow request start after new_response
      task [] done refl accepted started

held : HoldsTests (uploaded task []) 7 1 task.tests
held =
    EndToEnd.upload_tests-HoldsTests tree_json list_mongo list_crow request start after new_response
      task [] done refl accepted started (omega arith)

tests_of_batch-eq_example :
    tests_of_batch tree_json list_mongo 7 (1 ∷ 2 ∷ []) after.task_tests ≡ value task.tests
tests_of_batch-eq_example =
    tests_of_batch-eq tree_json list_mongo 7 1 task.tests after.task_tests (uploaded task []) stored
      held (answers after.task_tests) (omega arith) (omega arith) (omega arith)

with_tests : Coll
with_tests = (upsert_task_tests tree_json list_mongo task empty_coll).1

with_tests-written :
    upsert_task_tests tree_json list_mongo task empty_coll ≡ (value none, with_tests)
unfolding program with_tests
with_tests-written = refl

upsert_task_tests-IsTable_example : IsTable tree_json list_mongo with_tests (uploaded task [])
upsert_task_tests-IsTable_example =
    upsert_task_tests-IsTable tree_json list_mongo task empty_coll with_tests [] with_tests-written
      (record { rows = tt; keyed = tt })

-- A second upload, of task 8, to the server that holds task 7.
abbrev next_request : Request
next_request = record {
  text = [];
  params = [];
  parts =
      (str "taskData.json", str "8") ∷ (str "1_input", str "x") ∷ (str "1_output", str "y") ∷ [];
}

abbrev next_task : Task
next_task = record {
  id = 8;
  tests = record { input_tests = str "x" ∷ []; output_tests = str "y" ∷ [] };
}

later : Server tree_json list_mongo
later = (upload_tests tree_json list_mongo list_crow next_request new_response after).1

next_accepted : parse_tests tree_json list_crow next_request new_response ≡ value (parsed next_task)
unfolding program
next_accepted = refl

next_done :
    upload_tests tree_json list_mongo list_crow next_request new_response after
    ≡ (value new_response, later)
unfolding program after later
next_done = refl

upload_tests-other_task_example :
    tests_of_batch tree_json list_mongo 7 (1 ∷ 2 ∷ []) later.task_tests ≡ value task.tests
upload_tests-other_task_example =
    Others.upload_tests-other_task tree_json list_mongo list_crow next_request after later
      new_response next_task (uploaded task []) next_done refl next_accepted stored
      (answers later.task_tests) 7 1 task.tests (omega arith) (omega arith) (omega arith) held
      (omega arith) (omega arith) (omega arith)

upload_tests-tests_first_example :
    (after.builds ≡ start.builds)
    × ((after.task_meta ≡ start.task_meta)
        ⊎ ((sent : Task) × (parse_tests tree_json list_crow request new_response
              ≡ value (parsed sent))
            × (upsert_task_tests tree_json list_mongo sent start.task_tests
                ≡ (value none, after.task_tests))))
upload_tests-tests_first_example =
    upload_tests-tests_first tree_json list_mongo list_crow request new_response start after
      (value new_response) done
