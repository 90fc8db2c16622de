-- ===== src/Examples/Served.antt =====
-- Uploads of a task and a wrong request, one after the other.
use distributed_testing_syst.Base.{◌≡◌, ◌≢◌, refl, [], ◌∷◌, Str, str, arith, length, to_string}
use distributed_testing_syst.Base.Outcome.{value}
use distributed_testing_syst.Base.Number.{stoull}
use distributed_testing_syst.Base.Int.{to_int64}
use distributed_testing_syst.Extern.Crow.{new_response}
use distributed_testing_syst.Extern.Mongo.{upsert_first}
use distributed_testing_syst.Utils.Expected.{expected}
use distributed_testing_syst.Utils.ParseJson.{parse_json, find_missing_json_fields}
use distributed_testing_syst.Sample.Trees.{tree_json}
use distributed_testing_syst.Sample.Database.{Coll, list_mongo, empty_coll}
use distributed_testing_syst.Sample.Requests.{Request, list_crow}
use distributed_testing_syst.Tabasco.Batches.{split_into_batches}
use distributed_testing_syst.Tabasco.Data.{Task, TaskTests, TaskMetaData, meta_to_json}
use distributed_testing_syst.Tabasco.Storage.{
  upsert_task_tests, upsert_task_meta_data, get_task_meta_data,
}
use distributed_testing_syst.Tabasco.Storage.Fetch.{Answers}
use distributed_testing_syst.Tabasco.Storage.Written.{Converts}
use distributed_testing_syst.Tabasco.Server.{Server}
use distributed_testing_syst.Tabasco.Http.{uploads_tests, callback}
use distributed_testing_syst.Tabasco.Http.Uploads.{parsed, parse_tests, upload_tests}
use distributed_testing_syst.Tabasco.Grpc.{ok}
use distributed_testing_syst.Tabasco.Grpc.Batches.{fetch_batches}
use distributed_testing_syst.Tabasco.Served.{Serves, begun, uploaded_task, not_parsed}
use distributed_testing_syst.Tabasco.Served.Fetched.{Serves-fetch}

abbrev one_test : Str → Str → TaskTests
one_test input output = record { input_tests = input ∷ []; output_tests = output ∷ [] }

abbrev first : Task
first = record { id = 7; tests = one_test (str "a") (str "b") }

abbrev other : Task
other = record { id = 8; tests = one_test (str "c") (str "d") }

abbrev again : Task
again = record { id = 7; tests = one_test (str "x") (str "y") }

abbrev request : Str → Str → Str → Request
request id input output = record {
  text = [];
  params = [];
  parts = (str "taskData.json", id) ∷ (str "1_input", input) ∷ (str "1_output", output) ∷ [];
}

abbrev bare : Request
bare = record { text = []; params = []; parts = [] }

program : Unit {0}
unfolding stoull to_string to_int64 parse_json find_missing_json_fields split_into_batches
    upsert_task_tests upsert_task_meta_data upsert_first meta_to_json parse_tests upload_tests
    callback
program = tt

abbrev start : Server tree_json list_mongo
start = record {
  batch_size = 4;
  builds = empty_coll;
  task_meta = empty_coll;
  task_tests = empty_coll;
}

after : Server tree_json list_mongo → Request → Server tree_json list_mongo
after server req = (callback tree_json list_mongo list_crow uploads_tests req server).1

abbrev with_first : Server tree_json list_mongo
with_first = after start (request (str "7") (str "a") (str "b"))

abbrev with_other : Server tree_json list_mongo
with_other = after with_first (request (str "8") (str "c") (str "d"))

abbrev with_again : Server tree_json list_mongo
with_again = after with_other (request (str "7") (str "x") (str "y"))

abbrev Uploads : Server tree_json list_mongo → Request → Task → Type 0
Uploads server req task =
    (parse_tests tree_json list_crow req new_response ≡ value (parsed task))
    × (callback tree_json list_mongo list_crow uploads_tests req server
        ≡ (value new_response, after server req))

first-Uploads : Uploads start (request (str "7") (str "a") (str "b")) first
unfolding program after
first-Uploads = (refl, refl)

other-Uploads : Uploads with_first (request (str "8") (str "c") (str "d")) other
unfolding program after
other-Uploads = (refl, refl)

again-Uploads : Uploads with_other (request (str "7") (str "x") (str "y")) again
unfolding program after
again-Uploads = (refl, refl)

-- A request with no parts is refused.
bare-refused :
    (task : Task) → parse_tests tree_json list_crow bare new_response ≢ value (parsed task)
unfolding program
bare-refused task e = cc

bare-kept :
    callback tree_json list_mongo list_crow uploads_tests bare with_other
    ≡ (value (record { code = 400; body = str "no taskData.json specified" }), with_other)
unfolding program
bare-kept = refl

served : Serves tree_json list_mongo list_crow start (again ∷ other ∷ first ∷ []) with_again
served =
    let with_two =
      uploaded_task (request (str "8") (str "c") (str "d")) other new_response
        (uploaded_task (request (str "7") (str "a") (str "b")) first new_response begun
          (first-Uploads.0) (first-Uploads.1) refl)
        (other-Uploads.0) (other-Uploads.1) refl in
    let with_refused = not_parsed bare _ with_two bare-refused bare-kept in
    uploaded_task (request (str "7") (str "x") (str "y")) again new_response with_refused
      (again-Uploads.0) (again-Uploads.1) refl

answers : (c : Coll) → Answers tree_json list_mongo c
answers c = record { one = λ f. (_, refl); all = λ f. (_, refl) }

converts : Converts tree_json list_mongo
converts d = (_, refl)

Serves-fetch_example :
    (m : TaskMetaData) × (get_task_meta_data tree_json list_mongo 7 with_again.task_meta
      ≡ value (expected m))
    × (fetch_batches tree_json list_mongo with_again 7 (length m.batches) 0
        ≡ value (ok, record { input = str "x" ∷ []; output = str "y" ∷ [] }))
Serves-fetch_example =
    Serves-fetch tree_json list_mongo list_crow start with_again [] (again ∷ other ∷ first ∷ [])
      again served (record { rows = tt; keyed = tt })
      (omega arith, omega arith, (omega arith, omega arith, (omega arith, omega arith, tt))) refl
      (omega arith)
      (record {
        task_meta = answers with_again.task_meta;
        task_tests = answers with_again.task_tests;
        converts = converts;
      })
