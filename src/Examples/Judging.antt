-- ===== src/Examples/Judging.antt =====
-- A submission that is judged on two tests that were uploaded.
use distributed_testing_syst.Base.{◌≡◌, refl, [], ◌∷◌, str, length, arith}
use distributed_testing_syst.Base.Outcome.{value}
use distributed_testing_syst.Base.Number.{stoull}
use distributed_testing_syst.Base.{to_string}
use distributed_testing_syst.Base.Int.{to_int64}
use distributed_testing_syst.Extern.Crow.{new_response}
use distributed_testing_syst.Extern.Mongo.{upsert_first}
use distributed_testing_syst.Utils.Expected.{expected}
use distributed_testing_syst.Utils.ParseJson.{parse_json, find_missing_json_fields}
use distributed_testing_syst.Sample.Trees.{tree_json}
use distributed_testing_syst.Sample.Database.{Coll, list_mongo, empty_coll}
use distributed_testing_syst.Sample.Requests.{Request, list_crow}
use distributed_testing_syst.Tabasco.Batches.{split_into_batches}
use distributed_testing_syst.Tabasco.Data.{Task, TaskMetaData, meta_to_json}
use distributed_testing_syst.Tabasco.Server.{Server}
use distributed_testing_syst.Tabasco.Storage.{
  upsert_task_tests, upsert_task_meta_data, get_task_meta_data,
}
use distributed_testing_syst.Tabasco.Storage.Fetch.{Answers}
use distributed_testing_syst.Tabasco.Storage.Written.{Converts}
use distributed_testing_syst.Tabasco.Http.Uploads.{parsed, parse_tests, upload_tests}
use distributed_testing_syst.Extern.System.{System, GrpcReply, failed, ScriptsFields, BatchFields}
use distributed_testing_syst.Base.Action.{continue}
use distributed_testing_syst.Base.Outcome.{Outcome, throws, undefined}
use distributed_testing_syst.Tabasco.Data.{Build, build_to_json, build_from_json}
use distributed_testing_syst.Tabasco.Storage.{upsert_build, get_build}
use distributed_testing_syst.Tabasco.Grpc.{
  Status, GetBatchReply, GetScriptsReply, get_batch, get_scripts,
}
use distributed_testing_syst.Tabasco.Grpc.Batches.{empty_reply}
use distributed_testing_syst.Processor.Container.{run}
use distributed_testing_syst.Processor.Process.{prepare, process, commit}
use distributed_testing_syst.Processor.Testing.{reports_of, run_tests}
use distributed_testing_syst.Judging.{Reaches, batch_seen, scripts_seen, no_scripts}
use distributed_testing_syst.Judging.Submission.{upload-process}
use distributed_testing_syst.Sample.Machine.{machine, processor, submission}

abbrev build : Build
build = record { id = 5; init_script = str "make"; execute_script = str "./run" }

with_build : Coll
with_build = (upsert_build tree_json list_mongo build empty_coll).1

abbrev start : Server tree_json list_mongo
start = record {
  batch_size = 4;
  builds = with_build;
  task_meta = empty_coll;
  task_tests = empty_coll;
}

abbrev request : Request
request = record {
  text = [];
  params = [];
  parts =
      (str "taskData.json", str "7")
      ∷ (str "1_input", str "ab")
      ∷ (str "1_output", str "c")
      ∷ (str "2_input", str "d")
      ∷ (str "2_output", str "ef")
      ∷ [];
}

abbrev task : Task
task = record {
  id = 7;
  tests = record { input_tests = str "ab" ∷ str "d" ∷ []; output_tests = str "c" ∷ str "ef" ∷ [] };
}

answers : (c : Coll) → Answers tree_json list_mongo c
answers c = record { one = λ f. (_, refl); all = λ f. (_, refl) }

converts : Converts tree_json list_mongo
converts d = (_, refl)

program : Unit {0}
unfolding stoull to_string to_int64 parse_json find_missing_json_fields split_into_batches
    upsert_task_tests upsert_task_meta_data upsert_first meta_to_json parse_tests upload_tests
program = tt

after : Server tree_json list_mongo
after = (upload_tests tree_json list_mongo list_crow request new_response start).1

accepted : parse_tests tree_json list_crow request new_response ≡ value (parsed task)
unfolding program
accepted = refl

done :
    upload_tests tree_json list_mongo list_crow request new_response start
    ≡ (value new_response, after)
unfolding program after
done = refl

abbrev batch_of_outcome : Outcome (Status × GetBatchReply) → GrpcReply BatchFields
batch_of_outcome (value got) = batch_seen got
batch_of_outcome (throws e) = failed e
batch_of_outcome undefined = failed []

abbrev scripts_of_outcome : Outcome (Status × GetScriptsReply) → GrpcReply ScriptsFields
scripts_of_outcome (value got) = scripts_seen got
scripts_of_outcome (throws e) = failed e
scripts_of_outcome undefined = failed []

-- A machine whose stub is the service after the upload.
abbrev system : System
system = record (machine 2 []) {
  stub_get_batch = λ task_id batch_id w. (
    batch_of_outcome (
        get_batch tree_json list_mongo after (record { task_id = task_id; batch_id = batch_id })
          empty_reply),
    w,
  );
  stub_get_scripts = λ task_id build_id w. (
    scripts_of_outcome (
        get_scripts tree_json list_mongo after (record { task_id = task_id; build_id = build_id })
          no_scripts),
    w,
  );
}

reaches : Reaches tree_json list_mongo system after
reaches = record {
  batches = λ task_id batch_id w got e. rw e refl;
  scripts = λ task_id build_id w got e. rw e refl;
}

started : run system processor.container 0 ≡ (value processor.container, 0)
unfolding run
started = refl

has_build :
    get_build tree_json list_mongo 5 after.builds ≡ value (expected (record build { id = 0 }))
unfolding program after with_build upsert_build build_to_json get_build build_from_json
has_build = refl

upload-process_example :
    (m : TaskMetaData) × (get_task_meta_data tree_json list_mongo 7 after.task_meta
      ≡ value (expected m))
    × ((process tree_json system processor submission 0).0
        ≡ continue
            (run_tests tree_json system processor
              (record submission { batch_count = length m.batches })
              task.tests.input_tests
              task.tests.output_tests
              []
              (prepare system processor submission 0).1)
            (λ progress.
              commit tree_json system processor
                (record submission { batch_count = length m.batches })
                (reports_of progress)))
upload-process_example =
    upload-process tree_json list_mongo list_crow request start after new_response task [] system
      processor submission 0 0 processor.container (record build { id = 0 }) done refl accepted
      (record { rows = tt; keyed = tt }) (omega arith) (omega arith)
      (record {
        task_meta = answers after.task_meta;
        task_tests = answers after.task_tests;
        converts = converts;
      })
      reaches has_build refl started
