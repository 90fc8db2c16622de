-- ===== src/Tabasco/Grpc.antt =====
-- task_batcher_storage_coordinator/grpc/server.cpp, over the messages of grpc/proto: the service
-- that the testing processors call.
pub mod Batches
use distributed_testing_syst.Base.{ℕ, List, [], Str, length}
use distributed_testing_syst.Base.Outcome.{Outcome, value, ◌>>=◌}
use distributed_testing_syst.Extern.Json.{Json}
use distributed_testing_syst.Extern.Mongo.{Mongo}
use distributed_testing_syst.Utils.Expected.{Expected, expected, unexpected}
use distributed_testing_syst.Tabasco.Data.{TaskTests, TaskMetaData, Build}
use distributed_testing_syst.Tabasco.Storage.{Error, get_task_batch, get_build, get_task_meta_data}
use distributed_testing_syst.Tabasco.Server.{Server}

-- grpc::Status: OK, or NOT_FOUND with a message.
pub data Status : Type 0 where
  ok : Status
  not_found : Str → Status

pub record GetBatchRequest : Type 0 where
  pub task_id : ℕ
  pub batch_id : ℕ

pub record GetBatchReply : Type 0 where
  pub input : List Str
  pub output : List Str

pub record GetScriptsRequest : Type 0 where
  pub task_id : ℕ
  pub build_id : ℕ

-- The service never sets `task_root_dir`.
pub record GetScriptsReply : Type 0 where
  pub init_script : Str
  pub execute_script : Str
  pub batch_count : ℕ
  pub task_root_dir : Str

module _ (J : Json) (M : Mongo J) where
  abbrev pub batch_reply :
      GetBatchReply → Expected TaskTests Error → Outcome (Status × GetBatchReply)
  batch_reply reply (unexpected e) = value (not_found e.msg, reply)
  batch_reply reply (expected tests) =
      value (ok, record { input = tests.input_tests; output = tests.output_tests })

  unfoldable pub get_batch :
      Server J M → GetBatchRequest → GetBatchReply → Outcome (Status × GetBatchReply)
  get_batch server request reply = do
    got ← get_task_batch J M request.task_id request.batch_id server.task_meta server.task_tests
    batch_reply reply got

  abbrev pub count_reply :
      GetScriptsReply → Expected TaskMetaData Error → Outcome (Status × GetScriptsReply)
  count_reply reply (unexpected e) = value (not_found e.msg, reply)
  count_reply reply (expected m) = value (ok, record reply { batch_count = length m.batches })

  -- The scripts are set before the metadata is asked for.
  abbrev pub scripts_reply :
      Server J M
      → GetScriptsRequest
      → GetScriptsReply
      → Expected Build Error
      → Outcome (Status × GetScriptsReply)
  scripts_reply server request reply (unexpected e) = value (not_found e.msg, reply)
  scripts_reply server request reply (expected b) = do
    got ← get_task_meta_data J M request.task_id server.task_meta
    count_reply (record reply { init_script = b.init_script; execute_script = b.execute_script })
        got

  unfoldable pub get_scripts :
      Server J M → GetScriptsRequest → GetScriptsReply → Outcome (Status × GetScriptsReply)
  get_scripts server request reply = do
    got ← get_build J M request.build_id server.builds
    scripts_reply server request reply got
