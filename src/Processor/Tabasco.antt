-- ===== src/Processor/Tabasco.antt =====
-- testing_processor/tabasco_request_task.cpp: the stub's replies as values or errors.
use distributed_testing_syst.Base.{ℕ, List, Str}
use distributed_testing_syst.Extern.System.{
  System, GrpcReply, failed, replied, ScriptsFields, BatchFields,
}
use distributed_testing_syst.Utils.Expected.{Expected, expected, unexpected}

pub record GetScriptsResponse : Type 0 where
  pub init_script : Str
  pub execute_script : Str
  pub batch_count : ℕ
  pub root_dir : Str

pub record GetBatchResponse : Type 0 where
  pub input_tests : List Str
  pub output_tests : List Str

pub record ErrorResponse : Type 0 where
  pub msg : Str

abbrev pub scripts_of_reply : GrpcReply ScriptsFields → Expected GetScriptsResponse ErrorResponse
scripts_of_reply (failed message) = unexpected (record { msg = message })
scripts_of_reply (replied response) = expected (record {
  init_script = response.init_script;
  execute_script = response.execute_script;
  batch_count = response.batch_count;
  root_dir = response.task_root_dir;
})

abbrev pub batch_of_reply : GrpcReply BatchFields → Expected GetBatchResponse ErrorResponse
batch_of_reply (failed message) = unexpected (record { msg = message })
batch_of_reply (replied response) =
    expected (record { input_tests = response.input; output_tests = response.output })

module _ (S : System) where
  unfoldable pub get_scripts : ℕ → ℕ → S.World → Expected GetScriptsResponse ErrorResponse × S.World
  get_scripts task_id build_id w =
      let (reply, w') = S.stub_get_scripts task_id build_id w in (scripts_of_reply reply, w')

  unfoldable pub get_batch : ℕ → ℕ → S.World → Expected GetBatchResponse ErrorResponse × S.World
  get_batch task_id batch_id w =
      let (reply, w') = S.stub_get_batch task_id batch_id w in (batch_of_reply reply, w')
