-- ===== src/Judging.antt =====
-- The testing processor with the service that it asks: from an upload to the reports of a
-- submission.
pub mod Submission
use distributed_testing_syst.Base.{
  ℕ, zero, suc, ◌+◌, ◌==◌, ◌<◌, List, [], ◌∷◌, ◌++◌, Str, length, false, ◌≡◌, refl, ap, sym, ◌∙◌,
  arith,
}
use distributed_testing_syst.Base.Outcome.{Outcome, value}
use distributed_testing_syst.Base.Action.{continue}
use distributed_testing_syst.Extern.Json.{Json}
use distributed_testing_syst.Extern.Mongo.{Mongo}
use distributed_testing_syst.Extern.System.{
  System, GrpcReply, failed, replied, ScriptsFields, BatchFields,
}
use distributed_testing_syst.Utils.Expected.{Expected, expected, unexpected}
use distributed_testing_syst.Tabasco.Server.{Server}
use distributed_testing_syst.Tabasco.Grpc.{Status, ok, not_found, GetBatchReply, GetScriptsReply}
use distributed_testing_syst.Tabasco.Grpc
use distributed_testing_syst.Tabasco.Grpc.Batches.{
  empty_reply, Replies, none_left_to_ask, answers_next, all_inputs, all_outputs,
}
use distributed_testing_syst.Processor.Report.{TestingReport}
use distributed_testing_syst.Processor.Request.{Request}
use distributed_testing_syst.Processor.Tabasco.{GetBatchResponse, get_batch}
use distributed_testing_syst.Processor.Execute.{Processor}
use distributed_testing_syst.Processor.Testing.{run_tests, run_batches, return_reports, test}
use distributed_testing_syst.Processor.Testing.Batching.{
  Serves, served_all, serves, inputs_of, outputs_of, test-Serves,
}

-- What a stub returns for the status and the reply of the service.
abbrev pub batch_seen : Status × GetBatchReply → GrpcReply BatchFields
batch_seen (ok, reply) = replied (record { input = reply.input; output = reply.output })
batch_seen (not_found message, reply) = failed message

abbrev pub scripts_seen : Status × GetScriptsReply → GrpcReply ScriptsFields
scripts_seen (ok, reply) = replied (record {
  init_script = reply.init_script;
  execute_script = reply.execute_script;
  batch_count = reply.batch_count;
  task_root_dir = reply.task_root_dir;
})
scripts_seen (not_found message, reply) = failed message

abbrev pub no_scripts : GetScriptsReply
no_scripts = record { init_script = []; execute_script = []; batch_count = 0; task_root_dir = [] }

-- The stub of the processor reaches the service in this state, and a call changes nothing else.
pub record Reaches (J : Json) (M : Mongo J) (S : System) (server : Server J M) : Type 0 where
  pub batches :
      (task_id batch_id : ℕ) (w : S.World) (got : Status × GetBatchReply)
      → Grpc.get_batch J M server (record { task_id = task_id; batch_id = batch_id }) empty_reply
        ≡ value got
      → S.stub_get_batch task_id batch_id w ≡ (batch_seen got, w)
  pub scripts :
      (task_id build_id : ℕ) (w : S.World) (got : Status × GetScriptsReply)
      → Grpc.get_scripts J M server (record { task_id = task_id; build_id = build_id }) no_scripts
        ≡ value got
      → S.stub_get_scripts task_id build_id w ≡ (scripts_seen got, w)

abbrev responses : List GetBatchReply → List GetBatchResponse
responses [] = []
responses (reply ∷ replies) =
    record { input_tests = reply.input; output_tests = reply.output } ∷ responses replies

length-responses : (replies : List GetBatchReply) → length (responses replies) ≡ length replies
length-responses [] = refl
length-responses (reply ∷ replies) = ap suc (length-responses replies)

inputs_of-responses :
    (replies : List GetBatchReply) → inputs_of (responses replies) ≡ all_inputs replies
inputs_of-responses [] = refl
inputs_of-responses (reply ∷ replies) = ap (◌++◌ reply.input) (inputs_of-responses replies)

outputs_of-responses :
    (replies : List GetBatchReply) → outputs_of (responses replies) ≡ all_outputs replies
outputs_of-responses [] = refl
outputs_of-responses (reply ∷ replies) = ap (◌++◌ reply.output) (outputs_of-responses replies)

module _ (J : Json) (M : Mongo J) (S : System) (server : Server J M)
    (reaches : Reaches J M S server) (p : Processor) (r : Request) where
  Replies-Serves :
      (index : ℕ) (replies : List GetBatchReply)
      → Replies J M server r.task_id index replies
      → Serves J S p r index (responses replies)
  unfolding get_batch
  Replies-Serves index _ (none_left_to_ask _) = served_all index
  Replies-Serves index _ (answers_next _ reply replies answered paired rest) =
      serves index _ _ (λ w. rw (reaches.batches r.task_id index w (ok, reply) answered) refl)
        paired (Replies-Serves (index + 1) replies rest)

  -- Test of a submission whose batch count is the number of batches that the service has.
  pub test-Replies :
      (replies : List GetBatchReply) (w : S.World)
      → Replies J M server r.task_id 0 replies
      → r.batch_count ≡ length replies
      → 0 < length replies
      → test J S p r w
        ≡ continue
            (run_tests J S p r (all_inputs replies) (all_outputs replies) [] w)
            (return_reports J S p r)
  test-Replies replies w answered count some_batch =
      test-Serves J S p r (responses replies) w (Replies-Serves 0 replies answered)
        (count ∙ sym (length-responses replies))
        (omega (arith, length-responses replies, some_batch))
      ∙ rw (inputs_of-responses, outputs_of-responses)
