-- ===== src/Judging/Submission.antt =====
-- A submission from its preparation to the reports that are committed.
use distributed_testing_syst.Base.{
  ℕ, ◌<◌, ◌^◌, List, [], ◌∷◌, length, ◌≡◌, refl, ap, sym, ◌∙◌, arith,
}
use distributed_testing_syst.Base.Outcome.{Outcome, value, throws, undefined}
use distributed_testing_syst.Base.Action.{continue}
use distributed_testing_syst.Extern.Json.{Json}
use distributed_testing_syst.Extern.Mongo.{Mongo}
use distributed_testing_syst.Extern.Crow.{Crow, Response, new_response}
use distributed_testing_syst.Extern.System.{System}
use distributed_testing_syst.Utils.Expected.{expected}
use distributed_testing_syst.Tabasco.Data.{Task, TaskMetaData, Build}
use distributed_testing_syst.Tabasco.Storage.{get_task_meta_data, get_build}
use distributed_testing_syst.Tabasco.Storage.Rows.{Row}
use distributed_testing_syst.Tabasco.Storage.Upload.{IsTable}
use distributed_testing_syst.Tabasco.Server.{Server}
use distributed_testing_syst.Tabasco.Grpc.{ok, GetBatchReply, GetScriptsReply}
use distributed_testing_syst.Tabasco.Grpc
use distributed_testing_syst.Tabasco.Grpc.Batches.{Replies, all_inputs, all_outputs}
use distributed_testing_syst.Tabasco.Http.Uploads.{parsed, parse_tests, upload_tests}
use distributed_testing_syst.Tabasco.EndToEnd.{IsUp, upload-Replies}
use distributed_testing_syst.Processor.Container.{Container, run}
use distributed_testing_syst.Processor.Report.{TestingReport}
use distributed_testing_syst.Processor.Request.{Request}
use distributed_testing_syst.Processor.Tabasco.{get_scripts}
use distributed_testing_syst.Processor.Execute.{Processor}
use distributed_testing_syst.Processor.Testing.{Progress, reports_of, run_tests, return_reports}
use distributed_testing_syst.Processor.Process.{prepare, process, commit}
use distributed_testing_syst.Judging.{Reaches, no_scripts, test-Replies}

-- GetScripts of a build and a task that the service has.
pub get_scripts-eq :
    (J : Json) (M : Mongo J) (server : Server J M) (task_id build_id : ℕ) (b : Build)
    (m : TaskMetaData)
    → get_build J M build_id server.builds ≡ value (expected b)
    → get_task_meta_data J M task_id server.task_meta ≡ value (expected m)
    → Grpc.get_scripts J M server (record { task_id = task_id; build_id = build_id }) no_scripts
      ≡ value (
        ok,
        record {
          init_script = b.init_script;
          execute_script = b.execute_script;
          batch_count = length m.batches;
          task_root_dir = [];
        },
      )
unfolding Grpc.get_scripts
get_scripts-eq J M server task_id build_id b m builds metas = rw (builds, metas)

continue-return_reports :
    (J : Json) (S : System) (p : Processor) (r : Request) (m : Outcome Progress × S.World)
    (f : List TestingReport → S.World → Outcome (Unit {0}) × S.World)
    → continue (continue m (return_reports J S p r)) f
      ≡ continue m (λ progress. f (reports_of progress))
continue-return_reports J S p r (value progress, w) f = refl
continue-return_reports J S p r (throws e, w) f = refl
continue-return_reports J S p r (undefined, w) f = refl

-- The request that Prepare leaves: it has the batch count of the service, whether the init script
-- succeeds or not.
prepare-request :
    (J : Json) (M : Mongo J) (S : System) (server : Server J M) (p : Processor) (r : Request)
    (w : S.World) (b : Build) (m : TaskMetaData)
    → Reaches J M S server
    → get_build J M r.build_id server.builds ≡ value (expected b)
    → get_task_meta_data J M r.task_id server.task_meta ≡ value (expected m)
    → (prepare S p r w).0.1 ≡ record r { batch_count = length m.batches }
unfolding prepare get_scripts
prepare-request J M S server p r w b m reaches builds metas =
    rw
      (reaches.scripts r.task_id r.build_id w _
        (get_scripts-eq J M server r.task_id r.build_id b m builds metas))
      refl

module _ (J : Json) (M : Mongo J) (S : System) (server : Server J M)
    (reaches : Reaches J M S server) (p : Processor) (r : Request) (w : S.World) (c : Container)
    (w1 : S.World) (b : Build) (m : TaskMetaData) (started : run S p.container w ≡ (value c, w1))
    (builds : get_build J M r.build_id server.builds ≡ value (expected b))
    (metas : get_task_meta_data J M r.task_id server.task_meta ≡ value (expected m)) where
  process-Replies :
      (replies : List GetBatchReply)
      → Replies J M server r.task_id 0 replies
      → length replies ≡ length m.batches
      → 0 < length replies
      → let p' = record p { container = c } in
        let r' = record r { batch_count = length m.batches } in
        (process J S p r w).0
        ≡ continue
            (run_tests J S p' r'
              (all_inputs replies)
              (all_outputs replies)
              []
              (prepare S p' r w1).1)
            (λ progress. commit J S p' r' (reports_of progress))
  unfolding process
  process-Replies replies answered count some_batch =
      let p' : Processor = record p { container = c } in
      let r' : Request = record r { batch_count = length m.batches } in
      rw
        (
          started,
          prepare-request J M S server p' r w1 b m reaches builds metas,
          test-Replies J M S server reaches p' r' replies (prepare S p' r w1).1 answered (sym count)
              some_batch,
        )
        (continue-return_reports J S p' r' _ (commit J S p' r'))

nonempty_of_inputs :
    (replies : List GetBatchReply) → 0 < length (all_inputs replies) → 0 < length replies
nonempty_of_inputs [] h = absurd (omega arith)
nonempty_of_inputs (reply ∷ replies) h = omega arith

-- After PUT /uploadTests of at least one test and fewer than 2^63, accepted by Parse and answered
-- by 200, into a well-formed collection of tests, and where then the database answers reads and its
-- documents convert to JSON, the stub reaches the service, the build of the submission can be read,
-- its task is the one uploaded and Run has started the container: the metadata of the task can be
-- read, and Process prepares the container, runs exactly the uploaded tests in their order, with as
-- many batches as the metadata has, and commits the reports.
pub upload-process :
    (J : Json) (M : Mongo J) (C : Crow) (req : C.Request) (server server' : Server J M)
    (res : Response) (task : Task) (rs : List Row) (S : System) (p : Processor) (r : Request)
    (w w1 : S.World) (c : Container) (b : Build)
    → upload_tests J M C req new_response server ≡ (value res, server')
    → res.code ≡ 200
    → parse_tests J C req new_response ≡ value (parsed task)
    → IsTable J M server.task_tests rs
    → 0 < length task.tests.input_tests
    → length task.tests.input_tests < 2 ^ 63
    → IsUp J M server'
    → Reaches J M S server'
    → get_build J M r.build_id server'.builds ≡ value (expected b)
    → r.task_id ≡ task.id
    → run S p.container w ≡ (value c, w1)
    → (m : TaskMetaData) × (get_task_meta_data J M task.id server'.task_meta ≡ value (expected m))
      × (let p' = record p { container = c } in
          let r' = record r { batch_count = length m.batches } in
          (process J S p r w).0
          ≡ continue
              (run_tests J S p' r' task.tests.input_tests task.tests.output_tests []
                (prepare S p' r w1).1)
              (λ progress. commit J S p' r' (reports_of progress)))
upload-process J M C req server server' res task rs S p r w w1 c b done fine accepted table
      some_test small up reaches builds same_task started =
    let (m, metas, (replies, answered, counted, inputs, outputs)) =
      upload-Replies J M C req server server' res task rs done fine accepted table some_test small
        up in
    let some_reply : 0 < length replies =
      nonempty_of_inputs replies (omega (arith, ap length inputs)) in
    let p' : Processor = record p { container = c } in
    let r' : Request = record r { batch_count = length m.batches } in
    (
      m,
      metas,
      process-Replies J M S server' reaches p r w c w1 b m started builds (rw same_task metas)
            replies (rw same_task answered) counted some_reply
          ∙ (λ i.
              continue (run_tests J S p' r' (inputs i) (outputs i) [] (prepare S p' r w1).1)
                (λ progress. commit J S p' r' (reports_of progress))),
    )
