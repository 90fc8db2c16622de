-- ===== src/Tabasco/EndToEnd.antt =====
-- From PUT /uploadTests of the HTTP server to GetBatch of the gRPC service: what a client uploads is
-- what a testing processor is given.
pub mod Faults
pub mod Others
use distributed_testing_syst.Base.{
  ℕ, zero, suc, ◌+◌, ◌^◌, ◌≤◌, ◌<◌, List, [], ◌∷◌, ◌++◌, append-nil, Str, length, flatten, none,
  ◌≡◌, refl, ap, sym, ◌∙◌, arith,
}
use distributed_testing_syst.Base.Outcome.{Outcome, value}
use distributed_testing_syst.Extern.Json.{Json}
use distributed_testing_syst.Extern.Mongo.{Mongo}
use distributed_testing_syst.Extern.Crow.{Crow, Response, new_response}
use distributed_testing_syst.Utils.Expected.{Expected, expected}
use distributed_testing_syst.Tabasco.Batches.Cover.{
  flatten-split_into_batches, split_into_batches-IsNonempty,
}
use distributed_testing_syst.Tabasco.Data.{TaskTests, Task, TaskMetaData}
use distributed_testing_syst.Tabasco.Storage.{get_task_meta_data}
use distributed_testing_syst.Tabasco.Storage.Rows.{Row}
use distributed_testing_syst.Tabasco.Storage.Upload.{
  IsTable, uploaded, upsert_task_tests-IsTable, lookup_row-uploaded_input,
  lookup_row-uploaded_output,
}
use distributed_testing_syst.Tabasco.Storage.Fetch.{HoldsTests, Answers}
use distributed_testing_syst.Tabasco.Storage.Written.{Converts}
use distributed_testing_syst.Tabasco.Storage.Documents.{get-upsert_task_meta_data}
use distributed_testing_syst.Tabasco.Server.{Server}
use distributed_testing_syst.Tabasco.Grpc.{ok, GetBatchReply}
use distributed_testing_syst.Tabasco.Grpc.Batches.{
  fetch_batches, fetch_batches-eq, batches-Replies, Replies, all_inputs, all_outputs,
}
use distributed_testing_syst.Tabasco.Http.Uploads.{parsed, parse_tests, upload_tests}
use distributed_testing_syst.Tabasco.Http.Accepted.{
  Accepted, upload_tests-Accepted, parse_tests-paired,
}

-- The database answers the reads that follow an upload.
pub record IsUp (J : Json) (M : Mongo J) (server : Server J M) : Type 0 where
  pub task_meta : Answers J M server.task_meta
  pub task_tests : Answers J M server.task_tests
  pub converts : Converts J M

module _ (J : Json) (M : Mongo J) (C : Crow) (req : C.Request) (server server' : Server J M)
    (res : Response) (task : Task) (rs : List Row)
    (done : upload_tests J M C req new_response server ≡ (value res, server'))
    (fine : res.code ≡ 200) (accepted : parse_tests J C req new_response ≡ value (parsed task))
    (table : IsTable J M server.task_tests rs) where
  -- After an upload that Parse accepts and that is answered by 200 a collection of tests that was
  -- well formed is well formed again, its table the old one with the tests of the request written.
  pub upload_tests-IsTable : IsTable J M server'.task_tests (uploaded task rs)
  upload_tests-IsTable =
      let a = upload_tests-Accepted J M C req server server' res task done fine accepted in
      upsert_task_tests-IsTable J M task server.task_tests server'.task_tests rs a.tests_written
        table

  -- After an upload of fewer than 2^63 tests that Parse accepts and that is answered by 200, into a
  -- well-formed collection, the table holds as many outputs as inputs, input and output j of the
  -- request under the id j + 1 of the task.
  pub upload_tests-HoldsTests :
      length task.tests.input_tests < 2 ^ 63 → HoldsTests (uploaded task rs) task.id 1 task.tests
  upload_tests-HoldsTests small =
      let paired = (parse_tests-paired J C req new_response task accepted).0 in
      record {
        paired = paired;
        inputs = lookup_row-uploaded_input task rs paired small;
        outputs = lookup_row-uploaded_output task rs paired small;
      }

  -- The metadata after the upload, and the answers of GetBatch to its batches.
  pub upload-Replies :
      0 < length task.tests.input_tests
      → length task.tests.input_tests < 2 ^ 63
      → IsUp J M server'
      → (m : TaskMetaData) × (get_task_meta_data J M task.id server'.task_meta ≡ value (expected m))
        × ((replies : List GetBatchReply) × Replies J M server' task.id 0 replies
            × (length replies ≡ length m.batches)
            × (all_inputs replies ≡ task.tests.input_tests)
            × (all_outputs replies ≡ task.tests.output_tests))
  upload-Replies some_test small up =
      let a = upload_tests-Accepted J M C req server server' res task done fine accepted in
      let m : TaskMetaData = record {
        task_id = task.id;
        batches = a.batches;
        batch_size = server.batch_size;
      } in
      let metas =
        get-upsert_task_meta_data J M m server.task_meta server'.task_meta a.meta_written
          up.task_meta up.converts in
      (
        m,
        metas,
        batches-Replies J M server' task.id m (uploaded task rs) metas upload_tests-IsTable
            up.task_tests [] a.batches 1 task.tests refl
            (flatten-split_into_batches task.tests.input_tests task.tests.output_tests
              server.batch_size a.batches a.split)
            (split_into_batches-IsNonempty task.tests.input_tests task.tests.output_tests
              server.batch_size a.batches a.split some_test)
            (upload_tests-HoldsTests small) (omega arith) (omega (arith, small)),
      )

  -- After PUT /uploadTests of at least one test and fewer than 2^63, accepted by Parse and answered
  -- by 200, into a well-formed collection of tests, and where the database answers reads and its
  -- documents convert to JSON: the metadata of the task can be read, and fetching its batches one
  -- after the other by GetBatch gives exactly the inputs and outputs of the request, in order.
  pub upload-fetch :
      0 < length task.tests.input_tests
      → length task.tests.input_tests < 2 ^ 63
      → IsUp J M server'
      → (m : TaskMetaData) × (get_task_meta_data J M task.id server'.task_meta ≡ value (expected m))
        × (fetch_batches J M server' task.id (length m.batches) 0
            ≡ value
                (ok, record { input = task.tests.input_tests; output = task.tests.output_tests }))
  upload-fetch some_test small up =
      let (m, metas, (replies, answered, count, inputs, outputs)) =
        upload-Replies some_test small up in
      (
        m,
        metas,
        fetch_batches-eq J M server' task.id replies answered (length m.batches) count task.tests
            inputs outputs,
      )
