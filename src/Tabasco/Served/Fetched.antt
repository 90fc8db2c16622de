-- ===== src/Tabasco/Served/Fetched.antt =====
-- What the service answers of the last upload of each task.
use distributed_testing_syst.Base.{
  ℕ, ◌^◌, ◌<◌, ◌==◌, ==_iff, List, [], ◌∷◌, some, Bool-cases, length, ◌≡◌, ◌≢◌, refl, sym, arith,
  inl, inr,
}
use distributed_testing_syst.Base.Outcome.{value}
use distributed_testing_syst.Extern.Json.{Json}
use distributed_testing_syst.Extern.Mongo.{Mongo}
use distributed_testing_syst.Extern.Crow.{Crow, Response, new_response}
use distributed_testing_syst.Utils.Expected.{expected}
use distributed_testing_syst.Tabasco.Batches.{split_into_batches}
use distributed_testing_syst.Tabasco.Batches.Cover.{
  flatten-split_into_batches, split_into_batches-IsNonempty,
}
use distributed_testing_syst.Tabasco.Data.{Task, TaskMetaData}
use distributed_testing_syst.Tabasco.Storage.{get_task_meta_data}
use distributed_testing_syst.Tabasco.Storage.Rows.{Row}
use distributed_testing_syst.Tabasco.Storage.Upload.{IsTable, uploaded}
use distributed_testing_syst.Tabasco.Storage.Fetch.{HoldsTests}
use distributed_testing_syst.Tabasco.Storage.Documents.{
  HoldsMeta, upsert_task_meta_data-HoldsMeta, HoldsMeta-upsert_task_meta_data,
  get_task_meta_data-HoldsMeta,
}
use distributed_testing_syst.Tabasco.Server.{Server}
use distributed_testing_syst.Tabasco.Http.{callback}
use distributed_testing_syst.Tabasco.Http.Uploads.{parsed, parse_tests, upload_tests}
use distributed_testing_syst.Tabasco.Http.Accepted.{Accepted, upload_tests-Accepted}
use distributed_testing_syst.Tabasco.Grpc.{ok}
use distributed_testing_syst.Tabasco.Grpc.Batches.{fetch_batches, fetch_batches-eq, batches-Replies}
use distributed_testing_syst.Tabasco.EndToEnd.{IsUp, upload_tests-IsTable, upload_tests-HoldsTests}
use distributed_testing_syst.Tabasco.EndToEnd.Others.{HoldsTests-uploaded_other}
use distributed_testing_syst.Tabasco.Served.{
  last_upload, Serves, begun, uploaded_task, not_parsed, another_handler,
}
use distributed_testing_syst.Tabasco.Served.Kept.{another_handler-Keeps, not_parsed-Keeps}

-- Every task has an id of 64 bits and fewer than 2^63 tests.
abbrev pub AreBounded : List Task → Type 0
AreBounded [] = Unit
AreBounded (task ∷ tasks) =
    (task.id < 2 ^ 64) × (length task.tests.input_tests < 2 ^ 63) × AreBounded tasks

module _ (J : Json) (M : Mongo J) (C : Crow) where
  -- The collections have the tests and the metadata of a task.
  record IsStored (rs : List Row) (metas : M.Coll) (task : Task) : Type 0 where
    batches : List (List ℕ)
    batch_size : ℕ
    split :
        split_into_batches task.tests.input_tests task.tests.output_tests batch_size ≡ value batches
    fits : task.id < 2 ^ 64
    small : length task.tests.input_tests < 2 ^ 63
    tests : HoldsTests rs task.id 1 task.tests
    meta :
        HoldsMeta J M
          (record { task_id = task.id; batches = batches; batch_size = batch_size })
          metas

  -- They have those of the last upload of every task.
  record HasAll (tasks : List Task) (server : Server J M) : Type 0 where
    table : List Row
    well_formed : IsTable J M server.task_tests table
    last :
        (id : ℕ) (task : Task)
        → last_upload id tasks ≡ some task
        → (task.id ≡ id) × IsStored table server.task_meta task

  HasAll-Keeps :
      (tasks : List Task) (server server' : Server J M)
      → (server'.task_tests ≡ server.task_tests) × (server'.task_meta ≡ server.task_meta)
      → HasAll tasks server
      → HasAll tasks server'
  HasAll-Keeps tasks server server' same h = record {
    table = h.table;
    well_formed = rw (same.0) h.well_formed;
    last = λ id task e. rw (same.1) (h.last id task e);
  }

  IsStored-upload_other :
      (rs : List Row) (server server' : Server J M) (task other : Task)
      → task.id ≢ other.id
      → task.id < 2 ^ 64
      → Accepted J M task server server'
      → IsStored rs server.task_meta other
      → IsStored (uploaded task rs) server'.task_meta other
  IsStored-upload_other rs server server' task other apart fits a h = record {
    batches = h.batches;
    batch_size = h.batch_size;
    split = h.split;
    fits = h.fits;
    small = h.small;
    tests =
        HoldsTests-uploaded_other task rs other.id (λ e. apart (sym e)) fits h.fits 1 other.tests
          h.tests;
    meta =
        HoldsMeta-upsert_task_meta_data J M
          (record { task_id = other.id; batches = h.batches; batch_size = h.batch_size })
          (record { task_id = task.id; batches = a.batches; batch_size = server.batch_size })
          server.task_meta server'.task_meta apart fits h.fits a.meta_written h.meta;
  }

  HasAll-upload :
      (tasks : List Task) (server server' : Server J M) (req : C.Request) (task : Task)
      (res : Response)
      → task.id < 2 ^ 64
      → length task.tests.input_tests < 2 ^ 63
      → upload_tests J M C req new_response server ≡ (value res, server')
      → res.code ≡ 200
      → parse_tests J C req new_response ≡ value (parsed task)
      → HasAll tasks server
      → HasAll (task ∷ tasks) server'
  HasAll-upload tasks server server' req task res fits small done fine accepted h =
      let a = upload_tests-Accepted J M C req server server' res task done fine accepted in
      record {
        table = uploaded task h.table;
        well_formed =
            upload_tests-IsTable J M C req server server' res task h.table done fine accepted
              h.well_formed;
        last = λ id last_task e. elim (Bool-cases (task.id == id)) [
          | inl same ↦
              let it : task ≡ last_task = cc (rw same at e) in
              rw (← it) (
                (==_iff task.id id).0 same,
                record {
                  batches = a.batches;
                  batch_size = server.batch_size;
                  split = a.split;
                  fits = fits;
                  small = small;
                  tests =
                      upload_tests-HoldsTests J M C req server server' res task h.table done fine
                        accepted h.well_formed small;
                  meta =
                      upsert_task_meta_data-HoldsMeta J M
                        (record {
                          task_id = task.id;
                          batches = a.batches;
                          batch_size = server.batch_size;
                        })
                        server.task_meta server'.task_meta a.meta_written;
                },
              )
          | inr differ ↦
              let (is, stored) = h.last id last_task (rw differ at e) in
              let apart : task.id ≢ last_task.id =
                λ x. ground (arith, differ, x, is, ==_iff task.id id) in
              (is, IsStored-upload_other h.table server server' task last_task apart fits a stored)
        ];
      }

  Serves-HasAll :
      (start server : Server J M) (rs : List Row) (tasks : List Task)
      → Serves J M C start tasks server
      → IsTable J M start.task_tests rs
      → AreBounded tasks
      → HasAll tasks server
  unfolding callback
  Serves-HasAll start server rs tasks begun table bounded = record {
    table = rs;
    well_formed = table;
    last = λ id task e. absurd (ground arith);
  }
  Serves-HasAll start server' rs _
        (uploaded_task {tasks = tasks} {server = server} req task res before accepted done fine)
        table bounded =
      HasAll-upload tasks server server' req task res bounded.0 bounded.1 done fine accepted
        (Serves-HasAll start server rs tasks before table bounded.2)
  Serves-HasAll start server' rs tasks (not_parsed {server = server} req reply before no_task done)
        table bounded =
      HasAll-Keeps tasks server server'
        (not_parsed-Keeps J M C req reply server server' no_task done)
        (Serves-HasAll start server rs tasks before table bounded)
  Serves-HasAll start server' rs tasks
        (another_handler {server = server} h req reply before other done) table bounded =
      HasAll-Keeps tasks server server'
        (another_handler-Keeps J M C h req reply server server' other done)
        (Serves-HasAll start server rs tasks before table bounded)

  -- A server starts with a well-formed collection of tests and answers requests one after the
  -- other: uploads that Parse accepts and that are answered by 200, of tasks with ids below 2^64
  -- and fewer than 2^63 tests, uploads that Parse does not accept, and requests to the other
  -- handlers, however they end. Then, where the database answers reads and its documents convert to
  -- JSON, for the last upload of each task that has at least one test, the metadata of the task can
  -- be read, and fetching its batches one after the other by GetBatch gives exactly the inputs and
  -- outputs of that upload, in order, whatever was uploaded before it and whatever came after it
  -- for other tasks.
  pub Serves-fetch :
      (start server : Server J M) (rs : List Row) (tasks : List Task) (task : Task)
      → Serves J M C start tasks server
      → IsTable J M start.task_tests rs
      → AreBounded tasks
      → last_upload task.id tasks ≡ some task
      → 0 < length task.tests.input_tests
      → IsUp J M server
      → (m : TaskMetaData) × (get_task_meta_data J M task.id server.task_meta ≡ value (expected m))
        × (fetch_batches J M server task.id (length m.batches) 0
            ≡ value
                (ok, record { input = task.tests.input_tests; output = task.tests.output_tests }))
  Serves-fetch start server rs tasks task serves table bounded last some_test up =
      let h = Serves-HasAll start server rs tasks serves table bounded in
      let stored = (h.last task.id task last).1 in
      let m : TaskMetaData = record {
        task_id = task.id;
        batches = stored.batches;
        batch_size = stored.batch_size;
      } in
      let metas =
        get_task_meta_data-HoldsMeta J M m server.task_meta stored.meta up.task_meta up.converts in
      let (replies, asked, count, inputs, outputs) =
        batches-Replies J M server task.id m h.table metas h.well_formed up.task_tests []
          stored.batches 1 task.tests refl
          (flatten-split_into_batches task.tests.input_tests task.tests.output_tests
            stored.batch_size stored.batches stored.split)
          (split_into_batches-IsNonempty task.tests.input_tests task.tests.output_tests
            stored.batch_size stored.batches stored.split some_test)
          stored.tests (omega arith) (omega (arith, stored.small)) in
      (
        m,
        metas,
        fetch_batches-eq J M server task.id replies asked (length m.batches) count task.tests inputs
            outputs,
      )
