-- ===== src/Tabasco/EndToEnd/Others.antt =====
-- What an upload leaves of the tests of other tasks.
use distributed_testing_syst.Base.{
  ℕ, ◌+◌, ◌^◌, ◌≤◌, ◌<◌, List, Str, str, length, false, ◌≡◌, ◌≢◌, ◌∙◌, arith,
}
use distributed_testing_syst.Base.Int.{to_int64, to_int64-injective, eq_ℤ, eq_ℤ_iff}
use distributed_testing_syst.Base.Outcome.{value}
use distributed_testing_syst.Extern.Json.{Json}
use distributed_testing_syst.Extern.Mongo.{Mongo}
use distributed_testing_syst.Extern.Crow.{Crow, Response, new_response}
use distributed_testing_syst.Tabasco.Batches.Cover.{range_from}
use distributed_testing_syst.Tabasco.Data.{TaskTests, Task}
use distributed_testing_syst.Tabasco.Storage.{tests_of_batch}
use distributed_testing_syst.Tabasco.Storage.Rows.{Row}
use distributed_testing_syst.Tabasco.Storage.Table.{lookup_row, lookup_row-upsert_rows_other}
use distributed_testing_syst.Tabasco.Storage.Upload.{IsTable, uploaded}
use distributed_testing_syst.Tabasco.Storage.Fetch.{HoldsTests, Answers, tests_of_batch-eq}
use distributed_testing_syst.Tabasco.Server.{Server}
use distributed_testing_syst.Tabasco.Http.Uploads.{parsed, parse_tests, upload_tests}
use distributed_testing_syst.Tabasco.EndToEnd.{upload_tests-IsTable}

module _ (task : Task) (rs : List Row) (other : ℕ) (apart : other ≢ task.id)
    (fits : task.id < 2 ^ 64) (other_fits : other < 2 ^ 64) where
  eq_ids : eq_ℤ (to_int64 task.id) (to_int64 other) ≡ false
  eq_ids =
      ground (arith, eq_ℤ_iff (to_int64 task.id) (to_int64 other), to_int64-injective task.id other)

  lookup_row-uploaded-other :
      (test : ℕ) (kind : Str)
      → lookup_row (to_int64 other) (to_int64 test) kind (uploaded task rs)
        ≡ lookup_row (to_int64 other) (to_int64 test) kind rs
  lookup_row-uploaded-other test kind =
      lookup_row-upsert_rows_other (to_int64 task.id) (str "output") 0 _ _ (to_int64 other)
        (to_int64 test) kind (rw eq_ids)
      ∙ lookup_row-upsert_rows_other (to_int64 task.id) (str "input") 0 _ rs (to_int64 other)
          (to_int64 test) kind (rw eq_ids)

  pub HoldsTests-uploaded_other :
      (first : ℕ) (tests : TaskTests)
      → HoldsTests rs other first tests
      → HoldsTests (uploaded task rs) other first tests
  HoldsTests-uploaded_other first tests h = record {
    paired = h.paired;
    inputs = λ j lt. lookup_row-uploaded-other (first + j) (str "input") ∙ h.inputs j lt;
    outputs = λ j lt. lookup_row-uploaded-other (first + j) (str "output") ∙ h.outputs j lt;
  }

-- After an upload that Parse accepts and that is answered by 200, into a well-formed collection
-- that then answers reads, the tests of another task that the table holds under the ids from a
-- positive one on, at least one and below 2^63, are still what GetTaskBatch of their ids returns;
-- both task ids are below 2^64.
pub upload_tests-other_task :
    (J : Json) (M : Mongo J) (C : Crow) (req : C.Request) (server server' : Server J M)
    (res : Response) (task : Task) (rs : List Row)
    → upload_tests J M C req new_response server ≡ (value res, server')
    → res.code ≡ 200
    → parse_tests J C req new_response ≡ value (parsed task)
    → IsTable J M server.task_tests rs
    → Answers J M server'.task_tests
    → (other first : ℕ) (tests : TaskTests) → other ≢ task.id
    → task.id < 2 ^ 64
    → other < 2 ^ 64
    → HoldsTests rs other first tests
    → 0 < first
    → 0 < length tests.input_tests
    → first + length tests.input_tests ≤ 2 ^ 63
    → tests_of_batch J M other (range_from first (length tests.input_tests)) server'.task_tests
      ≡ value tests
upload_tests-other_task J M C req server server' res task rs done fine accepted table answers other
      first tests apart fits other_fits holds numbered some_test small =
    tests_of_batch-eq J M other first tests server'.task_tests (uploaded task rs)
      (upload_tests-IsTable J M C req server server' res task rs done fine accepted table)
      (HoldsTests-uploaded_other task rs other apart fits other_fits first tests holds) answers
      numbered some_test small
