-- ===== src/Tabasco/EndToEnd/Faults.antt =====
-- Requests for which GetBatch reads past the end of a vector.
use distributed_testing_syst.Base.{
  ℕ, zero, suc, Str, ◌≤◌, List, [], ◌∷◌, length, get_elem?, none, some, ◌≡◌, refl, ap, sym, ◌∙◌,
  arith,
}
use distributed_testing_syst.Base.Outcome.{value, undefined}
use distributed_testing_syst.Extern.Json.{Json}
use distributed_testing_syst.Extern.Mongo.{Mongo}
use distributed_testing_syst.Extern.Crow.{Crow, Response, new_response}
use distributed_testing_syst.Utils.Expected.{expected}
use distributed_testing_syst.Tabasco.Batches.{split_into_batches}
use distributed_testing_syst.Tabasco.Data.{Task, TaskMetaData}
use distributed_testing_syst.Tabasco.Storage.{get_task_meta_data, get_task_batch, element}
use distributed_testing_syst.Tabasco.Storage.Documents.{get-upsert_task_meta_data}
use distributed_testing_syst.Tabasco.Server.{Server}
use distributed_testing_syst.Tabasco.Grpc.{GetBatchReply, get_batch}
use distributed_testing_syst.Tabasco.Grpc.Batches.{empty_reply}
use distributed_testing_syst.Tabasco.Http.Uploads.{parsed, parse_tests, upload_tests}
use distributed_testing_syst.Tabasco.Http.Accepted.{upload_tests-Accepted}
use distributed_testing_syst.Tabasco.EndToEnd.{IsUp}

element-none : {A : Type 0} (xs : List A) (i : ℕ) → length xs ≤ i → get_elem? xs i ≡ none
element-none [] i h = refl
element-none (x ∷ xs) zero h = absurd (omega arith)
element-none (x ∷ xs) (suc i) h = element-none xs i (omega arith)

module _ (J : Json) (M : Mongo J) (server : Server J M) (task_id : ℕ) (m : TaskMetaData)
    (metas : get_task_meta_data J M task_id server.task_meta ≡ value (expected m)) where
  -- Where the metadata of the task can be read, GetBatch of a batch id that is not below the number
  -- of batches is undefined: the service reads past the end of the vector.
  pub get_batch-past_end :
      (batch_id : ℕ) (reply : GetBatchReply)
      → length m.batches ≤ batch_id
      → get_batch J M server (record { task_id = task_id; batch_id = batch_id }) reply ≡ undefined
  unfolding get_batch get_task_batch
  get_batch-past_end batch_id reply h = rw metas (rw (element-none m.batches batch_id h, element))

  -- Nor is an empty batch: its first test id is read although there is none.
  pub get_batch-empty :
      (batch_id : ℕ) (reply : GetBatchReply)
      → get_elem? m.batches batch_id ≡ some []
      → get_batch J M server (record { task_id = task_id; batch_id = batch_id }) reply ≡ undefined
  unfolding get_batch get_task_batch
  get_batch-empty batch_id reply h = rw metas (rw (h, element))

split-no_tests : (b : ℕ) (outputs : List Str) → split_into_batches [] outputs b ≡ value ([] ∷ [])
unfolding split_into_batches
split-no_tests b outputs = refl

-- After an upload with no tests that Parse accepts and that is answered by 200, and where the
-- database answers reads and its documents convert to JSON, the metadata of the task has one batch,
-- and GetBatch of it is undefined.
pub upload_none-get_batch :
    (J : Json) (M : Mongo J) (C : Crow) (req : C.Request) (server server' : Server J M)
    (res : Response) (task : Task)
    → upload_tests J M C req new_response server ≡ (value res, server')
    → res.code ≡ 200
    → parse_tests J C req new_response ≡ value (parsed task)
    → task.tests.input_tests ≡ []
    → IsUp J M server'
    → (m : TaskMetaData) × (get_task_meta_data J M task.id server'.task_meta ≡ value (expected m))
      × (length m.batches ≡ 1)
      × (get_batch J M server' (record { task_id = task.id; batch_id = 0 }) empty_reply ≡ undefined)
upload_none-get_batch J M C req server server' res task done fine accepted no_tests up =
    let a = upload_tests-Accepted J M C req server server' res task done fine accepted in
    let m : TaskMetaData = record {
      task_id = task.id;
      batches = a.batches;
      batch_size = server.batch_size;
    } in
    let metas =
      get-upsert_task_meta_data J M m server.task_meta server'.task_meta a.meta_written up.task_meta
        up.converts in
    let split =
      sym (split-no_tests server.batch_size task.tests.output_tests)
      ∙ ap (λ i. split_into_batches i task.tests.output_tests server.batch_size) (sym no_tests)
      ∙ a.split in
    let one : [] ∷ [] ≡ a.batches = cc in
    (m, metas, rw (← one), get_batch-empty J M server' task.id m metas 0 empty_reply (rw (← one)))
