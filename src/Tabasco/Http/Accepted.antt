-- ===== src/Tabasco/Http/Accepted.antt =====
-- What TUploadTestsHandler has done where it answers 200.
use distributed_testing_syst.Base.{
  ℕ, zero, suc, ◌+◌, ◌/◌, List, [], ◌∷◌, ◌++◌, Option, none, some, Str, str, length, length-append,
  Option-cases, ◌≡◌, refl, ap, sym, ◌∙◌, arith, inl, inr,
}
use distributed_testing_syst.Base.Outcome.{Outcome, value, throws, undefined, >>=-eq-value}
use distributed_testing_syst.Extern.Json.{Json}
use distributed_testing_syst.Extern.Mongo.{Mongo}
use distributed_testing_syst.Extern.Crow.{Crow, Message, Response, new_response}
use distributed_testing_syst.Utils.Expected.{Expected, expected, unexpected}
use distributed_testing_syst.Utils.ParseJson.{parse_json}
use distributed_testing_syst.Tabasco.Batches.{split_into_batches}
use distributed_testing_syst.Tabasco.Batches.Cover.{split_into_batches_total}
use distributed_testing_syst.Tabasco.Data.{TaskTests, Task, TaskMetaData}
use distributed_testing_syst.Tabasco.Storage.{upsert_task_tests, upsert_task_meta_data}
use distributed_testing_syst.Tabasco.Server.{Server}
use distributed_testing_syst.Tabasco.Http.Uploads.{
  Parsed, parsed, refused, input_name, output_name, collect_tests, with_task_id, parse_task,
  parse_message, parse_tests, finish_upload, store_meta, upload_tests,
}

-- The loop of Parse returns as many outputs as inputs.
collect_tests-paired :
    (msg : Message) (res : Response) (n i : ℕ) (inputs outputs : List Str) (tests : TaskTests)
    → collect_tests msg res n i inputs outputs ≡ parsed tests
    → length outputs ≡ length inputs
    → (length tests.output_tests ≡ length tests.input_tests)
      × (length tests.input_tests ≡ length inputs + n)
unfolding collect_tests
collect_tests-paired msg res zero i inputs outputs tests e h = ground arith
collect_tests-paired msg res (suc n) i inputs outputs tests e h =
    elim (Option-cases (msg.part_body (input_name i))) [
      | inl absent ↦ absurd (ground (arith, absent))
      | inr (a, found) ↦ elim (Option-cases (msg.part_body (output_name i))) [
        | inl absent ↦ absurd (ground (arith, found, absent))
        | inr (b, found') ↦
            let next : collect_tests msg res n (i + 1) (inputs ++ a ∷ []) (outputs ++ b ∷ [])
                ≡ parsed tests =
              ground (arith, found, found') in
            let li = length-append inputs (a ∷ []) in
            let lo = length-append outputs (b ∷ []) in
            let (paired, count) =
              collect_tests-paired msg res n (i + 1) (inputs ++ a ∷ []) (outputs ++ b ∷ []) tests
                next (omega (arith, li, lo, h)) in
            (paired, omega (arith, count, li))
      ]
    ]

module _ (J : Json) (M : Mongo J) (C : Crow) where
  finish_upload-accepted :
      (p : Outcome (Option Str) × M.Coll) (server server' : Server J M) (res' : Response)
      → finish_upload J M C new_response p server ≡ (value res', server')
      → res'.code ≡ 200
      → (metas : M.Coll) × (p ≡ (value none, metas))
        × (server' ≡ record server { task_meta = metas })
  finish_upload-accepted (value none, metas) server server' res' e h =
      (metas, refl, ap (λ q. q.1) (sym e))
  finish_upload-accepted (value (some x), metas) server server' res' e h = absurd (ground arith)
  finish_upload-accepted (throws x, metas) server server' res' e h = absurd (ground arith)
  finish_upload-accepted (undefined, metas) server server' res' e h = absurd (ground arith)

  store_meta-accepted :
      (m : TaskMetaData) (p : Outcome (Option Str) × M.Coll) (server server' : Server J M)
      (res' : Response)
      → store_meta J M C new_response m p server ≡ (value res', server')
      → res'.code ≡ 200
      → (tests metas : M.Coll) × (p ≡ (value none, tests))
        × (upsert_task_meta_data J M m server.task_meta ≡ (value none, metas))
        × (server' ≡ record server { task_tests = tests; task_meta = metas })
  store_meta-accepted m (value none, tests) server server' res' e h =
      let (metas, stored, same) =
        finish_upload-accepted (upsert_task_meta_data J M m server.task_meta)
          (record server { task_tests = tests }) server' res' e h in
      (tests, metas, refl, stored, same)
  store_meta-accepted m (value (some x), tests) server server' res' e h = absurd (ground arith)
  store_meta-accepted m (throws x, tests) server server' res' e h = absurd (ground arith)
  store_meta-accepted m (undefined, tests) server server' res' e h = absurd (ground arith)

module _ (J : Json) (C : Crow) where
  with_task_id-parsed :
      (v : J.Value) (p : Parsed TaskTests) (task : Task)
      → with_task_id J C v p ≡ value (parsed task)
      → p ≡ parsed task.tests
  with_task_id-parsed v (refused res) task e = absurd (ground arith)
  with_task_id-parsed v (parsed tests) task e =
      let (w, _, e') = >>=-eq-value (J.index v (str "taskId")) _ e in
      let (id, _, made) = >>=-eq-value (J.to_nat w) _ e' in ground arith

  parse_task-paired :
      (msg : Message) (res : Response) (data' : Expected J.Value Str) (task : Task)
      → parse_task J C msg res data' ≡ value (parsed task)
      → (length task.tests.output_tests ≡ length task.tests.input_tests)
        × (length task.tests.input_tests ≡ msg.part_count / 2)
  parse_task-paired msg res (unexpected x) task e = absurd (ground arith)
  parse_task-paired msg res (expected v) task e =
      let (paired, count) =
        collect_tests-paired msg res (msg.part_count / 2) 1 [] [] task.tests
          (with_task_id-parsed v _ task e) refl in
      (paired, omega (arith, count))

  -- A request that TUploadTestsHandler::Parse accepts is a multipart message, and gives as many
  -- outputs as inputs, half the number of its parts.
  pub parse_tests-paired :
      (req : C.Request) (res : Response) (task : Task)
      → parse_tests J C req res ≡ value (parsed task)
      → (length task.tests.output_tests ≡ length task.tests.input_tests)
        × ((msg : Message) × (C.multipart req ≡ value msg)
            × (length task.tests.input_tests ≡ msg.part_count / 2))
  unfolding parse_tests
  parse_tests-paired req res task e =
      let (msg, received, e') = >>=-eq-value (C.multipart req) _ e in
      elim (Option-cases (msg.part_body (str "taskData.json"))) [
        | inl absent ↦ absurd (ground (arith, absent))
        | inr (text, found) ↦
            let (paired, count) =
              parse_task-paired msg res (parse_json J text (str "taskId" ∷ [])) task
                (rw (found, parse_message) at e') in
            (paired, (msg, received, count))
      ]

-- Where a handler on a new response has answered 200 to a request that Parse accepts: the batches
-- were computed, and both collections were written with no error.
pub record Accepted (J : Json) (M : Mongo J) (task : Task) (server server' : Server J M)
    : Type 0 where
  pub batches : List (List ℕ)
  pub split :
      split_into_batches task.tests.input_tests task.tests.output_tests server.batch_size
      ≡ value batches
  pub tests_written :
      upsert_task_tests J M task server.task_tests ≡ (value none, server'.task_tests)
  pub meta_written :
      upsert_task_meta_data J M
        (record { task_id = task.id; batches = batches; batch_size = server.batch_size })
        server.task_meta
      ≡ (value none, server'.task_meta)

pub upload_tests-Accepted :
    (J : Json) (M : Mongo J) (C : Crow) (req : C.Request) (server server' : Server J M)
    (res : Response) (task : Task)
    → upload_tests J M C req new_response server ≡ (value res, server')
    → res.code ≡ 200
    → parse_tests J C req new_response ≡ value (parsed task)
    → Accepted J M task server server'
unfolding upload_tests
upload_tests-Accepted J M C req server server' res task done fine accepted =
    let (paired, _) = parse_tests-paired J C req new_response task accepted in
    let (bs, split) =
      split_into_batches_total task.tests.input_tests task.tests.output_tests server.batch_size
        (omega (arith, paired)) in
    let stored = rw (accepted, split) at done in
    let (tests, metas, first, second, same) =
      store_meta-accepted J M C _ (upsert_task_tests J M task server.task_tests) server server' res
        stored fine in
    record {
      batches = bs;
      split = split;
      tests_written = first ∙ ap (λ s. (value none, s.task_tests)) (sym same);
      meta_written = second ∙ ap (λ s. (value none, s.task_meta)) (sym same);
    }
