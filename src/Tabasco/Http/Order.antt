-- ===== src/Tabasco/Http/Order.antt =====
-- What TUploadTestsHandler has written where it ends (task_batcher_storage_coordinator/http/handlers/
-- upload_tests_handler.cpp).
use distributed_testing_syst.Base.{
  ℕ, List, Option, none, some, Str, ◌≡◌, ◌⊎◌, inl, inr, refl, ap, sym,
}
use distributed_testing_syst.Base.Outcome.{Outcome, value, throws, undefined}
use distributed_testing_syst.Extern.Json.{Json}
use distributed_testing_syst.Extern.Mongo.{Mongo}
use distributed_testing_syst.Extern.Crow.{Crow, Response}
use distributed_testing_syst.Tabasco.Batches.{split_into_batches}
use distributed_testing_syst.Tabasco.Data.{Task, TaskMetaData}
use distributed_testing_syst.Tabasco.Storage.{upsert_task_tests, upsert_task_meta_data}
use distributed_testing_syst.Tabasco.Server.{Server}
use distributed_testing_syst.Tabasco.Http.Uploads.{
  Parsed, parsed, refused, parse_tests, finish_upload, store_meta, store_task, store_parsed,
  upload_tests,
}

module _ (J : Json) (M : Mongo J) (C : Crow) where
  -- The builds are as before; the metadata are too, or `Written` holds.
  abbrev Keeps : Type 0 → Server J M → Server J M → Type 0
  Keeps Written server server' =
      (server'.builds ≡ server.builds) × ((server'.task_meta ≡ server.task_meta) ⊎ Written)

  unchanged :
      (Written : Type 0) (tests : M.Coll) (a b : Outcome Response) (server server' : Server J M)
      → Path (Outcome Response × Server J M) (a, record server { task_tests = tests }) (b, server')
      → Keeps Written server server'
  unchanged Written tests a b server server' e =
      (ap (λ q. q.1.builds) (sym e), inl (ap (λ q. q.1.task_meta) (sym e)))

  kept :
      (metas : M.Coll) (a b : Outcome Response) (server server' : Server J M)
      → Path (Outcome Response × Server J M) (a, record server { task_meta = metas }) (b, server')
      → (server'.builds ≡ server.builds) × (server'.task_tests ≡ server.task_tests)
  kept metas a b server server' e = (ap (λ q. q.1.builds) (sym e), ap (λ q. q.1.task_tests) (sym e))

  finish_upload-tests :
      (res : Response) (p : Outcome (Option Str) × M.Coll) (server server' : Server J M)
      (reply : Outcome Response)
      → finish_upload J M C res p server ≡ (reply, server')
      → (server'.builds ≡ server.builds) × (server'.task_tests ≡ server.task_tests)
  finish_upload-tests res (value none, metas) server server' reply e =
      kept metas _ _ server server' e
  finish_upload-tests res (value (some x), metas) server server' reply e =
      kept metas _ _ server server' e
  finish_upload-tests res (throws x, metas) server server' reply e = kept metas _ _ server server' e
  finish_upload-tests res (undefined, metas) server server' reply e =
      kept metas _ _ server server' e

  abbrev TestsFirst : Outcome (Option Str) × M.Coll → Server J M → Server J M → Type 0
  TestsFirst p server server' = Keeps (p ≡ (value none, server'.task_tests)) server server'

  store_meta-TestsFirst :
      (res : Response) (m : TaskMetaData) (p : Outcome (Option Str) × M.Coll)
      (server server' : Server J M) (reply : Outcome Response)
      → store_meta J M C res m p server ≡ (reply, server')
      → TestsFirst p server server'
  store_meta-TestsFirst res m (value none, tests) server server' reply e =
      let (builds, written) =
        finish_upload-tests res (upsert_task_meta_data J M m server.task_meta)
          (record server { task_tests = tests }) server' reply e in
      (builds, inr (ap (λ c. (value none, c)) (sym written)))
  store_meta-TestsFirst res m (value (some x), tests) server server' reply e =
      unchanged _ tests _ _ server server' e
  store_meta-TestsFirst res m (throws x, tests) server server' reply e =
      unchanged _ tests _ _ server server' e
  store_meta-TestsFirst res m (undefined, tests) server server' reply e =
      unchanged _ tests _ _ server server' e

  store_task-TestsFirst :
      (res : Response) (task : Task) (batches : Outcome (List (List ℕ)))
      (server server' : Server J M) (reply : Outcome Response)
      → store_task J M C res task batches server ≡ (reply, server')
      → TestsFirst (upsert_task_tests J M task server.task_tests) server server'
  store_task-TestsFirst res task (value bs) server server' reply e =
      store_meta-TestsFirst res _ (upsert_task_tests J M task server.task_tests) server server'
        reply e
  store_task-TestsFirst res task (throws x) server server' reply e =
      unchanged _ server.task_tests _ _ server server' e
  store_task-TestsFirst res task undefined server server' reply e =
      unchanged _ server.task_tests _ _ server server' e

  store_parsed-tests :
      (res : Response) (p : Outcome (Parsed Task)) (server server' : Server J M)
      (reply : Outcome Response)
      → store_parsed J M C res p server ≡ (reply, server')
      → (server'.builds ≡ server.builds)
        × ((server'.task_meta ≡ server.task_meta)
            ⊎ ((task : Task) × (p ≡ value (parsed task))
                × (upsert_task_tests J M task server.task_tests
                    ≡ (value none, server'.task_tests))))
  store_parsed-tests res (value (parsed task)) server server' reply e =
      let (builds, order) =
        store_task-TestsFirst res task
          (split_into_batches task.tests.input_tests task.tests.output_tests server.batch_size)
          server server' reply e in
      (builds, elim order [ inl same ↦ inl same | inr written ↦ inr (task, refl, written) ])
  store_parsed-tests res (value (refused res')) server server' reply e =
      unchanged _ server.task_tests _ _ server server' e
  store_parsed-tests res (throws x) server server' reply e =
      unchanged _ server.task_tests _ _ server server' e
  store_parsed-tests res undefined server server' reply e =
      unchanged _ server.task_tests _ _ server server' e

  -- However PUT /uploadTests ends, with an answer, an exception or undefined behaviour, the builds
  -- stay as they were, and the metadata too, unless Parse accepted the request and UpsertTaskTests
  -- wrote all its tests without an error.
  pub upload_tests-tests_first :
      (req : C.Request) (res : Response) (server server' : Server J M) (reply : Outcome Response)
      → upload_tests J M C req res server ≡ (reply, server')
      → (server'.builds ≡ server.builds)
        × ((server'.task_meta ≡ server.task_meta)
            ⊎ ((task : Task) × (parse_tests J C req res ≡ value (parsed task))
                × (upsert_task_tests J M task server.task_tests
                    ≡ (value none, server'.task_tests))))
  unfolding upload_tests
  upload_tests-tests_first req res server server' reply e =
      store_parsed-tests res (parse_tests J C req res) server server' reply e
