-- ===== src/Tabasco/Http/Codes/Answers.antt =====
-- The status code of every answer of a handler (task_batcher_storage_coordinator/http/handlers).
use distributed_testing_syst.Base.{arith}
use distributed_testing_syst.Base.{
  ℕ, List, [], Option, Option-cases, none, some, Str, str, Bool, true, ◌≡◌, refl, ap, inl, inr,
}
use distributed_testing_syst.Base.Outcome.{Outcome, value, throws, undefined, ◌>>=◌, traverse}
use distributed_testing_syst.Base.Number.{stoull}
use distributed_testing_syst.Extern.Json.{Json}
use distributed_testing_syst.Extern.Mongo.{Mongo}
use distributed_testing_syst.Extern.Crow.{Crow, Response, new_response}
use distributed_testing_syst.Utils.Expected.{Expected, expected, unexpected}
use distributed_testing_syst.Tabasco.Data.{
  Task, TaskMetaData, Build, Builds, build_to_json, builds_to_json,
}
use distributed_testing_syst.Tabasco.Storage.{
  Error, upsert_task_tests, upsert_task_meta_data, upsert_build as store_build, get_build,
  get_builds, catch_error, build_found, build_of_doc, id_filter,
}
use distributed_testing_syst.Tabasco.Server.{Server}
use distributed_testing_syst.Tabasco.Batches.{split_into_batches}
use distributed_testing_syst.Tabasco.Http.{
  Handler, uploads_tests, uploads_task_root_dir, uploads_build, lists_builds, shows_build, callback,
}
use distributed_testing_syst.Tabasco.Http.Uploads.{
  Parsed, parsed, refused, parse_tests, parse_build, finish_upload, store_meta, store_task,
  store_parsed, upload_tests, finish_build, store_parsed_build, upload_build, upload_task_root_dir,
}
use distributed_testing_syst.Tabasco.Http.Reads.{
  parse_build_id, answer_build, show_build, handle_build, answer_builds, handle_builds,
}
use distributed_testing_syst.Tabasco.Http.Codes.{
  is_code_of, is_error_of, HasCode, Parses, HasErrorCode, >>=-HasCode, >>=-HasErrorCode,
  parse_tests-Parses, parsed_build-Parses,
}

module _ (J : Json) (M : Mongo J) (C : Crow) where
  finish_upload-HasCode :
      (p : Outcome (Option Str) × M.Coll) (server : Server J M)
      → HasCode uploads_tests (finish_upload J M C new_response p server).0
  finish_upload-HasCode (value none, metas) server = refl
  finish_upload-HasCode (value (some e), metas) server = refl
  finish_upload-HasCode (throws e, metas) server = tt
  finish_upload-HasCode (undefined, metas) server = tt

  store_meta-HasCode :
      (m : TaskMetaData) (p : Outcome (Option Str) × M.Coll) (server : Server J M)
      → HasCode uploads_tests (store_meta J M C new_response m p server).0
  store_meta-HasCode m (value none, tests) server =
      finish_upload-HasCode (upsert_task_meta_data J M m server.task_meta)
        (record server { task_tests = tests })
  store_meta-HasCode m (value (some e), tests) server = refl
  store_meta-HasCode m (throws e, tests) server = tt
  store_meta-HasCode m (undefined, tests) server = tt

  store_parsed-HasCode :
      (p : Outcome (Parsed Task)) (server : Server J M)
      → Parses uploads_tests p
      → HasCode uploads_tests (store_parsed J M C new_response p server).0
  store_parsed-HasCode (throws e) server h = tt
  store_parsed-HasCode undefined server h = tt
  store_parsed-HasCode (value (refused res)) server h = ground (arith, h)
  store_parsed-HasCode (value (parsed task)) server h =
      store_task-HasCode
        (split_into_batches task.tests.input_tests task.tests.output_tests server.batch_size)
    where
      store_task-HasCode :
          (batches : Outcome (List (List ℕ)))
          → HasCode uploads_tests (store_task J M C new_response task batches server).0
      store_task-HasCode (throws e) = tt
      store_task-HasCode undefined = tt
      store_task-HasCode (value batches) =
          store_meta-HasCode _ (upsert_task_tests J M task server.task_tests) server

  finish_build-HasCode :
      (p : Outcome (Option Str) × M.Coll) (server : Server J M)
      → HasCode uploads_build (finish_build J M C new_response p server).0
  finish_build-HasCode (value none, builds) server = refl
  finish_build-HasCode (value (some e), builds) server = refl
  finish_build-HasCode (throws e, builds) server = tt
  finish_build-HasCode (undefined, builds) server = tt

  store_parsed_build-HasCode :
      (p : Outcome (Parsed Build)) (server : Server J M)
      → Parses uploads_build p
      → HasCode uploads_build (store_parsed_build J M C new_response p server).0
  store_parsed_build-HasCode (throws e) server h = tt
  store_parsed_build-HasCode undefined server h = tt
  store_parsed_build-HasCode (value (refused res)) server h = ground (arith, h)
  store_parsed_build-HasCode (value (parsed b)) server h =
      finish_build-HasCode (store_build J M b server.builds) server

  catch_error-code :
      {A : Type 0} (m : Outcome (Expected A Error)) (is_code : ℕ → Bool)
      → is_code 500 ≡ true
      → HasErrorCode is_code m
      → HasErrorCode is_code (catch_error m)
  catch_error-code (value r) is_code h k = k
  catch_error-code (throws e) is_code h k = h
  catch_error-code undefined is_code h k = tt

  answer_build-HasCode :
      (m : Outcome (Expected Build Error))
      → HasErrorCode (is_error_of shows_build) m
      → HasCode shows_build (m >>= answer_build J M C new_response)
  answer_build-HasCode (value (expected b)) h =
      >>=-HasCode shows_build (J.dump (build_to_json J b)) _ (λ text. refl)
  answer_build-HasCode (value (unexpected e)) h = ground (arith, h)
  answer_build-HasCode (throws e) h = tt
  answer_build-HasCode undefined h = tt

  answer_builds-HasCode :
      (m : Outcome (Expected Builds Error))
      → HasErrorCode (is_error_of lists_builds) m
      → HasCode lists_builds (m >>= answer_builds J M C new_response)
  answer_builds-HasCode (value (expected bs)) h =
      >>=-HasCode lists_builds (J.dump (builds_to_json J bs)) _ (λ text. refl)
  answer_builds-HasCode (value (unexpected e)) h = ground (arith, h)
  answer_builds-HasCode (throws e) h = tt
  answer_builds-HasCode undefined h = tt

  pub get_build-code :
      (build_id : ℕ) (c : M.Coll)
      → HasErrorCode (is_error_of shows_build) (get_build J M build_id c)
  unfolding get_build
  get_build-code build_id c = catch_error-code _ (is_error_of shows_build) refl (
      >>=-HasErrorCode (is_error_of shows_build) (M.find_one c (id_filter J M build_id))
        (build_found J M build_id) found)
    where
      found :
          (d : Option M.Doc) → HasErrorCode (is_error_of shows_build) (build_found J M build_id d)
      found none = refl
      found (some d) =
          >>=-HasErrorCode (is_error_of shows_build) (build_of_doc J M d) (λ b. value (expected b))
            (λ b. tt)

  pub get_builds-code : (c : M.Coll) → HasErrorCode (is_error_of lists_builds) (get_builds J M c)
  unfolding get_builds
  get_builds-code c = catch_error-code _ (is_error_of lists_builds) refl (
      >>=-HasErrorCode (is_error_of lists_builds) (M.find_all c []) _ (λ ds.
        >>=-HasErrorCode (is_error_of lists_builds) (traverse (build_of_doc J M) ds)
          (λ items. value (expected (record { items = items }))) (λ items. tt)))

  show_build-HasCode :
      (req : C.Request) (server : Server J M)
      → HasCode shows_build (handle_build J M C req new_response server)
  unfolding handle_build parse_build_id
  show_build-HasCode req server = elim (Option-cases (C.url_param req (str "id"))) [
    | inl missing ↦ rw (missing, HasCode) refl
    | inr (text, there) ↦ rw (there, HasCode) (by_id (stoull text))
  ]
    where
      by_id :
          (id : Outcome ℕ)
          → HasCode shows_build (
              ◌>>=◌ {A = Response × Option ℕ}
                (id >>= λ n. value (new_response, some n))
                (λ p. show_build J M C p.0 p.1 server))
      by_id (value id) = answer_build-HasCode (get_build J M id server.builds) (get_build-code id _)
      by_id (throws e) = tt
      by_id undefined = tt

  callback-HasCode :
      (h : Handler) (req : C.Request) (server : Server J M)
      → HasCode h (callback J M C h req server).0
  unfolding callback upload_tests upload_build upload_task_root_dir parse_build handle_builds
  callback-HasCode uploads_tests req server =
      store_parsed-HasCode (parse_tests J C req new_response) server (parse_tests-Parses J C req)
  callback-HasCode uploads_task_root_dir req server = refl
  callback-HasCode uploads_build req server =
      store_parsed_build-HasCode (parse_build J C req new_response) server
        (parsed_build-Parses J C _)
  callback-HasCode lists_builds req server =
      answer_builds-HasCode (get_builds J M server.builds) (get_builds-code server.builds)
  callback-HasCode shows_build req server = show_build-HasCode req server

  -- A response has the code 200 or an error code of its handler.
  pub callback-is_code_of :
      (h : Handler) (req : C.Request) (server server' : Server J M) (res : Response)
      → callback J M C h req server ≡ (value res, server')
      → is_code_of h res.code ≡ true
  callback-is_code_of h req server server' res done =
      rw (ap (λ r. r.0) done) at (callback-HasCode h req server)
