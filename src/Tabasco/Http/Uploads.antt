-- ===== src/Tabasco/Http/Uploads.antt =====
-- http/handlers/upload_tests_handler.cpp, upload_build_handler.cpp and upload_task_root_dir.cpp.
use distributed_testing_syst.Base.{
  ℕ, zero, suc, ◌+◌, ◌/◌, List, [], ◌∷◌, ◌++◌, Option, none, some, Str, str, to_string,
}
use distributed_testing_syst.Base.Outcome.{Outcome, value, throws, undefined, ◌>>=◌}
use distributed_testing_syst.Extern.Json.{Json}
use distributed_testing_syst.Extern.Mongo.{Mongo}
use distributed_testing_syst.Extern.Crow.{Crow, Message, Response}
use distributed_testing_syst.Utils.Expected.{Expected, expected, unexpected}
use distributed_testing_syst.Utils.ParseJson.{parse_json}
use distributed_testing_syst.Tabasco.Batches.{split_into_batches}
use distributed_testing_syst.Tabasco.Data.{TaskTests, Task, TaskMetaData, Build, build_from_json}
use distributed_testing_syst.Tabasco.Storage.{
  upsert_task_tests, upsert_task_meta_data, upsert_build as store_build,
}
use distributed_testing_syst.Tabasco.Server.{Server}

-- What a Parse method makes of a request: the handler's fields, or the response of a failure.
pub data Parsed (A : Type 0) : Type 0 where
  parsed : A → Parsed A
  refused : Response → Parsed A

abbrev pub bad_request : {A : Type 0} → Response → Str → Parsed A
bad_request res message = refused (record res { code = 400; body = message })

abbrev pub input_name : ℕ → Str
input_name i = to_string i ++ str "_input"

abbrev pub output_name : ℕ → Str
output_name i = to_string i ++ str "_output"

-- The loop of TUploadTestsHandler::Parse: `n` tests from number `i` on.
unfoldable pub collect_tests : Message → Response → ℕ → ℕ → List Str → List Str → Parsed TaskTests
collect_tests msg res zero i inputs outputs =
    parsed (record { input_tests = inputs; output_tests = outputs })
collect_tests msg res (suc n) i inputs outputs = elim (msg.part_body (input_name i)) [
  | none ↦ bad_request res (str "no " ++ input_name i)
  | some input ↦ elim (msg.part_body (output_name i)) [
    | none ↦ bad_request res (str "no " ++ output_name i)
    | some output ↦ collect_tests msg res n (i + 1) (inputs ++ input ∷ []) (outputs ++ output ∷ [])
  ]
]

module _ (J : Json) (C : Crow) where
  -- `task_.id = taskData.Value()["taskId"];`
  abbrev pub with_task_id : J.Value → Parsed TaskTests → Outcome (Parsed Task)
  with_task_id task_data (refused res) = value (refused res)
  with_task_id task_data (parsed tests) = do
    w ← J.index task_data (str "taskId")
    id ← J.to_nat w
    value (parsed (record { id = id; tests = tests }))

  abbrev pub parse_task : Message → Response → Expected J.Value Str → Outcome (Parsed Task)
  parse_task msg res (unexpected message) = value (bad_request res message)
  parse_task msg res (expected task_data) =
      with_task_id task_data (collect_tests msg res (msg.part_count / 2) 1 [] [])

  abbrev pub parse_message : Message → Response → Outcome (Parsed Task)
  parse_message msg res = elim (msg.part_body (str "taskData.json")) [
    | none ↦ value (bad_request res (str "no taskData.json specified"))
    | some text ↦ parse_task msg res (parse_json J text (str "taskId" ∷ []))
  ]

  -- TUploadTestsHandler::Parse.
  unfoldable pub parse_tests : C.Request → Response → Outcome (Parsed Task)
  unfolding collect_tests
  parse_tests req res = do msg ← C.multipart req; parse_message msg res

  abbrev pub parsed_build : Response → Expected J.Value Str → Outcome (Parsed Build)
  parsed_build res (unexpected message) = value (bad_request res message)
  parsed_build res (expected v) = do b ← build_from_json J v; value (parsed b)

  -- TUploadBuildHandler::Parse.
  unfoldable pub parse_build : C.Request → Response → Outcome (Parsed Build)
  parse_build req res =
      parsed_build res
        (parse_json J (C.body req) (str "id" ∷ str "executeScript" ∷ str "initScript" ∷ []))

  abbrev pub parsed_root_dir : Response → Str → Expected J.Value Str → Outcome (Parsed (ℕ × Str))
  parsed_root_dir res zip (unexpected message) = value (bad_request res message)
  parsed_root_dir res zip (expected v) = do
    w ← J.index v (str "taskId")
    id ← J.to_nat w
    value (parsed (id, zip))

  -- TUploadTaskRootDirHandler::Parse, which Handle does not call: a missing part leaves the response
  -- as it is.
  unfoldable pub parse_root_dir : C.Request → Response → Outcome (Parsed (ℕ × Str))
  parse_root_dir req res = do
    msg ← C.multipart req
    elim (msg.part_body (str "root_dir.zip")) [
      | none ↦ value (refused res)
      | some zip ↦ elim (msg.part_body (str "data.json")) [
        | none ↦ value (refused res)
        | some text ↦ parsed_root_dir res zip (parse_json J text (str "taskId" ∷ []))
      ]
    ]

module _ (J : Json) (M : Mongo J) (C : Crow) where
  abbrev pub Reply : Type 0
  Reply = Outcome Response × Server J M

  -- After UpsertTaskMetaData.
  abbrev pub finish_upload : Response → Outcome (Option Str) × M.Coll → Server J M → Reply
  finish_upload res (value none, metas) server = (value res, record server { task_meta = metas })
  finish_upload res (value (some e), metas) server = (
    value (record res { code = 400; body = str "UpsertTaskMetaData Error: " ++ e }),
    record server { task_meta = metas },
  )
  finish_upload res (throws e, metas) server = (throws e, record server { task_meta = metas })
  finish_upload res (undefined, metas) server = (undefined, record server { task_meta = metas })

  -- After UpsertTaskTests; `m` is the metadata to store.
  abbrev pub store_meta :
      Response → TaskMetaData → Outcome (Option Str) × M.Coll → Server J M → Reply
  store_meta res m (value none, tests) server =
      finish_upload res (upsert_task_meta_data J M m server.task_meta)
        (record server { task_tests = tests })
  store_meta res m (value (some e), tests) server =
      (value (record res { code = 400; body = e }), record server { task_tests = tests })
  store_meta res m (throws e, tests) server = (throws e, record server { task_tests = tests })
  store_meta res m (undefined, tests) server = (undefined, record server { task_tests = tests })

  abbrev pub store_task : Response → Task → Outcome (List (List ℕ)) → Server J M → Reply
  store_task res task (throws e) server = (throws e, server)
  store_task res task undefined server = (undefined, server)
  store_task res task (value batches) server =
      store_meta res
        (record { task_id = task.id; batches = batches; batch_size = server.batch_size })
        (upsert_task_tests J M task server.task_tests) server

  abbrev pub store_parsed : Response → Outcome (Parsed Task) → Server J M → Reply
  store_parsed res (throws e) server = (throws e, server)
  store_parsed res undefined server = (undefined, server)
  store_parsed res (value (refused res')) server = (value res', server)
  store_parsed res (value (parsed task)) server =
      store_task res task
        (split_into_batches task.tests.input_tests task.tests.output_tests server.batch_size) server

  -- TUploadTestsHandler::Handle.
  unfoldable pub upload_tests : C.Request → Response → Server J M → Reply
  upload_tests req res server = store_parsed res (parse_tests J C req res) server

  abbrev pub finish_build : Response → Outcome (Option Str) × M.Coll → Server J M → Reply
  finish_build res (value none, builds) server = (value res, record server { builds = builds })
  finish_build res (value (some e), builds) server =
      (value (record res { code = 500; body = e }), record server { builds = builds })
  finish_build res (throws e, builds) server = (throws e, record server { builds = builds })
  finish_build res (undefined, builds) server = (undefined, record server { builds = builds })

  abbrev pub store_parsed_build : Response → Outcome (Parsed Build) → Server J M → Reply
  store_parsed_build res (throws e) server = (throws e, server)
  store_parsed_build res undefined server = (undefined, server)
  store_parsed_build res (value (refused res')) server = (value res', server)
  store_parsed_build res (value (parsed b)) server =
      finish_build res (store_build J M b server.builds) server

  -- TUploadBuildHandler::Handle.
  unfoldable pub upload_build : C.Request → Response → Server J M → Reply
  upload_build req res server = store_parsed_build res (parse_build J C req res) server

  -- TUploadTaskRootDirHandler::Handle.
  unfoldable pub upload_task_root_dir : C.Request → Response → Server J M → Reply
  upload_task_root_dir req res server =
      (value (record res { code = 501; body = str "Not implemented yet! :)" }), server)
