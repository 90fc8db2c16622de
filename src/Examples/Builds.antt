-- ===== src/Examples/Builds.antt =====
-- Metadata and builds in a collection.
use distributed_testing_syst.Base.{◌≡◌, refl, [], ◌∷◌, str, none, true}
use distributed_testing_syst.Base.Number.{stoull}
use distributed_testing_syst.Utils.ParseJson.{parse_json, find_missing_json_fields}
use distributed_testing_syst.Extern.Crow.{new_response}
use distributed_testing_syst.Sample.Requests.{Request, list_crow}
use distributed_testing_syst.Tabasco.Server.{Server}
use distributed_testing_syst.Tabasco.Http.{uploads_build, shows_build, callback}
use distributed_testing_syst.Tabasco.Http.Uploads.{parsed, parse_build, upload_build}
use distributed_testing_syst.Tabasco.Http.Codes.{is_error_of}
use distributed_testing_syst.Tabasco.Http.Codes.Exact.{Did, callback-code}
use distributed_testing_syst.Tabasco.Http.Builds.{upload_build-shows_build}
use distributed_testing_syst.Base.Int.{to_int64}
use distributed_testing_syst.Base.Outcome.{value}
use mathlib.Core.List.Memᴰ
use distributed_testing_syst.Extern.Mongo.{upsert_first}
use distributed_testing_syst.Tabasco.Data.{
  TaskMetaData, Build, meta_to_json, build_to_json, build_from_json,
}
use distributed_testing_syst.Tabasco.Storage.{
  Error, upsert_task_meta_data, get_task_meta_data, get_build, upsert_build,
}
use distributed_testing_syst.Tabasco.Storage.Fetch.{Answers}
use distributed_testing_syst.Base.{List, arith, ◌↔◌, ◌⊎◌}
use distributed_testing_syst.Utils.Expected.{Expected}
use distributed_testing_syst.Tabasco.Storage.Keyed.{
  Call, read, wrote, Calls, reads, writes, stops, ReadsRight,
}
use distributed_testing_syst.Tabasco.Storage.History.{
  metadata, builds, metadata-ReadsRight, builds-ReadsRight,
}
use distributed_testing_syst.Tabasco.Storage.Documents.{HasNoId}
use distributed_testing_syst.Tabasco.Storage.Written.{Converts}
use distributed_testing_syst.Sample.Trees.{tree_json, tree_dump}
use distributed_testing_syst.Sample.Database.{Coll, list_mongo, empty_coll}

answers : (c : Coll) → Answers tree_json list_mongo c
answers c = record { one = λ f. (_, refl); all = λ f. (_, refl) }

converts : Converts tree_json list_mongo
converts d = (_, refl)

abbrev meta_data : TaskMetaData
meta_data = record { task_id = 7; batches = (1 ∷ 2 ∷ []) ∷ (3 ∷ []) ∷ []; batch_size = 1024 }

with_meta : Coll
with_meta = (upsert_task_meta_data tree_json list_mongo meta_data empty_coll).1

with_meta-written :
    upsert_task_meta_data tree_json list_mongo meta_data empty_coll ≡ (value none, with_meta)
unfolding upsert_task_meta_data meta_to_json upsert_first with_meta to_int64
with_meta-written = refl

abbrev build : Build
build = record { id = 5; init_script = str "make"; execute_script = str "./run" }

with_build : Coll
with_build = (upsert_build tree_json list_mongo build empty_coll).1

with_build-written : upsert_build tree_json list_mongo build empty_coll ≡ (value none, with_build)
unfolding upsert_build build_to_json upsert_first with_build to_int64
with_build-written = refl

empty-HasNoId : HasNoId tree_json list_mongo empty_coll
empty-HasNoId x m = absurd (Memᴰ.not-nil m)

-- PUT /uploadBuild, and GET /build of its id.
abbrev start : Server tree_json list_mongo
start = record {
  batch_size = 4;
  builds = empty_coll;
  task_meta = empty_coll;
  task_tests = empty_coll;
}

abbrev put_request : Request
put_request = record { text = str "build"; params = []; parts = [] }

abbrev get_request : Request
get_request = record { text = []; params = (str "id", str "5") ∷ []; parts = [] }

program : Unit {0}
unfolding stoull to_int64 parse_json find_missing_json_fields upsert_first build_from_json
    build_to_json upsert_build parse_build upload_build callback
program = tt

after : Server tree_json list_mongo
after = (callback tree_json list_mongo list_crow uploads_build put_request start).1

accepted : parse_build tree_json list_crow put_request new_response ≡ value (parsed build)
unfolding program
accepted = refl

done :
    callback tree_json list_mongo list_crow uploads_build put_request start
    ≡ (value new_response, after)
unfolding program after
done = refl

five : stoull (str "5") ≡ value 5
unfolding program
five = refl

dumped : tree_dump (build_to_json tree_json (record build { id = 0 })) ≡ value (str "{}")
unfolding program
dumped = refl

upload_build-shows_build_example :
    callback tree_json list_mongo list_crow shows_build get_request after
    ≡ (value (record new_response { body = str "{}" }), after)
upload_build-shows_build_example =
    upload_build-shows_build tree_json list_mongo list_crow put_request get_request start after
      new_response build (str "5") (str "{}") done refl accepted empty-HasNoId
      (answers after.builds) converts refl five dumped

-- A read of a task that is not there, two writes of it, and a read.
abbrev newer : TaskMetaData
newer = record { task_id = 7; batches = (1 ∷ []) ∷ []; batch_size = 8 }

with_newer : Coll
with_newer = (upsert_task_meta_data tree_json list_mongo newer with_meta).1

with_newer-written :
    upsert_task_meta_data tree_json list_mongo newer with_meta ≡ (value none, with_newer)
unfolding upsert_task_meta_data meta_to_json upsert_first with_meta with_newer to_int64
with_newer-written = refl

abbrev meta_calls : List (Call TaskMetaData (Expected TaskMetaData Error))
meta_calls =
    read 7 (get_task_meta_data tree_json list_mongo 7 empty_coll)
    ∷ wrote meta_data
    ∷ wrote newer
    ∷ read 7 (get_task_meta_data tree_json list_mongo 7 with_newer)
    ∷ []

meta_calls-made : Calls (metadata tree_json list_mongo answers converts) empty_coll meta_calls
meta_calls-made =
    reads 7 (writes meta_data with_meta-written (writes newer with_newer-written (reads 7 stops)))

metadata-ReadsRight_example :
    ReadsRight (metadata tree_json list_mongo answers converts) [] meta_calls
metadata-ReadsRight_example =
    metadata-ReadsRight tree_json list_mongo answers converts meta_calls-made refl
      (omega arith, (omega arith, (omega arith, (omega arith, tt))))

abbrev build_calls : List (Call Build (Expected Build Error))
build_calls =
    read 5 (get_build tree_json list_mongo 5 empty_coll)
    ∷ wrote build
    ∷ read 5 (get_build tree_json list_mongo 5 with_build)
    ∷ []

build_calls-made : Calls (builds tree_json list_mongo answers converts) empty_coll build_calls
build_calls-made = reads 5 (writes build with_build-written (reads 5 stops))

builds-ReadsRight_example : ReadsRight (builds tree_json list_mongo answers converts) [] build_calls
builds-ReadsRight_example =
    builds-ReadsRight tree_json list_mongo answers converts build_calls-made refl
      (omega arith, (omega arith, (omega arith, tt)))

callback-code_example :
    ((new_response.code ≡ 200)
      ↔ Did tree_json list_mongo list_crow uploads_build put_request start after)
    × ((new_response.code ≡ 200) ⊎ (is_error_of uploads_build new_response.code ≡ true))
callback-code_example =
    callback-code tree_json list_mongo list_crow uploads_build put_request start after new_response
      done
