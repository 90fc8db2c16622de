-- ===== src/Tabasco/Storage.antt =====
-- task_batcher_storage_coordinator/common/storage_client/storage_client.{h,cpp}: the client of the
-- database, over the collections builds, taskMeta and taskTests.
pub mod Rows
pub mod Table
pub mod Upload
pub mod Keyed
pub mod History
pub mod Spots
pub mod Fetch
pub mod Written
pub mod Documents
use distributed_testing_syst.Base.{
  ℕ, zero, suc, ◌+◌, ◌^◌, List, [], ◌∷◌, ◌++◌, Str, str, str_eq, to_string, Bool, true, false,
  Option, none, some, if◌then◌else◌, length, get_elem?, set, replicate, ltb,
}
use distributed_testing_syst.Base.Int.{ℤ, pos, negsuc, to_int64, ◌+ℤ◌, ◌-ℤ◌}
use distributed_testing_syst.Base.Outcome.{Outcome, value, throws, undefined, traverse, ◌>>=◌, ◌>>◌}
use distributed_testing_syst.Extern.Json.{Json}
use distributed_testing_syst.Extern.Mongo.{Mongo, Cond, is_int64, is_string, within}
use distributed_testing_syst.Utils.Expected.{Expected, expected, unexpected}
use distributed_testing_syst.Tabasco.Data.{
  TaskTests, Task, TaskMetaData, Build, Builds, meta_to_json, meta_from_json, build_to_json,
  build_from_json,
}

-- TStorageClient::TError; its code is INTERNAL unless it is given.
pub record Error : Type 0 where
  pub msg : Str
  pub error_code : ℕ

abbrev pub internal : ℕ
internal = 500

abbrev pub not_found : ℕ
not_found = 404

-- `catch (std::exception& e) { return TUnexpected<TError>({.msg = e.what()}); }`
abbrev pub catch_error : {A : Type 0} → Outcome (Expected A Error) → Outcome (Expected A Error)
catch_error (value r) = value r
catch_error (throws e) = value (unexpected (record { msg = e; error_code = internal }))
catch_error undefined = undefined

-- `return std::nullopt; } catch (std::exception& e) { return e.what(); }`
abbrev pub catch_message : Outcome (Unit {0}) → Outcome (Option Str)
catch_message (value u) = value none
catch_message (throws e) = value (some e)
catch_message undefined = undefined

-- std::vector::front and back.
abbrev pub front : List ℕ → Outcome ℕ
front [] = undefined
front (x ∷ xs) = value x

abbrev pub back : List ℕ → Outcome ℕ
back [] = undefined
back (x ∷ []) = value x
back (x ∷ y ∷ xs) = back (y ∷ xs)

-- `batches[batchId]`
abbrev pub element : {A : Type 0} → List A → ℕ → Outcome A
element xs i = elim (get_elem? xs i) [ none ↦ undefined | some x ↦ value x ]

-- A value of int64_t; overflow is undefined.
abbrev pub int64 : ℤ → Outcome ℤ
int64 (pos n) = if ltb n (2 ^ 63) then value (pos n) else undefined
int64 (negsuc n) = if ltb n (2 ^ 63) then value (negsuc n) else undefined

-- `tests.resize(count)` of an empty vector; a negative count is a size that it refuses.
abbrev pub resized : ℤ → Outcome (List Str)
resized (pos n) = value (replicate n [])
resized (negsuc n) = throws (str "vector::_M_default_append")

-- `tests[position] = content`
abbrev pub write : List Str → ℤ → Str → Outcome (List Str)
write xs (pos i) content = if ltb i (length xs) then value (set xs i content) else undefined
write xs (negsuc i) content = undefined

-- `if (testType == kind) { tests[testId - frontTestId] = content; }`
abbrev pub write_if : Bool → List Str → ℤ → Str → Outcome (List Str)
write_if true tests position content = write tests position content
write_if false tests position content = value tests

module _ (J : Json) (M : Mongo J) where
  -- A write: its result and the collection that it leaves.
  abbrev pub Write : Type 0
  Write = M.Coll → Outcome (Unit {0}) × M.Coll

  abbrev pub then_write : Outcome (Unit {0}) × M.Coll → Write → Outcome (Unit {0}) × M.Coll
  then_write (value u, c) next = next c
  then_write (throws e, c) next = (throws e, c)
  then_write (undefined, c) next = (undefined, c)

  abbrev pub test_filter : ℕ → ℕ → Str → List Cond
  test_filter task_id test_id test_type =
      is_int64 (str "taskId") (to_int64 task_id)
      ∷ is_int64 (str "testId") (to_int64 test_id)
      ∷ is_string (str "testType") test_type
      ∷ []

  -- One of the two loops of UpsertTaskTests: `n` rounds from `test_index` on; `tests[testIndex]`
  -- past the end is undefined.
  unfoldable pub upsert_tests : ℕ → Str → ℕ → ℕ → List Str → Write
  upsert_tests task_id test_type zero test_index tests c = (value tt, c)
  upsert_tests task_id test_type (suc n) test_index [] c = (undefined, c)
  upsert_tests task_id test_type (suc n) test_index (t ∷ tests) c =
      then_write
        (M.update_one c (test_filter task_id (test_index + 1) test_type)
          (M.string_doc (str "content") t))
        (upsert_tests task_id test_type n (test_index + 1) tests)

  unfoldable pub upsert_task_tests : Task → M.Coll → Outcome (Option Str) × M.Coll
  unfolding upsert_tests
  upsert_task_tests task c =
      let test_count = length task.tests.input_tests in
      let inputs = upsert_tests task.id (str "input") test_count 0 task.tests.input_tests c in
      let (r, c') =
        then_write inputs
          (upsert_tests task.id (str "output") test_count 0 task.tests.output_tests) in
      (catch_message r, c')

  abbrev pub id_filter : ℕ → List Cond
  id_filter id = is_int64 (str "_id") (to_int64 id) ∷ []

  -- `update_one` of a document that has yet to be made from JSON.
  abbrev pub upsert_json : ℕ → Outcome M.Doc → Write
  upsert_json id (value d) c = M.update_one c (id_filter id) d
  upsert_json id (throws e) c = (throws e, c)
  upsert_json id undefined c = (undefined, c)

  unfoldable pub upsert_task_meta_data : TaskMetaData → M.Coll → Outcome (Option Str) × M.Coll
  upsert_task_meta_data m c =
      let (r, c') = upsert_json m.task_id (M.doc_of_json (meta_to_json J m)) c in
      (catch_message r, c')

  abbrev pub meta_of_doc : ℕ → Option M.Doc → Outcome (Expected TaskMetaData Error)
  meta_of_doc task_id none = value (
      unexpected (record {
        msg = str "404 Not Found TaskMetaData for id: " ++ to_string task_id;
        error_code = not_found;
      }))
  meta_of_doc task_id (some d) = do v ← M.json_of_doc d; m ← meta_from_json J v; value (expected m)

  unfoldable pub get_task_meta_data : ℕ → M.Coll → Outcome (Expected TaskMetaData Error)
  get_task_meta_data task_id c =
      catch_error (do found ← M.find_one c (id_filter task_id); meta_of_doc task_id found)

  -- The body of the loop over the documents of a batch.
  unfoldable pub place_test : ℤ → TaskTests → M.Doc → Outcome TaskTests
  place_test front_test_id tests d = do
    test_type ← M.get_string d (str "testType")
    test_id ← M.get_int64 d (str "testId")
    content ← M.get_string d (str "content")
    let position = test_id -ℤ front_test_id
    inputs ← write_if (str_eq test_type (str "input")) tests.input_tests position content
    outputs ← write_if (str_eq test_type (str "output")) tests.output_tests position content
    value (record { input_tests = inputs; output_tests = outputs })

  unfoldable pub place_tests : ℤ → TaskTests → List M.Doc → Outcome TaskTests
  place_tests front_test_id tests [] = value tests
  place_tests front_test_id tests (d ∷ ds) = do
    tests' ← place_test front_test_id tests d
    place_tests front_test_id tests' ds

  abbrev pub batch_filter : ℕ → ℤ → ℤ → List Cond
  batch_filter task_id front_test_id back_test_id =
      is_int64 (str "taskId") (to_int64 task_id)
      ∷ within (str "testId") front_test_id back_test_id
      ∷ []

  -- GetTaskBatch once it has the batch.
  unfoldable pub tests_of_batch : ℕ → List ℕ → M.Coll → Outcome TaskTests
  unfolding place_test place_tests
  tests_of_batch task_id batch c = do
    first ← front batch
    last ← back batch
    let front_test_id = to_int64 first
    let back_test_id = to_int64 last
    span ← int64 (back_test_id -ℤ front_test_id)
    count ← int64 (span +ℤ pos 1)
    inputs ← resized count
    outputs ← resized count
    ds ← M.find_all c (batch_filter task_id front_test_id back_test_id)
    place_tests front_test_id (record { input_tests = inputs; output_tests = outputs }) ds

  abbrev pub batch_of_meta :
      ℕ → ℕ → M.Coll → Expected TaskMetaData Error → Outcome (Expected TaskTests Error)
  batch_of_meta task_id batch_id c (unexpected e) = value (unexpected e)
  batch_of_meta task_id batch_id c (expected m) = do
    batch ← element m.batches batch_id
    tests ← tests_of_batch task_id batch c
    value (expected tests)

  -- `metas` is the collection taskMeta, `c` is taskTests.
  unfoldable pub get_task_batch : ℕ → ℕ → M.Coll → M.Coll → Outcome (Expected TaskTests Error)
  unfolding get_task_meta_data tests_of_batch
  get_task_batch task_id batch_id metas c =
      catch_error (do got ← get_task_meta_data task_id metas; batch_of_meta task_id batch_id c got)

  unfoldable pub upsert_build : Build → M.Coll → Outcome (Option Str) × M.Coll
  upsert_build b c =
      let json = J.erase (build_to_json J b) (str "id") in
      let (r, c') = upsert_json b.id (M.doc_of_json json) c in (catch_message r, c')

  abbrev pub build_of_doc : M.Doc → Outcome Build
  build_of_doc d = do v ← M.json_of_doc d; build_from_json J v

  abbrev pub build_found : ℕ → Option M.Doc → Outcome (Expected Build Error)
  build_found build_id none = value (
      unexpected (record {
        msg = str "404 Not Found Build for id: " ++ to_string build_id;
        error_code = not_found;
      }))
  build_found build_id (some d) = do b ← build_of_doc d; value (expected b)

  unfoldable pub get_build : ℕ → M.Coll → Outcome (Expected Build Error)
  get_build build_id c =
      catch_error (do found ← M.find_one c (id_filter build_id); build_found build_id found)

  unfoldable pub get_builds : M.Coll → Outcome (Expected Builds Error)
  get_builds c = catch_error (do
    ds ← M.find_all c []
    items ← traverse build_of_doc ds
    value (expected (record { items = items })))
