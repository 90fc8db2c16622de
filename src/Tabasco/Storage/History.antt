-- ===== src/Tabasco/Storage/History.antt =====
-- The metadata and the builds of task_batcher_storage_coordinator/common/storage_client/
-- storage_client.cpp, each a collection with documents by `_id`, as implementations of Keyed.
use mathlib.Core.List.{Memᴰ}
use mathlib.Core.List.Memᴰ
use mathlib.Core.Option
use distributed_testing_syst.Base.{
  ℕ, List, [], Option-cases, none, some, str, ◌++◌, to_string, ◌<◌, ◌^◌, ◌≡◌, ◌≢◌, refl, ap, sym,
  ◌∙◌, inl, inr,
}
use distributed_testing_syst.Base.Int.{to_int64, to_int64-injective}
use distributed_testing_syst.Base.Outcome.{value}
use distributed_testing_syst.Extern.Json.{Json}
use distributed_testing_syst.Extern.Mongo.{Mongo, or_else}
use distributed_testing_syst.Utils.Expected.{Expected, expected, unexpected}
use distributed_testing_syst.Tabasco.Data.{TaskMetaData, Build, meta_to_json}
use distributed_testing_syst.Tabasco.Storage.{
  Error, not_found, id_filter, upsert_task_meta_data, get_task_meta_data, upsert_build, get_build,
}
use distributed_testing_syst.Tabasco.Storage.Fetch.{Answers}
use distributed_testing_syst.Tabasco.Storage.Written.{
  id_key, Converts, upsert_json-value, catch_message-pair, mem-upsert_first_cases,
  matches-id_filter,
}
use distributed_testing_syst.Tabasco.Storage.Documents.{
  HasNoId, HoldsBuild, upsert_build-HoldsBuild, HoldsBuild-upsert_build, get_build-HoldsBuild,
  upsert_build-HasNoId, upsert_build-Written, find-stored_json, find-build_to_json_id, HoldsMeta,
  upsert_task_meta_data-HoldsMeta, HoldsMeta-upsert_task_meta_data, get_task_meta_data-HoldsMeta,
  find-meta_to_json_id,
}
use distributed_testing_syst.Tabasco.Storage.Keyed.{
  Keyed, Call, Calls, Fit, ReadsRight, Calls-ReadsRight,
}

-- No document has this id.
pub IsAbsent : (J : Json) (M : Mongo J) → ℕ → M.Coll → Type 0
IsAbsent J M id c =
    (d : M.Doc) → Memᴰ d (M.docs c) → M.field d id_key ≢ some (M.int64_val (to_int64 id))

module _ (J : Json) (M : Mongo J) where
  IsAbsent-update_one :
      (id other : ℕ) (u : M.Doc) (c c' : M.Coll)
      → M.field u id_key ≡ none
      → other ≢ id
      → other < 2 ^ 64
      → id < 2 ^ 64
      → M.update_one c (id_filter J M other) u ≡ (value tt, c')
      → IsAbsent J M id c
      → IsAbsent J M id c'
  unfolding IsAbsent
  IsAbsent-update_one id other u c c' no_id apart fits fits' updated absent d mem named =
      let f = id_filter J M other in
      elim (mem-upsert_first_cases (M.matches f) (λ x. M.merged x u) (M.seeded f u) (M.docs c) d
        (rw (M.docs-update_one c c' f u updated) at mem)) [
          | inl old ↦ absent d old named
          | inr (inl e) ↦
              let its_id = M.field-seeded_id f u (M.int64_val (to_int64 other)) no_id refl in
              let both : some (M.int64_val (to_int64 other)) ≡ some (M.int64_val (to_int64 id)) =
                sym its_id ∙ ap (λ x. M.field x id_key) (sym e) ∙ named in
              apart (to_int64-injective other id fits fits' (M.int64_val-injective _ _ (cc both)))
          | inr (inr (x, old, e)) ↦
              let same : M.field d id_key ≡ M.field x id_key =
                ap (λ y. M.field y id_key) e
                ∙ M.field-merged x u id_key
                ∙ ap (λ o. or_else o (M.field x id_key)) no_id in
              absent x old (sym same ∙ named)
        ]

  find_one-IsAbsent :
      (id : ℕ) (c : M.Coll)
      → IsAbsent J M id c
      → Answers J M c
      → M.find_one c (id_filter J M id) ≡ value none
  unfolding IsAbsent
  find_one-IsAbsent id c absent answers =
      let (o, found) = answers.one (id_filter J M id) in
      elim (Option-cases o) [
        | inl nothing ↦ found ∙ ap value nothing
        | inr (d, there) ↦
            let (mem, chosen) = M.find_one-some c (id_filter J M id) d (found ∙ ap value there) in
            absurd (absent d mem (matches-id_filter J M id d chosen))
      ]

  pub IsAbsent-upsert_task_meta_data :
      (id : ℕ) (m : TaskMetaData) (c c' : M.Coll)
      → m.task_id ≢ id
      → m.task_id < 2 ^ 64
      → id < 2 ^ 64
      → upsert_task_meta_data J M m c ≡ (value none, c')
      → IsAbsent J M id c
      → IsAbsent J M id c'
  unfolding upsert_task_meta_data
  IsAbsent-upsert_task_meta_data id m c c' apart fits fits' done =
      let (u, made, updated) =
        upsert_json-value J M m.task_id (M.doc_of_json (meta_to_json J m)) c c'
          (catch_message-pair J M _ c' done) in
      IsAbsent-update_one id m.task_id u c c'
        (M.field-doc_of_json _ u id_key made
          ∙ ap (Option.map M.json_val) (find-meta_to_json_id J M m))
        apart fits fits' updated

  pub get_task_meta_data-IsAbsent :
      (id : ℕ) (c : M.Coll)
      → IsAbsent J M id c
      → Answers J M c
      → get_task_meta_data J M id c
        ≡ value (
            unexpected (record {
              msg = str "404 Not Found TaskMetaData for id: " ++ to_string id;
              error_code = not_found;
            }))
  unfolding get_task_meta_data
  get_task_meta_data-IsAbsent id c absent answers = rw (find_one-IsAbsent id c absent answers) refl

  pub IsAbsent-upsert_build :
      (id : ℕ) (b : Build) (c c' : M.Coll)
      → b.id ≢ id
      → b.id < 2 ^ 64
      → id < 2 ^ 64
      → upsert_build J M b c ≡ (value none, c')
      → IsAbsent J M id c
      → IsAbsent J M id c'
  IsAbsent-upsert_build id b c c' apart fits fits' done =
      let (u, made, updated) = upsert_build-Written J M b c c' done in
      IsAbsent-update_one id b.id u c c'
        (M.field-doc_of_json _ u id_key made
          ∙ ap (Option.map M.json_val)
              (find-stored_json J M b id_key ∙ find-build_to_json_id J M b))
        apart fits fits' updated

  pub get_build-IsAbsent :
      (id : ℕ) (c : M.Coll)
      → IsAbsent J M id c
      → Answers J M c
      → get_build J M id c
        ≡ value (
            unexpected (record {
              msg = str "404 Not Found Build for id: " ++ to_string id;
              error_code = not_found;
            }))
  unfolding get_build
  get_build-IsAbsent id c absent answers = rw (find_one-IsAbsent id c absent answers) refl

module _ (J : Json) (M : Mongo J) (answers : (c : M.Coll) → Answers J M c)
    (converts : Converts J M) where
  abbrev pub metadata : Keyed M.Coll TaskMetaData (Expected TaskMetaData Error)
  metadata = record {
    key = λ m. m.task_id;
    upsert = upsert_task_meta_data J M;
    get = get_task_meta_data J M;
    found = λ m. expected m;
    missing = λ id. unexpected (record {
      msg = str "404 Not Found TaskMetaData for id: " ++ to_string id;
      error_code = not_found;
    });
    IsValid = λ c. Unit;
    Holds = HoldsMeta J M;
    Lacks = IsAbsent J M;
    upsert-IsValid = λ x c c' done valid. tt;
    upsert-Holds = λ x c c' done valid. upsert_task_meta_data-HoldsMeta J M x c c' done;
    Holds-upsert = HoldsMeta-upsert_task_meta_data J M;
    Lacks-upsert = IsAbsent-upsert_task_meta_data J M;
    get-Holds = λ x c h. get_task_meta_data-HoldsMeta J M x c h (answers c) converts;
    get-Lacks = λ id c h. get_task_meta_data-IsAbsent J M id c h (answers c);
  }

  -- A build is read back with the id 0.
  abbrev pub builds : Keyed M.Coll Build (Expected Build Error)
  builds = record {
    key = λ b. b.id;
    upsert = upsert_build J M;
    get = get_build J M;
    found = λ b. expected (record b { id = 0 });
    missing = λ id. unexpected (record {
      msg = str "404 Not Found Build for id: " ++ to_string id;
      error_code = not_found;
    });
    IsValid = HasNoId J M;
    Holds = HoldsBuild J M;
    Lacks = IsAbsent J M;
    upsert-IsValid = upsert_build-HasNoId J M;
    upsert-Holds = upsert_build-HoldsBuild J M;
    Holds-upsert = HoldsBuild-upsert_build J M;
    Lacks-upsert = IsAbsent-upsert_build J M;
    get-Holds = λ x c h. get_build-HoldsBuild J M x c h (answers c) converts;
    get-Lacks = λ id c h. get_build-IsAbsent J M id c h (answers c);
  }

  -- Where the database answers reads and its documents convert to JSON: on a collection of metadata
  -- that is empty at first, in every sequence of UpsertTaskMetaData and GetTaskMetaData of tasks
  -- with ids below 2^64, whose writes report no error, each read returns the metadata written last
  -- for its task, or the error 404 where none were written.
  pub metadata-ReadsRight :
      {c : M.Coll} {calls : List (Call TaskMetaData (Expected TaskMetaData Error))}
      → Calls metadata c calls
      → M.docs c ≡ []
      → Fit metadata calls
      → ReadsRight metadata [] calls
  unfolding IsAbsent
  metadata-ReadsRight done empty =
      Calls-ReadsRight metadata done tt (λ id d mem named. Memᴰ.not-nil (rw empty at mem))

  -- Where the database answers reads and its documents convert to JSON: on a collection of builds
  -- that is empty at first, in every sequence of UpsertBuild and GetBuild of ids below 2^64, whose
  -- writes report no error, each read returns the scripts written last for its id, with the id 0,
  -- or the error 404 where none were written.
  pub builds-ReadsRight :
      {c : M.Coll} {calls : List (Call Build (Expected Build Error))}
      → Calls builds c calls
      → M.docs c ≡ []
      → Fit builds calls
      → ReadsRight builds [] calls
  unfolding IsAbsent
  builds-ReadsRight done empty =
      Calls-ReadsRight builds done (λ d mem. absurd (Memᴰ.not-nil (rw empty at mem)))
        (λ id d mem named. Memᴰ.not-nil (rw empty at mem))
