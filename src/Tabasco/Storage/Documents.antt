-- ===== src/Tabasco/Storage/Documents.antt =====
-- The collections taskMeta and builds, whose documents go by `_id`: what is read after a write.
use mathlib.Core.List.{Memᴰ}
use mathlib.Core.Option
use distributed_testing_syst.Base.{
  ◌≢◌, ◌<◌, ◌^◌, Str, str, str_eq, ne_of_str_eq, none, if◌then◌else◌, ◌≡◌, refl, ap, ◌∙◌, inl, inr,
}
use distributed_testing_syst.Base.Outcome.{value}
use distributed_testing_syst.Extern.Json.{Json}
use distributed_testing_syst.Extern.Mongo.{Mongo}
use distributed_testing_syst.Utils.Expected.{expected}
use distributed_testing_syst.Tabasco.Data.{TaskMetaData, Build, meta_to_json, build_to_json}
use distributed_testing_syst.Tabasco.Data.RoundTrip.{
  find_three, meta_to_json-HasMeta, meta_from_json_of_HasMeta, find-build_to_json,
  is_assignable-build_to_json, build_from_json_no_id,
}
use distributed_testing_syst.Tabasco.Storage.{
  id_filter, upsert_task_meta_data, get_task_meta_data, upsert_build, get_build,
}
use distributed_testing_syst.Tabasco.Storage.Fetch.{Answers}
use distributed_testing_syst.Tabasco.Storage.Written.{
  id_key, seeded_field, update_one-Written, find_one-Written, upsert_json-value, catch_message-pair,
  Written, Written-update_one, Converts, find-Written_some, find-Written_none,
  mem-upsert_first_cases,
}

module _ (J : Json) (M : Mongo J) where
  pub find-meta_to_json_id : (m : TaskMetaData) → J.find (meta_to_json J m) id_key ≡ none
  unfolding meta_to_json
  find-meta_to_json_id m = rw (find_three J)

  -- The metadata stand in the collection.
  pub record HoldsMeta (m : TaskMetaData) (c : M.Coll) : Type 0 where
    pub before : M.Coll
    pub update : M.Doc
    pub doc : M.Doc
    pub made : M.doc_of_json (meta_to_json J m) ≡ value update
    pub kept : Written J M m.task_id update before c doc

  pub upsert_task_meta_data-HoldsMeta :
      (m : TaskMetaData) (c c' : M.Coll)
      → upsert_task_meta_data J M m c ≡ (value none, c')
      → HoldsMeta m c'
  unfolding upsert_task_meta_data
  upsert_task_meta_data-HoldsMeta m c c' done =
      let (u, made, updated) =
        upsert_json-value J M m.task_id (M.doc_of_json (meta_to_json J m)) c c'
          (catch_message-pair J M _ c' done) in
      let (d, w) = update_one-Written J M m.task_id u c c' updated (
        M.field-doc_of_json _ u id_key made
        ∙ ap (Option.map M.json_val) (find-meta_to_json_id m)) in
      record { before = c; update = u; doc = d; made = made; kept = w }

  -- UpsertTaskMetaData of another task leaves them there.
  pub HoldsMeta-upsert_task_meta_data :
      (m m' : TaskMetaData) (c c' : M.Coll)
      → m'.task_id ≢ m.task_id
      → m'.task_id < 2 ^ 64
      → m.task_id < 2 ^ 64
      → upsert_task_meta_data J M m' c ≡ (value none, c')
      → HoldsMeta m c
      → HoldsMeta m c'
  unfolding upsert_task_meta_data
  HoldsMeta-upsert_task_meta_data m m' c c' apart fits fits' done h =
      let (u, made, updated) =
        upsert_json-value J M m'.task_id (M.doc_of_json (meta_to_json J m')) c c'
          (catch_message-pair J M _ c' done) in
      record {
        before = h.before;
        update = h.update;
        doc = h.doc;
        made = h.made;
        kept =
            Written-update_one J M m.task_id m'.task_id h.update u h.before c c' h.doc apart fits
              fits' updated h.kept;
      }

  -- Metadata that stand in a collection that answers reads are what GetTaskMetaData returns.
  pub get_task_meta_data-HoldsMeta :
      (m : TaskMetaData) (c : M.Coll)
      → HoldsMeta m c
      → Answers J M c
      → Converts J M
      → get_task_meta_data J M m.task_id c ≡ value (expected m)
  unfolding get_task_meta_data
  get_task_meta_data-HoldsMeta m c h answers converts =
      let (o, found) = answers.one (id_filter J M m.task_id) in
      let (v, read) = converts h.doc in
      let has = meta_to_json-HasMeta J m in
      let some_of =
        find-Written_some J M m.task_id (meta_to_json J m) h.update h.before c h.doc v h.made h.kept
          read in
      rw (
        found,
        find_one-Written J M m.task_id h.update h.before c h.doc o h.kept found,
        read,
        meta_from_json_of_HasMeta J v m (record {
          task_id = some_of (str "taskId") (ne_of_str_eq _ _ refl) _ has.task_id;
          batches = some_of (str "batches") (ne_of_str_eq _ _ refl) _ has.batches;
          batch_size = some_of (str "batchSize") (ne_of_str_eq _ _ refl) _ has.batch_size;
        }),
      )

  -- After UpsertTaskMetaData that reports no error, and where the database answers reads and its
  -- documents convert to JSON, GetTaskMetaData of the task returns the metadata that was written.
  pub get-upsert_task_meta_data :
      (m : TaskMetaData) (c c' : M.Coll)
      → upsert_task_meta_data J M m c ≡ (value none, c')
      → Answers J M c'
      → Converts J M
      → get_task_meta_data J M m.task_id c' ≡ value (expected m)
  get-upsert_task_meta_data m c c' done =
      get_task_meta_data-HoldsMeta m c' (upsert_task_meta_data-HoldsMeta m c c' done)

  -- No document has a field `id`: so it is where only UpsertBuild writes.
  abbrev pub HasNoId : M.Coll → Type 0
  HasNoId c = (x : M.Doc) → Memᴰ x (M.docs c) → M.field x (str "id") ≡ none

  abbrev pub stored_json : Build → J.Value
  stored_json b = J.erase (build_to_json J b) (str "id")

  pub find-stored_json :
      (b : Build) (k : Str)
      → J.find (stored_json b) k
        ≡ (if str_eq (str "id") k then none else J.find (build_to_json J b) k)
  find-stored_json b k =
      J.find-erase (build_to_json J b) (str "id") k (is_assignable-build_to_json J b)

  pub upsert_build-Written :
      (b : Build) (c c' : M.Coll)
      → upsert_build J M b c ≡ (value none, c')
      → (u : M.Doc) × (M.doc_of_json (stored_json b) ≡ value u)
        × (M.update_one c (id_filter J M b.id) u ≡ (value tt, c'))
  unfolding upsert_build
  upsert_build-Written b c c' done =
      upsert_json-value J M b.id (M.doc_of_json (stored_json b)) c c'
        (catch_message-pair J M _ c' done)

  pub find-build_to_json_id : (b : Build) → J.find (build_to_json J b) id_key ≡ none
  unfolding build_to_json
  find-build_to_json_id b = rw (find_three J)

  -- The scripts of a build stand in the collection, and no field `id`.
  pub record HoldsBuild (b : Build) (c : M.Coll) : Type 0 where
    pub before : M.Coll
    pub update : M.Doc
    pub doc : M.Doc
    pub made : M.doc_of_json (stored_json b) ≡ value update
    pub kept : Written J M b.id update before c doc
    pub no_id : HasNoId before

  pub upsert_build-HoldsBuild :
      (b : Build) (c c' : M.Coll)
      → upsert_build J M b c ≡ (value none, c')
      → HasNoId c
      → HoldsBuild b c'
  upsert_build-HoldsBuild b c c' done no_id =
      let (u, made, updated) = upsert_build-Written b c c' done in
      let (d, w) = update_one-Written J M b.id u c c' updated (
        M.field-doc_of_json _ u id_key made
        ∙ ap (Option.map M.json_val) (find-stored_json b id_key ∙ find-build_to_json_id b)) in
      record { before = c; update = u; doc = d; made = made; kept = w; no_id = no_id }

  -- UpsertBuild of another id leaves them there.
  pub HoldsBuild-upsert_build :
      (b b' : Build) (c c' : M.Coll)
      → b'.id ≢ b.id
      → b'.id < 2 ^ 64
      → b.id < 2 ^ 64
      → upsert_build J M b' c ≡ (value none, c')
      → HoldsBuild b c
      → HoldsBuild b c'
  HoldsBuild-upsert_build b b' c c' apart fits fits' done h =
      let (u, made, updated) = upsert_build-Written b' c c' done in
      record {
        before = h.before;
        update = h.update;
        doc = h.doc;
        made = h.made;
        kept =
            Written-update_one J M b.id b'.id h.update u h.before c c' h.doc apart fits fits'
              updated h.kept;
        no_id = h.no_id;
      }

  -- A build that stands in a collection that answers reads is what GetBuild returns, but the id 0.
  pub get_build-HoldsBuild :
      (b : Build) (c : M.Coll)
      → HoldsBuild b c
      → Answers J M c
      → Converts J M
      → get_build J M b.id c ≡ value (expected (record b { id = 0 }))
  unfolding get_build
  get_build-HoldsBuild b c h answers converts =
      let (o, found) = answers.one (id_filter J M b.id) in
      let (v, read) = converts h.doc in
      let (_, init, execute) = find-build_to_json J b in
      let some_of =
        find-Written_some J M b.id (stored_json b) h.update h.before c h.doc v h.made h.kept read in
      rw (
        found,
        find_one-Written J M b.id h.update h.before c h.doc o h.kept found,
        read,
        build_from_json_no_id J v b
            (record {
              init_script =
                  some_of (str "initScript") (ne_of_str_eq _ _ refl) _
                    (find-stored_json b (str "initScript") ∙ init);
              execute_script =
                  some_of (str "executeScript") (ne_of_str_eq _ _ refl) _
                    (find-stored_json b (str "executeScript") ∙ execute);
            })
            (find-Written_none J M b.id (stored_json b) h.update h.before c h.doc v h.made h.kept
              read (str "id") (ne_of_str_eq _ _ refl) h.no_id (find-stored_json b (str "id"))),
      )

  -- After UpsertBuild that reports no error into a collection with no field id, and where the
  -- database answers reads and its documents convert to JSON, GetBuild of the id returns the
  -- scripts that were written, but the id 0.
  pub get-upsert_build :
      (b : Build) (c c' : M.Coll)
      → upsert_build J M b c ≡ (value none, c')
      → HasNoId c
      → Answers J M c'
      → Converts J M
      → get_build J M b.id c' ≡ value (expected (record b { id = 0 }))
  get-upsert_build b c c' done no_id =
      get_build-HoldsBuild b c' (upsert_build-HoldsBuild b c c' done no_id)

  -- UpsertBuild keeps `id` out of the documents.
  pub upsert_build-HasNoId :
      (b : Build) (c c' : M.Coll) → upsert_build J M b c ≡ (value none, c') → HasNoId c → HasNoId c'
  upsert_build-HasNoId b c c' done no_id x mem =
      let (u, made, updated) = upsert_build-Written b c c' done in
      let f = id_filter J M b.id in
      let docs = M.docs-update_one c c' f u updated in
      let no_id_u : M.field u (str "id") ≡ none =
        M.field-doc_of_json _ u (str "id") made
        ∙ ap (Option.map M.json_val) (find-stored_json b (str "id")) in
      elim (mem-upsert_first_cases (M.matches f) (λ d. M.merged d u) (M.seeded f u) (M.docs c) x
        (rw docs at mem)) [
          | inl old ↦ no_id x old
          | inr (inl e) ↦ rw (e, seeded_field J M b.id u (str "id") (ne_of_str_eq _ _ refl)) no_id_u
          | inr (inr (y, old, e)) ↦ rw (e, M.field-merged, no_id_u) (no_id y old)
        ]
