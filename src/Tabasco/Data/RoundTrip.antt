-- ===== src/Tabasco/Data/RoundTrip.antt =====
-- What MoveToJSON writes, FromJSON reads back.
use distributed_testing_syst.Base.{
  ℕ, List, [], ◌∷◌, Str, str, true, none, some, ◌≡◌, refl, map, str_eq, if◌then◌else◌,
}
use distributed_testing_syst.Base.Outcome.{Outcome, value, traverse}
use distributed_testing_syst.Extern.Json.{Json}
use distributed_testing_syst.Tabasco.Data.{
  TaskMetaData, Build, Builds, read_field, batches_to_json, batch_of_json, batches_of_json,
  meta_to_json, meta_from_json, build_to_json, build_from_json, builds_to_json, builds_from_json,
}

pub traverse-map {ℓ κ} :
    {A : Type ℓ} {B : Type κ} (f : A → B) (g : B → Outcome A) (xs : List A)
    → ((x : A) → g (f x) ≡ value x)
    → traverse g (map f xs) ≡ value xs
unfolding traverse
traverse-map f g [] h = refl
traverse-map f g (x ∷ xs) h = rw (h x) (rw (traverse-map f g xs h))

module _ (J : Json) where
  read_field_found :
      {A : Type 0} (v w : J.Value) (k : Str) (convert : J.Value → Outcome A) (default : A)
      → J.find v k ≡ some w
      → read_field J v k convert default ≡ convert w
  read_field_found v w k convert default h = rw (J.contains-find, h, J.index-find v w k h)

  read_field_missing :
      {A : Type 0} (v : J.Value) (k : Str) (convert : J.Value → Outcome A) (default : A)
      → J.find v k ≡ none
      → read_field J v k convert default ≡ value default
  read_field_missing v k convert default h = rw (J.contains-find, h)

  batch_of_json-of_array :
      (batch : List ℕ) → batch_of_json J (J.of_array (map J.of_nat batch)) ≡ value batch
  batch_of_json-of_array batch =
      rw (J.to_array-of_array) (traverse-map J.of_nat J.to_nat batch J.to_nat-of_nat)

  batches_of_json-batches_to_json :
      (batches : List (List ℕ)) → batches_of_json J (batches_to_json J batches) ≡ value batches
  batches_of_json-batches_to_json batches = rw (J.to_array-of_array) (
      traverse-map (λ batch. J.of_array (map J.of_nat batch)) (batch_of_json J) batches
        batch_of_json-of_array)

  -- The three fields of the metadata as they stand in a JSON object.
  pub record HasMeta (v : J.Value) (m : TaskMetaData) : Type 0 where
    pub task_id : J.find v (str "taskId") ≡ some (J.of_nat m.task_id)
    pub batches : J.find v (str "batches") ≡ some (batches_to_json J m.batches)
    pub batch_size : J.find v (str "batchSize") ≡ some (J.of_nat m.batch_size)

  pub meta_from_json_of_HasMeta :
      (v : J.Value) (m : TaskMetaData) → HasMeta v m → meta_from_json J v ≡ value m
  unfolding meta_from_json
  meta_from_json_of_HasMeta v m h =
      rw (read_field_found v _ (str "batches") (batches_of_json J) [] h.batches) (
        rw (batches_of_json-batches_to_json m.batches) (
          rw (read_field_found v _ (str "taskId") J.to_nat 0 h.task_id) (
            rw (J.to_nat-of_nat m.task_id) (
              rw (read_field_found v _ (str "batchSize") J.to_nat 0 h.batch_size)
                (rw (J.to_nat-of_nat m.batch_size))))))

  is_assignable-assign-null : (k : Str) (a : J.Value) → J.is_assignable (J.assign J.null k a) ≡ true
  is_assignable-assign-null k a = J.is_assignable-assign J.null a k J.is_assignable-null

  -- The keys of an object that was made by three assignments.
  pub find_three :
      (i j k : Str) (a b c : J.Value) (q : Str)
      → J.find (J.assign (J.assign (J.assign J.null i a) j b) k c) q ≡ (
          if str_eq k q
          then some c
          else if str_eq j q
          then some b
          else if str_eq i q
          then some a
          else none)
  find_three i j k a b c q = rw (
    J.find-assign _ c k q (J.is_assignable-assign _ b j (is_assignable-assign-null i a)),
    J.find-assign _ b j q (is_assignable-assign-null i a),
    J.find-assign _ a i q J.is_assignable-null,
    J.find-null,
  )

  pub meta_to_json-HasMeta : (m : TaskMetaData) → HasMeta (meta_to_json J m) m
  unfolding meta_to_json
  meta_to_json-HasMeta m = record {
    task_id = rw find_three;
    batches = rw find_three;
    batch_size = rw find_three;
  }

  -- FromJSON of TTaskMetaData reads back every value that MoveToJSON writes.
  pub meta_from_json-meta_to_json :
      (m : TaskMetaData) → meta_from_json J (meta_to_json J m) ≡ value m
  meta_from_json-meta_to_json m = meta_from_json_of_HasMeta _ m (meta_to_json-HasMeta m)

  pub find-build_to_json :
      (b : Build)
      → (J.find (build_to_json J b) (str "id") ≡ some (J.of_nat b.id))
        × (J.find (build_to_json J b) (str "initScript") ≡ some (J.of_str b.init_script))
        × (J.find (build_to_json J b) (str "executeScript") ≡ some (J.of_str b.execute_script))
  unfolding build_to_json
  find-build_to_json b = (rw find_three, rw find_three, rw find_three)

  pub is_assignable-build_to_json : (b : Build) → J.is_assignable (build_to_json J b) ≡ true
  unfolding build_to_json
  is_assignable-build_to_json b =
      J.is_assignable-assign _ _ _ (J.is_assignable-assign _ _ _ (is_assignable-assign-null _ _))

  -- A build as it stands in a JSON object, with or without its `id`.
  pub record HasScripts (v : J.Value) (b : Build) : Type 0 where
    pub init_script : J.find v (str "initScript") ≡ some (J.of_str b.init_script)
    pub execute_script : J.find v (str "executeScript") ≡ some (J.of_str b.execute_script)

  module _ (v : J.Value) (b : Build) (h : HasScripts v b) where
    pub build_from_json_with_id :
        J.find v (str "id") ≡ some (J.of_nat b.id) → build_from_json J v ≡ value b
    unfolding build_from_json
    build_from_json_with_id e = rw (read_field_found v _ (str "id") J.to_nat 0 e) (
        rw (J.to_nat-of_nat b.id) (
          rw (read_field_found v _ (str "initScript") J.to_str [] h.init_script) (
            rw (J.to_str-of_str b.init_script) (
              rw (read_field_found v _ (str "executeScript") J.to_str [] h.execute_script)
                (rw (J.to_str-of_str b.execute_script))))))

    pub build_from_json_no_id :
        J.find v (str "id") ≡ none → build_from_json J v ≡ value (record b { id = 0 })
    unfolding build_from_json
    build_from_json_no_id e = rw (read_field_missing v (str "id") J.to_nat 0 e) (
        rw (read_field_found v _ (str "initScript") J.to_str [] h.init_script) (
          rw (J.to_str-of_str b.init_script) (
            rw (read_field_found v _ (str "executeScript") J.to_str [] h.execute_script)
              (rw (J.to_str-of_str b.execute_script)))))

  build_from_json-build_to_json : (b : Build) → build_from_json J (build_to_json J b) ≡ value b
  build_from_json-build_to_json b =
      let (id, init_script, execute_script) = find-build_to_json b in
      build_from_json_with_id _ b
        (record { init_script = init_script; execute_script = execute_script }) id

  -- FromJSON of TBuilds reads back the list of builds that MoveToJSON writes, in order.
  pub builds_from_json-builds_to_json :
      (bs : Builds) → builds_from_json J (builds_to_json J bs) ≡ value bs
  unfolding builds_from_json builds_to_json
  builds_from_json-builds_to_json bs =
      let list = J.of_array (map (build_to_json J) bs.items) in
      let found : J.find (J.assign J.null (str "builds") list) (str "builds") ≡ some list =
        J.find-assign J.null list (str "builds") (str "builds") J.is_assignable-null in
      rw (J.index-find _ list (str "builds") found) (
        rw (J.items-of_array) (
          rw (
            traverse-map (build_to_json J) (build_from_json J) bs.items
              build_from_json-build_to_json)))
