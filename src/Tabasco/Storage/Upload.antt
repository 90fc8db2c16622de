-- ===== src/Tabasco/Storage/Upload.antt =====
-- UpsertTaskTests against the table of tests.
use distributed_testing_syst.Base.{
  ℕ, zero, suc, ◌+◌, ◌≤◌, ◌<◌, ◌^◌, List, [], ◌∷◌, Str, str, none, get_elem?, length, take,
  take_of_length, ◌≡◌, refl, ap, sym, ◌∙◌, arith,
}
use distributed_testing_syst.Base.Int.{to_int64}
use distributed_testing_syst.Base.Outcome.{Outcome, value, throws, undefined}
use distributed_testing_syst.Extern.Json.{Json}
use distributed_testing_syst.Extern.Mongo.{Mongo}
use distributed_testing_syst.Tabasco.Data.{Task}
use distributed_testing_syst.Tabasco.Storage.{
  Write, then_write, test_filter, upsert_tests, upsert_task_tests, catch_message,
}
use distributed_testing_syst.Tabasco.Storage.Rows.{Row, AreRows, AreRows-update_one}
use distributed_testing_syst.Tabasco.Storage.Table.{
  IsKeyed, lookup_row, upsert_rows, IsKeyed-upsert_rows, lookup_row-upsert_rows,
  lookup_row-upsert_rows_other,
}

-- The table after an upload.
abbrev pub uploaded : Task → List Row → List Row
uploaded task rs =
    upsert_rows (to_int64 task.id) (str "output") 0
      (take (length task.tests.input_tests) task.tests.output_tests)
      (upsert_rows (to_int64 task.id) (str "input") 0
        (take (length task.tests.input_tests) task.tests.input_tests) rs)

pub catch_message-none : (r : Outcome (Unit {0})) → catch_message r ≡ value none → r ≡ value tt
catch_message-none (value u) h = refl
catch_message-none (throws e) h = cc
catch_message-none undefined h = cc

module _ (J : Json) (M : Mongo J) where
  -- The well-formed states of taskTests: the documents are rows, and no key stands twice.
  pub record IsTable (c : M.Coll) (rs : List Row) : Type 0 where
    pub rows : AreRows J M (M.docs c) rs
    pub keyed : IsKeyed rs

  pub then_write-value :
      (p : Outcome (Unit {0}) × M.Coll) (next : Write J M) (c : M.Coll)
      → then_write J M p next ≡ (value tt, c)
      → (c' : M.Coll) × (p ≡ (value tt, c')) × (next c' ≡ (value tt, c))
  then_write-value (value u, c') next c h = (c', refl, h)
  then_write-value (throws e, c') next c h = absurd (ground arith)
  then_write-value (undefined, c') next c h = absurd (ground arith)

  upsert_tests-AreRows :
      (task_id : ℕ) (kind : Str) (n i : ℕ) (tests : List Str) (c c' : M.Coll) (rs : List Row)
      → upsert_tests J M task_id kind n i tests c ≡ (value tt, c')
      → AreRows J M (M.docs c) rs
      → AreRows J M (M.docs c') (upsert_rows (to_int64 task_id) kind i (take n tests) rs)
        × (n ≤ length tests)
  unfolding upsert_tests upsert_rows
  upsert_tests-AreRows task_id kind zero i tests c c' rs done h =
      let same : c ≡ c' = ap (λ p. p.1) done in (rw (← same) h, omega arith)
  upsert_tests-AreRows task_id kind (suc n) i [] c c' rs done h = absurd (ground arith)
  upsert_tests-AreRows task_id kind (suc n) i (t ∷ tests) c c' rs done h =
      let (c1, first, rest) =
        then_write-value
          (M.update_one c (test_filter J M task_id (i + 1) kind) (M.string_doc (str "content") t))
          (upsert_tests J M task_id kind n (i + 1) tests) c' done in
      let (rows, le) =
        upsert_tests-AreRows task_id kind n (i + 1) tests c1 c' _ rest
          (AreRows-update_one J M task_id (i + 1) kind t c c1 rs first h) in
      (rows, omega (arith, le))

  -- UpsertTaskTests that reports no error keeps a well-formed collection of tests well formed, and
  -- its table is the old one with the inputs and then the outputs of the task written under their
  -- ids.
  pub upsert_task_tests-IsTable :
      (task : Task) (c c' : M.Coll) (rs : List Row)
      → upsert_task_tests J M task c ≡ (value none, c')
      → IsTable c rs
      → IsTable c' (uploaded task rs)
  unfolding upsert_task_tests
  upsert_task_tests-IsTable task c c' rs done h =
      let n = length task.tests.input_tests in
      let (r, last) =
        then_write J M (upsert_tests J M task.id (str "input") n 0 task.tests.input_tests c)
          (upsert_tests J M task.id (str "output") n 0 task.tests.output_tests) in
      let ok : r ≡ value tt = catch_message-none r (ap (λ p. p.0) done) in
      let same : last ≡ c' = ap (λ p. p.1) done in
      let (c1, inputs, outputs) =
        then_write-value (upsert_tests J M task.id (str "input") n 0 task.tests.input_tests c)
          (upsert_tests J M task.id (str "output") n 0 task.tests.output_tests) c'
          (λ i. (ok i, same i)) in
      let first = upsert_tests-AreRows task.id (str "input") n 0 _ c c1 rs inputs h.rows in
      let second = upsert_tests-AreRows task.id (str "output") n 0 _ c1 c' _ outputs first.0 in
      record {
        rows = second.0;
        keyed = IsKeyed-upsert_rows _ _ 0 _ _ (IsKeyed-upsert_rows _ _ 0 _ rs h.keyed);
      }

-- After an upload test number j + 1 of the task holds input and output j.
module _ (task : Task) (rs : List Row)
    (paired : length task.tests.output_tests ≡ length task.tests.input_tests)
    (small : length task.tests.input_tests < 2 ^ 63) where
  pub lookup_row-uploaded_output :
      (j : ℕ)
      → j < length task.tests.input_tests
      → lookup_row (to_int64 task.id) (to_int64 (1 + j)) (str "output") (uploaded task rs)
        ≡ get_elem? task.tests.output_tests j
  lookup_row-uploaded_output j h =
      let e : 0 + 1 + j ≡ 1 + j = omega arith in
      rw (take_of_length (length task.tests.input_tests) task.tests.output_tests (sym paired), ← e)
        (lookup_row-upsert_rows (to_int64 task.id) (str "output") 0 task.tests.output_tests _ j
          (omega arith) (omega arith))

  pub lookup_row-uploaded_input :
      (j : ℕ)
      → j < length task.tests.input_tests
      → lookup_row (to_int64 task.id) (to_int64 (1 + j)) (str "input") (uploaded task rs)
        ≡ get_elem? task.tests.input_tests j
  lookup_row-uploaded_input j h =
      let e : 0 + 1 + j ≡ 1 + j = omega arith in
      lookup_row-upsert_rows_other (to_int64 task.id) (str "output") 0 _ _ (to_int64 task.id)
        (to_int64 (1 + j)) (str "input") (ground arith)
      ∙ rw (take_of_length (length task.tests.input_tests) task.tests.input_tests refl, ← e)
          (lookup_row-upsert_rows (to_int64 task.id) (str "input") 0 task.tests.input_tests rs j h
            (omega arith))
