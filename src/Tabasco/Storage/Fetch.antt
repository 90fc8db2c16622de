-- ===== src/Tabasco/Storage/Fetch.antt =====
-- What GetTaskBatch reads from a well-formed collection of tests.
use mathlib.Core.List.{Memᴰ}
use mathlib.Core.List.Memᴰ
use distributed_testing_syst.Base.{
  ℕ, zero, suc, ◌+◌, ◌-◌, ◌^◌, ◌≤◌, ◌<◌, List, [], ◌∷◌, Str, str, Option, some, get_elem?,
  get_elem?-lt, length, length-replicate, replicate, lt→ltb, ◌&&◌, ◌≡◌, refl, ap, sym, ◌∙◌, arith,
  inl, inr,
}
use distributed_testing_syst.Base.Int.{
  ℤ, pos, negsuc, ◌-ℤ◌, ◌+ℤ◌, ◌≤ℤ◌, eq_ℤ, eq_ℤ_iff, to_int64, to_int64_small,
}
use distributed_testing_syst.Base.Outcome.{value}
use distributed_testing_syst.Extern.Json.{Json}
use distributed_testing_syst.Extern.Mongo.{Mongo, Cond, within}
use distributed_testing_syst.Tabasco.Batches.Cover.{range_from}
use distributed_testing_syst.Tabasco.Data.{TaskTests}
use distributed_testing_syst.Tabasco.Storage.{back, place_tests, batch_filter, tests_of_batch}
use distributed_testing_syst.Tabasco.Storage.Rows.{
  Row, IsRow, row_of_doc, doc_of_row, holds-is_int64_eq,
}
use distributed_testing_syst.Tabasco.Storage.Table.{lookup_row, lookup_row-mem, mem_of_lookup_row}
use distributed_testing_syst.Tabasco.Storage.Upload.{IsTable}
use distributed_testing_syst.Tabasco.Storage.Spots.{
  Spot, IsRight, IsSpot, AreSpots, AreSpots-spot, place_tests-eq_target,
}

back-range_from : (first m : ℕ) → back (range_from first (suc m)) ≡ value (first + m)
back-range_from first zero = ap value (omega arith)
back-range_from first (suc m) =
    let e : first + 1 + m ≡ first + suc m = omega arith in
    back-range_from (first + 1) m ∙ ap value e

pos_between :
    (first last : ℕ) (z : ℤ)
    → (pos first ≤ℤ z) × (z ≤ℤ pos last)
    → (x : ℕ) × (z ≡ pos x) × (first ≤ x) × (x ≤ last)
pos_between first last (pos x) h = (x, refl, omega arith, omega arith)
pos_between first last (negsuc x) h = absurd (omega arith)

-- The table holds the tests of the task under the ids from `first` on.
pub record HoldsTests (rs : List Row) (task_id first : ℕ) (tests : TaskTests) : Type 0 where
  pub paired : length tests.output_tests ≡ length tests.input_tests
  pub inputs :
      (j : ℕ)
      → j < length tests.input_tests
      → lookup_row (to_int64 task_id) (to_int64 (first + j)) (str "input") rs
        ≡ get_elem? tests.input_tests j
  pub outputs :
      (j : ℕ)
      → j < length tests.input_tests
      → lookup_row (to_int64 task_id) (to_int64 (first + j)) (str "output") rs
        ≡ get_elem? tests.output_tests j

module _ (J : Json) (M : Mongo J) (task_id first : ℕ) (tests : TaskTests) (c : M.Coll)
    (rs : List Row) (table : IsTable J M c rs) (holds : HoldsTests rs task_id first tests)
    (numbered : 0 < first) (some_test : 0 < length tests.input_tests)
    (small : first + length tests.input_tests ≤ 2 ^ 63) (ds : List M.Doc)
    (found : M.find_all c
        (batch_filter J M task_id (pos first) (pos (first + (length tests.input_tests - 1))))
      ≡ value ds) where
  IsOfBatch : Spot → Type 0
  IsOfBatch s =
      IsRight (str "input") tests.input_tests s
      × IsRight (str "output") tests.output_tests s
      × (s.place < length tests.input_tests)

  matches-batch_filter :
      (d : M.Doc) (r : Row)
      → IsRow J M d r
      → M.matches
          (batch_filter J M task_id (pos first) (pos (first + (length tests.input_tests - 1))))
          d
        ≡ (eq_ℤ r.task (to_int64 task_id)
            && M.holds
                (within (str "testId") (pos first) (pos (first + (length tests.input_tests - 1))))
                d)
  matches-batch_filter d r is =
      rw (M.matches-cons, M.matches-cons, M.matches-nil, holds-is_int64_eq J M d _ r.task _ is.task)
        (ground arith)

  spot_of_row :
      (d : M.Doc) (r : Row)
      → IsRow J M d r
      → Memᴰ r rs
      → r.task ≡ to_int64 task_id
      → (pos first ≤ℤ r.test) × (r.test ≤ℤ pos (first + (length tests.input_tests - 1)))
      → (s : Spot) × IsSpot J M first (length tests.input_tests) d s × IsOfBatch s
  unfolding IsOfBatch
  spot_of_row d r is mem same bounds =
      let (x, e, ge, le) = pos_between first _ r.test bounds in
      let split : first + (x - first) ≡ x = omega (arith, ge) in
      let id : to_int64 (first + (x - first)) ≡ r.test =
        to_int64_small (first + (x - first)) (omega (arith, ge, le, some_test))
        ∙ ap pos split
        ∙ sym e in
      let inside : x - first < length tests.input_tests = omega (arith, ge, le, some_test) in
      let stored = lookup_row-mem r rs table.keyed mem in
      (
        record { place = x - first; kind = r.kind; content = r.content },
        record {
          place = is.test ∙ ap (λ z. some (M.int64_val z)) (e ∙ ap pos (sym split));
          kind = is.kind;
          content = is.content;
          inside = inside;
        },
        (
          λ k. sym (holds.inputs (x - first) inside) ∙ rw (id, ← same, ← k) stored,
          λ k. sym (holds.outputs (x - first) inside) ∙ rw (id, ← same, ← k) stored,
          inside,
        ),
      )

  spot_of_doc :
      (d : M.Doc)
      → Memᴰ d ds
      → (s : Spot) × IsSpot J M first (length tests.input_tests) d s × IsOfBatch s
  spot_of_doc d m =
      let (stored, selected) = M.find_all-sound c _ ds d found m in
      let (r, mem, is) = row_of_doc J M (M.docs c) rs d table.rows stored in
      let both = sym (matches-batch_filter d r is) ∙ selected in
      let same : r.task ≡ to_int64 task_id =
        (eq_ℤ_iff r.task (to_int64 task_id)).0 (ground (arith, both)) in
      spot_of_row d r is mem same (
        (M.holds-within d _ (pos first) (pos (first + (length tests.input_tests - 1))) r.test
            is.test).0
          (ground (arith, both)))

  spots_of_docs :
      (es : List M.Doc)
      → ((d : M.Doc) → Memᴰ d es → Memᴰ d ds)
      → (ss : List Spot) × AreSpots J M first (length tests.input_tests) es ss
        × ((s : Spot) → Memᴰ s ss → IsOfBatch s)
  spots_of_docs [] all = ([], tt, λ s m. absurd (Memᴰ.not-nil m))
  spots_of_docs (d ∷ es) all =
      let (s, is, right) = spot_of_doc d (all d (Memᴰ.head refl)) in
      let (ss, are, rights) = spots_of_docs es (λ e m. all e (Memᴰ.tail m)) in
      (
        s ∷ ss,
        (is, are),
        λ t m. elim (Memᴰ.cases_cons m) [ inl e ↦ rw e right | inr rest ↦ rights t rest ],
      )

  -- The document of a test of the batch is among those found.
  spot_at :
      (ss : List Spot) (kind content : Str) (j : ℕ)
      → AreSpots J M first (length tests.input_tests) ds ss
      → j < length tests.input_tests
      → lookup_row (to_int64 task_id) (to_int64 (first + j)) kind rs ≡ some content
      → (s : Spot) × Memᴰ s ss × (s.place ≡ j) × (s.kind ≡ kind)
  spot_at ss kind content j are h stored =
      let row = mem_of_lookup_row _ _ kind content rs stored in
      let (d, mem, is) = doc_of_row J M (M.docs c) rs _ table.rows row in
      let id : to_int64 (first + j) ≡ pos (first + j) =
        to_int64_small (first + j) (omega (arith, h, small)) in
      let test : M.field d (str "testId") ≡ some (M.int64_val (pos (first + j))) =
        is.test ∙ ap (λ z. some (M.int64_val z)) id in
      let selected =
        matches-batch_filter d _ is
        ∙ ground (
          arith,
          (eq_ℤ_iff (to_int64 task_id) (to_int64 task_id)).1 refl,
          (M.holds-within d _ (pos first) (pos (first + (length tests.input_tests - 1)))
                (pos (first + j)) test).1
              (omega (arith, h), omega (arith, h)),
        ) in
      let (s, in_spots, spot) =
        AreSpots-spot J M first (length tests.input_tests) ds ss d are
          (M.find_all-complete c _ ds d found mem selected) in
      let same_id : pos (first + s.place) ≡ pos (first + j) =
        M.int64_val-injective _ _ (cc (spot.place, test)) in
      (
        s,
        in_spots,
        ground (arith, same_id),
        M.string_val-injective s.kind kind (cc (spot.kind, is.kind)),
      )

  place_tests-found :
      (m : ℕ)
      → length tests.input_tests ≡ suc m
      → place_tests J M
          (pos first)
          (record { input_tests = replicate (suc m) []; output_tests = replicate (suc m) [] })
          ds
        ≡ value tests
  unfolding IsOfBatch
  place_tests-found m n =
      let (ss, are, rights) = spots_of_docs ds (λ d mem. mem) in
      let blank = length-replicate (suc m) [] ∙ sym n in
      place_tests-eq_target J M first (length tests.input_tests) ds ss _ tests are blank blank refl
        holds.paired rights
        (λ j h.
          let (i, in_input) = get_elem?-lt tests.input_tests j h in
          let (o, in_output) = get_elem?-lt tests.output_tests j (omega (arith, h, holds.paired)) in
          (
            spot_at ss (str "input") i j are h (holds.inputs j h ∙ in_input),
            spot_at ss (str "output") o j are h (holds.outputs j h ∙ in_output),
          ))

  tests_of_batch-eq_length :
      (m : ℕ)
      → length tests.input_tests ≡ suc m
      → tests_of_batch J M task_id (range_from first (suc m)) c ≡ value tests
  unfolding tests_of_batch
  tests_of_batch-eq_length m n =
      let last : first + (length tests.input_tests - 1) ≡ first + m = omega (arith, n) in
      let span : pos (first + m) -ℤ pos first ≡ pos m = ground arith in
      let count : pos m +ℤ pos 1 ≡ pos (suc m) = ground arith in
      rw
        (
          back-range_from first m,
          to_int64_small first (omega (arith, small, n)),
          to_int64_small (first + m) (omega (arith, small, n)),
          span,
          lt→ltb m (2 ^ 63) (omega (arith, small, n)),
          count,
          lt→ltb (suc m) (2 ^ 63) (omega (arith, small, n, numbered)),
          ← last,
          found,
        )
        (place_tests-found m n)

-- Every read of a collection is answered.
pub record Answers (J : Json) (M : Mongo J) (c : M.Coll) : Type 0 where
  pub one : (f : List Cond) → (d : Option M.Doc) × (M.find_one c f ≡ value d)
  pub all : (f : List Cond) → (ds : List M.Doc) × (M.find_all c f ≡ value ds)

-- Where a well-formed collection that answers reads holds at least one test of a task under the ids
-- from a positive one on, below 2^63, GetTaskBatch of the batch of these ids returns exactly these
-- tests, in order, in whatever order the query gives its documents.
pub tests_of_batch-eq :
    (J : Json) (M : Mongo J) (task_id first : ℕ) (tests : TaskTests) (c : M.Coll) (rs : List Row)
    → IsTable J M c rs
    → HoldsTests rs task_id first tests
    → Answers J M c
    → 0 < first
    → 0 < length tests.input_tests
    → first + length tests.input_tests ≤ 2 ^ 63
    → tests_of_batch J M task_id (range_from first (length tests.input_tests)) c ≡ value tests
tests_of_batch-eq J M task_id first tests c rs table holds answers numbered some_test small =
    let (ds, found) =
      answers.all
        (batch_filter J M task_id (pos first) (pos (first + (length tests.input_tests - 1)))) in
    let n : length tests.input_tests ≡ suc (length tests.input_tests - 1) = omega arith in
    ap (λ k. tests_of_batch J M task_id (range_from first k) c) n
    ∙ tests_of_batch-eq_length J M task_id first tests c rs table holds numbered some_test small ds
        found (length tests.input_tests - 1) n
