-- ===== src/Tabasco/Grpc/Batches.antt =====
-- A client that asks for the batches of a task one after the other, as the testing processor does,
-- gets the tests that were uploaded.
use distributed_testing_syst.Base.{
  ℕ, zero, suc, Str, ◌+◌, ◌^◌, ◌≤◌, ◌<◌, List, [], ◌∷◌, ◌++◌, append_assoc, length, length-append,
  flatten, All, take, drop, take-append-drop, nil_of_length, get_elem?, get_elem?-take,
  get_elem?-drop, length-take_of_le, length-drop, some, ◌≡◌, refl, ap, sym, ◌∙◌, arith,
}
use distributed_testing_syst.Base.Outcome.{Outcome, value, ◌>>=◌}
use distributed_testing_syst.Extern.Json.{Json}
use distributed_testing_syst.Extern.Mongo.{Mongo}
use distributed_testing_syst.Utils.Expected.{expected}
use distributed_testing_syst.Tabasco.Batches.Cover.{range_from, IsNonempty}
use distributed_testing_syst.Tabasco.Batches.Ranges.{
  length-range_from, range_from-split, get_elem?-middle,
}
use distributed_testing_syst.Tabasco.Data.{TaskTests, TaskMetaData}
use distributed_testing_syst.Tabasco.Storage.{
  get_task_meta_data, get_task_batch, batch_of_meta, tests_of_batch, element, catch_error,
}
use distributed_testing_syst.Tabasco.Server.{Server}
use distributed_testing_syst.Tabasco.Grpc.{
  Status, ok, not_found, GetBatchReply, get_batch, batch_reply,
}
use distributed_testing_syst.Tabasco.Storage.Rows.{Row}
use distributed_testing_syst.Tabasco.Storage.Upload.{IsTable}
use distributed_testing_syst.Tabasco.Storage.Fetch.{HoldsTests, Answers, tests_of_batch-eq}

abbrev pub empty_reply : GetBatchReply
empty_reply = record { input = []; output = [] }

abbrev pub joined : GetBatchReply → GetBatchReply → GetBatchReply
joined a b = record { input = a.input ++ b.input; output = a.output ++ b.output }

abbrev pub all_inputs : List GetBatchReply → List Str
all_inputs [] = []
all_inputs (reply ∷ replies) = reply.input ++ all_inputs replies

abbrev pub all_outputs : List GetBatchReply → List Str
all_outputs [] = []
all_outputs (reply ∷ replies) = reply.output ++ all_outputs replies

module _ (J : Json) (M : Mongo J) (server : Server J M) (task_id : ℕ) where
  abbrev join_reply : GetBatchReply → Status × GetBatchReply → Outcome (Status × GetBatchReply)
  join_reply a (ok, b) = value (ok, joined a b)
  join_reply a (not_found e, b) = value (not_found e, a)

  abbrev go_on :
      Status × GetBatchReply → Outcome (Status × GetBatchReply) → Outcome (Status × GetBatchReply)
  go_on (ok, a) rest = do b ← rest; join_reply a b
  go_on (not_found e, a) rest = value (not_found e, a)

  -- A client that asks for `n` batches from `batch_id` on and stops at the first error.
  pub fetch_batches : ℕ → ℕ → Outcome (Status × GetBatchReply)
  fetch_batches zero batch_id = value (ok, empty_reply)
  fetch_batches (suc n) batch_id =
      let rest = fetch_batches n (batch_id + 1) in
      (do
        got ← get_batch J M server (record { task_id = task_id; batch_id = batch_id }) empty_reply
        go_on got rest)

  -- What the service answers to the ids from one on, each answer with an output for each input.
  pub data Replies : ℕ → List GetBatchReply → Type 0 where
    none_left_to_ask : (batch_id : ℕ) → Replies batch_id []
    answers_next :
        (batch_id : ℕ) (reply : GetBatchReply) (replies : List GetBatchReply)
        → get_batch J M server (record { task_id = task_id; batch_id = batch_id }) empty_reply
          ≡ value (ok, reply)
        → length reply.input ≡ length reply.output
        → Replies (batch_id + 1) replies
        → Replies batch_id (reply ∷ replies)

  fetch_batches-Replies :
      (batch_id : ℕ) (replies : List GetBatchReply)
      → Replies batch_id replies
      → fetch_batches (length replies) batch_id
        ≡ value (ok, record { input = all_inputs replies; output = all_outputs replies })
  unfolding fetch_batches
  fetch_batches-Replies batch_id _ (none_left_to_ask _) = refl
  fetch_batches-Replies batch_id _ (answers_next _ reply replies answered paired rest) =
      rw (answered, fetch_batches-Replies (batch_id + 1) replies rest)

  -- A client that asks for as many batches as there are answers is given the answers together.
  pub fetch_batches-eq :
      (replies : List GetBatchReply)
      → Replies 0 replies
      → (count : ℕ) → length replies ≡ count
      → (tests : TaskTests) → all_inputs replies ≡ tests.input_tests
      → all_outputs replies ≡ tests.output_tests
      → fetch_batches count 0
        ≡ value (ok, record { input = tests.input_tests; output = tests.output_tests })
  fetch_batches-eq replies answered count e tests inputs outputs =
      ap (λ n. fetch_batches n 0) (sym e)
      ∙ fetch_batches-Replies 0 replies answered
      ∙ (λ i. value (ok, record { input = inputs i; output = outputs i }))

  batch_of_meta-expected :
      (batch_id : ℕ) (batch : List ℕ) (m : TaskMetaData) (tests : TaskTests)
      → get_elem? m.batches batch_id ≡ some batch
      → tests_of_batch J M task_id batch server.task_tests ≡ value tests
      → batch_of_meta J M task_id batch_id server.task_tests (expected m) ≡ value (expected tests)
  batch_of_meta-expected batch_id batch m tests is_batch fetched =
      rw (is_batch, element) (rw fetched)

  module _ (m : TaskMetaData) (rs : List Row)
      (metas : get_task_meta_data J M task_id server.task_meta ≡ value (expected m))
      (table : IsTable J M server.task_tests rs) (answers : Answers J M server.task_tests) where
    get_batch-eq :
        (batch_id first : ℕ) (tests : TaskTests)
        → get_elem? m.batches batch_id ≡ some (range_from first (length tests.input_tests))
        → HoldsTests rs task_id first tests
        → 0 < first
        → 0 < length tests.input_tests
        → first + length tests.input_tests ≤ 2 ^ 63
        → get_batch J M server (record { task_id = task_id; batch_id = batch_id }) empty_reply
          ≡ value (ok, record { input = tests.input_tests; output = tests.output_tests })
    unfolding get_batch get_task_batch
    get_batch-eq batch_id first tests is_batch holds numbered some_test small =
        let fetched =
          batch_of_meta-expected batch_id (range_from first (length tests.input_tests)) m tests
            is_batch
            (tests_of_batch-eq J M task_id first tests server.task_tests rs table holds answers
              numbered some_test small) in
        rw metas (ap (λ r. catch_error r >>= λ got. batch_reply J M empty_reply got) fetched)

    HoldsTests-take :
        (first k : ℕ) (tests : TaskTests)
        → k ≤ length tests.input_tests
        → HoldsTests rs task_id first tests
        → HoldsTests rs task_id first (record {
          input_tests = take k tests.input_tests;
          output_tests = take k tests.output_tests;
        })
    HoldsTests-take first k tests le h =
        let li = length-take_of_le k tests.input_tests le in
        let lo = length-take_of_le k tests.output_tests (omega (arith, le, h.paired)) in
        record {
          paired = lo ∙ sym li;
          inputs = λ j lt.
              h.inputs j (omega (arith, lt, li, le))
              ∙ sym (get_elem?-take k tests.input_tests j (omega (arith, lt, li)));
          outputs = λ j lt.
              h.outputs j (omega (arith, lt, li, le))
              ∙ sym (get_elem?-take k tests.output_tests j (omega (arith, lt, li)));
        }

    HoldsTests-drop :
        (first k : ℕ) (tests : TaskTests)
        → k ≤ length tests.input_tests
        → HoldsTests rs task_id first tests
        → HoldsTests rs task_id (first + k) (record {
          input_tests = drop k tests.input_tests;
          output_tests = drop k tests.output_tests;
        })
    HoldsTests-drop first k tests le h =
        let li = length-drop k tests.input_tests in
        record {
          paired = omega (arith, li, length-drop k tests.output_tests, h.paired);
          inputs = λ j lt.
              let e : first + k + j ≡ first + (k + j) = omega arith in
              rw e (h.inputs (k + j) (omega (arith, lt, li, le)))
              ∙ sym (get_elem?-drop k tests.input_tests j);
          outputs = λ j lt.
              let e : first + k + j ≡ first + (k + j) = omega arith in
              rw e (h.outputs (k + j) (omega (arith, lt, li, le)))
              ∙ sym (get_elem?-drop k tests.output_tests j);
        }

    -- The batches from one on, asked for one by one, are answered by the tests from the first id of
    -- it on.
    pub batches-Replies :
        (before rest : List (List ℕ)) (first : ℕ) (tests : TaskTests)
        → m.batches ≡ before ++ rest
        → flatten rest ≡ range_from first (length tests.input_tests)
        → All IsNonempty rest
        → HoldsTests rs task_id first tests
        → 0 < first
        → first + length tests.input_tests ≤ 2 ^ 63
        → (replies : List GetBatchReply) × Replies (length before) replies
          × (length replies ≡ length rest)
          × (all_inputs replies ≡ tests.input_tests)
          × (all_outputs replies ≡ tests.output_tests)
    batches-Replies before [] first tests all_of covers nonempty holds numbered small =
        let none_left : length tests.input_tests ≡ 0 =
          sym (length-range_from first (length tests.input_tests)) ∙ sym (ap length covers) in
        (
          [],
          none_left_to_ask (length before),
          refl,
          sym (nil_of_length tests.input_tests none_left),
          sym (nil_of_length tests.output_tests (holds.paired ∙ none_left)),
        )
    batches-Replies before (b ∷ rest) first tests all_of covers nonempty holds numbered small =
        let k = length b in
        let (is_range, others, le) =
          range_from-split b (flatten rest) first (length tests.input_tests) covers in
        let li = length-take_of_le k tests.input_tests le in
        let position : get_elem? m.batches (length before) ≡ some b =
          ap (λ l. get_elem? l (length before)) all_of ∙ get_elem?-middle before b rest in
        let first_tests : TaskTests = record {
          input_tests = take k tests.input_tests;
          output_tests = take k tests.output_tests;
        } in
        let held = HoldsTests-take first k tests le holds in
        let answered =
          get_batch-eq (length before) first first_tests
            (position ∙ ap some (is_range ∙ ap (range_from first) (sym li))) held numbered
            (omega (arith, li, nonempty.0)) (omega (arith, li, le, small)) in
        let ld = length-drop k tests.input_tests in
        let next = length-append before (b ∷ []) in
        let (replies, answers_rest, count, inputs, outputs) =
          batches-Replies (before ++ b ∷ []) rest (first + k)
            (record {
              input_tests = drop k tests.input_tests;
              output_tests = drop k tests.output_tests;
            })
            (all_of ∙ sym (append_assoc before (b ∷ []) rest))
            (others ∙ ap (range_from (first + k)) (sym ld)) nonempty.1
            (HoldsTests-drop first k tests le holds) (omega (arith, numbered))
            (omega (arith, ld, le, small)) in
        (
          record { input = first_tests.input_tests; output = first_tests.output_tests } ∷ replies,
          answers_next (length before) _ replies answered (sym held.paired)
              (rw (← next) answers_rest),
          ap suc count,
          rw (inputs, take-append-drop) refl,
          rw (outputs, take-append-drop) refl,
        )
