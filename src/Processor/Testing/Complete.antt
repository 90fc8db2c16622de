-- ===== src/Processor/Testing/Complete.antt =====
-- The reports of a submission against its tests (testing_processor/testing_processor.cpp, Test).
use distributed_testing_syst.Base.{
  ℕ, suc, ◌+◌, ◌<◌, List, [], ◌∷◌, ◌++◌, Str, All, Bool-cases, length, length-append, ◌≡◌, sym, ap,
  ◌∙◌, inl, inr, arith,
}
use distributed_testing_syst.Base.Outcome.{Outcome, value}
use distributed_testing_syst.Base.Action.{continue-value, value_transport}
use distributed_testing_syst.Extern.Json.{Json}
use distributed_testing_syst.Extern.System.{System}
use distributed_testing_syst.Processor.Report.{ok, TestingReport}
use distributed_testing_syst.Processor.Request.{Request}
use distributed_testing_syst.Processor.Execute.{Processor, execute_and_test}
use distributed_testing_syst.Processor.Tabasco.{GetBatchResponse}
use distributed_testing_syst.Processor.Testing.{
  Progress, going, stopped, reports_of, is_ok, run_tests, test,
}
use distributed_testing_syst.Processor.Testing.Batching.{Serves, inputs_of, outputs_of, test-Serves}

abbrev pub AllOk : List TestingReport → Type 0
AllOk reports = All (λ report. report.verdict ≡ ok) reports

AllOk-last :
    (reports : List TestingReport) (report : TestingReport)
    → AllOk (reports ++ report ∷ [])
    → report.verdict ≡ ok
AllOk-last [] report h = h.0
AllOk-last (r ∷ rs) report h = AllOk-last rs report h.1

-- Where the loop goes on, every test has its report; where it stopped, not all of them are OK.
IsComplete : ℕ → Progress → Type 0
IsComplete count (going reports) = length reports ≡ count
IsComplete count (stopped reports) = ¬ AllOk reports

IsComplete-value :
    {W : Type 0} (count : ℕ) (a b : Progress) (w w' : W)
    → IsComplete count a
    → Path (Outcome Progress × W) (value a, w) (value b, w')
    → IsComplete count b
IsComplete-value count a b w w' h e = value_transport (IsComplete count) a b w w' h e

all_of_IsComplete :
    (count : ℕ) (progress : Progress)
    → IsComplete count progress
    → AllOk (reports_of progress)
    → length (reports_of progress) ≡ count
unfolding IsComplete
all_of_IsComplete count (going reports) h fine = h
all_of_IsComplete count (stopped reports) h fine = absurd (h fine)

module _ (J : Json) (S : System) (p : Processor) (r : Request) where
  run_tests-IsComplete :
      (inputs outputs : List Str) (reports : List TestingReport) (w : S.World) (progress : Progress)
      (w' : S.World)
      → run_tests J S p r inputs outputs reports w ≡ (value progress, w')
      → IsComplete (length reports + length inputs) progress
  unfolding run_tests IsComplete
  run_tests-IsComplete [] outputs reports w progress w' e =
      IsComplete-value (length reports + 0) (going reports) progress w w' (omega arith) e
  run_tests-IsComplete (i ∷ is) [] reports w progress w' e = cc
  run_tests-IsComplete (i ∷ is) (o ∷ os) reports w progress w' e =
      let (report, w1, e1, e2) = continue-value (execute_and_test J S p r i o w) _ progress w' e in
      let count : length (reports ++ report ∷ []) + length is ≡ length reports + suc (length is) =
        omega (arith, length-append reports (report ∷ [])) in
      elim (Bool-cases (is_ok report.verdict)) [
        | inl fine ↦
            rw count at
              (run_tests-IsComplete is os (reports ++ report ∷ []) w1 progress w' (rw fine at e2))
        | inr bad ↦
            IsComplete-value (length reports + suc (length is)) (stopped (reports ++ report ∷ []))
              progress w1 w' (λ h. cc (sym (ap is_ok (AllOk-last reports report h)) ∙ bad))
              (rw bad at e2)
      ]

  -- Where the service answers the batches of a submission, at least one and as many as its batch
  -- count, and leaves the world as it is, and each batch has as many outputs as inputs: when Test
  -- returns reports that are all OK, they are as many as the tests of the batches, so that no test
  -- was left out.
  pub test_complete :
      (batches : List GetBatchResponse) (w : S.World) (reports : List TestingReport) (w' : S.World)
      → Serves J S p r 0 batches
      → r.batch_count ≡ length batches
      → 0 < length batches
      → test J S p r w ≡ (value reports, w')
      → AllOk reports
      → length reports ≡ length (inputs_of batches)
  test_complete batches w reports w' served count some_batch e fine =
      let none_yet : 0 + length (inputs_of batches) ≡ length (inputs_of batches) = omega arith in
      let (progress, w1, ran, done) =
        continue-value (run_tests J S p r (inputs_of batches) (outputs_of batches) [] w) _ reports
          w' (sym (test-Serves J S p r batches w served count some_batch) ∙ e) in
      value_transport (λ rs. AllOk rs → length rs ≡ length (inputs_of batches))
        (reports_of progress) reports w1 w'
        (all_of_IsComplete (length (inputs_of batches)) progress (
          rw none_yet at
            (run_tests-IsComplete (inputs_of batches) (outputs_of batches) [] w progress w1 ran)))
        done fine
