-- ===== src/Processor/Testing/Compilation.antt =====
-- The verdict CE in Test (testing_processor/testing_processor.cpp).
use distributed_testing_syst.Base.{
  ℕ, zero, suc, ◌+◌, List, [], ◌∷◌, ◌++◌, Str, ◌==◌, ◌≡◌, ◌≢◌, Bool, true, false, All,
  if◌then◌else◌,
}
use distributed_testing_syst.Base.Outcome.{Outcome, value}
use distributed_testing_syst.Base.Action.{continue, continue-value, value_transport}
use distributed_testing_syst.Extern.Json.{Json}
use distributed_testing_syst.Extern.System.{System}
use distributed_testing_syst.Utils.Expected.{Expected, expected, unexpected}
use distributed_testing_syst.Processor.Report.{ce, TestingReport}
use distributed_testing_syst.Processor.Request.{Request}
use distributed_testing_syst.Processor.Execute.{Processor, execute_and_test}
use distributed_testing_syst.Processor.Tabasco.{GetBatchResponse, ErrorResponse, get_batch}
use distributed_testing_syst.Processor.Testing.{
  Progress, going, stopped, reports_of, is_ok, crash_report, run_tests, run_batch, run_batches,
  resume, return_reports, return_one, test,
}
use distributed_testing_syst.Tabasco.Batches.Cover.{All-snoc}
use distributed_testing_syst.Processor.Execute.NeverCe.{execute_and_test-not_ce}

IsNotCe : TestingReport → Type 0
IsNotCe report = report.verdict ≢ ce

module _ (J : Json) (S : System) (p : Processor) (r : Request) where
  NotCe : Progress → Type 0
  NotCe progress = All IsNotCe (reports_of progress)

  NotCe-if :
      (fine : Bool) (rest : Outcome Progress × S.World) (reports : List TestingReport) (w : S.World)
      (progress : Progress) (w' : S.World)
      → (rest ≡ (value progress, w') → NotCe progress)
      → All IsNotCe reports
      → (if fine then rest else (value (stopped reports), w)) ≡ (value progress, w')
      → NotCe progress
  unfolding NotCe
  NotCe-if true rest reports w progress w' f h e = f e
  NotCe-if false rest reports w progress w' f h e =
      value_transport NotCe (stopped reports) progress w w' h e

  run_tests-NotCe :
      (inputs outputs : List Str) (reports : List TestingReport) (w : S.World) (progress : Progress)
      (w' : S.World)
      → All IsNotCe reports
      → run_tests J S p r inputs outputs reports w ≡ (value progress, w')
      → NotCe progress
  unfolding run_tests NotCe IsNotCe
  run_tests-NotCe [] outputs reports w progress w' h e =
      value_transport NotCe (going reports) progress w w' h e
  run_tests-NotCe (i ∷ is) [] reports w progress w' h e = cc
  run_tests-NotCe (i ∷ is) (o ∷ os) reports w progress w' h e =
      let (report, w1, e1, e2) = continue-value (execute_and_test J S p r i o w) _ progress w' e in
      let more =
        All-snoc IsNotCe reports report h (execute_and_test-not_ce J S p r i o w report w1 e1) in
      NotCe-if (is_ok report.verdict) (run_tests J S p r is os (reports ++ report ∷ []) w1)
        (reports ++ report ∷ []) w1 progress w'
        (run_tests-NotCe is os (reports ++ report ∷ []) w1 progress w' more) more e2

  run_batch-NotCe :
      (reply : Expected GetBatchResponse ErrorResponse) (reports : List TestingReport) (w : S.World)
      (progress : Progress) (w' : S.World)
      → All IsNotCe reports
      → run_batch J S p r reply reports w ≡ (value progress, w')
      → NotCe progress
  unfolding NotCe IsNotCe
  run_batch-NotCe (unexpected error) reports w progress w' h e =
      value_transport NotCe (stopped (reports ++ crash_report ∷ [])) progress _ w'
        (All-snoc IsNotCe reports crash_report h (λ c. cc)) e
  run_batch-NotCe (expected tests) reports w progress w' h e =
      run_tests-NotCe tests.input_tests tests.output_tests reports w progress w' h e

  resume-NotCe :
      (f : List TestingReport → S.World → Outcome Progress × S.World) (before : Progress)
      (w : S.World) (progress : Progress) (w' : S.World)
      → ((reports : List TestingReport)
          → All IsNotCe reports
          → f reports w ≡ (value progress, w')
          → NotCe progress)
      → NotCe before
      → resume J S p r f before w ≡ (value progress, w')
      → NotCe progress
  unfolding NotCe
  resume-NotCe f (going reports) w progress w' k h e = k reports h e
  resume-NotCe f (stopped reports) w progress w' k h e =
      value_transport NotCe (stopped reports) progress w w' h e

  run_batches-NotCe :
      (count index : ℕ) (reports : List TestingReport) (w : S.World) (progress : Progress)
      (w' : S.World)
      → All IsNotCe reports
      → run_batches J S p r count index reports w ≡ (value progress, w')
      → NotCe progress
  unfolding run_batches NotCe
  run_batches-NotCe zero index reports w progress w' h e =
      value_transport NotCe (going reports) progress w w' h e
  run_batches-NotCe (suc count) index reports w progress w' h e =
      let (reply, w1) = get_batch S r.task_id index w in
      let (before, w2, e1, e2) =
        continue-value (run_batch J S p r reply reports w1) _ progress w' e in
      resume-NotCe (run_batches J S p r count (index + 1)) before w2 progress w'
        (λ rs a. run_batches-NotCe count (index + 1) rs w2 progress w' a)
        (run_batch-NotCe reply reports w1 before w2 h e1) e2

  test-cases :
      (none_to_run : Bool) (w : S.World) (reports : List TestingReport) (w' : S.World)
      → (if none_to_run
          then continue (execute_and_test J S p r [] [] w) (return_one J S p r)
          else continue (run_batches J S p r r.batch_count 0 [] w) (return_reports J S p r))
        ≡ (value reports, w')
      → All IsNotCe reports
  unfolding NotCe IsNotCe
  test-cases true w reports w' e =
      let (report, w1, e1, e2) = continue-value (execute_and_test J S p r [] [] w) _ reports w' e in
      value_transport (All IsNotCe) (report ∷ []) reports w1 w'
        (execute_and_test-not_ce J S p r [] [] w report w1 e1, tt) e2
  test-cases false w reports w' e =
      let (progress, w1, e1, e2) =
        continue-value (run_batches J S p r r.batch_count 0 [] w) _ reports w' e in
      value_transport (All IsNotCe) (reports_of progress) reports w1 w'
        (run_batches-NotCe r.batch_count 0 [] w progress w1 tt e1) e2

  -- When Test returns, no report has the verdict CE.
  pub test-not_ce :
      (w : S.World) (reports : List TestingReport) (w' : S.World)
      → test J S p r w ≡ (value reports, w')
      → All (λ report. report.verdict ≢ ce) reports
  unfolding test IsNotCe
  test-not_ce w reports w' e = test-cases (r.batch_count == 0) w reports w' e
