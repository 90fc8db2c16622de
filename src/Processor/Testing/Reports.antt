-- ===== src/Processor/Testing/Reports.antt =====
-- What the reports of a submission look like (testing_processor/testing_processor.cpp, Test).
use distributed_testing_syst.Base.{
  ℕ, zero, suc, ◌+◌, List, [], ◌∷◌, ◌++◌, Str, ◌==◌, ◌≡◌, if◌then◌else◌, refl, Bool, true, false,
}
use distributed_testing_syst.Base.Outcome.{Outcome, value}
use distributed_testing_syst.Base.Action.{continue, continue-value, value_transport}
use distributed_testing_syst.Extern.Json.{Json}
use distributed_testing_syst.Extern.System.{System}
use distributed_testing_syst.Utils.Expected.{Expected, expected, unexpected}
use distributed_testing_syst.Processor.Report.{
  Verdict, ok, wa, tl, ml, re, ce, crash, TestingReport,
}
use distributed_testing_syst.Processor.Request.{Request}
use distributed_testing_syst.Processor.Execute.{Processor, execute_and_test}
use distributed_testing_syst.Processor.Tabasco.{GetBatchResponse, ErrorResponse, get_batch}
use distributed_testing_syst.Processor.Testing.{
  Progress, going, stopped, reports_of, is_ok, crash_report, run_tests, run_batch, run_batches,
  resume, return_reports, return_one, test,
}

-- Every report but the last has the verdict OK.
pub data EndsAtFailure : List TestingReport → Type 0 where
  none_yet : EndsAtFailure []
  last : (report : TestingReport) → EndsAtFailure (report ∷ [])
  after_ok :
      (report : TestingReport) (reports : List TestingReport)
      → report.verdict ≡ ok
      → EndsAtFailure reports
      → EndsAtFailure (report ∷ reports)

data AllOk : List TestingReport → Type 0 where
  no_report : AllOk []
  ok_then :
      (report : TestingReport) (reports : List TestingReport)
      → report.verdict ≡ ok
      → AllOk reports
      → AllOk (report ∷ reports)

is_ok-true : (v : Verdict) → is_ok v ≡ true → v ≡ ok
is_ok-true ok e = refl
is_ok-true wa e = cc
is_ok-true tl e = cc
is_ok-true ml e = cc
is_ok-true re e = cc
is_ok-true ce e = cc
is_ok-true crash e = cc

AllOk-EndsAtFailure : (reports : List TestingReport) → AllOk reports → EndsAtFailure reports
AllOk-EndsAtFailure _ no_report = none_yet
AllOk-EndsAtFailure _ (ok_then r rs e h) = after_ok r rs e (AllOk-EndsAtFailure rs h)

AllOk-snoc :
    (reports : List TestingReport) (report : TestingReport)
    → AllOk reports
    → report.verdict ≡ ok
    → AllOk (reports ++ report ∷ [])
AllOk-snoc _ report no_report e = ok_then report [] e no_report
AllOk-snoc _ report (ok_then r rs o h) e =
    ok_then r (rs ++ report ∷ []) o (AllOk-snoc rs report h e)

EndsAtFailure-snoc :
    (reports : List TestingReport) (report : TestingReport)
    → AllOk reports
    → EndsAtFailure (reports ++ report ∷ [])
EndsAtFailure-snoc _ report no_report = last report
EndsAtFailure-snoc _ report (ok_then r rs o h) =
    after_ok r (rs ++ report ∷ []) o (EndsAtFailure-snoc rs report h)

-- What holds where the loops stand: all OK while they go on.
Holds : Progress → Type 0
Holds (going reports) = AllOk reports
Holds (stopped reports) = EndsAtFailure reports

Holds-EndsAtFailure : (progress : Progress) → Holds progress → EndsAtFailure (reports_of progress)
unfolding Holds
Holds-EndsAtFailure (going reports) h = AllOk-EndsAtFailure reports h
Holds-EndsAtFailure (stopped reports) h = h

Holds-value :
    {W : Type 0} (a b : Progress) (w w' : W)
    → Holds a
    → Path (Outcome Progress × W) (value a, w) (value b, w')
    → Holds b
Holds-value a b w w' h e = value_transport Holds a b w w' h e

-- The step after a run.
Holds-if :
    {W : Type 0} (fine : Bool) (rest : Outcome Progress × W) (reports : List TestingReport) (w : W)
    (progress : Progress) (w' : W)
    → (fine ≡ true → rest ≡ (value progress, w') → Holds progress)
    → EndsAtFailure reports
    → (if fine then rest else (value (stopped reports), w)) ≡ (value progress, w')
    → Holds progress
unfolding Holds
Holds-if true rest reports w progress w' f h e = f refl e
Holds-if false rest reports w progress w' f h e = Holds-value (stopped reports) progress w w' h e

module _ (J : Json) (S : System) (p : Processor) (r : Request) where
  run_tests-Holds :
      (inputs outputs : List Str) (reports : List TestingReport) (w : S.World) (progress : Progress)
      (w' : S.World)
      → AllOk reports
      → run_tests J S p r inputs outputs reports w ≡ (value progress, w')
      → Holds progress
  unfolding run_tests Holds
  run_tests-Holds [] outputs reports w progress w' h e =
      Holds-value (going reports) progress w w' h e
  run_tests-Holds (i ∷ is) [] reports w progress w' h e = cc
  run_tests-Holds (i ∷ is) (o ∷ os) reports w progress w' h e =
      let (report, w1, e1, e2) = continue-value (execute_and_test J S p r i o w) _ progress w' e in
      Holds-if (is_ok report.verdict) (run_tests J S p r is os (reports ++ report ∷ []) w1)
        (reports ++ report ∷ []) w1 progress w'
        (λ fine.
          run_tests-Holds is os (reports ++ report ∷ []) w1 progress w'
            (AllOk-snoc reports report h (is_ok-true report.verdict fine)))
        (EndsAtFailure-snoc reports report h) e2

  run_batch-Holds :
      (reply : Expected GetBatchResponse ErrorResponse) (reports : List TestingReport) (w : S.World)
      (progress : Progress) (w' : S.World)
      → AllOk reports
      → run_batch J S p r reply reports w ≡ (value progress, w')
      → Holds progress
  unfolding Holds
  run_batch-Holds (unexpected error) reports w progress w' h e =
      Holds-value (stopped (reports ++ crash_report ∷ [])) progress _ w'
        (EndsAtFailure-snoc reports crash_report h) e
  run_batch-Holds (expected tests) reports w progress w' h e =
      run_tests-Holds tests.input_tests tests.output_tests reports w progress w' h e

  resume-Holds :
      (f : List TestingReport → S.World → Outcome Progress × S.World) (before : Progress)
      (w : S.World) (progress : Progress) (w' : S.World)
      → ((reports : List TestingReport)
          → AllOk reports
          → f reports w ≡ (value progress, w')
          → Holds progress)
      → Holds before
      → resume J S p r f before w ≡ (value progress, w')
      → Holds progress
  unfolding Holds
  resume-Holds f (going reports) w progress w' k h e = k reports h e
  resume-Holds f (stopped reports) w progress w' k h e =
      Holds-value (stopped reports) progress w w' h e

  run_batches-Holds :
      (count index : ℕ) (reports : List TestingReport) (w : S.World) (progress : Progress)
      (w' : S.World)
      → AllOk reports
      → run_batches J S p r count index reports w ≡ (value progress, w')
      → Holds progress
  unfolding run_batches Holds
  run_batches-Holds zero index reports w progress w' h e =
      Holds-value (going reports) progress w w' h e
  run_batches-Holds (suc count) index reports w progress w' h e =
      let (reply, w1) = get_batch S r.task_id index w in
      let (before, w2, e1, e2) =
        continue-value (run_batch J S p r reply reports w1) _ progress w' e in
      resume-Holds (run_batches J S p r count (index + 1)) before w2 progress w'
        (λ rs a. run_batches-Holds count (index + 1) rs w2 progress w' a)
        (run_batch-Holds reply reports w1 before w2 h e1) e2

  test-cases :
      (none_to_run : Bool) (w : S.World) (reports : List TestingReport) (w' : S.World)
      → (if none_to_run
          then continue (execute_and_test J S p r [] [] w) (return_one J S p r)
          else continue (run_batches J S p r r.batch_count 0 [] w) (return_reports J S p r))
        ≡ (value reports, w')
      → EndsAtFailure reports
  test-cases true w reports w' e =
      let (report, w1, e1, e2) = continue-value (execute_and_test J S p r [] [] w) _ reports w' e in
      value_transport EndsAtFailure (report ∷ []) reports w1 w' (last report) e2
  test-cases false w reports w' e =
      let (progress, w1, e1, e2) =
        continue-value (run_batches J S p r r.batch_count 0 [] w) _ reports w' e in
      value_transport EndsAtFailure (reports_of progress) reports w1 w'
        (Holds-EndsAtFailure progress
          (run_batches-Holds r.batch_count 0 [] w progress w1 no_report e1))
        e2

  -- When Test returns, every report but the last has the verdict OK.
  pub test-EndsAtFailure :
      (w : S.World) (reports : List TestingReport) (w' : S.World)
      → test J S p r w ≡ (value reports, w')
      → EndsAtFailure reports
  unfolding test
  test-EndsAtFailure w reports w' e = test-cases (r.batch_count == 0) w reports w' e
