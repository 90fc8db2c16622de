-- ===== src/Processor/Testing.antt =====
-- TTestingProcessor::Test of testing_processor/testing_processor.cpp: the batches of a task, test by
-- test, until a run that is not OK.
pub mod Reports
pub mod Batching
pub mod Compilation
pub mod Complete
use distributed_testing_syst.Base.{
  ℕ, zero, suc, ◌+◌, List, [], ◌∷◌, ◌++◌, Str, str, to_string, ◌==◌, if◌then◌else◌, Bool, true,
  false,
}
use distributed_testing_syst.Base.Outcome.{Outcome, value, undefined}
use distributed_testing_syst.Base.Action.{continue}
use distributed_testing_syst.Extern.Json.{Json}
use distributed_testing_syst.Extern.System.{System}
use distributed_testing_syst.Utils.Expected.{Expected, expected, unexpected}
use distributed_testing_syst.Processor.Report.{Verdict, ok, crash, TestingReport}
use distributed_testing_syst.Processor.Request.{Request}
use distributed_testing_syst.Processor.Execute.{Processor, execute_and_test}
use distributed_testing_syst.Processor.Tabasco.{GetBatchResponse, ErrorResponse, get_batch}

-- Where the loops stand: they go on with the reports so far, or `return report` was reached.
pub data Progress : Type 0 where
  going : List TestingReport → Progress
  stopped : List TestingReport → Progress

abbrev pub reports_of : Progress → List TestingReport
reports_of (going reports) = reports
reports_of (stopped reports) = reports

abbrev pub is_ok : Verdict → Bool
is_ok ok = true
is_ok _ = false

abbrev pub crash_report : TestingReport
crash_report = record { cpu_time_elapsed_milli_seconds = 0; memory_spent = 0; verdict = crash }

module _ (J : Json) (S : System) (p : Processor) (r : Request) where
  -- The tests of one batch: an input without its output is read out of range.
  unfoldable pub run_tests :
      List Str → List Str → List TestingReport → S.World → Outcome Progress × S.World
  run_tests [] outputs reports w = (value (going reports), w)
  run_tests (input ∷ inputs) [] reports w = (undefined, w)
  run_tests (input ∷ inputs) (output ∷ outputs) reports w =
      continue (execute_and_test J S p r input output w) (λ report w'.
        let rest = run_tests inputs outputs (reports ++ report ∷ []) w' in
        if is_ok report.verdict then rest else (value (stopped (reports ++ report ∷ [])), w'))

  abbrev pub run_batch :
      Expected GetBatchResponse ErrorResponse
      → List TestingReport
      → S.World
      → Outcome Progress × S.World
  run_batch (unexpected error) reports w = (
    value (stopped (reports ++ crash_report ∷ [])),
    S.log (to_string r.submission_id ++ (str " CRASHED DUE " ++ error.msg)) w,
  )
  run_batch (expected tests) reports w = run_tests tests.input_tests tests.output_tests reports w

  abbrev pub resume :
      (List TestingReport → S.World → Outcome Progress × S.World)
      → Progress
      → S.World
      → Outcome Progress × S.World
  resume f (stopped reports) w = (value (stopped reports), w)
  resume f (going reports) w = f reports w

  -- `count` batches from the index on.
  unfoldable pub run_batches : ℕ → ℕ → List TestingReport → S.World → Outcome Progress × S.World
  run_batches zero index reports w = (value (going reports), w)
  run_batches (suc count) index reports w =
      let (reply, w') = get_batch S r.task_id index w in
      continue (run_batch reply reports w') (resume (run_batches count (index + 1)))

  abbrev pub return_reports : Progress → S.World → Outcome (List TestingReport) × S.World
  return_reports progress w = (value (reports_of progress), w)

  abbrev pub return_one : TestingReport → S.World → Outcome (List TestingReport) × S.World
  return_one report w = (value (report ∷ []), w)

  unfoldable pub test : S.World → Outcome (List TestingReport) × S.World
  test w =
      if r.batch_count == 0
      then continue (execute_and_test J S p r [] [] w) return_one
      else continue (run_batches r.batch_count 0 [] w) return_reports
