-- ===== src/Examples/Testing.antt =====
-- Runs of a submission.
use distributed_testing_syst.Base.{ℕ, ◌/◌, ◌≡◌, refl, List, [], ◌∷◌, str}
use distributed_testing_syst.Base.Outcome.{value}
use distributed_testing_syst.Extern.System.{System, BatchFields, ScriptsFields, replied}
use distributed_testing_syst.Base.Int.{negsuc}
use distributed_testing_syst.Base.{true, none}
use distributed_testing_syst.Processor.Process.Childless.{prepare-no_child}
use distributed_testing_syst.Processor.Report.{ok, wa, ce, TestingReport}
use distributed_testing_syst.Processor.Container.{exec, exec_bash, create_file}
use distributed_testing_syst.Processor.Tabasco.{GetBatchResponse, get_batch}
use distributed_testing_syst.Processor.Execute.{
  cpu_limit_microseconds, execute, execute_and_test, ran, measure, check_output, verdict_of_checker,
  read_measured, fetch_file_content, dump_tests, dump_file,
}
use distributed_testing_syst.Processor.Execute.Verdicts.{
  judge, check_command, execute_and_test-judge,
}
use distributed_testing_syst.Processor.Testing.{run_tests, run_batches, test}
use distributed_testing_syst.Base.{length, arith}
use distributed_testing_syst.Processor.Testing.Complete.{test_complete}
use distributed_testing_syst.Processor.Testing.Reports.{EndsAtFailure, test-EndsAtFailure}
use distributed_testing_syst.Processor.Testing.Batching.{
  Serves, served_all, serves, inputs_of, outputs_of, run_batches-eq_run_tests,
}
use distributed_testing_syst.Processor.Container
use distributed_testing_syst.Base.Action.{continue}
use distributed_testing_syst.Processor.Request.{Request}
use distributed_testing_syst.Base.{◌≢◌, All}
use distributed_testing_syst.Processor.Testing.Compilation.{test-not_ce}
use distributed_testing_syst.Processor.Process.Unprepared.{failure_line, process-no_scripts}
use distributed_testing_syst.Processor.Process.{process, commit, prepare}
use distributed_testing_syst.Sample.Trees.{run_report}
use distributed_testing_syst.Sample.Machine.{machine, report_json, processor, submission}

abbrev sent : List BatchFields
sent =
    record { input = str "ab" ∷ str "d" ∷ []; output = str "c" ∷ str "ef" ∷ [] }
    ∷ record { input = str "g" ∷ []; output = str "h" ∷ [] }
    ∷ []

-- The checker refuses the second run.
abbrev system : System
system = machine 2 sent

abbrev passed : TestingReport
passed = record { cpu_time_elapsed_milli_seconds = 1; memory_spent = 64; verdict = ok }

abbrev reports : List TestingReport
reports = passed ∷ record passed { verdict = wa } ∷ []

run : test report_json system processor submission 0 ≡ (value reports, 2)
unfolding test run_batches run_tests get_batch execute_and_test ran execute exec read_measured
    measure cpu_limit_microseconds check_output verdict_of_checker fetch_file_content dump_tests
    dump_file
run = refl

test-EndsAtFailure_example : EndsAtFailure reports
test-EndsAtFailure_example =
    test-EndsAtFailure report_json system processor submission 0 reports 2 run

abbrev batches : List GetBatchResponse
batches =
    record { input_tests = str "ab" ∷ str "d" ∷ []; output_tests = str "c" ∷ str "ef" ∷ [] }
    ∷ record { input_tests = str "g" ∷ []; output_tests = str "h" ∷ [] }
    ∷ []

served : (bad : ℕ) → Serves report_json (machine bad sent) processor submission 0 batches
unfolding get_batch
served bad =
    serves 0
      (record { input_tests = str "ab" ∷ str "d" ∷ []; output_tests = str "c" ∷ str "ef" ∷ [] }) _
      (λ w. refl) refl
      (serves 1 (record { input_tests = str "g" ∷ []; output_tests = str "h" ∷ [] }) [] (λ w. refl)
        refl (served_all 2))

run_batches-eq_run_tests_example :
    run_batches report_json system processor submission 2 0 [] 0
    ≡ run_tests report_json system processor submission
        (inputs_of batches)
        (outputs_of batches)
        []
        0
run_batches-eq_run_tests_example =
    run_batches-eq_run_tests report_json system processor submission batches 0 [] 0 (served 2)

execute_and_test-judge_example :
    (execute_and_test report_json system processor submission (str "ab") (str "c") 0).0
    ≡ value (record {
      cpu_time_elapsed_milli_seconds = 1500 / 1000;
      memory_spent = 64;
      verdict =
          judge submission 0 1500 64
            (system.system
              (check_command (str "/tmp"))
              (ran report_json system processor submission (str "ab") (str "c") 0)).0;
    })
execute_and_test-judge_example =
    execute_and_test-judge report_json system processor submission run_report 1500 64 0 refl refl
      refl (str "ab") (str "c") 0 (str "report") refl refl

test-not_ce_example : All (λ report. report.verdict ≢ ce) reports
test-not_ce_example = test-not_ce report_json system processor submission 0 reports 2 run

abbrev unprepared : Request
unprepared = record submission { batch_count = 0 }

started : Container.run system processor.container 0 ≡ (value processor.container, 0)
unfolding Container.run
started = refl

process-no_scripts_example :
    (process report_json system processor unprepared 0).0
    ≡ continue
        (execute_and_test report_json system processor unprepared [] []
          (system.log (failure_line unprepared (str "no task")) 0))
        (λ report. commit report_json system processor unprepared (report ∷ []))
process-no_scripts_example =
    process-no_scripts report_json system processor processor.container unprepared 0 0 0
      (str "no task") refl started refl

-- The checker accepts every run.
abbrev all_passed : List TestingReport
all_passed = passed ∷ passed ∷ passed ∷ []

accepted : test report_json (machine 9 sent) processor submission 0 ≡ (value all_passed, 3)
unfolding test run_batches run_tests get_batch execute_and_test ran execute exec read_measured
    measure cpu_limit_microseconds check_output verdict_of_checker fetch_file_content dump_tests
    dump_file
accepted = refl

test_complete_example : length all_passed ≡ 3
test_complete_example =
    test_complete report_json (machine 9 sent) processor submission batches 0 all_passed 3
      (served 9) refl (omega arith) accepted (refl, (refl, (refl, tt)))

-- A machine that has no process left.
abbrev scripts : ScriptsFields
scripts = record {
  init_script = str "i";
  execute_script = str "e";
  batch_count = 2;
  task_root_dir = [];
}

abbrev childless : System
childless = record (machine 2 sent) {
  fork = λ code w. (negsuc 0, w);
  waitpid = λ pid w. (none, w);
  stub_get_scripts = λ task_id build_id w. (replied scripts, w);
}

prepare-no_child_example :
    prepare childless processor (record submission { batch_count = 0 }) 0 ≡ ((true, submission), 0)
prepare-no_child_example =
    prepare-no_child childless (record { no_child = λ code w. refl; no_status = λ w. refl })
      processor (record submission { batch_count = 0 }) 0 0 scripts refl refl
