-- ===== src/Processor/Execute/Verdicts.antt =====
-- The verdict of one run (testing_processor/testing_processor.cpp, ExecuteAndTest).
use distributed_testing_syst.Base.{
  ℕ, Str, str, Bool, true, false, Option, none, some, ltb, ◌++◌, ◌==◌, if◌then◌else◌, ◌/◌, ◌≤◌, ◌≡◌,
  ◌↔◌, refl, arith,
}
use distributed_testing_syst.Base.Outcome.{value}
use distributed_testing_syst.Extern.Json.{Json}
use distributed_testing_syst.Extern.System.{System}
use distributed_testing_syst.Processor.Report.{Verdict, ok, tl, ml, re, TestingReport}
use distributed_testing_syst.Processor.Request.{Request}
use distributed_testing_syst.Processor.Execute.{
  Processor, child_path, Measured, measure, verdict_of_checker, check_output, conclude,
  with_verdict, cpu_limit_microseconds, fetch_file_content, read_measured, ran, execute_and_test,
}

-- The verdict of a run, from its exit code, its microseconds, its memory and the checker's exit code.
unfoldable pub judge : Request → ℕ → ℕ → ℕ → ℕ → Verdict
judge r exit cpu memory checker =
    if exit == 0
    then if ltb (cpu_limit_microseconds r) cpu
      then tl
      else if ltb r.memory_limit memory
      then ml
      else verdict_of_checker checker
    else re

-- The verdict OK is given exactly to a run that exits with 0 within both limits and whose output
-- the checker accepts.
pub judge-ok_iff :
    (r : Request) (exit cpu memory checker : ℕ)
    → (judge r exit cpu memory checker ≡ ok)
      ↔ ((exit ≡ 0) × (cpu ≤ cpu_limit_microseconds r) × (memory ≤ r.memory_limit) × (checker ≡ 0))
unfolding judge verdict_of_checker
judge-ok_iff r exit cpu memory checker = ground arith

decide : Request → ℕ → ℕ → ℕ → Option Verdict
decide r exit cpu memory =
    if exit == 0
    then if ltb (cpu_limit_microseconds r) cpu
      then some tl
      else if ltb r.memory_limit memory
      then some ml
      else none
    else some re

abbrev pub check_command : Str → Str
check_command dir =
    str "/usr/bin/diff"
    ++ (str " "
        ++ (child_path dir (str "userOutput.txt")
            ++ (str " " ++ child_path dir (str "output.txt"))))

conclude-if :
    (J : Json) (S : System) (dir : Str) (report : TestingReport) (fine slow large : Bool)
    (w : S.World)
    → (conclude J S
        (child_path dir (str "output.txt"))
        (child_path dir (str "userOutput.txt"))
        report
        (if fine then if slow then some tl else if large then some ml else none else some re)
        w).0
      ≡ value (
          with_verdict report (
            if fine
            then if slow
              then tl
              else if large
              then ml
              else verdict_of_checker (S.system (check_command dir) w).0
            else re))
unfolding check_output
conclude-if J S dir report false _ _ w = refl
conclude-if J S dir report true true _ w = refl
conclude-if J S dir report true false true w = refl
conclude-if J S dir report true false false w = refl

conclude-judge :
    (J : Json) (S : System) (dir : Str) (r : Request) (report : TestingReport) (exit cpu memory : ℕ)
    (w : S.World)
    → (conclude J S
        (child_path dir (str "output.txt"))
        (child_path dir (str "userOutput.txt"))
        report
        (decide r exit cpu memory)
        w).0
      ≡ value (with_verdict report (judge r exit cpu memory (S.system (check_command dir) w).0))
unfolding decide judge
conclude-judge J S dir r report exit cpu memory w =
    conclude-if J S dir report (exit == 0) (ltb (cpu_limit_microseconds r) cpu)
      (ltb r.memory_limit memory) w

module _ (J : Json) (S : System) (p : Processor) (r : Request) (v : J.Value) (cpu memory exit : ℕ)
    (has_cpu : J.find v (str "cpuTimeElapsedMicroSeconds") ≡ some (J.of_nat cpu))
    (has_memory : J.find v (str "memorySpent") ≡ some (J.of_nat memory))
    (has_exit : J.find v (str "exitCode") ≡ some (J.of_nat exit)) where
  measured : Measured J
  measured = record {
    report = record {
      cpu_time_elapsed_milli_seconds = cpu / 1000;
      memory_spent = memory;
      verdict = ok;
    };
    decided = decide r exit cpu memory;
  }

  measure-eq : measure J r v ≡ value measured
  unfolding measure measured decide
  measure-eq = rw (J.index-find v (J.of_nat cpu) (str "cpuTimeElapsedMicroSeconds") has_cpu) (
      rw (J.index-find v (J.of_nat memory) (str "memorySpent") has_memory) (
        rw (J.index-find v (J.of_nat exit) (str "exitCode") has_exit) (
          rw (J.to_nat-of_nat cpu) (
            rw (J.to_nat-of_nat memory) (
              rw (J.equals_nat-of_nat exit 0) (
                rw (J.exceeds_nat-of_nat cpu (cpu_limit_microseconds r))
                  (rw (J.exceeds_nat-of_nat memory r.memory_limit) refl)))))))

  -- On a run whose report can be read, parses and has its three numbers, ExecuteAndTest reports the
  -- time in milliseconds, the memory, and the verdict that judge gives to the exit code, the time,
  -- the memory and the checker's exit code.
  pub execute_and_test-judge :
      (input output : Str) (w : S.World) (content : Str)
      → S.read_file
          (child_path p.local_storage_path (str "report.json"))
          (ran J S p r input output w)
        ≡ some content
      → J.parse content ≡ some v
      → (execute_and_test J S p r input output w).0
        ≡ value (record {
          cpu_time_elapsed_milli_seconds = cpu / 1000;
          memory_spent = memory;
          verdict =
              judge r exit cpu memory
                (S.system (check_command p.local_storage_path) (ran J S p r input output w)).0;
        })
  unfolding execute_and_test read_measured fetch_file_content measured
  execute_and_test-judge input output w content read parses = rw read (
      rw parses (
        rw measure-eq (
          conclude-judge J S p.local_storage_path r measured.report exit cpu memory
            (ran J S p r input output w))))
