-- ===== src/Processor/Execute.antt =====
-- testing_processor/testing_processor.cpp: one run of a submission (ExecuteAndTest) and what it
-- calls (DumpFile, DumpTests, CheckOutput, FetchFileContent).
pub mod Verdicts
pub mod NeverCe
use distributed_testing_syst.Base.{
  ℕ, Bool, false, [], ◌∷◌, ◌++◌, Option, none, some, Str, str, to_string, ◌==◌, if◌then◌else◌, ◌*◌,
  ◌/◌, ◌%◌, ◌^◌,
}
use distributed_testing_syst.Base.Outcome.{Outcome, value, throws, ◌>>=◌}
use distributed_testing_syst.Base.Action.{continue}
use distributed_testing_syst.Extern.Json.{Json}
use distributed_testing_syst.Extern.System.{System}
use distributed_testing_syst.Processor.Container.{Container, ExecOptions, exec}
use distributed_testing_syst.Processor.Report.{Verdict, ok, wa, tl, ml, re, crash, TestingReport}
use distributed_testing_syst.Processor.Request.{Request, nat_at}

-- TTestingProcessor: its members, but for the stub.
pub record Processor : Type 0 where
  pub container : Container
  pub local_storage_path : Str
  pub commit_service_url : Str

-- `path / name`.
abbrev pub separator : Str → Str
separator [] = []
separator (c ∷ []) = if c == 47 then [] else str "/"
separator (_ ∷ c ∷ s) = separator (c ∷ s)

abbrev pub is_absolute : Str → Bool
is_absolute [] = false
is_absolute (c ∷ s) = c == 47

-- An absolute right operand takes the place of the left one.
unfoldable pub child_path : Str → Str → Str
child_path dir name = if is_absolute name then name else dir ++ (separator dir ++ name)

abbrev pub user_root_path : Str
user_root_path = str "/check"

abbrev pub execute_script_path : Str
execute_script_path = str "/check/execute.sh"

abbrev pub executor_script_path : Str
executor_script_path = str "/check/executor"

-- The exit code of the checker.
unfoldable pub verdict_of_checker : ℕ → Verdict
verdict_of_checker code = if code == 0 then ok else if code == 1 then wa else crash

-- The bound on the microseconds of the processor, a product of uint64_t.
unfoldable pub cpu_limit_microseconds : Request → ℕ
cpu_limit_microseconds r = (r.cpu_time_limit_milli_seconds * 1000) % 2 ^ 64

module _ (S : System) where
  unfoldable pub dump_file : Str → Str → S.World → S.World
  dump_file path content w = S.write_file path content w

  unfoldable pub dump_tests : Str → Str → Str → Str → S.World → S.World
  unfolding dump_file
  dump_tests input_path input output_path output w =
      dump_file output_path output (dump_file input_path input w)

  unfoldable pub check_output : Str → Str → Str → S.World → Verdict × S.World
  check_output checker_path output_test_path user_output_path w =
      let command =
        checker_path ++ (str " " ++ (user_output_path ++ (str " " ++ output_test_path))) in
      let (code, w') = S.system command w in (verdict_of_checker code, w')

  -- On a file that cannot be opened tellg gives -1, a size that no string can have.
  abbrev pub content_or_error : Option Str → Outcome Str
  content_or_error none = throws (str "std::length_error")
  content_or_error (some content) = value content

  unfoldable pub fetch_file_content : Str → S.World → Outcome Str
  fetch_file_content path w = content_or_error (S.read_file path w)

module _ (J : Json) where
  -- A discarded value has no keys.
  abbrev pub parsed_or_error : Option J.Value → Outcome J.Value
  parsed_or_error none = throws (str "type_error: cannot use operator[] with discarded")
  parsed_or_error (some v) = value v

  -- The report with its first verdict, and what the executor's report decides by itself.
  pub record Measured : Type 0 where
    pub report : TestingReport
    pub decided : Option Verdict

  unfoldable pub measure : Request → J.Value → Outcome Measured
  measure r v = do
    cpu ← nat_at J v (str "cpuTimeElapsedMicroSeconds")
    memory ← nat_at J v (str "memorySpent")
    exit ← J.index v (str "exitCode")
    cpu_value ← J.index v (str "cpuTimeElapsedMicroSeconds")
    memory_value ← J.index v (str "memorySpent")
    value (record {
      report = record {
        cpu_time_elapsed_milli_seconds = cpu / 1000;
        memory_spent = memory;
        verdict = ok;
      };
      decided =
          if J.equals_nat exit 0
          then if J.exceeds_nat cpu_value (cpu_limit_microseconds r)
            then some tl
            else if J.exceeds_nat memory_value r.memory_limit
            then some ml
            else none
          else some re;
    })

abbrev pub with_verdict : TestingReport → Verdict → TestingReport
with_verdict report v = record report { verdict = v }

module _ (J : Json) (S : System) where
  -- The end of ExecuteAndTest: the checker runs only on a run that nothing decided.
  abbrev pub conclude :
      Str → Str → TestingReport → Option Verdict → S.World → Outcome TestingReport × S.World
  conclude output_path user_output_path report (some v) w = (value (with_verdict report v), w)
  conclude output_path user_output_path report none w =
      let (v, w') = check_output S (str "/usr/bin/diff") output_path user_output_path w in
      (value (with_verdict report v), w')

  -- What ExecuteAndTest reads of the executor's report.
  unfoldable pub read_measured : Processor → Request → S.World → Outcome (Measured J)
  read_measured p r w = do
    content ← fetch_file_content S (child_path p.local_storage_path (str "report.json")) w
    v ← parsed_or_error J (J.parse content)
    measure J r v

  unfoldable pub execute : Processor → Request → Str → Str → S.World → S.World
  execute p r input_path user_output_path w =
      let args =
        executor_script_path
        ∷ str "--execute"
        ∷ execute_script_path
        ∷ str "--cpu-time-limit"
        ∷ to_string r.cpu_time_limit_milli_seconds
        ∷ [] in
      let redirected : ExecOptions = record {
        std_in = some input_path;
        std_out = some user_output_path;
        working_dir = some user_root_path;
      } in
      let to_report : ExecOptions = record {
        std_in = none;
        std_out = some (child_path p.local_storage_path (str "report.json"));
        working_dir = some user_root_path;
      } in
      (exec S p.container (str "cat" ∷ str "report.json" ∷ []) to_report
        (exec S p.container args redirected w).1).1

  -- The world in which the executor has run on the test, and its report is here.
  unfoldable pub ran : Processor → Request → Str → Str → S.World → S.World
  ran p r input output w =
      let input_path = child_path p.local_storage_path (str "input.txt") in
      let output_path = child_path p.local_storage_path (str "output.txt") in
      let user_output_path = child_path p.local_storage_path (str "userOutput.txt") in
      execute p r input_path user_output_path (dump_tests S input_path input output_path output w)

  unfoldable pub execute_and_test :
      Processor → Request → Str → Str → S.World → Outcome TestingReport × S.World
  execute_and_test p r input output w =
      let output_path = child_path p.local_storage_path (str "output.txt") in
      let user_output_path = child_path p.local_storage_path (str "userOutput.txt") in
      continue (read_measured p r (ran p r input output w), ran p r input output w)
        (λ m. conclude output_path user_output_path m.report m.decided)
