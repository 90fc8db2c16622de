-- ===== src/Executor/Reported.antt =====
-- The report of the executor, and what the testing processor makes of it.
use distributed_testing_syst.Base.{
  ℕ, ◌+◌, ◌*◌, ◌/◌, ◌^◌, ◌<◌, none, some, Str, str, str_eq, if◌then◌else◌, lt→ltb, ◌≡◌, refl, ◌∙◌,
  ap, arith,
}
use distributed_testing_syst.Base.Outcome.{value}
use distributed_testing_syst.Extern.Json.{Json}
use distributed_testing_syst.Extern.System.{System, not_exited}
use distributed_testing_syst.Extern.Unix.{Rusage, Unix}
use distributed_testing_syst.Processor.Report.{re}
use distributed_testing_syst.Processor.Request.{Request}
use distributed_testing_syst.Processor.Execute.{Processor, child_path, ran, execute_and_test}
use distributed_testing_syst.Processor.Execute.Verdicts.{
  judge, check_command, execute_and_test-judge,
}
use distributed_testing_syst.Executor.{
  ExecutorArgs, exit_code, long, cpu_time, report_json, Ended, supervise, report_text, write_report,
  execute,
}

-- The microseconds of the processor, in the kernel and outside it.
abbrev pub microseconds : Rusage → ℕ
microseconds info =
    1000000 * (info.ru_stime.tv_sec + info.ru_utime.tv_sec)
    + (info.ru_stime.tv_usec + info.ru_utime.tv_usec)

long-value : (n : ℕ) → n < 2 ^ 63 → long n ≡ value n
long-value n h = rw (lt→ltb n (2 ^ 63) h)

cpu_time-microseconds :
    (info : Rusage) → microseconds info < 2 ^ 63 → cpu_time info ≡ value (microseconds info)
unfolding cpu_time
cpu_time-microseconds info h =
    let s = info.ru_stime in
    let u = info.ru_utime in
    rw (long-value (1000000 * s.tv_sec) (omega (arith, h))) (
      rw (long-value (1000000 * s.tv_sec + s.tv_usec) (omega (arith, h))) (
        rw (long-value (1000000 * u.tv_sec) (omega (arith, h))) (
          rw (long-value (1000000 * s.tv_sec + s.tv_usec + 1000000 * u.tv_sec) (omega (arith, h))) (
            rw
              (long-value (1000000 * s.tv_sec + s.tv_usec + 1000000 * u.tv_sec + u.tv_usec)
                (omega (arith, h)))
              (ap value (omega arith))))))

module _ (J : Json) (cpu wall memory exit : ℕ) where
  find-report_json :
      (k : Str)
      → J.find (report_json J cpu wall memory exit) k ≡ (
          if str_eq (str "exitCode") k
          then some (J.of_nat exit)
          else if str_eq (str "memorySpent") k
          then some (J.of_nat memory)
          else if str_eq (str "wallTimeElapsedMicroSeconds") k
          then some (J.of_nat wall)
          else if str_eq (str "cpuTimeElapsedMicroSeconds") k
          then some (J.of_nat cpu)
          else none)
  unfolding report_json
  find-report_json k =
      let a1 =
        J.is_assignable-assign J.null (J.of_nat cpu) (str "cpuTimeElapsedMicroSeconds")
          J.is_assignable-null in
      let a2 = J.is_assignable-assign _ (J.of_nat wall) (str "wallTimeElapsedMicroSeconds") a1 in
      let a3 = J.is_assignable-assign _ (J.of_nat memory) (str "memorySpent") a2 in
      rw (
        J.find-assign _ (J.of_nat exit) (str "exitCode") k a3,
        J.find-assign _ (J.of_nat memory) (str "memorySpent") k a2,
        J.find-assign _ (J.of_nat wall) (str "wallTimeElapsedMicroSeconds") k a1,
        J.find-assign _ (J.of_nat cpu) (str "cpuTimeElapsedMicroSeconds") k J.is_assignable-null,
        J.find-null,
      )

module _ (J : Json) (U : Unix) where
  abbrev pub report_of : Ended U → J.Value
  report_of ended =
      report_json J (microseconds ended.info) ended.wall ended.info.ru_maxrss
        (exit_code ended.status)

  -- Where the counters are in range and the report has a text, Execute writes it to its file.
  pub execute-writes :
      (args : ExecutorArgs) (w : U.World) (text : Str)
      → microseconds (supervise U args w).0.info < 2 ^ 63
      → J.dump (report_of (supervise U args w).0) ≡ value text
      → execute J U args w
        ≡ (value tt, U.write_file args.output_report_file text (supervise U args w).1)
  unfolding execute write_report report_text
  execute-writes args w text h dumped =
      rw (cpu_time-microseconds (supervise U args w).0.info h) (rw dumped refl)

  module _ (S : System) (p : Processor) (r : Request) (ended : Ended U) (input output : Str)
      (w : S.World) (text : Str)
      (read : S.read_file
          (child_path p.local_storage_path (str "report.json"))
          (ran J S p r input output w)
        ≡ some text)
      (parses : J.parse text ≡ some (report_of ended)) where
    -- Where the processor reads, after a run, a text that parses to the report of the executor,
    -- ExecuteAndTest reports the milliseconds that the process spent in the kernel and outside it,
    -- its memory, and the verdict that judge gives to its exit code, its microseconds, its memory
    -- and the checker's exit code.
    pub report_of-judge :
        (execute_and_test J S p r input output w).0
        ≡ value (record {
          cpu_time_elapsed_milli_seconds = microseconds ended.info / 1000;
          memory_spent = ended.info.ru_maxrss;
          verdict =
              judge r
                (exit_code ended.status)
                (microseconds ended.info)
                ended.info.ru_maxrss
                (S.system (check_command p.local_storage_path) (ran J S p r input output w)).0;
        })
    report_of-judge =
        let found =
          find-report_json J (microseconds ended.info) ended.wall ended.info.ru_maxrss
            (exit_code ended.status) in
        execute_and_test-judge J S p r (report_of ended) (microseconds ended.info)
          ended.info.ru_maxrss (exit_code ended.status) (found _) (found _) (found _) input output w
          text read parses

    -- Where the processor reads, after a run, a text that parses to the report of the executor on a
    -- process that did not exit by itself, the verdict is RE, whatever its time and memory were.
    pub signalled-re :
        ended.status ≡ not_exited
        → (execute_and_test J S p r input output w).0
          ≡ value (record {
            cpu_time_elapsed_milli_seconds = microseconds ended.info / 1000;
            memory_spent = ended.info.ru_maxrss;
            verdict = re;
          })
    unfolding judge exit_code
    signalled-re e = report_of-judge ∙ rw e refl
