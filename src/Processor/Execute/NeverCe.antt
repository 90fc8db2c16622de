-- ===== src/Processor/Execute/NeverCe.antt =====
-- The verdict CE in ExecuteAndTest (testing_processor/testing_processor.cpp).
use distributed_testing_syst.Base.{
  ℕ, ◌++◌, Str, str, ◌≡◌, ◌≢◌, ap, ◌∙◌, Bool, Option, none, some, arith, if◌then◌else◌, ◌/◌,
}
use distributed_testing_syst.Base.Outcome.{value, >>=-eq-value}
use distributed_testing_syst.Base.Action.{continue-value}
use distributed_testing_syst.Extern.Json.{Json}
use distributed_testing_syst.Extern.System.{System}
use distributed_testing_syst.Processor.Report.{Verdict, ok, tl, ml, re, ce, TestingReport}
use distributed_testing_syst.Processor.Request.{Request, nat_at}
use distributed_testing_syst.Processor.Execute.{
  Processor, Measured, measure, verdict_of_checker, check_output, conclude, with_verdict,
  cpu_limit_microseconds, fetch_file_content, parsed_or_error, read_measured, ran, execute_and_test,
}

checker-not_ce : (code : ℕ) → verdict_of_checker code ≢ ce
unfolding verdict_of_checker
checker-not_ce code e = absurd (ground arith)

decided-not_ce :
    (fine slow large : Bool)
    → (if fine then if slow then some tl else if large then some ml else none else some re)
      ≢ some ce
decided-not_ce fine slow large e = absurd (ground arith)

module _ (J : Json) (S : System) where
  measure-not_ce :
      (r : Request) (v : J.Value) (m : Measured J) → measure J r v ≡ value m → m.decided ≢ some ce
  unfolding measure
  measure-not_ce r v m e d =
      let (cpu, _, e1) = >>=-eq-value (nat_at J v (str "cpuTimeElapsedMicroSeconds")) _ e in
      let (memory, _, e2) = >>=-eq-value (nat_at J v (str "memorySpent")) _ e1 in
      let (exit, _, e3) = >>=-eq-value (J.index v (str "exitCode")) _ e2 in
      let (cpu_value, _, e4) = >>=-eq-value (J.index v (str "cpuTimeElapsedMicroSeconds")) _ e3 in
      let (memory_value, _, e5) = >>=-eq-value (J.index v (str "memorySpent")) _ e4 in
      let m' : Measured J = record {
        report = record {
          cpu_time_elapsed_milli_seconds = cpu / 1000;
          memory_spent = memory;
          verdict = ok;
        };
        decided =
            if J.equals_nat exit 0
            then if J.exceeds_nat cpu_value (cpu_limit_microseconds r)
              then some tl
              else if J.exceeds_nat memory_value r.memory_limit
              then some ml
              else none
            else some re;
      } in
      let same : m' ≡ m = cc in
      decided-not_ce (J.equals_nat exit 0) (J.exceeds_nat cpu_value (cpu_limit_microseconds r))
        (J.exceeds_nat memory_value r.memory_limit) (rw (← same) at d)

  conclude-not_ce :
      (output_path user_output_path : Str) (report report' : TestingReport) (o : Option Verdict)
      (w w' : S.World)
      → o ≢ some ce
      → conclude J S output_path user_output_path report o w ≡ (value report', w')
      → report'.verdict ≢ ce
  unfolding check_output
  conclude-not_ce output_path user_output_path report report' none w w' ne e c =
      let code =
        (S.system
          (str "/usr/bin/diff" ++ (str " " ++ (user_output_path ++ (str " " ++ output_path))))
          w).0 in
      let same : with_verdict report (verdict_of_checker code) ≡ report' = cc in
      checker-not_ce code (ap (λ x. x.verdict) same ∙ c)
  conclude-not_ce output_path user_output_path report report' (some v) w w' ne e c =
      let same : with_verdict report v ≡ report' = cc in ne (ap some (ap (λ x. x.verdict) same ∙ c))

  -- The report of a run that returns.
  pub execute_and_test-not_ce :
      (p : Processor) (r : Request) (input output : Str) (w : S.World) (report : TestingReport)
      (w' : S.World)
      → execute_and_test J S p r input output w ≡ (value report, w')
      → report.verdict ≢ ce
  unfolding execute_and_test read_measured
  execute_and_test-not_ce p r input output w report w' e =
      let (m, w1, read, concluded) =
        continue-value
          (read_measured J S p r (ran J S p r input output w), ran J S p r input output w) _ report
          w' e in
      let measured : read_measured J S p r (ran J S p r input output w) ≡ value m =
        ap (λ q. q.0) read in
      let (content, _, e1) = >>=-eq-value (fetch_file_content S _ _) _ measured in
      let (v, _, e2) = >>=-eq-value (parsed_or_error J (J.parse content)) _ e1 in
      conclude-not_ce _ _ m.report report m.decided w1 w' (measure-not_ce r v m e2) concluded
