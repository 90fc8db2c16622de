-- ===== src/Processor/Broker/Defined.antt =====
-- Which steps of a submission may be undefined (testing_processor/testing_processor.cpp).
use distributed_testing_syst.Base.{
  ℕ, zero, suc, ◌+◌, ◌==◌, ◌≤◌, List, [], ◌∷◌, ◌++◌, Option, none, some, Str, str, length, Bool,
  Bool-cases, true, false, if◌then◌else◌, inl, inr, arith,
}
use distributed_testing_syst.Base.Outcome.{
  Outcome, value, IsDefined, returned, threw, >>=-IsDefined,
}
use distributed_testing_syst.Base.Action.{continue-IsDefined}
use distributed_testing_syst.Extern.Json.{Json}
use distributed_testing_syst.Extern.System.{System, GrpcReply, failed, replied, BatchFields}
use distributed_testing_syst.Processor.Report.{Verdict, TestingReport}
use distributed_testing_syst.Processor.Request.{Request, nat_at, request_from_json}
use distributed_testing_syst.Processor.Tabasco.{get_batch, batch_of_reply}
use distributed_testing_syst.Processor.Execute.{
  Processor, content_or_error, parsed_or_error, fetch_file_content, measure, read_measured, ran,
  conclude, execute_and_test, child_path,
}
use distributed_testing_syst.Processor.Testing.{
  Progress, going, stopped, is_ok, run_tests, run_batch, run_batches, resume, test,
}
use distributed_testing_syst.Processor.Process.{commit_body, log_failure, commit}

-- What nlohmann::json documents of the operations of a value that is not const: they return or
-- throw.
pub record NeverUndefined (J : Json) : Type 0 where
  pub to_nat-IsDefined : (v : J.Value) → IsDefined (J.to_nat v)
  pub to_str-IsDefined : (v : J.Value) → IsDefined (J.to_str v)
  pub index-IsDefined : (v : J.Value) (k : Str) → IsDefined (J.index v k)
  pub dump-IsDefined : (v : J.Value) → IsDefined (J.dump v)

abbrev pub IsPaired : GrpcReply BatchFields → Type 0
IsPaired (failed message) = Unit
IsPaired (replied fields) = length fields.input ≤ length fields.output

module _ (J : Json) (defined : NeverUndefined J) where
  nat_at-IsDefined : (v : J.Value) (k : Str) → IsDefined (nat_at J v k)
  nat_at-IsDefined v k =
      >>=-IsDefined (J.index v k) _ (defined.index-IsDefined v k) defined.to_nat-IsDefined

  pub request_from_json-IsDefined : (v : J.Value) → IsDefined (request_from_json J v)
  unfolding request_from_json
  request_from_json-IsDefined v = >>=-IsDefined _ _ (nat_at-IsDefined v _) (λ _.
      >>=-IsDefined _ _ (nat_at-IsDefined v _) (λ _.
        >>=-IsDefined _ _ (defined.index-IsDefined v _) (λ d.
          >>=-IsDefined _ _ (defined.to_str-IsDefined d) (λ _.
            >>=-IsDefined _ _ (nat_at-IsDefined v _) (λ _.
              >>=-IsDefined _ _ (nat_at-IsDefined v _)
                (λ _. >>=-IsDefined _ _ (nat_at-IsDefined v _) (λ _. returned _)))))))

  measure-IsDefined : (r : Request) (v : J.Value) → IsDefined (measure J r v)
  unfolding measure
  measure-IsDefined r v = >>=-IsDefined _ _ (nat_at-IsDefined v _) (λ _.
      >>=-IsDefined _ _ (nat_at-IsDefined v _) (λ _.
        >>=-IsDefined _ _ (defined.index-IsDefined v _) (λ _.
          >>=-IsDefined _ _ (defined.index-IsDefined v _)
            (λ _. >>=-IsDefined _ _ (defined.index-IsDefined v _) (λ _. returned _)))))

  pub parsed_or_error-IsDefined : (v : Option J.Value) → IsDefined (parsed_or_error J v)
  parsed_or_error-IsDefined none = threw _
  parsed_or_error-IsDefined (some v) = returned v

module _ (J : Json) (S : System) (defined : NeverUndefined J) where
  content_or_error-IsDefined : (content : Option Str) → IsDefined (content_or_error S content)
  content_or_error-IsDefined none = threw _
  content_or_error-IsDefined (some content) = returned content

  read_measured-IsDefined :
      (p : Processor) (r : Request) (w : S.World) → IsDefined (read_measured J S p r w)
  unfolding read_measured fetch_file_content
  read_measured-IsDefined p r w =
      >>=-IsDefined _ _
        (content_or_error-IsDefined
          (S.read_file (child_path p.local_storage_path (str "report.json")) w))
        (λ content.
          >>=-IsDefined _ _ (parsed_or_error-IsDefined J defined (J.parse content))
            (measure-IsDefined J defined r))

  conclude-IsDefined :
      (output_path user_output_path : Str) (report : TestingReport) (decided : Option Verdict)
      (w : S.World)
      → IsDefined (conclude J S output_path user_output_path report decided w).0
  conclude-IsDefined output_path user_output_path report (some v) w = returned _
  conclude-IsDefined output_path user_output_path report none w = returned _

  execute_and_test-IsDefined :
      (p : Processor) (r : Request) (input output : Str) (w : S.World)
      → IsDefined (execute_and_test J S p r input output w).0
  unfolding execute_and_test
  execute_and_test-IsDefined p r input output w =
      continue-IsDefined _ _ (read_measured-IsDefined p r (ran J S p r input output w))
        (λ m w'. conclude-IsDefined _ _ m.report m.decided w')

  stop-IsDefined :
      (b : Bool) (rest : Outcome Progress × S.World) (reports : List TestingReport) (w : S.World)
      → IsDefined rest.0
      → IsDefined (if b then rest else (value (stopped reports), w)).0
  stop-IsDefined true rest reports w h = h
  stop-IsDefined false rest reports w h = returned _

  run_tests-IsDefined :
      (p : Processor) (r : Request) (inputs outputs : List Str) (reports : List TestingReport)
      (w : S.World)
      → length inputs ≤ length outputs
      → IsDefined (run_tests J S p r inputs outputs reports w).0
  unfolding run_tests
  run_tests-IsDefined p r [] outputs reports w h = returned _
  run_tests-IsDefined p r (input ∷ inputs) [] reports w h = absurd (omega (arith, h))
  run_tests-IsDefined p r (input ∷ inputs) (output ∷ outputs) reports w h =
      continue-IsDefined _ _ (execute_and_test-IsDefined p r input output w) (λ report w'.
        stop-IsDefined (is_ok report.verdict) _ _ w'
          (run_tests-IsDefined p r inputs outputs (reports ++ report ∷ []) w' (omega (arith, h))))

  module _
      (paired : (task_id batch_id : ℕ) (w : S.World)
        → IsPaired (S.stub_get_batch task_id batch_id w).0) where
    run_batch-IsDefined :
        (p : Processor) (r : Request) (reply : GrpcReply BatchFields) (reports : List TestingReport)
        (w : S.World)
        → IsPaired reply
        → IsDefined (run_batch J S p r (batch_of_reply reply) reports w).0
    run_batch-IsDefined p r (failed message) reports w h = returned _
    run_batch-IsDefined p r (replied fields) reports w h =
        run_tests-IsDefined p r fields.input fields.output reports w h

    resume-IsDefined :
        (f : List TestingReport → S.World → Outcome Progress × S.World)
        → ((reports : List TestingReport) (w : S.World) → IsDefined (f reports w).0)
        → (p : Processor) (r : Request) (progress : Progress) (w : S.World)
        → IsDefined (resume J S p r f progress w).0
    resume-IsDefined f h p r (going reports) w = h reports w
    resume-IsDefined f h p r (stopped reports) w = returned _

    run_batches-IsDefined :
        (p : Processor) (r : Request) (count index : ℕ) (reports : List TestingReport) (w : S.World)
        → IsDefined (run_batches J S p r count index reports w).0
    unfolding run_batches get_batch
    run_batches-IsDefined p r zero index reports w = returned _
    run_batches-IsDefined p r (suc count) index reports w =
        continue-IsDefined _ _
          (run_batch-IsDefined p r (S.stub_get_batch r.task_id index w).0 reports _
            (paired r.task_id index w))
          (resume-IsDefined _ (run_batches-IsDefined p r count (index + 1)) p r)

    pub test-IsDefined : (p : Processor) (r : Request) (w : S.World) → IsDefined (test J S p r w).0
    unfolding test
    test-IsDefined p r w = elim (Bool-cases (r.batch_count == 0)) [
      | inl e ↦
          rw e (continue-IsDefined _ _ (execute_and_test-IsDefined p r [] [] w) (λ _ _. returned _))
      | inr e ↦ rw e (
          continue-IsDefined _ _ (run_batches-IsDefined p r r.batch_count 0 [] w)
            (λ _ _. returned _))
    ]

  log_failure-IsDefined :
      (r : Request) (reports : List TestingReport) (error : Option Str) (w : S.World)
      → IsDefined (log_failure J S r reports error w).0
  log_failure-IsDefined r reports none w = returned _
  log_failure-IsDefined r reports (some error) w =
      continue-IsDefined _ _ (defined.dump-IsDefined _) (λ _ _. returned _)

  pub commit-IsDefined :
      (p : Processor) (r : Request) (reports : List TestingReport) (w : S.World)
      → IsDefined (commit J S p r reports w).0
  unfolding commit commit_body
  commit-IsDefined p r reports w =
      continue-IsDefined _ _ (defined.dump-IsDefined _)
        (λ body w'. log_failure-IsDefined r reports (S.post p.commit_service_url body w').0 _)
