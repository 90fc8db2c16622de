-- ===== src/Processor/Process.antt =====
-- TTestingProcessor::Prepare, Commit and Process of testing_processor/testing_processor.cpp,
-- testing_processor/commit_service_request.cpp, and the message handler of
-- testing_processor/broker_client.cpp.
pub mod Deliveries
pub mod Unprepared
pub mod Childless
use distributed_testing_syst.Base.{
  ℕ, zero, suc, List, [], ◌∷◌, ◌++◌, Option, none, some, Str, str, to_string, Bool, true, false,
}
use distributed_testing_syst.Base.Outcome.{Outcome, value, throws, undefined, ◌>>=◌}
use distributed_testing_syst.Base.Action.{continue}
use distributed_testing_syst.Extern.Json.{Json}
use distributed_testing_syst.Extern.System.{System}
use distributed_testing_syst.Utils.Expected.{Expected, expected, unexpected}
use distributed_testing_syst.Processor.Container.{
  Container, ExecOptions, no_options, run, exec, exec_bash, move_file_inside, create_file,
}
use distributed_testing_syst.Processor.Report.{TestingReport, reports_to_json}
use distributed_testing_syst.Processor.Request.{Request, request_from_json}
use distributed_testing_syst.Processor.Execute.{
  Processor, child_path, user_root_path, execute_script_path, dump_file, parsed_or_error,
}
use distributed_testing_syst.Processor.Testing.{test}
use distributed_testing_syst.Processor.Tabasco.{GetScriptsResponse, ErrorResponse, get_scripts}

abbrev pub init_script_path : Str
init_script_path = str "/check/init.sh"

abbrev pub user_data_path : Str
user_data_path = str "/check/userData"

abbrev pub in_user_root : ExecOptions
in_user_root = record { std_in = none; std_out = none; working_dir = some user_root_path }

module _ (S : System) where
  -- The zip of the root directory of the task, where there is one.
  unfoldable pub unpack_root_dir : Processor → Str → S.World → S.World
  unpack_root_dir p [] w = w
  unpack_root_dir p (c ∷ cs) w =
      let path = child_path p.local_storage_path (str "root_dir.zip") in
      let w' = move_file_inside S p.container path user_root_path (dump_file S path (c ∷ cs) w) in
      (exec S p.container (str "unzip" ∷ str "root_dir.zip" ∷ []) in_user_root w').1

  -- CreateFile of a script, and chmod +x.
  unfoldable pub create_script : Container → Str → Str → S.World → S.World
  create_script c path content w =
      (exec S c (str "chmod" ∷ str "+x" ∷ path ∷ []) no_options (create_file S c path content w)).1

  abbrev pub finish_prepare : Processor → GetScriptsResponse → ℕ × S.World → Bool × S.World
  finish_prepare p response (zero, w) =
      (true, create_script p.container execute_script_path response.execute_script w)
  finish_prepare p response (suc code, w) = (false, w)

  abbrev pub install :
      Processor
      → Request
      → Expected GetScriptsResponse ErrorResponse
      → S.World
      → (Bool × Request) × S.World
  install p r (unexpected error) w = (
    (false, r),
    S.log
        (str "TabascoRequestTask failed: "
          ++ (error.msg ++ (str " for submission: " ++ to_string r.submission_id)))
        w,
  )
  install p r (expected response) w =
      let w1 = unpack_root_dir p response.root_dir w in
      let w2 = create_script p.container init_script_path response.init_script w1 in
      let w3 = create_file S p.container user_data_path r.user_data w2 in
      let started = exec_bash S p.container (str "init.sh" ∷ user_data_path ∷ []) in_user_root w3 in
      let (done, w4) = finish_prepare p response started in
      ((done, record r { batch_count = response.batch_count }), w4)

  unfoldable pub prepare : Processor → Request → S.World → (Bool × Request) × S.World
  prepare p r w = let (reply, w') = get_scripts S r.task_id r.build_id w in install p r reply w'

module _ (J : Json) (S : System) where
  -- TCommitServiceRequest::Commit: the body is written before the `try`.
  unfoldable pub commit_body : ℕ → List TestingReport → Outcome Str
  commit_body submission_id reports =
      let v = J.assign J.null (str "submissionId") (J.of_nat submission_id) in
      J.dump (J.assign v (str "report") (J.of_array (reports_to_json J reports)))

  -- What Commit logs where the POST failed; the report is dumped for the error stream.
  abbrev pub log_failure :
      Request → List TestingReport → Option Str → S.World → Outcome (Unit {0}) × S.World
  log_failure r reports none w = (value tt, w)
  log_failure r reports (some error) w =
      continue (J.dump (J.assign J.null (str "items") (J.of_array (reports_to_json J reports))), w)
        (λ text w'. (
          value tt,
          S.log
              (str "CommitService failed: "
                ++ (error ++ (str " for submission: " ++ to_string r.submission_id)))
              (S.log text w'),
        ))

  unfoldable pub commit :
      Processor → Request → List TestingReport → S.World → Outcome (Unit {0}) × S.World
  commit p r reports w =
      continue (commit_body r.submission_id reports, w)
        (λ body w'.
          let (error, w'') = S.post p.commit_service_url body w' in log_failure r reports error w'')

  -- Process after Run.
  abbrev pub process_in :
      Processor → Request → Outcome Container × S.World → (Outcome (Unit {0}) × S.World) × Processor
  process_in p r (throws e, w) = ((throws e, w), p)
  process_in p r (undefined, w) = ((undefined, w), p)
  process_in p r (value container, w) =
      let p' = record p { container = container } in
      let ((prepared, r'), w') = prepare S p' r w in
      (continue (test J S p' r' w') (commit p' r'), p')

  -- The processor keeps the container that Run started; Kill has an empty body.
  unfoldable pub process :
      Processor → Request → S.World → (Outcome (Unit {0}) × S.World) × Processor
  process p r w = process_in p r (run S p.container w)

  -- The handlers of std::exception; undefined behaviour is not an exception.
  abbrev pub caught : Outcome (Unit {0}) × S.World → Outcome (Unit {0}) × S.World
  caught (value u, w) = (value u, w)
  caught (throws e, w) = (value tt, S.log (str "Bad request! " ++ e) w)
  caught (undefined, w) = (undefined, w)

  abbrev pub accept :
      Processor → Outcome Request → S.World → (Outcome (Unit {0}) × S.World) × Processor
  accept p (value r) w =
      process p r (S.log (str "Received submission with id: " ++ to_string r.submission_id) w)
  accept p (throws e) w = ((throws e, w), p)
  accept p undefined w = ((undefined, w), p)

  -- The handler of a delivery: its value is the tag that it acknowledges.
  unfoldable pub receive : Processor → Str → ℕ → S.World → (Outcome ℕ × S.World) × Processor
  receive p body delivery_tag w =
      let request = parsed_or_error J (J.parse body) >>= request_from_json J in
      let (ended, p') = accept p request w in
      (continue (caught ended) (λ _ w'. (value delivery_tag, w')), p')
