-- ===== src/Processor/Process/Unprepared.antt =====
-- What follows where the scripts of a submission cannot be fetched
-- (testing_processor/testing_processor.cpp, Process and Prepare).
use distributed_testing_syst.Base.{List, [], ◌∷◌, Str, str, false, ◌≡◌, refl, ◌++◌, to_string}
use distributed_testing_syst.Base.Outcome.{Outcome, value, throws, undefined}
use distributed_testing_syst.Base.Action.{continue}
use distributed_testing_syst.Extern.Json.{Json}
use distributed_testing_syst.Extern.System.{System, failed}
use distributed_testing_syst.Processor.Container.{Container, run}
use distributed_testing_syst.Processor.Report.{TestingReport}
use distributed_testing_syst.Processor.Request.{Request}
use distributed_testing_syst.Processor.Tabasco.{get_scripts}
use distributed_testing_syst.Processor.Execute.{Processor, execute_and_test}
use distributed_testing_syst.Processor.Testing.{test, return_one}
use distributed_testing_syst.Processor.Process.{prepare, process, commit}

continue-return_one :
    (J : Json) (S : System) (p : Processor) (r : Request) (m : Outcome TestingReport × S.World)
    (f : List TestingReport → S.World → Outcome (Unit {0}) × S.World)
    → continue (continue m (return_one J S p r)) f ≡ continue m (λ report. f (report ∷ []))
continue-return_one J S p r (value report, w) f = refl
continue-return_one J S p r (throws e, w) f = refl
continue-return_one J S p r (undefined, w) f = refl

test-no_batches :
    (J : Json) (S : System) (p : Processor) (r : Request) (w : S.World)
    → r.batch_count ≡ 0
    → test J S p r w ≡ continue (execute_and_test J S p r [] [] w) (return_one J S p r)
unfolding test
test-no_batches J S p r w e = rw e refl

abbrev pub failure_line : Request → Str → Str
failure_line r message =
    str "TabascoRequestTask failed: "
    ++ (message ++ (str " for submission: " ++ to_string r.submission_id))

prepare-no_scripts :
    (S : System) (p : Processor) (r : Request) (w w' : S.World) (message : Str)
    → S.stub_get_scripts r.task_id r.build_id w ≡ (failed message, w')
    → prepare S p r w ≡ ((false, r), S.log (failure_line r message) w')
unfolding prepare get_scripts
prepare-no_scripts S p r w w' message failing = rw failing refl

-- Where Run has started the container, the batch count of a submission is 0, as at its arrival, and
-- its scripts cannot be fetched, Process does not stop: it logs the failure, runs the submission on
-- one test with empty input and output, and commits the one report that this gives.
pub process-no_scripts :
    (J : Json) (S : System) (p : Processor) (c : Container) (r : Request) (w w1 w2 : S.World)
    (message : Str)
    → r.batch_count ≡ 0
    → run S p.container w ≡ (value c, w1)
    → S.stub_get_scripts r.task_id r.build_id w1 ≡ (failed message, w2)
    → (process J S p r w).0
      ≡ continue
          (execute_and_test J S
            (record p { container = c })
            r
            []
            []
            (S.log (failure_line r message) w2))
          (λ report. commit J S (record p { container = c }) r (report ∷ []))
unfolding process
process-no_scripts J S p c r w w1 w2 message no_batch started failing =
    let p' : Processor = record p { container = c } in
    let w3 = S.log (failure_line r message) w2 in
    rw
      (
        started,
        prepare-no_scripts S p' r w1 w2 message failing,
        test-no_batches J S p' r w3 no_batch,
      )
      (continue-return_one J S p' r (execute_and_test J S p' r [] [] w3) (commit J S p' r))
