-- ===== src/Processor/Testing/Batching.antt =====
-- The loop over the batches of a task, against one loop over all its tests
-- (testing_processor/testing_processor.cpp, Test).
use distributed_testing_syst.Base.{
  ℕ, ◌+◌, ◌<◌, ◌==◌, ap, List, [], ◌∷◌, ◌++◌, Str, if◌then◌else◌, ◌≡◌, sym, ◌∙◌, refl, Bool, true,
  false, arith, length,
}
use distributed_testing_syst.Base.Outcome.{Outcome, value, throws, undefined}
use distributed_testing_syst.Base.Action.{continue}
use distributed_testing_syst.Extern.Json.{Json}
use distributed_testing_syst.Extern.System.{System}
use distributed_testing_syst.Utils.Expected.{expected}
use distributed_testing_syst.Processor.Report.{TestingReport}
use distributed_testing_syst.Processor.Request.{Request}
use distributed_testing_syst.Processor.Execute.{Processor, execute_and_test}
use distributed_testing_syst.Processor.Tabasco.{GetBatchResponse, get_batch}
use distributed_testing_syst.Processor.Testing.{
  Progress, going, stopped, is_ok, run_tests, run_batches, resume, return_reports, test,
}

abbrev pub inputs_of : List GetBatchResponse → List Str
inputs_of [] = []
inputs_of (b ∷ bs) = b.input_tests ++ inputs_of bs

abbrev pub outputs_of : List GetBatchResponse → List Str
outputs_of [] = []
outputs_of (b ∷ bs) = b.output_tests ++ outputs_of bs

module _ (J : Json) (S : System) (p : Processor) (r : Request) where
  -- The service answers these batches from an index on, and the question changes nothing else.
  pub data Serves : ℕ → List GetBatchResponse → Type 0 where
    served_all : (index : ℕ) → Serves index []
    serves :
        (index : ℕ) (b : GetBatchResponse) (bs : List GetBatchResponse)
        → ((w : S.World) → get_batch S r.task_id index w ≡ (expected b, w))
        → length b.input_tests ≡ length b.output_tests
        → Serves (index + 1) bs
        → Serves index (b ∷ bs)

  continue-if :
      {W : Type 0} (ok : Bool) (a b : Outcome Progress × W)
      (f : Progress → W → Outcome Progress × W)
      → continue (if ok then a else b) f ≡ (if ok then continue a f else continue b f)
  continue-if true a b f = refl
  continue-if false a b f = refl

  continue-run :
      {W : Type 0} (m : Outcome TestingReport × W) (f g : TestingReport → W → Outcome Progress × W)
      (k : Progress → W → Outcome Progress × W)
      → ((report : TestingReport) (w : W) → f report w ≡ continue (g report w) k)
      → continue m f ≡ continue (continue m g) k
  continue-run (value a, w) f g k h = h a w
  continue-run (throws e, w) f g k h = refl
  continue-run (undefined, w) f g k h = refl

  run_tests-append :
      (inputs outputs inputs' outputs' : List Str) (reports : List TestingReport) (w : S.World)
      → length inputs ≡ length outputs
      → run_tests J S p r (inputs ++ inputs') (outputs ++ outputs') reports w
        ≡ continue
            (run_tests J S p r inputs outputs reports w)
            (resume J S p r (run_tests J S p r inputs' outputs'))
  unfolding run_tests
  run_tests-append [] [] is' os' reports w h = refl
  run_tests-append [] (o ∷ os) is' os' reports w h = absurd (omega arith)
  run_tests-append (i ∷ is) [] is' os' reports w h = absurd (omega arith)
  run_tests-append (i ∷ is) (o ∷ os) is' os' reports w h =
      continue-run (execute_and_test J S p r i o w) _ _ _ (λ report w'.
        rw (run_tests-append is os is' os' (reports ++ report ∷ []) w' (omega arith))
          (sym (continue-if (is_ok report.verdict) _ _ _)))

  continue-resume :
      (m : Outcome Progress × S.World)
      (f g : List TestingReport → S.World → Outcome Progress × S.World)
      → ((reports : List TestingReport) (w : S.World) → f reports w ≡ g reports w)
      → continue m (resume J S p r f) ≡ continue m (resume J S p r g)
  continue-resume (value (going reports), w) f g h = h reports w
  continue-resume (value (stopped reports), w) f g h = refl
  continue-resume (throws e, w) f g h = refl
  continue-resume (undefined, w) f g h = refl

  -- Where the service answers the batches from an index on and leaves the world as it is, and each
  -- batch has as many outputs as inputs, the loop over these batches does what one loop over all
  -- their tests does.
  pub run_batches-eq_run_tests :
      (batches : List GetBatchResponse) (index : ℕ) (reports : List TestingReport) (w : S.World)
      → Serves index batches
      → run_batches J S p r (length batches) index reports w
        ≡ run_tests J S p r (inputs_of batches) (outputs_of batches) reports w
  unfolding run_batches run_tests
  run_batches-eq_run_tests _ index reports w (served_all _) = refl
  run_batches-eq_run_tests _ index reports w (serves _ b bs answer paired rest) = rw (answer w) (
      sym (
        run_tests-append b.input_tests b.output_tests (inputs_of bs) (outputs_of bs) reports w
          paired
        ∙ continue-resume (run_tests J S p r b.input_tests b.output_tests reports w) _ _
            (λ rs w'. sym (run_batches-eq_run_tests bs (index + 1) rs w' rest))))

  -- Test, where the batch count is the number of the batches that the service answers.
  pub test-Serves :
      (batches : List GetBatchResponse) (w : S.World)
      → Serves 0 batches
      → r.batch_count ≡ length batches
      → 0 < length batches
      → test J S p r w
        ≡ continue
            (run_tests J S p r (inputs_of batches) (outputs_of batches) [] w)
            (return_reports J S p r)
  unfolding test
  test-Serves batches w served count some_batch =
      let nonzero : (r.batch_count == 0) ≡ false = ground arith in
      rw nonzero (
        ap (λ (n : ℕ). continue (run_batches J S p r n 0 [] w) (return_reports J S p r)) count
        ∙ rw (run_batches-eq_run_tests batches 0 [] w served))
