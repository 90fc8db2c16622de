-- ===== src/Examples/Batches.antt =====
-- SplitIntoBatches on four small tests.
use distributed_testing_syst.Base.{
  ℕ, ◌≤◌, max, ◌≡◌, refl, List, [], ◌∷◌, Str, str, flatten, All, arith,
}
use distributed_testing_syst.Base.Outcome.{value, undefined}
use distributed_testing_syst.Tabasco.Batches.{split_into_batches}
use distributed_testing_syst.Tabasco.Batches.Cover.{
  range_from, flatten-split_into_batches, split_into_batches_total,
}
use distributed_testing_syst.Tabasco.Batches.Minimal.{split_into_batches-minimal}
use distributed_testing_syst.Tabasco.Batches.Bounds.{
  batch_bytes, test_bytes, largest_test, IsGreedy, split_into_batches_bounds,
}

abbrev inputs : List Str
inputs = str "ab" ∷ str "c" ∷ str "defgh" ∷ str "i" ∷ []

abbrev outputs : List Str
outputs = str "x" ∷ str "y" ∷ str "zzzz" ∷ [] ∷ []

abbrev batches : List (List ℕ)
batches = (1 ∷ 2 ∷ []) ∷ (3 ∷ []) ∷ (4 ∷ []) ∷ []

split : split_into_batches inputs outputs 6 ≡ value batches
unfolding split_into_batches
split = refl

split_empty : split_into_batches [] [] 6 ≡ value ([] ∷ [])
unfolding split_into_batches
split_empty = refl

split_unpaired : split_into_batches inputs [] 6 ≡ undefined
unfolding split_into_batches
split_unpaired = refl

flatten-split_into_batches_example : flatten batches ≡ range_from 1 4
flatten-split_into_batches_example = flatten-split_into_batches inputs outputs 6 batches split

split_into_batches_total_example :
    (bs : List (List ℕ)) × (split_into_batches inputs outputs 6 ≡ value bs)
split_into_batches_total_example = split_into_batches_total inputs outputs 6 (omega arith)

split_into_batches_bounds_example :
    All
      (λ batch. batch_bytes (test_bytes inputs outputs) batch ≤ max 6 (largest_test inputs outputs))
      batches
    × IsGreedy (max 6 (largest_test inputs outputs)) (test_bytes inputs outputs) batches
split_into_batches_bounds_example =
    split_into_batches_bounds inputs outputs 6 batches split (omega arith)

-- A division with a batch more.
split_into_batches-minimal_example : 3 ≤ 4
split_into_batches-minimal_example =
    split_into_batches-minimal inputs outputs 6 batches split (omega arith) (omega arith)
      ((1 ∷ []) ∷ (2 ∷ []) ∷ (3 ∷ []) ∷ (4 ∷ []) ∷ []) refl
      (omega arith, (omega arith, (omega arith, (omega arith, tt))))
