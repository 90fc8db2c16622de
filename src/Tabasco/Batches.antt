-- ===== src/Tabasco/Batches.antt =====
-- SplitIntoBatches of task_batcher_storage_coordinator/http/handlers/upload_tests_handler.cpp.
pub mod Cover
pub mod Bounds
pub mod Ranges
pub mod Minimal
use distributed_testing_syst.Base.{
  ℕ, zero, suc, ◌+◌, ◌-◌, ◌%◌, ◌^◌, max, List, [], ◌∷◌, ◌++◌, Str, length, ltb, if◌then◌else◌,
  get_elem?, Option, none, some,
}
use distributed_testing_syst.Base.Outcome.{Outcome, value, throws, undefined, ◌>>=◌}

-- a + b on size_t.
abbrev pub add64 : ℕ → ℕ → ℕ
add64 a b = (a + b) % 2 ^ 64

-- The first loop: `batchSize` grows to the size of the largest test. `outputTests[i]` past the end
-- is undefined.
unfoldable pub widen : List Str → List Str → ℕ → Outcome ℕ
widen [] outputs batch_size = value batch_size
widen (i ∷ inputs) [] batch_size = undefined
widen (i ∷ inputs) (o ∷ outputs) batch_size =
    widen inputs outputs (max batch_size (add64 (length i) (length o)))

-- The variables of the second loop; `batches` is `closed` followed by its last element `back`.
pub record Building : Type 0 where
  pub closed : List (List ℕ)
  pub back : List ℕ
  pub accum_size : ℕ

-- The body of the second loop at index i.
unfoldable pub place : ℕ → ℕ → ℕ → Building → Building
place batch_size i test_size s =
    if ltb batch_size (add64 s.accum_size test_size)
    then record {
      closed = s.closed ++ s.back ∷ [];
      back = (i + 1) ∷ [];
      accum_size = add64 0 test_size;
    }
    else record s { back = s.back ++ (i + 1) ∷ []; accum_size = add64 s.accum_size test_size }

unfoldable pub fill : ℕ → ℕ → List Str → List Str → Building → Outcome Building
fill batch_size i [] outputs s = value s
fill batch_size i (x ∷ inputs) [] s = undefined
fill batch_size i (x ∷ inputs) (y ∷ outputs) s =
    fill batch_size (i + 1) inputs outputs (place batch_size i (add64 (length x) (length y)) s)

abbrev pub started : Building
started = record { closed = []; back = []; accum_size = 0 }

unfoldable pub split_into_batches : List Str → List Str → ℕ → Outcome (List (List ℕ))
unfolding widen place fill
split_into_batches inputs outputs batch_size = do
  widened ← widen inputs outputs batch_size
  s ← fill widened 0 inputs outputs started
  value (s.closed ++ s.back ∷ [])
