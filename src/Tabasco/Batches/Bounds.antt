-- ===== src/Tabasco/Batches/Bounds.antt =====
-- The sizes of the batches that SplitIntoBatches returns, in bytes.
use distributed_testing_syst.Base.{
  ℕ, zero, suc, ◌+◌, ◌^◌, ◌≤◌, ◌<◌, max, ◌≡◌, refl, sym, ap, ◌∙◌, List, [], ◌∷◌, ◌++◌, Str, length,
  All, take, Bool-cases, ltb, arith, inl, inr,
}
use distributed_testing_syst.Base.Outcome.{value, >>=-eq-value}
use distributed_testing_syst.Tabasco.Batches.{
  add64, widen, Building, place, fill, started, split_into_batches,
}
use distributed_testing_syst.Tabasco.Batches.Cover.{All-snoc, Fits, widen-Fits}

-- The bytes of test number `id`, numbered from 1: its input and its output.
abbrev pub test_bytes : List Str → List Str → ℕ → ℕ
test_bytes (x ∷ inputs) (y ∷ outputs) (suc zero) = length x + length y
test_bytes (x ∷ inputs) (y ∷ outputs) (suc (suc id)) = test_bytes inputs outputs (suc id)
test_bytes _ _ _ = 0

abbrev pub batch_bytes : (ℕ → ℕ) → List ℕ → ℕ
batch_bytes size [] = 0
batch_bytes size (id ∷ ids) = size id + batch_bytes size ids

-- All bytes of an upload, and its largest test.
abbrev pub total_bytes : List Str → List Str → ℕ
total_bytes (x ∷ inputs) (y ∷ outputs) = length x + length y + total_bytes inputs outputs
total_bytes _ _ = 0

abbrev pub largest_test : List Str → List Str → ℕ
largest_test (x ∷ inputs) (y ∷ outputs) = max (length x + length y) (largest_test inputs outputs)
largest_test _ _ = 0

-- Each batch is full: the first test of the next one does not fit into it.
abbrev pub IsGreedy : ℕ → (ℕ → ℕ) → List (List ℕ) → Type 0
IsGreedy b size [] = Unit
IsGreedy b size (x ∷ []) = Unit
IsGreedy b size (x ∷ y ∷ bs) =
    (b < batch_bytes size x + batch_bytes size (take 1 y)) × IsGreedy b size (y ∷ bs)

widen-largest_test :
    (inputs outputs : List Str) (b c : ℕ)
    → widen inputs outputs b ≡ value c
    → total_bytes inputs outputs < 2 ^ 64
    → c ≡ max b (largest_test inputs outputs)
unfolding widen
widen-largest_test [] outputs b c e h = ground arith
widen-largest_test (x ∷ inputs) [] b c e h = cc
widen-largest_test (x ∷ inputs) (y ∷ outputs) b c e h =
    let ih =
      widen-largest_test inputs outputs (max b (add64 (length x) (length y))) c e (omega arith) in
    omega (arith, ih)

-- `size` gives the tests i + 1, i + 2, … their bytes.
abbrev Sized : (ℕ → ℕ) → ℕ → List Str → List Str → Type 0
Sized size i (x ∷ inputs) (y ∷ outputs) =
    (size (i + 1) ≡ length x + length y) × Sized size (i + 1) inputs outputs
Sized size i _ _ = Unit

Sized-shift :
    (f g : ℕ → ℕ) (i : ℕ) (inputs outputs : List Str)
    → ((k : ℕ) → g (suc (suc k)) ≡ f (suc k))
    → Sized f i inputs outputs
    → Sized g (i + 1) inputs outputs
Sized-shift f g i [] outputs h s = tt
Sized-shift f g i (x ∷ inputs) [] h s = tt
Sized-shift f g i (x ∷ inputs) (y ∷ outputs) h s =
    let e : i + 1 + 1 ≡ suc (suc i) = omega arith in
    let e' : i + 1 ≡ suc i = omega arith in
    (rw e (h i) ∙ ap f (sym e') ∙ s.0, Sized-shift f g (i + 1) inputs outputs h s.1)

Sized-test_bytes : (inputs outputs : List Str) → Sized (test_bytes inputs outputs) 0 inputs outputs
Sized-test_bytes [] outputs = tt
Sized-test_bytes (x ∷ inputs) [] = tt
Sized-test_bytes (x ∷ inputs) (y ∷ outputs) = (
  refl,
  Sized-shift (test_bytes inputs outputs) (test_bytes (x ∷ inputs) (y ∷ outputs)) 0 inputs outputs
      (λ k. refl) (Sized-test_bytes inputs outputs),
)

pub batch_bytes-append :
    (size : ℕ → ℕ) (xs ys : List ℕ)
    → batch_bytes size (xs ++ ys) ≡ batch_bytes size xs + batch_bytes size ys
batch_bytes-append size [] ys = omega arith
batch_bytes-append size (x ∷ xs) ys = omega (arith, batch_bytes-append size xs ys)

module _ (b : ℕ) (size : ℕ → ℕ) where
  IsGreedy-snoc :
      (bs : List (List ℕ)) (x y : List ℕ)
      → IsGreedy b size (bs ++ x ∷ [])
      → b < batch_bytes size x + batch_bytes size (take 1 y)
      → IsGreedy b size ((bs ++ x ∷ []) ++ y ∷ [])
  IsGreedy-snoc [] x y h k = (k, tt)
  IsGreedy-snoc (u ∷ []) x y h k = (h.0, (k, tt))
  IsGreedy-snoc (u ∷ v ∷ bs) x y h k = (h.0, IsGreedy-snoc (v ∷ bs) x y h.1 k)

  IsGreedy-grow :
      (bs : List (List ℕ)) (x y : List ℕ)
      → batch_bytes size (take 1 x) ≤ batch_bytes size (take 1 y)
      → IsGreedy b size (bs ++ x ∷ [])
      → IsGreedy b size (bs ++ y ∷ [])
  IsGreedy-grow [] x y le h = tt
  IsGreedy-grow (u ∷ []) x y le h = (omega (arith, h.0), tt)
  IsGreedy-grow (u ∷ v ∷ bs) x y le h = (h.0, IsGreedy-grow (v ∷ bs) x y le h.1)

  first-append :
      (xs : List ℕ) (t : ℕ)
      → batch_bytes size (take 1 xs) ≤ batch_bytes size (take 1 (xs ++ t ∷ []))
  first-append [] t = omega arith
  first-append (x ∷ xs) t = omega arith

  -- `left`: the bytes of the tests that are still to be placed.
  record IsBounded (left : ℕ) (s : Building) : Type 0 where
    closed_bounded : All (λ batch. batch_bytes size batch ≤ b) s.closed
    counted : batch_bytes size s.back ≡ s.accum_size
    back_bounded : s.accum_size ≤ b
    no_overflow : s.accum_size + left < 2 ^ 64
    greedy : IsGreedy b size (s.closed ++ s.back ∷ [])

  IsBounded-place :
      (i left n : ℕ) (s : Building)
      → n ≤ b
      → size (i + 1) ≡ n
      → IsBounded (n + left) s
      → IsBounded left (place b i n s)
  unfolding place
  IsBounded-place i left n s fit e h = elim (Bool-cases (ltb b (add64 s.accum_size n))) [
    | inl t ↦ rw t (record {
      closed_bounded =
          All-snoc (λ batch. batch_bytes size batch ≤ b) s.closed s.back h.closed_bounded
            (omega (arith, h.counted, h.back_bounded));
      counted = omega (arith, h.no_overflow);
      back_bounded = omega (arith, h.no_overflow);
      no_overflow = omega (arith, h.no_overflow);
      greedy =
          IsGreedy-snoc s.closed s.back ((i + 1) ∷ []) h.greedy
            (ground (arith, h.counted, h.no_overflow));
    })
    | inr f ↦ rw f (record {
      closed_bounded = h.closed_bounded;
      counted =
          omega (arith, h.counted, h.no_overflow, batch_bytes-append size s.back ((i + 1) ∷ []));
      back_bounded = ground (arith, h.no_overflow);
      no_overflow = omega (arith, h.no_overflow);
      greedy =
          IsGreedy-grow s.closed s.back (s.back ++ (i + 1) ∷ []) (first-append s.back (i + 1))
            h.greedy;
    })
  ]

  IsBounded-fill :
      (i : ℕ) (inputs outputs : List Str) (s s' : Building)
      → fill b i inputs outputs s ≡ value s'
      → Fits b inputs outputs
      → Sized size i inputs outputs
      → IsBounded (total_bytes inputs outputs) s
      → IsBounded 0 s'
  unfolding fill
  IsBounded-fill i [] outputs s s' e fits sized h = let same : s ≡ s' = cc in rw (← same) h
  IsBounded-fill i (x ∷ inputs) [] s s' e fits sized h = absurd fits
  IsBounded-fill i (x ∷ inputs) (y ∷ outputs) s s' e fits sized h =
      let exact : add64 (length x) (length y) ≡ length x + length y =
        omega (arith, h.no_overflow) in
      IsBounded-fill (i + 1) inputs outputs (place b i (add64 (length x) (length y)) s) s' e fits.1
        sized.1
        (IsBounded-place i (total_bytes inputs outputs) (add64 (length x) (length y)) s fits.0
          (sized.0 ∙ sym exact) (rw exact h))

-- When SplitIntoBatches returns on tests of fewer than 2^64 bytes in all, no batch is larger than
-- the greater of batchSize and the largest test, and each batch but the last has no room for the
-- first test of the batch after it.
pub split_into_batches_bounds :
    (inputs outputs : List Str) (b : ℕ) (bs : List (List ℕ))
    → split_into_batches inputs outputs b ≡ value bs
    → total_bytes inputs outputs < 2 ^ 64
    → All
        (λ batch.
          batch_bytes (test_bytes inputs outputs) batch ≤ max b (largest_test inputs outputs))
        bs
      × IsGreedy (max b (largest_test inputs outputs)) (test_bytes inputs outputs) bs
unfolding split_into_batches
split_into_batches_bounds inputs outputs b bs e small =
    let (c, widened, e') = >>=-eq-value (widen inputs outputs b) _ e in
    let (s, filled, last) = >>=-eq-value (fill c 0 inputs outputs started) _ e' in
    let same : s.closed ++ s.back ∷ [] ≡ bs = cc in
    let size = test_bytes inputs outputs in
    let inv =
      IsBounded-fill c size 0 inputs outputs started s filled
        (widen-Fits inputs outputs b c widened).0 (Sized-test_bytes inputs outputs)
        (record {
          closed_bounded = tt;
          counted = refl;
          back_bounded = omega arith;
          no_overflow = omega arith;
          greedy = tt;
        }) in
    rw (← same) (
      rw (← widen-largest_test inputs outputs b c widened small) (
        All-snoc (λ batch. batch_bytes size batch ≤ c) s.closed s.back inv.closed_bounded
            (omega (arith, inv.counted, inv.back_bounded)),
        inv.greedy,
      ))
