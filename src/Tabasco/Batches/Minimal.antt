-- ===== src/Tabasco/Batches/Minimal.antt =====
-- The number of batches of SplitIntoBatches, against other divisions of the tests.
use distributed_testing_syst.Base.{
  max, ℕ, ◌+◌, ◌^◌, ◌≤◌, ◌<◌, ◌≡◌, refl, sym, ap, ◌∙◌, ◌⊎◌, List, [], ◌∷◌, ◌++◌, append_assoc, Str,
  length, length-append, flatten, All, arith, inl, inr, take,
}
use distributed_testing_syst.Base.Outcome.{value}
use distributed_testing_syst.Tabasco.Batches.{split_into_batches}
use distributed_testing_syst.Tabasco.Batches.Cover.{
  range_from, IsNonempty, flatten-split_into_batches, split_into_batches-IsNonempty,
}
use distributed_testing_syst.Tabasco.Batches.Bounds.{
  test_bytes, batch_bytes, total_bytes, largest_test, IsGreedy, batch_bytes-append,
  split_into_batches_bounds,
}

-- Two ways to cut a list: the first piece ends within the other's, or goes on past it.
append-cuts :
    (c r u v : List ℕ)
    → c ++ r ≡ u ++ v
    → ((s : List ℕ) × (r ≡ s ++ v))
      ⊎ ((t : ℕ) × (d : List ℕ) × (c ≡ u ++ t ∷ d) × (v ≡ t ∷ (d ++ r)))
append-cuts [] r u v e = inl (u, e)
append-cuts (x ∷ c) r [] v e = inr (x, c, refl, sym e)
append-cuts (x ∷ c) r (w ∷ u) v e =
    let head : x ≡ w = cc in
    let rest : c ++ r ≡ u ++ v = cc in
    elim (append-cuts c r u v rest) [
      | inl (s, k) ↦ inl (s, k)
      | inr (t, d, k, l) ↦ inr (t, d, rw (head, k) refl, l)
    ]

module _ (b : ℕ) (size : ℕ → ℕ) where
  -- A batch that goes on past a full one is too large.
  too_large :
      (c s y y2 : List ℕ) (t : ℕ) (d tail rest : List ℕ)
      → batch_bytes size c ≤ b
      → b < batch_bytes size y + batch_bytes size (take 1 y2)
      → IsNonempty y2
      → c ≡ (s ++ y) ++ t ∷ d
      → y2 ++ rest ≡ t ∷ tail
      → ⊥
  too_large c s y [] t d tail rest fits full some_test e same = absurd (omega (arith, some_test))
  too_large c s y (t2 ∷ y2) t d tail rest fits full some_test e same =
      let first : size t2 ≡ size t = ap size (cc same) in
      omega (
        arith,
        fits,
        full,
        first,
        ap (batch_bytes size) e,
        batch_bytes-append size (s ++ y) (t ∷ d),
        batch_bytes-append size s y,
      )

  IsGreedy-minimal :
      (bs cs : List (List ℕ)) (s : List ℕ)
      → IsGreedy b size bs
      → All IsNonempty bs
      → All (λ c. batch_bytes size c ≤ b) cs
      → flatten cs ≡ s ++ flatten bs
      → length bs ≤ length cs
  IsGreedy-minimal [] cs s greedy filled fits e = omega arith
  IsGreedy-minimal (y ∷ bs) [] s greedy filled fits e = omega (
    arith,
    ap length e,
    length-append s (y ++ flatten bs),
    length-append y (flatten bs),
    filled.0,
  )
  IsGreedy-minimal (y ∷ []) (c ∷ cs) s greedy filled fits e = omega arith
  IsGreedy-minimal (y ∷ y2 ∷ bs) (c ∷ cs) s greedy filled fits e =
      elim (append-cuts c (flatten cs) (s ++ y) (flatten (y2 ∷ bs))
        (e ∙ sym (append_assoc s y (flatten (y2 ∷ bs))))) [
          | inl (s', left) ↦
              omega (arith, IsGreedy-minimal (y2 ∷ bs) cs s' greedy.1 filled.1 fits.1 left)
          | inr (t, d, long, next) ↦ absurd (
              too_large c s y y2 t d (d ++ flatten cs) (flatten bs) fits.0 greedy.0 filled.1.0 long
                next)
        ]

-- When SplitIntoBatches returns on at least one test and on tests of fewer than 2^64 bytes in all,
-- no division of the test ids 1, 2, ..., n, in their order, into batches of at most the greater of
-- batchSize and the largest test has fewer batches.
pub split_into_batches-minimal :
    (inputs outputs : List Str) (b : ℕ) (bs : List (List ℕ))
    → split_into_batches inputs outputs b ≡ value bs
    → total_bytes inputs outputs < 2 ^ 64
    → 0 < length inputs
    → (cs : List (List ℕ)) → flatten cs ≡ range_from 1 (length inputs)
    → All
        (λ batch.
          batch_bytes (test_bytes inputs outputs) batch ≤ max b (largest_test inputs outputs))
        cs
    → length bs ≤ length cs
split_into_batches-minimal inputs outputs b bs e small some_test cs covers fits =
    IsGreedy-minimal (max b (largest_test inputs outputs)) (test_bytes inputs outputs) bs cs []
      (split_into_batches_bounds inputs outputs b bs e small).1
      (split_into_batches-IsNonempty inputs outputs b bs e some_test) fits
      (covers ∙ sym (flatten-split_into_batches inputs outputs b bs e))
