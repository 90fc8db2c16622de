-- ===== src/Tabasco/Batches/Ranges.antt =====
-- Lists of consecutive test ids.
use distributed_testing_syst.Base.{
  ℕ, zero, suc, ◌+◌, ◌-◌, ◌≤◌, List, [], ◌∷◌, ◌++◌, length, get_elem?, some, ◌≡◌, refl, ap, ◌∙◌,
  arith,
}
use distributed_testing_syst.Tabasco.Batches.Cover.{range_from}

pub length-range_from : (first n : ℕ) → length (range_from first n) ≡ n
length-range_from first zero = refl
length-range_from first (suc n) = ap suc (length-range_from (first + 1) n)

-- A list that two lists make together is a range only if both are.
pub range_from-split :
    (xs ys : List ℕ) (first n : ℕ)
    → xs ++ ys ≡ range_from first n
    → (xs ≡ range_from first (length xs))
      × (ys ≡ range_from (first + length xs) (n - length xs))
      × (length xs ≤ n)
range_from-split [] ys first n e = (
  refl,
  e
      ∙ (let a : first ≡ first + 0 = omega arith in
          let b : n ≡ n - 0 = omega arith in λ i. range_from (a i) (b i)),
  omega arith,
)
range_from-split (x ∷ xs) ys first zero e = cc
range_from-split (x ∷ xs) ys first (suc n) e =
    let head : x ≡ first = ground arith in
    let tail : xs ++ ys ≡ range_from (first + 1) n = ground arith in
    let (a, b, c) = range_from-split xs ys (first + 1) n tail in
    let k : first + 1 + length xs ≡ first + suc (length xs) = omega arith in
    let l : n - length xs ≡ suc n - suc (length xs) = omega arith in
    (cc (head, a), b ∙ (λ i. range_from (k i) (l i)), omega (arith, c))

pub get_elem?-middle {ℓ} :
    {A : Type ℓ} (pre : List A) (x : A) (rest : List A)
    → get_elem? (pre ++ x ∷ rest) (length pre) ≡ some x
get_elem?-middle [] x rest = refl
get_elem?-middle (y ∷ pre) x rest = get_elem?-middle pre x rest
