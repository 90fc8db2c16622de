-- ===== src/Tabasco/Batches/Cover.antt =====
-- The batches that SplitIntoBatches returns hold each test once, in order.
use distributed_testing_syst.Base.{
  max, ℕ, zero, suc, ◌+◌, ◌^◌, ◌≤◌, ◌<◌, ◌≡◌, refl, sym, ap, ◌∙◌, ◌⊎◌, List, [], ◌∷◌, ◌++◌,
  append-nil, append_assoc, Str, length, length-append, flatten, All, Bool-cases, ltb, arith, inl,
  inr,
}
use distributed_testing_syst.Base.Outcome.{value, >>=-eq-value}
use distributed_testing_syst.Tabasco.Batches.{
  add64, widen, Building, place, fill, started, split_into_batches,
}

-- start, start + 1, … : n numbers.
abbrev pub range_from : ℕ → ℕ → List ℕ
range_from start zero = []
range_from start (suc n) = start ∷ range_from (start + 1) n

abbrev pub IsNonempty : List ℕ → Type 0
IsNonempty xs = 0 < length xs

pub flatten-append : (xss yss : List (List ℕ)) → flatten (xss ++ yss) ≡ flatten xss ++ flatten yss
flatten-append [] yss = refl
flatten-append (xs ∷ xss) yss = rw (flatten-append xss yss, append_assoc)

pub All-snoc {ℓ κ} :
    {A : Type ℓ} (P : A → Type κ) (xs : List A) (x : A) → All P xs → P x → All P (xs ++ x ∷ [])
All-snoc P [] x h k = (k, tt)
All-snoc P (y ∷ xs) x h k = (h.0, All-snoc P xs x h.1 k)

range_from-snoc : (start n : ℕ) → range_from start n ++ (start + n) ∷ [] ≡ range_from start (suc n)
range_from-snoc start zero = ap (λ (k : ℕ). k ∷ []) (omega arith)
range_from-snoc start (suc n) =
    let e : start + suc n ≡ start + 1 + n = omega arith in
    rw e (ap (◌∷◌ start) (range_from-snoc (start + 1) n))

-- `batches` as the vector that the loop holds.
abbrev batches : Building → List (List ℕ)
batches s = s.closed ++ s.back ∷ []

flatten-place :
    (b i size : ℕ) (s : Building)
    → flatten (batches (place b i size s)) ≡ flatten (batches s) ++ (i + 1) ∷ []
unfolding place
flatten-place b i size s = elim (Bool-cases (ltb b (add64 s.accum_size size))) [
  | inl t ↦ rw t (flatten-append (batches s) (((i + 1) ∷ []) ∷ []))
  | inr f ↦ rw f (simp (flatten-append, append_assoc, append-nil))
]

flatten-fill :
    (b i : ℕ) (inputs outputs : List Str) (s s' : Building)
    → fill b i inputs outputs s ≡ value s'
    → flatten (batches s) ≡ range_from 1 i
    → flatten (batches s') ≡ range_from 1 (i + length inputs)
unfolding fill
flatten-fill b i [] outputs s s' e h =
    let k : i ≡ i + 0 = omega arith in
    let same : s ≡ s' = cc in ap (λ t. flatten (batches t)) (sym same) ∙ h ∙ ap (range_from 1) k
flatten-fill b i (x ∷ inputs) [] s s' e h = cc
flatten-fill b i (x ∷ inputs) (y ∷ outputs) s s' e h =
    let size = add64 (length x) (length y) in
    let k : i + 1 + length inputs ≡ i + suc (length inputs) = omega arith in
    let n : i + 1 ≡ 1 + i = omega arith in
    let m : i + 1 ≡ suc i = omega arith in
    flatten-fill b (i + 1) inputs outputs (place b i size s) s' e
      (flatten-place b i size s ∙ rw h (rw n (range_from-snoc 1 i)) ∙ ap (range_from 1) (sym m))
    ∙ ap (range_from 1) k

-- When SplitIntoBatches returns, its batches, one after the other, are the test ids 1, 2, ..., n in
-- order: no test is lost, repeated or moved.
pub flatten-split_into_batches :
    (inputs outputs : List Str) (b : ℕ) (bs : List (List ℕ))
    → split_into_batches inputs outputs b ≡ value bs
    → flatten bs ≡ range_from 1 (length inputs)
unfolding split_into_batches
flatten-split_into_batches inputs outputs b bs e =
    let (b', _, e') = >>=-eq-value (widen inputs outputs b) _ e in
    let (s, filled, last) = >>=-eq-value (fill b' 0 inputs outputs started) _ e' in
    let same : s.closed ++ s.back ∷ [] ≡ bs = cc in
    rw (← same)
      (flatten-fill b' 0 inputs outputs started s filled refl ∙ ap (range_from 1) (omega arith))

-- Every test fits into a batch of `b` bytes, and has both its files.
abbrev pub Fits : ℕ → List Str → List Str → Type 0
Fits b [] outputs = Unit
Fits b (x ∷ inputs) [] = ⊥
Fits b (x ∷ inputs) (y ∷ outputs) = (add64 (length x) (length y) ≤ b) × Fits b inputs outputs

Fits-mono :
    (b c : ℕ) (inputs outputs : List Str) → b ≤ c → Fits b inputs outputs → Fits c inputs outputs
Fits-mono b c [] outputs h k = tt
Fits-mono b c (x ∷ inputs) [] h k = k
Fits-mono b c (x ∷ inputs) (y ∷ outputs) h k =
    (omega (arith, h, k.0), Fits-mono b c inputs outputs h k.1)

pub widen-Fits :
    (inputs outputs : List Str) (b c : ℕ)
    → widen inputs outputs b ≡ value c
    → Fits c inputs outputs × (b ≤ c)
unfolding widen
widen-Fits [] outputs b c e = (tt, ground arith)
widen-Fits (x ∷ inputs) [] b c e = cc
widen-Fits (x ∷ inputs) (y ∷ outputs) b c e =
    let (rest, le) = widen-Fits inputs outputs (max b (add64 (length x) (length y))) c e in
    ((omega arith, rest), omega arith)

-- No batch but the last is empty, and the last is not once it has a test.
record IsFilled (s : Building) : Type 0 where
  closed_nonempty : All IsNonempty s.closed
  back_nonempty : IsNonempty s.back ⊎ (s.accum_size ≡ 0)

IsFilled-place :
    (b i size : ℕ) (s : Building)
    → size ≤ b
    → size < 2 ^ 64
    → IsFilled s
    → IsFilled (place b i size s) × IsNonempty (place b i size s).back
unfolding place
IsFilled-place b i size s fit small h = elim (Bool-cases (ltb b (add64 s.accum_size size))) [
  | inl t ↦
      let more : IsNonempty s.back = elim h.back_nonempty [
        | inl ne ↦ ne
        | inr z ↦ absurd (ground arith)
      ] in
      rw t (
        record {
          closed_nonempty = All-snoc IsNonempty s.closed s.back h.closed_nonempty more;
          back_nonempty = inl (omega arith);
        },
        omega arith,
      )
  | inr f ↦
      let ne : IsNonempty (s.back ++ (i + 1) ∷ []) =
        omega (arith, length-append s.back ((i + 1) ∷ [])) in
      rw f (record { closed_nonempty = h.closed_nonempty; back_nonempty = inl ne }, ne)
]

IsFilled-fill :
    (b i : ℕ) (inputs outputs : List Str) (s s' : Building)
    → fill b i inputs outputs s ≡ value s'
    → Fits b inputs outputs
    → IsFilled s
    → IsFilled s' × (IsNonempty s.back ⊎ (0 < length inputs) → IsNonempty s'.back)
unfolding fill
IsFilled-fill b i [] outputs s s' e fits h =
    let same : s ≡ s' = cc in rw (← same) (h, λ (k : IsNonempty s.back ⊎ (0 < 0)). omega arith)
IsFilled-fill b i (x ∷ inputs) [] s s' e fits h = absurd fits
IsFilled-fill b i (x ∷ inputs) (y ∷ outputs) s s' e fits h =
    let size = add64 (length x) (length y) in
    let (placed, more) = IsFilled-place b i size s fits.0 (omega arith) h in
    let (filled, last) =
      IsFilled-fill b (i + 1) inputs outputs (place b i size s) s' e fits.1 placed in
    (filled, λ _. last (inl more))

-- When SplitIntoBatches returns on at least one test, no batch is empty.
pub split_into_batches-IsNonempty :
    (inputs outputs : List Str) (b : ℕ) (bs : List (List ℕ))
    → split_into_batches inputs outputs b ≡ value bs
    → 0 < length inputs
    → All IsNonempty bs
unfolding split_into_batches
split_into_batches-IsNonempty inputs outputs b bs e some_test =
    let (b', widened, e') = >>=-eq-value (widen inputs outputs b) _ e in
    let (s, filled, last) = >>=-eq-value (fill b' 0 inputs outputs started) _ e' in
    let same : s.closed ++ s.back ∷ [] ≡ bs = cc in
    let (inv, more) =
      IsFilled-fill b' 0 inputs outputs started s filled (widen-Fits inputs outputs b b' widened).0
        (record { closed_nonempty = tt; back_nonempty = inr refl }) in
    rw (← same) (All-snoc IsNonempty s.closed s.back inv.closed_nonempty (more (inr some_test)))

fill_total :
    (b i : ℕ) (inputs outputs : List Str) (s : Building)
    → Fits b inputs outputs
    → (s' : Building) × (fill b i inputs outputs s ≡ value s')
unfolding fill
fill_total b i [] outputs s fits = (s, refl)
fill_total b i (x ∷ inputs) [] s fits = absurd fits
fill_total b i (x ∷ inputs) (y ∷ outputs) s fits =
    fill_total b (i + 1) inputs outputs (place b i (add64 (length x) (length y)) s) fits.1

widen_total :
    (inputs outputs : List Str) (b : ℕ)
    → length inputs ≤ length outputs
    → (c : ℕ) × (widen inputs outputs b ≡ value c)
unfolding widen
widen_total [] outputs b h = (b, refl)
widen_total (x ∷ inputs) [] b h = absurd (omega arith)
widen_total (x ∷ inputs) (y ∷ outputs) b h = widen_total inputs outputs _ (omega arith)

-- With an output for each input SplitIntoBatches returns: no access is out of bounds.
pub split_into_batches_total :
    (inputs outputs : List Str) (b : ℕ)
    → length inputs ≤ length outputs
    → (bs : List (List ℕ)) × (split_into_batches inputs outputs b ≡ value bs)
unfolding split_into_batches
split_into_batches_total inputs outputs b h =
    let (c, widened) = widen_total inputs outputs b h in
    let (s, filled) =
      fill_total c 0 inputs outputs started (widen-Fits inputs outputs b c widened).0 in
    (s.closed ++ s.back ∷ [], rw widened (rw filled))
