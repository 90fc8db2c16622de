-- ===== src/Base/Decimal.antt =====
-- The digits of std::to_string, read back, and what stands before a slash in a path.
use Prim.Native.Nat.{ℕ, zero, suc, ◌+◌, ◌-◌, ◌*◌, ◌/◌, ◌%◌, ◌<◌}
use mathlib.Core.Path.{◌≡◌, refl, sym, ap, ◌∙◌}
use mathlib.Core.Logic.{inl, inr}
use mathlib.Core.Bool.{false}
use mathlib.Core.List.{[], ◌∷◌, ◌++◌}
use native.Mathlib.Omega.{arith}
use distributed_testing_syst.Base.Tests.{ltb, ◌==◌, if◌then◌else◌, Bool-cases, ltb→lt, ltb-false→le}
use distributed_testing_syst.Base.Text.{Str, digits_from, to_string}

-- The number that digits make after those of `n`.
number_from : ℕ → Str → ℕ
number_from n [] = n
number_from n (c ∷ s) = number_from (n * 10 + (c - 48)) s

number_from-digits_from :
    (fuel n : ℕ) (acc : Str) → n < fuel → number_from 0 (digits_from fuel n acc) ≡ number_from n acc
unfolding number_from digits_from
number_from-digits_from zero n acc h = absurd (omega (arith, h))
number_from-digits_from (suc fuel) n acc h = elim (Bool-cases (ltb n 10)) [
  | inl e ↦ let small = ltb→lt n 10 e in rw e (ap (λ m. number_from m acc) (omega (arith, small)))
  | inr e ↦
      let large = ltb-false→le n 10 e in
      rw e (
        number_from-digits_from fuel (n / 10) ((n % 10 + 48) ∷ acc) (omega (arith, h, large))
        ∙ ap (λ m. number_from m acc) (omega arith))
]

pub to_string-injective : (m n : ℕ) → to_string m ≡ to_string n → m ≡ n
unfolding to_string number_from
to_string-injective m n e =
    sym (number_from-digits_from (suc m) m [] (omega arith))
    ∙ ap (number_from 0) e
    ∙ number_from-digits_from (suc n) n [] (omega arith)

abbrev pub NoSlash : Str → Type 0
NoSlash [] = Unit
NoSlash (c ∷ s) = ((c == 47) ≡ false) × NoSlash s

NoSlash-digits_from : (fuel n : ℕ) (acc : Str) → NoSlash acc → NoSlash (digits_from fuel n acc)
unfolding digits_from
NoSlash-digits_from zero n acc h = h
NoSlash-digits_from (suc fuel) n acc h =
    let digit : ((n % 10 + 48) == 47) ≡ false = ground arith in
    elim (Bool-cases (ltb n 10)) [
      | inl e ↦ rw e (digit, h)
      | inr e ↦ rw e (NoSlash-digits_from fuel (n / 10) ((n % 10 + 48) ∷ acc) (digit, h))
    ]

pub to_string-NoSlash : (n : ℕ) → NoSlash (to_string n)
unfolding to_string
to_string-NoSlash n = NoSlash-digits_from (suc n) n [] tt

-- What stands before the first slash.
abbrev pub before_slash : Str → Str
before_slash [] = []
before_slash (c ∷ s) = let rest = before_slash s in if c == 47 then [] else c ∷ rest

pub before_slash-append : (s t : Str) → NoSlash s → before_slash (s ++ 47 ∷ t) ≡ s
before_slash-append [] t h = refl
before_slash-append (c ∷ s) t h = rw h.0 (ap (◌∷◌ c) (before_slash-append s t h.1))
