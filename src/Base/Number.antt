-- ===== src/Base/Number.antt =====
-- std::stoull on base 10: blanks, a sign, digits; what follows the digits is not read.
use distributed_testing_syst.Base.Text.{Str, str}
use distributed_testing_syst.Base.Tests.{leb, ltb, ◌==◌, if◌then◌else◌}
use Prim.Native.Nat.{ℕ, ◌+◌, ◌-◌, ◌*◌, ◌%◌, ◌^◌}
use mathlib.Core.Path.{◌≡◌, refl}
use mathlib.Core.Bool.{Bool, ◌&&◌, ◌||◌}
use mathlib.Core.List.{[], ◌∷◌}
use mathlib.Core.Option.{Option, none, some}
use distributed_testing_syst.Base.Outcome.{Outcome, value, throws}

abbrev is_blank : ℕ → Bool
is_blank c = c == 32 || (leb 9 c && leb c 13)

abbrev is_digit : ℕ → Bool
is_digit c = leb 48 c && leb c 57

skip_blanks : Str → Str
skip_blanks [] = []
skip_blanks (c ∷ s) = let rest = skip_blanks s in if is_blank c then rest else c ∷ s

-- The number that the leading digits make, from `n` on.
more_digits : ℕ → Str → ℕ
more_digits n [] = n
more_digits n (c ∷ s) =
    let rest = more_digits (n * 10 + (c - 48)) s in if is_digit c then rest else n

magnitude : Str → Option ℕ
magnitude [] = none
magnitude (c ∷ s) = if is_digit c then some (more_digits 0 (c ∷ s)) else none

in_range : (ℕ → ℕ) → Option ℕ → Outcome ℕ
in_range sign none = throws (str "stoull")
in_range sign (some n) = if ltb n (2 ^ 64) then value (sign n) else throws (str "stoull")

-- A minus sign negates modulo 2^64.
signed : Str → Outcome ℕ
signed [] = throws (str "stoull")
signed (c ∷ s) =
    if c == b'-'
    then in_range (λ n. (2 ^ 64 - n) % 2 ^ 64) (magnitude s)
    else if c == b'+'
    then in_range (λ n. n) (magnitude s)
    else in_range (λ n. n) (magnitude (c ∷ s))

unfoldable pub stoull : Str → Outcome ℕ
unfolding skip_blanks more_digits magnitude in_range signed
stoull s = signed (skip_blanks s)

stoull_runs :
    (stoull (str " 42x") ≡ value 42)
    × (stoull (str "-1") ≡ value 18446744073709551615)
    × (stoull (str "18446744073709551616") ≡ throws (str "stoull"))
    × (stoull (str "abc") ≡ throws (str "stoull"))
unfolding stoull
stoull_runs = (refl, refl, refl, refl)
