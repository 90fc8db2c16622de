-- ===== src/Base/Outcome.antt =====
-- What a C++ call ends in: a value, an exception with its message, or undefined behaviour (an
-- access out of bounds). An action also passes on the state that it worked on.
use mathlib.Core.Path.{◌≡◌, refl}
use mathlib.Core.List.{List, [], ◌∷◌}
use distributed_testing_syst.Base.Text.{Str}

pub data Outcome {ℓ} (A : Type ℓ) : Type ℓ where
  value : A → Outcome A
  throws : Str → Outcome A
  undefined : Outcome A

infixl 5 ◌>>=◌ ◌>>◌
abbrev pub ◌>>=◌ {ℓ κ} : {A : Type ℓ} {B : Type κ} → Outcome A → (A → Outcome B) → Outcome B
value a >>= f = f a
throws e >>= f = throws e
undefined >>= f = undefined

abbrev pub ◌>>◌ {ℓ κ} : {A : Type ℓ} {B : Type κ} → Outcome A → Outcome B → Outcome B
m >> k = m >>= λ _. k

-- Each item in turn; the first that does not return ends the loop.
unfoldable pub traverse {ℓ κ} :
    {A : Type ℓ} {B : Type κ} → (A → Outcome B) → List A → Outcome (List B)
traverse f [] = value []
traverse f (x ∷ xs) = do y ← f x; ys ← traverse f xs; value (y ∷ ys)

-- Inversion of a bind that returned.
pub >>=-eq-value {ℓ κ} :
    {A : Type ℓ} {B : Type κ} (m : Outcome A) (f : A → Outcome B) {b : B}
    → (m >>= f) ≡ value b
    → (a : A) × (m ≡ value a) × (f a ≡ value b)
>>=-eq-value (value a) f h = (a, refl, h)
>>=-eq-value (throws e) f h = cc
>>=-eq-value undefined f h = cc

-- Not undefined: a value or an exception.
pub data IsDefined {ℓ} {A : Type ℓ} : Outcome A → Type ℓ where
  returned : (a : A) → IsDefined (value a)
  threw : (e : Str) → IsDefined (throws e)

pub >>=-IsDefined {ℓ κ} :
    {A : Type ℓ} {B : Type κ} (m : Outcome A) (f : A → Outcome B)
    → IsDefined m
    → ((a : A) → IsDefined (f a))
    → IsDefined (m >>= f)
>>=-IsDefined _ f (returned a) k = k a
>>=-IsDefined _ f (threw e) k = threw e
