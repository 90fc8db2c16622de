-- ===== src/Utils/Expected.antt =====
-- utils/expected.h: a value or an error.
use distributed_testing_syst.Base.{Bool, true, false, str}
use distributed_testing_syst.Base.Outcome.{Outcome, value, throws}

pub data Expected {ℓ} (A E : Type ℓ) : Type ℓ where
  expected : A → Expected A E
  unexpected : E → Expected A E

module _ {ℓ} {A E : Type ℓ} where
  abbrev pub has_error : Expected A E → Bool
  has_error (expected a) = false
  has_error (unexpected e) = true

  -- std::get on the other alternative throws.
  abbrev pub get_value : Expected A E → Outcome A
  get_value (expected a) = value a
  get_value (unexpected e) = throws (str "std::get: wrong index for variant")

  abbrev pub get_error : Expected A E → Outcome E
  get_error (expected a) = throws (str "std::get: wrong index for variant")
  get_error (unexpected e) = value e
