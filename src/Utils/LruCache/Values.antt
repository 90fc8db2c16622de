-- ===== src/Utils/LruCache/Values.antt =====
-- The map from keys to iterators.
use distributed_testing_syst.Base.{
  ℕ, ◌+◌, List, [], ◌∷◌, none, some, Bool, true, length, if◌then◌else◌, ◌≡◌, ◌↔◌, refl, arith,
}
use distributed_testing_syst.Utils.LruCache.{find_value, assign_value, erase_value}

module _ {ℓ} {K : Type ℓ} (eq : K → K → Bool) where
  -- No key is in the map twice.
  abbrev pub IsMap : List (K × ℕ) → Type 0
  IsMap [] = Unit
  IsMap ((k, it) ∷ values) = (find_value eq k values ≡ none) × IsMap values

module _ {ℓ} {K : Type ℓ} (eq : K → K → Bool) (eq_iff : (a b : K) → (eq a b ≡ true) ↔ (a ≡ b)) where
  pub find-assign :
      (k : K) (it : ℕ) (values : List (K × ℕ)) (j : K)
      → find_value eq j (assign_value eq k it values)
        ≡ (if eq k j then some it else find_value eq j values)
  unfolding assign_value
  find-assign k it [] j = refl
  find-assign k it ((i, old) ∷ values) j =
      ground (arith, find-assign k it values j, eq_iff i k, eq_iff i j, eq_iff k j)

  pub IsMap-assign :
      (k : K) (it : ℕ) (values : List (K × ℕ))
      → IsMap eq values
      → IsMap eq (assign_value eq k it values)
  unfolding assign_value
  IsMap-assign k it [] h = (refl, tt)
  IsMap-assign k it ((i, old) ∷ values) h =
      ground
        (arith, IsMap-assign k it values h.1, find-assign k it values i, eq_iff i k, eq_iff k i)

  pub length-assign_new :
      (k : K) (it : ℕ) (values : List (K × ℕ))
      → find_value eq k values ≡ none
      → length (assign_value eq k it values) ≡ length values + 1
  unfolding assign_value
  length-assign_new k it [] h = omega arith
  length-assign_new k it ((i, old) ∷ values) h = ground (arith, length-assign_new k it values)

  pub length-assign_old :
      (k : K) (it old : ℕ) (values : List (K × ℕ))
      → find_value eq k values ≡ some old
      → length (assign_value eq k it values) ≡ length values
  unfolding assign_value
  length-assign_old k it old [] h = cc
  length-assign_old k it old ((i, old') ∷ values) h =
      ground (arith, length-assign_old k it old values)

  pub find-erase :
      (k : K) (values : List (K × ℕ)) (j : K)
      → find_value eq j (erase_value eq k values)
        ≡ (if eq k j then none else find_value eq j values)
  unfolding erase_value
  find-erase k [] j = ground arith
  find-erase k ((i, old) ∷ values) j =
      ground (arith, find-erase k values j, eq_iff i k, eq_iff i j, eq_iff k j)

  pub IsMap-erase :
      (k : K) (values : List (K × ℕ)) → IsMap eq values → IsMap eq (erase_value eq k values)
  unfolding erase_value
  IsMap-erase k [] h = tt
  IsMap-erase k ((i, old) ∷ values) h =
      ground (arith, IsMap-erase k values h.1, find-erase k values i)

  erase_absent :
      (k : K) (values : List (K × ℕ))
      → find_value eq k values ≡ none
      → erase_value eq k values ≡ values
  unfolding erase_value
  erase_absent k [] h = refl
  erase_absent k ((i, old) ∷ values) h = ground (arith, erase_absent k values)

  pub length-erase :
      (k : K) (it : ℕ) (values : List (K × ℕ))
      → IsMap eq values
      → find_value eq k values ≡ some it
      → length (erase_value eq k values) + 1 ≡ length values
  unfolding erase_value
  length-erase k it [] h found = cc
  length-erase k it ((i, old) ∷ values) h found =
      ground (arith, length-erase k it values h.1, erase_absent k values, eq_iff i k, h.0)
