-- ===== src/Examples/LruCache.antt =====
-- A cache of two numbers.
use distributed_testing_syst.Base.{
  ℕ, List, [], ◌∷◌, none, some, length, ◌==◌, ==_iff, ◌≡◌, ◌≤◌, refl, arith,
}
use distributed_testing_syst.Base.Outcome.{value}
use distributed_testing_syst.Utils.LruCache.{LruCache, empty}
use distributed_testing_syst.Utils.LruCache.Order.{entries}
use distributed_testing_syst.Utils.LruCache.Linked.{IsValid}
use distributed_testing_syst.Utils.LruCache.History.{
  Call, inserts, gets, erases, run, history, run-history,
}

abbrev calls : List (Call ℕ ℕ)
calls =
    inserts 1 10
    ∷ inserts 2 20
    ∷ gets 1
    ∷ inserts 3 30
    ∷ gets 2
    ∷ inserts 1 11
    ∷ gets 1
    ∷ erases 3
    ∷ gets 3
    ∷ []

-- Key 2 is the one evicted, and the second Insert of key 1 does not change its value.
answers : (history ◌==◌ 2 calls []).1 ≡ some 10 ∷ none ∷ some 10 ∷ none ∷ []
answers = refl

abbrev full : LruCache ℕ ℕ
full = record {
  order = record { id = 4; key = 1; content = 10 } ∷ record { id = 1; key = 2; content = 20 } ∷ [];
  values = (1, 4) ∷ (2, 1) ∷ [];
  next_id = 5;
}

full-IsValid : IsValid ◌==◌ 2 full
full-IsValid = record {
  is_linked = record {
    linked = λ k. ground arith;
    is_map = (refl, (refl, tt));
    distinct = (refl, refl, (refl, refl, tt));
    below = (omega arith, (omega arith, tt));
    sized = refl;
  };
  bounded = omega arith;
}

run-history_example :
    (c : LruCache ℕ ℕ) × (run ◌==◌ 2 calls empty ≡ value (c, some 10 ∷ none ∷ some 10 ∷ none ∷ []))
    × (entries c.order ≡ (1, 10) ∷ [])
    × (length c.order ≤ 2)
run-history_example = run-history ◌==◌ ==_iff 2 calls
