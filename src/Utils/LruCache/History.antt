-- ===== src/Utils/LruCache/History.antt =====
-- Sequences of calls of a cache (utils/lru_cache.h), each under its lock.
use distributed_testing_syst.Base.{
  ℕ, ◌≤◌, List, [], ◌∷◌, Option, Bool, true, length, ◌≡◌, ◌↔◌, refl, arith,
}
use distributed_testing_syst.Base.Outcome.{Outcome, value, ◌>>=◌}
use distributed_testing_syst.Utils.LruCache.{LruCache, empty, insert, get, erase}
use distributed_testing_syst.Utils.LruCache.Order.{lookup, remove, entries}
use distributed_testing_syst.Utils.LruCache.Linked.{IsValid}
use distributed_testing_syst.Utils.LruCache.Recency.{
  after_insert, after_get, insert-after_insert, get-after_get, erase-remove,
}

-- A call, under the lock of the cache.
pub data Call {ℓ} (K V : Type ℓ) : Type ℓ where
  inserts : K → V → Call K V
  gets : K → Call K V
  erases : K → Call K V

module _ {ℓ} {K V : Type ℓ} (eq : K → K → Bool) (capacity : ℕ) where
  -- The calls of a history, one after the other: the cache after them and what Get answers.
  unfoldable pub run : List (Call K V) → LruCache K V → Outcome (LruCache K V × List (Option V))
  run [] c = value (c, [])
  run (inserts k v ∷ calls) c = do c1 ← insert eq capacity k v c; run calls c1
  run (gets k ∷ calls) c = do
    (c1, answer) ← get eq capacity k c
    (c2, answers) ← run calls c1
    value (c2, answer ∷ answers)
  run (erases k ∷ calls) c = do c1 ← erase eq capacity k c; run calls c1

  -- The same on the list of entries, the most recent one first.
  abbrev pub history : List (Call K V) → List (K × V) → List (K × V) × List (Option V)
  history [] l = (l, [])
  history (inserts k v ∷ calls) l = history calls (after_insert eq capacity k v l)
  history (gets k ∷ calls) l =
      let (l', answers) = history calls (after_get eq capacity k l) in (l', lookup eq k l ∷ answers)
  history (erases k ∷ calls) l = history calls (remove eq k l)

module _ {ℓ} {K V : Type ℓ} (eq : K → K → Bool) (eq_iff : (a b : K) → (eq a b ≡ true) ↔ (a ≡ b))
    (capacity : ℕ) where
  IsValid-run :
      (calls : List (Call K V)) (c : LruCache K V)
      → IsValid eq capacity c
      → (c' : LruCache K V) × (run eq capacity calls c
          ≡ value (c', (history eq capacity calls (entries c.order)).1))
        × IsValid eq capacity c'
        × (entries c'.order ≡ (history eq capacity calls (entries c.order)).0)
  unfolding run
  IsValid-run [] c h = (c, refl, h, refl)
  IsValid-run (inserts k v ∷ calls) c h =
      let (c1, done, valid, kept) = insert-after_insert eq eq_iff capacity k v c h in
      let (c2, ran, valid2, kept2) = IsValid-run calls c1 valid in
      (c2, rw done (rw kept at ran), valid2, rw kept at kept2)
  IsValid-run (gets k ∷ calls) c h =
      let (c1, done, valid, kept) = get-after_get eq eq_iff capacity k c h in
      let (c2, ran, valid2, kept2) = IsValid-run calls c1 valid in
      (c2, rw done (rw ran (rw kept refl)), valid2, rw kept at kept2)
  IsValid-run (erases k ∷ calls) c h =
      let (c1, done, valid, kept) = erase-remove eq eq_iff capacity k c h in
      let (c2, ran, valid2, kept2) = IsValid-run calls c1 valid in
      (c2, rw done (rw kept at ran), valid2, rw kept at kept2)

  pub empty-IsValid : IsValid {V = V} eq capacity empty
  empty-IsValid = record {
    is_linked = record { linked = λ k. refl; is_map = tt; distinct = tt; below = tt; sized = refl };
    bounded = omega arith;
  }

  -- Where the keys have a test that decides equality: from the empty cache, every sequence of
  -- Insert, Get and Erase returns, with no use of an invalid iterator; each Get answers what the
  -- list of the entries by recency holds, the entries left are those of that list in its order, and
  -- they are never more than the capacity at the end.
  pub run-history :
      (calls : List (Call K V))
      → (c : LruCache K V) × (run eq capacity calls empty
          ≡ value (c, (history eq capacity calls []).1))
        × (entries c.order ≡ (history eq capacity calls []).0)
        × (length c.order ≤ capacity)
  run-history calls =
      let (c, ran, valid, kept) = IsValid-run calls empty empty-IsValid in
      (c, ran, kept, valid.bounded)
