-- ===== src/Utils/LruCache/Recency.antt =====
-- The operations of the cache (utils/lru_cache.h) against a list of entries by recency.
use distributed_testing_syst.Base.{
  ℕ, List, ◌∷◌, Option, none, some, Bool, Option-cases, true, take, is_some, if◌then◌else◌, ◌≡◌,
  ◌↔◌, refl, sym, ap, ◌∙◌, inl, inr, arith,
}
use distributed_testing_syst.Base.Outcome.{value}
use distributed_testing_syst.Utils.LruCache.{
  Node, LruCache, node_at, erase_node, find_value, erase_value, push, evict, insert, get, erase,
}
use distributed_testing_syst.Utils.LruCache.Values.{length-assign_new, length-assign_old}
use distributed_testing_syst.Utils.LruCache.Order.{
  lookup, remove, holder, removed, entries, content_of, entries-removed, lookup-entries,
  holder-removed, Distinct-removed, AreBelow-removed, length-removed, removed_absent,
  node_at-holder, erase_node-removed,
}
use distributed_testing_syst.Utils.LruCache.Linked.{
  id_of, IsValid, remove_node, remove_node-IsLinked, push-IsLinked, evict-take,
}

-- What the operations do to the list of entries.
module _ {ℓ} {K V : Type ℓ} (eq : K → K → Bool) (capacity : ℕ) where
  abbrev pub after_insert : K → V → List (K × V) → List (K × V)
  after_insert k v l = if is_some (lookup eq k l) then l else take capacity ((k, v) ∷ l)

  abbrev pub move_front : K → Option V → List (K × V) → List (K × V)
  move_front k none l = l
  move_front k (some v) l = (k, v) ∷ remove eq k l

  abbrev pub after_get : K → List (K × V) → List (K × V)
  after_get k l = move_front k (lookup eq k l) l

module _ {ℓ} {K V : Type ℓ} (eq : K → K → Bool) (eq_iff : (a b : K) → (eq a b ≡ true) ↔ (a ≡ b))
    (capacity : ℕ) where
  insert-new :
      (k : K) (v : V) (c : LruCache K V)
      → find_value eq k c.values ≡ none
      → insert eq capacity k v c ≡ evict eq capacity (push eq capacity k v c)
  unfolding insert
  insert-new k v c e = rw (e, insert) refl

  insert-old :
      (k : K) (v : V) (it : ℕ) (c : LruCache K V)
      → find_value eq k c.values ≡ some it
      → insert eq capacity k v c ≡ value c
  unfolding insert
  insert-old k v it c e = rw (e, insert) refl

  get-miss :
      (k : K) (c : LruCache K V)
      → find_value eq k c.values ≡ none
      → get eq capacity k c ≡ value (c, none)
  unfolding get
  get-miss k c e = rw (e, get) refl

  get-hit :
      (k : K) (n : Node K V) (order : List (Node K V)) (c : LruCache K V)
      → find_value eq k c.values ≡ some n.id
      → node_at n.id c.order ≡ some n
      → erase_node n.id c.order ≡ value order
      → get eq capacity k c
        ≡ value (push eq capacity k n.content (record c { order = order }), some n.content)
  unfolding get
  get-hit k n order c e at erased = rw (e, get) (rw (at, erased) refl)

  erase-miss :
      (k : K) (c : LruCache K V) → find_value eq k c.values ≡ none → erase eq capacity k c ≡ value c
  unfolding erase
  erase-miss k c e = rw (e, erase) refl

  erase-hit :
      (k : K) (it : ℕ) (order : List (Node K V)) (c : LruCache K V)
      → find_value eq k c.values ≡ some it
      → erase_node it c.order ≡ value order
      → erase eq capacity k c
        ≡ value (record c { order = order; values = erase_value eq k c.values })
  unfolding erase
  erase-hit k it order c e erased = rw (e, erase) (rw erased refl)

  -- Where the keys have a test that decides equality: Insert on a valid cache returns a valid
  -- cache. An entry that is new comes first and the last ones that do not fit are dropped; where
  -- the key is there, its value and the order stay as they are.
  pub insert-after_insert :
      (k : K) (v : V) (c : LruCache K V)
      → IsValid eq capacity c
      → (c' : LruCache K V) × (insert eq capacity k v c ≡ value c')
        × IsValid eq capacity c'
        × (entries c'.order ≡ after_insert eq capacity k v (entries c.order))
  insert-after_insert k v c h =
      let l = h.is_linked in
      elim (Option-cases (holder eq k c.order)) [
        | inl absent ↦
            let found : find_value eq k c.values ≡ none = l.linked k ∙ ap id_of absent in
            let looked : lookup eq k (entries c.order) ≡ none =
              lookup-entries eq eq_iff k c.order ∙ ap content_of absent in
            let pushed =
              push-IsLinked eq eq_iff capacity k v c (λ j ne. l.linked j) absent l.is_map l.distinct
                l.below
                (omega (arith, length-assign_new eq eq_iff k c.next_id c.values found, l.sized)) in
            let (c', evicted, valid, kept) =
              evict-take eq eq_iff capacity (push eq capacity k v c)
                (record { id = c.next_id; key = k; content = v }) c.order refl pushed h.bounded in
            (c', insert-new k v c found ∙ evicted, valid, rw looked kept)
        | inr (n, held) ↦
            let found : find_value eq k c.values ≡ some n.id = l.linked k ∙ ap id_of held in
            let looked : lookup eq k (entries c.order) ≡ some n.content =
              lookup-entries eq eq_iff k c.order ∙ ap content_of held in
            (c, insert-old k v n.id c found, h, rw looked)
      ]

  -- Where the keys have a test that decides equality: Get on a valid cache returns the value of the
  -- key, if it has one, and leaves a valid cache with the entry of the key in front and the others
  -- in their order.
  pub get-after_get :
      (k : K) (c : LruCache K V)
      → IsValid eq capacity c
      → (c' : LruCache K V) × (get eq capacity k c ≡ value (c', lookup eq k (entries c.order)))
        × IsValid eq capacity c'
        × (entries c'.order ≡ after_get eq capacity k (entries c.order))
  get-after_get k c h =
      let l = h.is_linked in
      elim (Option-cases (holder eq k c.order)) [
        | inl absent ↦
            let found : find_value eq k c.values ≡ none = l.linked k ∙ ap id_of absent in
            let looked : lookup eq k (entries c.order) ≡ none =
              lookup-entries eq eq_iff k c.order ∙ ap content_of absent in
            (c, rw looked (get-miss k c found), h, rw looked)
        | inr (n, held) ↦
            let found : find_value eq k c.values ≡ some n.id = l.linked k ∙ ap id_of held in
            let looked : lookup eq k (entries c.order) ≡ some n.content =
              lookup-entries eq eq_iff k c.order ∙ ap content_of held in
            let at = node_at-holder eq eq_iff k c.order n l.distinct held in
            let erased = erase_node-removed eq eq_iff k c.order n l.distinct held in
            let count = length-removed eq eq_iff k c.order n l.distinct held in
            let self : eq k k ≡ true = (eq_iff k k).1 refl in
            let c1 : LruCache K V = record c { order = removed eq k c.order } in
            let pushed =
              push-IsLinked eq eq_iff capacity k n.content c1
                (λ j ne.
                  l.linked j ∙ ap id_of (sym (holder-removed eq eq_iff k c.order j ∙ rw ne refl)))
                (holder-removed eq eq_iff k c.order k ∙ rw self refl) l.is_map
                (Distinct-removed eq eq_iff k c.order l.distinct)
                (AreBelow-removed eq eq_iff k c.next_id c.order l.below)
                (omega (
                  arith,
                  length-assign_old eq eq_iff k c.next_id n.id c.values found,
                  l.sized,
                  count,
                )) in
            (
              push eq capacity k n.content c1,
              rw looked (get-hit k n (removed eq k c.order) c found at erased),
              record { is_linked = pushed; bounded = omega (arith, count, h.bounded) },
              rw looked (ap (◌∷◌ (k, n.content)) (entries-removed eq eq_iff k c.order)),
            )
      ]

  -- Erase on a valid cache removes the entry of the key.
  pub erase-remove :
      (k : K) (c : LruCache K V)
      → IsValid eq capacity c
      → (c' : LruCache K V) × (erase eq capacity k c ≡ value c')
        × IsValid eq capacity c'
        × (entries c'.order ≡ remove eq k (entries c.order))
  erase-remove k c h =
      let l = h.is_linked in
      elim (Option-cases (holder eq k c.order)) [
        | inl absent ↦
            let found : find_value eq k c.values ≡ none = l.linked k ∙ ap id_of absent in
            (
              c,
              erase-miss k c found,
              h,
              sym (ap entries (removed_absent eq eq_iff k c.order absent))
                  ∙ entries-removed eq eq_iff k c.order,
            )
        | inr (n, held) ↦
            let found : find_value eq k c.values ≡ some n.id = l.linked k ∙ ap id_of held in
            let erased = erase_node-removed eq eq_iff k c.order n l.distinct held in
            (
              remove_node eq eq_iff capacity k c,
              erase-hit k n.id (removed eq k c.order) c found erased,
              record {
                is_linked = remove_node-IsLinked eq eq_iff capacity k n c l held;
                bounded =
                    omega (arith, length-removed eq eq_iff k c.order n l.distinct held, h.bounded);
              },
              entries-removed eq eq_iff k c.order,
            )
      ]
