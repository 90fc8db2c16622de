-- ===== src/Utils/LruCache/Linked.antt =====
-- What a cache is between its operations, and the steps that keep it: a node that leaves, one that
-- comes to the front, and the eviction.
use distributed_testing_syst.Base.{
  ℕ, ◌+◌, ◌≤◌, List, ◌∷◌, Option, none, some, Bool, Bool-cases, true, false, length, take, take_all,
  ltb, ltb→lt, if◌then◌else◌, ◌≡◌, ◌⊎◌, ◌↔◌, refl, sym, ap, ◌∙◌, inl, inr, arith,
}
use distributed_testing_syst.Base.Outcome.{value}
use distributed_testing_syst.Utils.LruCache.{
  Node, LruCache, back, pop_back, find_value, assign_value, erase_value, push, evict,
}
use distributed_testing_syst.Utils.LruCache.Values.{
  IsMap, find-assign, IsMap-assign, find-erase, IsMap-erase, length-erase,
}
use distributed_testing_syst.Utils.LruCache.Order.{
  holder, removed, Distinct, entries, AreBelow, length-entries, AreBelow-suc, node_at_next,
  holder-removed, Distinct-removed, AreBelow-removed, length-removed, pop_back-removed,
}

abbrev pub id_of {ℓ} : {K V : Type ℓ} → Option (Node K V) → Option ℕ
id_of none = none
id_of (some n) = some n.id

-- The map holds the keys of the list, each with the iterator of its node, and a new iterator is
-- one that no node has.
pub record IsLinked {ℓ} {K V : Type ℓ} (eq : K → K → Bool) (c : LruCache K V) : Type ℓ where
  pub linked : (k : K) → find_value eq k c.values ≡ id_of (holder eq k c.order)
  pub is_map : IsMap eq c.values
  pub distinct : Distinct eq c.order
  pub below : AreBelow c.next_id c.order
  pub sized : length c.values ≡ length c.order

pub record IsValid {ℓ} {K V : Type ℓ} (eq : K → K → Bool) (capacity : ℕ) (c : LruCache K V)
    : Type ℓ where
  pub is_linked : IsLinked eq c
  pub bounded : length c.order ≤ capacity

module _ {ℓ} {K V : Type ℓ} (eq : K → K → Bool) (eq_iff : (a b : K) → (eq a b ≡ true) ↔ (a ≡ b))
    (capacity : ℕ) where
  abbrev pub remove_node : K → LruCache K V → LruCache K V
  remove_node k c = record c { order = removed eq k c.order; values = erase_value eq k c.values }

  pub remove_node-IsLinked :
      (k : K) (n : Node K V) (c : LruCache K V)
      → IsLinked eq c
      → holder eq k c.order ≡ some n
      → IsLinked eq (remove_node k c)
  remove_node-IsLinked k n c h found = record {
    linked = λ j. find-erase eq eq_iff k c.values j ∙ linked_if j (Bool-cases (eq k j));
    is_map = IsMap-erase eq eq_iff k c.values h.is_map;
    distinct = Distinct-removed eq eq_iff k c.order h.distinct;
    below = AreBelow-removed eq eq_iff k c.next_id c.order h.below;
    sized = omega (
      arith,
      length-erase eq eq_iff k n.id c.values h.is_map (h.linked k ∙ ap id_of found),
      length-removed eq eq_iff k c.order n h.distinct found,
      h.sized,
    );
  }
    where
      linked_if :
          (j : K)
          → (eq k j ≡ true) ⊎ (eq k j ≡ false)
          → (if eq k j then none else find_value eq j c.values)
            ≡ id_of (holder eq j (removed eq k c.order))
      linked_if j (inl e) = rw (holder-removed eq eq_iff k c.order j) (rw e refl)
      linked_if j (inr e) = rw (holder-removed eq eq_iff k c.order j) (rw e (h.linked j))

  pub push-IsLinked :
      (k : K) (v : V) (c : LruCache K V)
      → ((j : K) → eq k j ≡ false → find_value eq j c.values ≡ id_of (holder eq j c.order))
      → holder eq k c.order ≡ none
      → IsMap eq c.values
      → Distinct eq c.order
      → AreBelow c.next_id c.order
      → length (assign_value eq k c.next_id c.values) ≡ length c.order + 1
      → IsLinked eq (push eq capacity k v c)
  push-IsLinked k v c others absent map distinct below sized = record {
    linked = λ j. find-assign eq eq_iff k c.next_id c.values j ∙ linked_if j (Bool-cases (eq k j));
    is_map = IsMap-assign eq eq_iff k c.next_id c.values map;
    distinct = (absent, node_at_next c.next_id c.order below, distinct);
    below = (omega arith, AreBelow-suc c.next_id c.order below);
    sized = omega (arith, sized);
  }
    where
      linked_if :
          (j : K)
          → (eq k j ≡ true) ⊎ (eq k j ≡ false)
          → (if eq k j then some c.next_id else find_value eq j c.values)
            ≡ id_of (holder eq j (push eq capacity k v c).order)
      linked_if j (inl e) = rw e refl
      linked_if j (inr e) = rw e (others j e)

  evict_full :
      (c : LruCache K V) (m : Node K V) (order : List (Node K V))
      → c.order ≡ m ∷ order
      → IsLinked eq c
      → ltb capacity (length c.values) ≡ true
      → length order ≡ capacity
      → (c' : LruCache K V) × (evict eq capacity c ≡ value c')
        × IsValid eq capacity c'
        × (entries c'.order ≡ take capacity (entries c.order))
  unfolding evict
  evict_full c m order e h full size =
      let (last, is_back, held, popped, kept) =
        pop_back-removed eq eq_iff m order (rw e at (h.distinct)) in
      let is_back' : back c.order ≡ value last = ap back e ∙ is_back in
      let popped' : pop_back c.order ≡ value (removed eq last.key c.order) =
        ap pop_back e ∙ popped ∙ ap (λ o. value (removed eq last.key o)) (sym e) in
      let held' : holder eq last.key c.order ≡ some last = ap (holder eq last.key) e ∙ held in
      (
        remove_node last.key c,
        rw full (rw is_back' (rw popped' refl)),
        record {
          is_linked = remove_node-IsLinked last.key last c h held';
          bounded = omega (
            arith,
            length-removed eq eq_iff last.key c.order last h.distinct held',
            ap length e,
            size,
          );
        },
        ap (λ o. entries (removed eq last.key o)) e
            ∙ kept
            ∙ (λ i. take (size i) (entries (sym e i))),
      )

  -- The eviction of Insert leaves the entries that fit.
  pub evict-take :
      (c : LruCache K V) (m : Node K V) (order : List (Node K V))
      → c.order ≡ m ∷ order
      → IsLinked eq c
      → length order ≤ capacity
      → (c' : LruCache K V) × (evict eq capacity c ≡ value c')
        × IsValid eq capacity c'
        × (entries c'.order ≡ take capacity (entries c.order))
  unfolding evict
  evict-take c m order e h fits =
      let count : length c.order ≡ length order + 1 = omega (arith, ap length e) in
      elim (Bool-cases (ltb capacity (length c.values))) [
        | inl full ↦
            evict_full c m order e h full
              (omega (arith, ltb→lt capacity (length c.values) full, h.sized, count, fits))
        | inr room ↦
            let le : length c.order ≤ capacity = ground (arith, h.sized) in
            (
              c,
              rw room,
              record { is_linked = h; bounded = le },
              sym (take_all (entries c.order) capacity (omega (arith, length-entries c.order, le))),
            )
      ]
