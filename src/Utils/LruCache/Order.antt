-- ===== src/Utils/LruCache/Order.antt =====
-- The list of nodes, and the entries that it stands for.
use distributed_testing_syst.Base.{
  ℕ, suc, ◌+◌, ◌<◌, List, [], ◌∷◌, Option, none, some, Bool, Bool-cases, true, false, length, take,
  ◌==◌, if◌then◌else◌, ◌≡◌, ◌↔◌, refl, sym, ap, ◌∙◌, inl, inr, arith,
}
use distributed_testing_syst.Base.Outcome.{value}
use distributed_testing_syst.Utils.LruCache.{Node, node_at, erase_node, back, pop_back}

-- A cache as a list of entries, the most recent one first.
module _ {ℓ} {K V : Type ℓ} (eq : K → K → Bool) where
  abbrev pub lookup : K → List (K × V) → Option V
  lookup k [] = none
  lookup k ((j, v) ∷ l) = if eq j k then some v else lookup k l

  abbrev pub remove : K → List (K × V) → List (K × V)
  remove k [] = []
  remove k ((j, v) ∷ l) = let rest = remove k l in if eq j k then rest else (j, v) ∷ rest

  -- The node of a key, and the nodes of the other keys.
  abbrev pub holder : K → List (Node K V) → Option (Node K V)
  holder k [] = none
  holder k (n ∷ order) = if eq n.key k then some n else holder k order

  abbrev pub removed : K → List (Node K V) → List (Node K V)
  removed k [] = []
  removed k (n ∷ order) = let rest = removed k order in if eq n.key k then rest else n ∷ rest

  -- No key and no iterator is in the list twice.
  abbrev pub Distinct : List (Node K V) → Type ℓ
  Distinct [] = Unit
  Distinct (n ∷ order) = (holder n.key order ≡ none) × (node_at n.id order ≡ none) × Distinct order

abbrev pub entries {ℓ} : {K V : Type ℓ} → List (Node K V) → List (K × V)
entries [] = []
entries (n ∷ order) = (n.key, n.content) ∷ entries order

abbrev pub content_of {ℓ} : {K V : Type ℓ} → Option (Node K V) → Option V
content_of none = none
content_of (some n) = some n.content

abbrev pub AreBelow {ℓ} : {K V : Type ℓ} → ℕ → List (Node K V) → Type 0
AreBelow next [] = Unit
AreBelow next (n ∷ order) = (n.id < next) × AreBelow next order

pub length-entries {ℓ} :
    {K V : Type ℓ} (order : List (Node K V)) → length (entries order) ≡ length order
length-entries [] = refl
length-entries (n ∷ order) = ap suc (length-entries order)

pub AreBelow-suc {ℓ} :
    {K V : Type ℓ} (next : ℕ) (order : List (Node K V))
    → AreBelow next order
    → AreBelow (next + 1) order
AreBelow-suc next [] h = tt
AreBelow-suc next (n ∷ order) h = (omega (arith, h.0), AreBelow-suc next order h.1)

pub node_at_next {ℓ} :
    {K V : Type ℓ} (next : ℕ) (order : List (Node K V))
    → AreBelow next order
    → node_at next order ≡ none
node_at_next next [] h = refl
node_at_next next (n ∷ order) h = ground (arith, node_at_next next order h.1, h.0)

module _ {ℓ} {K V : Type ℓ} (eq : K → K → Bool)
    (eq_iff : (a b : K) → (eq a b ≡ true) ↔ (a ≡ b)) where
  pub entries-removed :
      (k : K) (order : List (Node K V)) → entries (removed eq k order) ≡ remove eq k (entries order)
  entries-removed k [] = refl
  entries-removed k (n ∷ order) = ground (arith, entries-removed k order)

  pub lookup-entries :
      (k : K) (order : List (Node K V))
      → lookup eq k (entries order) ≡ content_of (holder eq k order)
  lookup-entries k [] = refl
  lookup-entries k (n ∷ order) = ground (arith, lookup-entries k order)

  pub holder-removed :
      (k : K) (order : List (Node K V)) (j : K)
      → holder eq j (removed eq k order) ≡ (if eq k j then none else holder eq j order)
  holder-removed k [] j = ground arith
  holder-removed k (n ∷ order) j =
      ground (arith, holder-removed k order j, eq_iff n.key k, eq_iff n.key j, eq_iff k j)

  node_at-removed :
      (k : K) (order : List (Node K V)) (it : ℕ)
      → node_at it order ≡ none
      → node_at it (removed eq k order) ≡ none
  node_at-removed k [] it h = refl
  node_at-removed k (n ∷ order) it h = ground (arith, node_at-removed k order it)

  pub Distinct-removed :
      (k : K) (order : List (Node K V)) → Distinct eq order → Distinct eq (removed eq k order)
  Distinct-removed k [] h = tt
  Distinct-removed k (n ∷ order) h =
      let rest = Distinct-removed k order h.2 in
      elim (Bool-cases (eq n.key k)) [
        | inl e ↦ rw e rest
        | inr e ↦ rw e (
          rw (holder-removed k order n.key, h.0) (ground arith),
          node_at-removed k order n.id h.1,
          rest,
        )
      ]

  pub AreBelow-removed :
      (k : K) (next : ℕ) (order : List (Node K V))
      → AreBelow next order
      → AreBelow next (removed eq k order)
  AreBelow-removed k next [] h = tt
  AreBelow-removed k next (n ∷ order) h = ground (arith, AreBelow-removed k next order h.1, h.0)

  pub removed_absent :
      (k : K) (order : List (Node K V)) → holder eq k order ≡ none → removed eq k order ≡ order
  removed_absent k [] h = refl
  removed_absent k (n ∷ order) h = ground (arith, removed_absent k order)

  pub length-removed :
      (k : K) (order : List (Node K V)) (n : Node K V)
      → Distinct eq order
      → holder eq k order ≡ some n
      → length (removed eq k order) + 1 ≡ length order
  length-removed k [] n h found = cc
  length-removed k (m ∷ order) n h found =
      ground (arith, length-removed k order n h.2, removed_absent k order, eq_iff m.key k, h.0)

  pub key-holder :
      (k : K) (order : List (Node K V)) (n : Node K V) → holder eq k order ≡ some n → n.key ≡ k
  key-holder k [] n found = cc
  key-holder k (m ∷ order) n found = ground (arith, key-holder k order n, eq_iff m.key k)

  keys_apart :
      (m n : Node K V) (order : List (Node K V))
      → holder eq m.key order ≡ none
      → holder eq n.key order ≡ some n
      → eq m.key n.key ≡ false
  keys_apart m n order h e = elim (Bool-cases (eq m.key n.key)) [
    | inl t ↦
        let same : m.key ≡ n.key = (eq_iff m.key n.key).0 t in
        cc (sym h ∙ ap (λ j. holder eq j order) same ∙ e)
    | inr f ↦ f
  ]

  apart :
      (m n : Node K V) (order : List (Node K V))
      → node_at m.id order ≡ none
      → node_at n.id order ≡ some n
      → (m.id == n.id) ≡ false
  apart m n order h e = elim (Bool-cases (m.id == n.id)) [
    | inl t ↦
        let same : m.id ≡ n.id = ground arith in cc (sym h ∙ ap (λ i. node_at i order) same ∙ e)
    | inr f ↦ f
  ]

  pub node_at-holder :
      (k : K) (order : List (Node K V)) (n : Node K V)
      → Distinct eq order
      → holder eq k order ≡ some n
      → node_at n.id order ≡ some n
  node_at-holder k [] n h found = cc
  node_at-holder k (m ∷ order) n h found = elim (Bool-cases (eq m.key k)) [
    | inl e ↦ let same : m ≡ n = cc (rw e at found) in rw (← same) (ground arith)
    | inr e ↦
        let rest = node_at-holder k order n h.2 (rw e at found) in
        rw (apart m n order h.1 rest) rest
  ]

  pub erase_node-removed :
      (k : K) (order : List (Node K V)) (n : Node K V)
      → Distinct eq order
      → holder eq k order ≡ some n
      → erase_node n.id order ≡ value (removed eq k order)
  unfolding erase_node
  erase_node-removed k [] n h found = cc
  erase_node-removed k (m ∷ order) n h found = elim (Bool-cases (eq m.key k)) [
    | inl e ↦
        let same : m ≡ n = cc (rw e at found) in
        let key : m.key ≡ k = (eq_iff m.key k).0 e in
        let none_left : holder eq k order ≡ none = ap (λ j. holder eq j order) (sym key) ∙ h.0 in
        rw e (rw (removed_absent k order none_left) (rw (← same) (ground arith)))
    | inr e ↦
        let found' = rw e at found in
        let rest = erase_node-removed k order n h.2 found' in
        rw e (rw (apart m n order h.1 (node_at-holder k order n h.2 found')) (rw rest refl))
  ]

  -- The last node, and the list without it.
  pub pop_back-removed :
      (m : Node K V) (order : List (Node K V))
      → Distinct eq (m ∷ order)
      → (last : Node K V) × (back (m ∷ order) ≡ value last)
        × (holder eq last.key (m ∷ order) ≡ some last)
        × (pop_back (m ∷ order) ≡ value (removed eq last.key (m ∷ order)))
        × (entries (removed eq last.key (m ∷ order)) ≡ take (length order) (entries (m ∷ order)))
  pop_back-removed m [] h =
      let self : eq m.key m.key ≡ true = (eq_iff m.key m.key).1 refl in
      (m, refl, rw self, rw self, rw self)
  pop_back-removed m (n ∷ order) h =
      let (last, is_back, held, popped, kept) = pop_back-removed n order h.2 in
      let other : eq m.key last.key ≡ false = keys_apart m last (n ∷ order) h.0 held in
      (
        last,
        is_back,
        rw other held,
        rw (other, popped) refl,
        rw other (ap (◌∷◌ (m.key, m.content)) kept),
      )
