-- ===== src/Utils/LruCache.antt =====
-- utils/lru_cache.h. `order_` is a list of nodes, and an iterator into it is the number of a node,
-- which no other node ever has; `values_` is a list of keys with iterators. An iterator that names no
-- node of the list may not be used.
pub mod Values
pub mod Order
pub mod Linked
pub mod Recency
pub mod History
use distributed_testing_syst.Base.{
  ℕ, suc, ◌+◌, List, [], ◌∷◌, Option, none, some, Bool, ltb, ◌==◌, length, if◌then◌else◌,
}
use distributed_testing_syst.Base.Outcome.{Outcome, value, undefined, ◌>>=◌}

pub record Node {ℓ} (K V : Type ℓ) : Type ℓ where
  pub id : ℕ
  pub key : K
  pub content : V

pub record LruCache {ℓ} (K V : Type ℓ) : Type ℓ where
  pub order : List (Node K V)
  pub values : List (K × ℕ)
  pub next_id : ℕ

abbrev pub empty {ℓ} : {K V : Type ℓ} → LruCache K V
empty = record { order = []; values = []; next_id = 0 }

-- The operations of std::list.
module _ {ℓ} {K V : Type ℓ} where
  -- `*it`
  abbrev pub node_at : ℕ → List (Node K V) → Option (Node K V)
  node_at it [] = none
  node_at it (n ∷ order) = if n.id == it then some n else node_at it order

  abbrev pub deref : Option (Node K V) → Outcome (Node K V)
  deref none = undefined
  deref (some n) = value n

  unfoldable pub erase_node : ℕ → List (Node K V) → Outcome (List (Node K V))
  erase_node it [] = undefined
  erase_node it (n ∷ order) =
      let rest = (do order' ← erase_node it order; value (n ∷ order')) in
      if n.id == it then value order else rest

  abbrev pub back : List (Node K V) → Outcome (Node K V)
  back [] = undefined
  back (n ∷ []) = value n
  back (n ∷ m ∷ order) = back (m ∷ order)

  abbrev pub pop_back : List (Node K V) → Outcome (List (Node K V))
  pop_back [] = undefined
  pop_back (n ∷ []) = value []
  pop_back (n ∷ m ∷ order) = do order' ← pop_back (m ∷ order); value (n ∷ order')

module _ {ℓ} {K : Type ℓ} (eq : K → K → Bool) where
  -- The operations of std::unordered_map.
  abbrev pub find_value : K → List (K × ℕ) → Option ℕ
  find_value k [] = none
  find_value k ((j, it) ∷ values) = if eq j k then some it else find_value k values

  unfoldable pub assign_value : K → ℕ → List (K × ℕ) → List (K × ℕ)
  assign_value k it [] = (k, it) ∷ []
  assign_value k it ((j, old) ∷ values) =
      if eq j k then (k, it) ∷ values else (j, old) ∷ assign_value k it values

  unfoldable pub erase_value : K → List (K × ℕ) → List (K × ℕ)
  erase_value k [] = []
  erase_value k ((j, it) ∷ values) =
      let rest = erase_value k values in if eq j k then rest else (j, it) ∷ rest

module _ {ℓ} {K V : Type ℓ} (eq : K → K → Bool) (capacity : ℕ) where
  -- `order_.push_front({key, value}); values_[key] = order_.begin();`
  abbrev pub push : K → V → LruCache K V → LruCache K V
  push key content c = record {
    order = record { id = c.next_id; key = key; content = content } ∷ c.order;
    values = assign_value eq key c.next_id c.values;
    next_id = c.next_id + 1;
  }

  -- The eviction of Insert.
  unfoldable pub evict : LruCache K V → Outcome (LruCache K V)
  evict c =
      if ltb capacity (length c.values)
      then (do
        last ← back c.order
        order ← pop_back c.order
        value (record c { order = order; values = erase_value eq last.key c.values }))
      else value c

  unfoldable pub insert : K → V → LruCache K V → Outcome (LruCache K V)
  unfolding assign_value erase_value
  insert key content c = elim (find_value eq key c.values) [
    | none ↦ evict (push key content c)
    | some it ↦ value c
  ]

  unfoldable pub get : K → LruCache K V → Outcome (LruCache K V × Option V)
  unfolding assign_value erase_node
  get key c = elim (find_value eq key c.values) [
    | none ↦ value (c, none)
    | some it ↦ do
      node ← deref (node_at it c.order)
      order ← erase_node it c.order
      value (push key node.content (record c { order = order }), some node.content)
  ]

  unfoldable pub erase : K → LruCache K V → Outcome (LruCache K V)
  unfolding erase_value erase_node
  erase key c = elim (find_value eq key c.values) [
    | none ↦ value c
    | some it ↦ do
      order ← erase_node it c.order
      value (record c { order = order; values = erase_value eq key c.values })
  ]
