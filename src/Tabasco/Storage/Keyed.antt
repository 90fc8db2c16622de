-- ===== src/Tabasco/Storage/Keyed.antt =====
-- Collections that the storage client reads and writes by an id, as an interface, and sequences of
-- its writes and reads against the list of what was written. History has its two implementations.
use distributed_testing_syst.Base.{
  ℕ, List, [], ◌∷◌, Option, none, some, Str, ◌==◌, ==_iff, if◌then◌else◌, Bool-cases, ◌<◌, ◌^◌, ◌≡◌,
  ◌≢◌, arith, inl, inr,
}
use distributed_testing_syst.Base.Outcome.{Outcome, value}

-- `found` is the reply of a read to an item that was written, `missing` that to an id with none.
-- `Holds` and `Lacks` say what a collection has of an item and of an id.
pub record Keyed (Coll Item Reply : Type 0) : Type 1 where
  pub key : Item → ℕ
  pub upsert : Item → Coll → Outcome (Option Str) × Coll
  pub get : ℕ → Coll → Outcome Reply
  pub found : Item → Reply
  pub missing : ℕ → Reply
  pub IsValid : Coll → Type 0
  pub Holds : Item → Coll → Type 0
  pub Lacks : ℕ → Coll → Type 0
  pub upsert-IsValid :
      (x : Item) (c c' : Coll) → upsert x c ≡ (value none, c') → IsValid c → IsValid c'
  pub upsert-Holds :
      (x : Item) (c c' : Coll) → upsert x c ≡ (value none, c') → IsValid c → Holds x c'
  -- A write of another id leaves both as they are.
  pub Holds-upsert :
      (x y : Item) (c c' : Coll)
      → key y ≢ key x
      → key y < 2 ^ 64
      → key x < 2 ^ 64
      → upsert y c ≡ (value none, c')
      → Holds x c
      → Holds x c'
  pub Lacks-upsert :
      (id : ℕ) (y : Item) (c c' : Coll)
      → key y ≢ id
      → key y < 2 ^ 64
      → id < 2 ^ 64
      → upsert y c ≡ (value none, c')
      → Lacks id c
      → Lacks id c'
  pub get-Holds : (x : Item) (c : Coll) → Holds x c → get (key x) c ≡ value (found x)
  pub get-Lacks : (id : ℕ) (c : Coll) → Lacks id c → get id c ≡ value (missing id)

-- A call, with what a read returned.
pub data Call (Item Reply : Type 0) : Type 0 where
  wrote : Item → Call Item Reply
  read : ℕ → Outcome Reply → Call Item Reply

module _ {Coll Item Reply : Type 0} (K : Keyed Coll Item Reply) where
  -- The last item with an id, of those that were written, the last one first.
  abbrev pub last_written : ℕ → List Item → Option Item
  last_written id [] = none
  last_written id (x ∷ xs) = if K.key x == id then some x else last_written id xs

  abbrev pub answer : ℕ → Option Item → Reply
  answer id none = K.missing id
  answer id (some x) = K.found x

  -- The ids are of 64 bits.
  abbrev pub Fit : List (Call Item Reply) → Type 0
  Fit [] = Unit
  Fit (wrote x ∷ calls) = (K.key x < 2 ^ 64) × Fit calls
  Fit (read id r ∷ calls) = (id < 2 ^ 64) × Fit calls

  -- Every read after these writes returns the last item with its id, or that there is none.
  abbrev pub ReadsRight : List Item → List (Call Item Reply) → Type 0
  ReadsRight xs [] = Unit
  ReadsRight xs (wrote x ∷ calls) = ReadsRight (x ∷ xs) calls
  ReadsRight xs (read id r ∷ calls) =
      (r ≡ value (answer id (last_written id xs))) × ReadsRight xs calls

  -- The calls one after the other, while no write reports an error.
  pub data Calls : Coll → List (Call Item Reply) → Type 0 where
    stops : {c : Coll} → Calls c []
    writes :
        {c c' : Coll} {calls : List (Call Item Reply)} (x : Item)
        → K.upsert x c ≡ (value none, c')
        → Calls c' calls
        → Calls c (wrote x ∷ calls)
    reads :
        {c : Coll} {calls : List (Call Item Reply)} (id : ℕ)
        → Calls c calls
        → Calls c (read id (K.get id c) ∷ calls)

  abbrev Has : ℕ → Option Item → Coll → Type 0
  Has id none c = K.Lacks id c
  Has id (some x) c = K.Holds x c × (K.key x ≡ id)

  Has-upsert :
      (id : ℕ) (o : Option Item) (y : Item) (c c' : Coll)
      → K.key y ≢ id
      → K.key y < 2 ^ 64
      → id < 2 ^ 64
      → K.upsert y c ≡ (value none, c')
      → Has id o c
      → Has id o c'
  Has-upsert id none y c c' apart fits fits' done h =
      K.Lacks-upsert id y c c' apart fits fits' done h
  Has-upsert id (some x) y c c' apart fits fits' done h =
      (K.Holds-upsert x y c c' (rw (h.1) apart) fits (rw (h.1) fits') done (h.0), h.1)

  Has-get : (id : ℕ) (o : Option Item) (c : Coll) → Has id o c → K.get id c ≡ value (answer id o)
  Has-get id none c h = K.get-Lacks id c h
  Has-get id (some x) c h = rw (← (h.1)) (K.get-Holds x c (h.0))

  -- The collection has what was written last, of every id.
  abbrev HasAll : List Item → Coll → Type 0
  HasAll xs c = (id : ℕ) → id < 2 ^ 64 → Has id (last_written id xs) c

  HasAll-upsert :
      (xs : List Item) (x : Item) (c c' : Coll)
      → K.key x < 2 ^ 64
      → K.upsert x c ≡ (value none, c')
      → K.IsValid c
      → HasAll xs c
      → HasAll (x ∷ xs) c'
  HasAll-upsert xs x c c' fits done valid h id fits' = elim (Bool-cases (K.key x == id)) [
    | inl same ↦ rw same (K.upsert-Holds x c c' done valid, (==_iff (K.key x) id).0 same)
    | inr other ↦
        let apart : K.key x ≢ id = λ e. ground (arith, other, e, ==_iff (K.key x) id) in
        rw other (Has-upsert id (last_written id xs) x c c' apart fits fits' done (h id fits'))
  ]

  Calls-ReadsRight_from :
      {c : Coll} {calls : List (Call Item Reply)} (xs : List Item)
      → Calls c calls
      → K.IsValid c
      → HasAll xs c
      → Fit calls
      → ReadsRight xs calls
  Calls-ReadsRight_from xs stops valid h fit = tt
  Calls-ReadsRight_from xs (writes {c = c} {c' = c'} x done rest) valid h fit =
      Calls-ReadsRight_from (x ∷ xs) rest (K.upsert-IsValid x c c' done valid)
        (HasAll-upsert xs x c c' fit.0 done valid h) fit.1
  Calls-ReadsRight_from xs (reads {c = c} id rest) valid h fit =
      (Has-get id (last_written id xs) c (h id fit.0), Calls-ReadsRight_from xs rest valid h fit.1)

  -- On a collection that is valid and lacks every id at first, each read of a sequence of calls whose
  -- writes report no error, with ids of 64 bits, returns what was written last.
  pub Calls-ReadsRight :
      {c : Coll} {calls : List (Call Item Reply)}
      → Calls c calls
      → K.IsValid c
      → ((id : ℕ) → K.Lacks id c)
      → Fit calls
      → ReadsRight [] calls
  Calls-ReadsRight done valid empty = Calls-ReadsRight_from [] done valid (λ id fits. empty id)
