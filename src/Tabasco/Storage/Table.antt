-- ===== src/Tabasco/Storage/Table.antt =====
-- The table of tests by itself: what a key holds after upserts, and that no key stands twice.
use mathlib.Core.List.{Memᴰ}
use mathlib.Core.List.Memᴰ
use distributed_testing_syst.Base.{
  ℕ, ◌+◌, ◌≤◌, ◌<◌, ◌^◌, List, [], ◌∷◌, Str, str_eq, str_eq_iff, true, false, ◌&&◌, Option, none,
  some, get_elem?, length, if◌then◌else◌, ◌≡◌, ◌↔◌, refl, ◌∙◌, Bool-cases, arith, inl, inr, zero,
  suc,
}
use distributed_testing_syst.Base.Int.{ℤ, eq_ℤ, eq_ℤ_iff, to_int64, to_int64-injective}
use distributed_testing_syst.Extern.Mongo.{upsert_first}
use distributed_testing_syst.Tabasco.Storage.Rows.{Row, has_key, upsert_row}

unfoldable pub lookup_row : ℤ → ℤ → Str → List Row → Option Str
lookup_row task test kind [] = none
lookup_row task test kind (r ∷ rs) =
    if has_key task test kind r then some r.content else lookup_row task test kind rs

-- No key stands twice.
abbrev pub IsKeyed : List Row → Type 0
IsKeyed [] = Unit
IsKeyed (r ∷ rs) = (lookup_row r.task r.test r.kind rs ≡ none) × IsKeyed rs

has_key_iff :
    (task test : ℤ) (kind : Str) (r : Row)
    → (has_key task test kind r ≡ true) ↔ (r.task ≡ task) × (r.test ≡ test) × (r.kind ≡ kind)
has_key_iff task test kind r =
    ground (arith, eq_ℤ_iff r.task task, eq_ℤ_iff r.test test, str_eq_iff r.kind kind)

pub lookup_row-upsert_row :
    (task test : ℤ) (kind content : Str) (task' test' : ℤ) (kind' : Str) (rs : List Row)
    → lookup_row task' test' kind' (upsert_row task test kind content rs) ≡ (
        if eq_ℤ task task' && (eq_ℤ test test' && str_eq kind kind')
        then some content
        else lookup_row task' test' kind' rs)
unfolding lookup_row upsert_first
lookup_row-upsert_row task test kind content task' test' kind' [] = refl
lookup_row-upsert_row task test kind content task' test' kind' (r ∷ rs) = ground (
  arith,
  lookup_row-upsert_row task test kind content task' test' kind' rs,
  eq_ℤ_iff r.task task,
  eq_ℤ_iff r.test test,
  str_eq_iff r.kind kind,
  eq_ℤ_iff r.task task',
  eq_ℤ_iff r.test test',
  str_eq_iff r.kind kind',
  eq_ℤ_iff task task',
  eq_ℤ_iff test test',
  str_eq_iff kind kind',
)

pub IsKeyed-upsert_row :
    (task test : ℤ) (kind content : Str) (rs : List Row)
    → IsKeyed rs
    → IsKeyed (upsert_row task test kind content rs)
unfolding lookup_row upsert_first
IsKeyed-upsert_row task test kind content [] h = (refl, tt)
IsKeyed-upsert_row task test kind content (r ∷ rs) h =
    let ih = IsKeyed-upsert_row task test kind content rs h.1 in
    let other = lookup_row-upsert_row task test kind content r.task r.test r.kind rs in
    ground (
      arith,
      ih,
      h.0,
      other,
      eq_ℤ_iff r.task task,
      eq_ℤ_iff r.test test,
      str_eq_iff r.kind kind,
      eq_ℤ_iff task r.task,
      eq_ℤ_iff test r.test,
      str_eq_iff kind r.kind,
    )

-- A row of the table is what its key holds.
pub lookup_row-mem :
    (r : Row) (rs : List Row)
    → IsKeyed rs
    → Memᴰ r rs
    → lookup_row r.task r.test r.kind rs ≡ some r.content
unfolding lookup_row
lookup_row-mem r [] h m = absurd (Memᴰ.not-nil m)
lookup_row-mem r (x ∷ rs) h m = elim (Memᴰ.cases_cons m) [
  | inl e ↦ rw e (ground (arith, has_key_iff x.task x.test x.kind x))
  | inr rest ↦
      let ih = lookup_row-mem r rs h.1 rest in
      elim (Bool-cases (has_key r.task r.test r.kind x)) [
        | inl t ↦
            let (e, e', e'') = (has_key_iff r.task r.test r.kind x).0 t in
            let none_left : lookup_row r.task r.test r.kind rs ≡ none =
              rw (← e, ← e', ← e'') (h.0) in
            absurd (ground (arith, none_left, ih))
        | inr f ↦ rw f ih
      ]
]

pub mem_of_lookup_row :
    (task test : ℤ) (kind content : Str) (rs : List Row)
    → lookup_row task test kind rs ≡ some content
    → Memᴰ (record { task = task; test = test; kind = kind; content = content }) rs
unfolding lookup_row
mem_of_lookup_row task test kind content [] h = cc
mem_of_lookup_row task test kind content (r ∷ rs) h = elim (Bool-cases (has_key task test kind r)) [
  | inl t ↦ Memᴰ.head (ground (arith, has_key_iff task test kind r))
  | inr f ↦ Memᴰ.tail (mem_of_lookup_row task test kind content rs (ground arith))
]

-- What a loop of UpsertTaskTests does to the table.
unfoldable pub upsert_rows : ℤ → Str → ℕ → List Str → List Row → List Row
upsert_rows task kind i [] rs = rs
upsert_rows task kind i (t ∷ tests) rs =
    upsert_rows task kind (i + 1) tests (upsert_row task (to_int64 (i + 1)) kind t rs)

pub IsKeyed-upsert_rows :
    (task : ℤ) (kind : Str) (i : ℕ) (tests : List Str) (rs : List Row)
    → IsKeyed rs
    → IsKeyed (upsert_rows task kind i tests rs)
unfolding upsert_rows
IsKeyed-upsert_rows task kind i [] rs h = h
IsKeyed-upsert_rows task kind i (t ∷ tests) rs h =
    IsKeyed-upsert_rows task kind (i + 1) tests _
      (IsKeyed-upsert_row task (to_int64 (i + 1)) kind t rs h)

-- Another kind, or another task, is left as it is.
pub lookup_row-upsert_rows_other :
    (task : ℤ) (kind : Str) (i : ℕ) (tests : List Str) (rs : List Row) (task' test' : ℤ)
    (kind' : Str)
    → (eq_ℤ task task' && str_eq kind kind') ≡ false
    → lookup_row task' test' kind' (upsert_rows task kind i tests rs)
      ≡ lookup_row task' test' kind' rs
unfolding upsert_rows
lookup_row-upsert_rows_other task kind i [] rs task' test' kind' h = refl
lookup_row-upsert_rows_other task kind i (t ∷ tests) rs task' test' kind' h =
    lookup_row-upsert_rows_other task kind (i + 1) tests _ task' test' kind' h
    ∙ lookup_row-upsert_row task (to_int64 (i + 1)) kind t task' test' kind' rs
    ∙ ground arith

-- A test id below the first one written is left as it is.
lookup_row-upsert_rows_before :
    (task : ℤ) (kind : Str) (i : ℕ) (tests : List Str) (rs : List Row) (j : ℕ)
    → j ≤ i
    → i + length tests < 2 ^ 63
    → lookup_row task (to_int64 j) kind (upsert_rows task kind i tests rs)
      ≡ lookup_row task (to_int64 j) kind rs
unfolding upsert_rows
lookup_row-upsert_rows_before task kind i [] rs j h small = refl
lookup_row-upsert_rows_before task kind i (t ∷ tests) rs j h small =
    lookup_row-upsert_rows_before task kind (i + 1) tests _ j (omega arith) (omega arith)
    ∙ lookup_row-upsert_row task (to_int64 (i + 1)) kind t task (to_int64 j) kind rs
    ∙ ground (arith, eq_ℤ_iff (to_int64 (i + 1)) (to_int64 j), to_int64-injective (i + 1) j)

-- After the loop the ids i + 1, i + 2, … hold the tests, in order.
pub lookup_row-upsert_rows :
    (task : ℤ) (kind : Str) (i : ℕ) (tests : List Str) (rs : List Row) (j : ℕ)
    → j < length tests
    → i + length tests < 2 ^ 63
    → lookup_row task (to_int64 (i + 1 + j)) kind (upsert_rows task kind i tests rs)
      ≡ get_elem? tests j
unfolding upsert_rows
lookup_row-upsert_rows task kind i [] rs j h small = absurd (omega arith)
lookup_row-upsert_rows task kind i (t ∷ tests) rs zero h small =
    let e : i + 1 + 0 ≡ i + 1 = omega arith in
    rw e (
      lookup_row-upsert_rows_before task kind (i + 1) tests _ (i + 1) (omega arith) (omega arith)
      ∙ lookup_row-upsert_row task (to_int64 (i + 1)) kind t task (to_int64 (i + 1)) kind rs
      ∙ ground (
        arith,
        eq_ℤ_iff task task,
        eq_ℤ_iff (to_int64 (i + 1)) (to_int64 (i + 1)),
        str_eq_iff kind kind,
      ))
lookup_row-upsert_rows task kind i (t ∷ tests) rs (suc j) h small =
    let e : i + 1 + suc j ≡ i + 1 + 1 + j = omega arith in
    rw e (lookup_row-upsert_rows task kind (i + 1) tests _ j (omega arith) (omega arith))
