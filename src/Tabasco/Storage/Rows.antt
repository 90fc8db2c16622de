-- ===== src/Tabasco/Storage/Rows.antt =====
-- The collection taskTests as a table of rows: what a document of it says, and how an upsert of a
-- test acts on the table.
use mathlib.Core.List.{Memᴰ}
use mathlib.Core.List.Memᴰ
use distributed_testing_syst.Base.{
  ℕ, List, [], ◌∷◌, Str, str, str_eq, str_eq_iff, ne_of_str_eq, Bool, true, ◌&&◌, some, ◌≡◌, refl,
  ap, ◌∙◌, Bool-cases, eq_of_iff, arith, inl, inr,
}
use distributed_testing_syst.Base.Int.{ℤ, eq_ℤ, eq_ℤ_iff, to_int64}
use distributed_testing_syst.Base.Outcome.{value}
use distributed_testing_syst.Extern.Json.{Json}
use distributed_testing_syst.Extern.Mongo.{Mongo, Cond, is_int64, is_string, upsert_first}
use distributed_testing_syst.Tabasco.Storage.{test_filter}

pub record Row : Type 0 where
  pub task : ℤ
  pub test : ℤ
  pub kind : Str
  pub content : Str

abbrev pub has_key : ℤ → ℤ → Str → Row → Bool
has_key task test kind r = eq_ℤ r.task task && (eq_ℤ r.test test && str_eq r.kind kind)

abbrev pub upsert_row : ℤ → ℤ → Str → Str → List Row → List Row
upsert_row task test kind content =
    upsert_first (has_key task test kind) (λ r. record r { content = content })
      (record { task = task; test = test; kind = kind; content = content })

module _ (J : Json) (M : Mongo J) where
  pub record IsRow (d : M.Doc) (r : Row) : Type 0 where
    pub task : M.field d (str "taskId") ≡ some (M.int64_val r.task)
    pub test : M.field d (str "testId") ≡ some (M.int64_val r.test)
    pub kind : M.field d (str "testType") ≡ some (M.string_val r.kind)
    pub content : M.field d (str "content") ≡ some (M.string_val r.content)

  -- The documents, one by one, are the rows.
  abbrev pub AreRows : List M.Doc → List Row → Type 0
  AreRows [] [] = Unit
  AreRows (d ∷ ds) (r ∷ rs) = IsRow d r × AreRows ds rs
  AreRows _ _ = ⊥

  pub holds-is_int64_eq :
      (d : M.Doc) (k : Str) (m n : ℤ)
      → M.field d k ≡ some (M.int64_val m)
      → M.holds (is_int64 k n) d ≡ eq_ℤ m n
  holds-is_int64_eq d k m n h = eq_of_iff _ _ (
    λ e. (eq_ℤ_iff m n).1 (M.int64_val-injective m n (cc ((M.holds-is_int64 d k n).0 e, h))),
    λ e.
        let same = (eq_ℤ_iff m n).0 e in
        (M.holds-is_int64 d k n).1 (h ∙ ap (λ x. some (M.int64_val x)) same),
  )

  holds-is_string_eq :
      (d : M.Doc) (k : Str) (s t : Str)
      → M.field d k ≡ some (M.string_val s)
      → M.holds (is_string k t) d ≡ str_eq s t
  holds-is_string_eq d k s t h = eq_of_iff _ _ (
    λ e. (str_eq_iff s t).1 (M.string_val-injective s t (cc ((M.holds-is_string d k t).0 e, h))),
    λ e.
        let same = (str_eq_iff s t).0 e in
        (M.holds-is_string d k t).1 (h ∙ ap (λ x. some (M.string_val x)) same),
  )

  and_true : (b : Bool) → (b && true) ≡ b
  and_true b = ground arith

  matches-test_filter :
      (task_id test_id : ℕ) (kind : Str) (d : M.Doc) (r : Row)
      → IsRow d r
      → M.matches (test_filter J M task_id test_id kind) d
        ≡ has_key (to_int64 task_id) (to_int64 test_id) kind r
  matches-test_filter task_id test_id kind d r h = rw (
    M.matches-cons,
    M.matches-cons,
    M.matches-cons,
    M.matches-nil,
    and_true,
    holds-is_int64_eq d _ r.task _ h.task,
    holds-is_int64_eq d _ r.test _ h.test,
    holds-is_string_eq d _ r.kind _ h.kind,
  )

  module _ (test_doc : M.Doc → Bool) (test_row : Row → Bool) (change_doc : M.Doc → M.Doc)
      (change_row : Row → Row) (new_doc : M.Doc) (new_row : Row)
      (same_test : (d : M.Doc) (r : Row) → IsRow d r → test_doc d ≡ test_row r)
      (same_change : (d : M.Doc) (r : Row) → IsRow d r → IsRow (change_doc d) (change_row r))
      (same_new : IsRow new_doc new_row) where
    AreRows-upsert_first :
        (ds : List M.Doc) (rs : List Row)
        → AreRows ds rs
        → AreRows
            (upsert_first test_doc change_doc new_doc ds)
            (upsert_first test_row change_row new_row rs)
    unfolding upsert_first
    AreRows-upsert_first [] [] h = (same_new, tt)
    AreRows-upsert_first [] (r ∷ rs) h = absurd h
    AreRows-upsert_first (d ∷ ds) [] h = absurd h
    AreRows-upsert_first (d ∷ ds) (r ∷ rs) h =
        let ih = AreRows-upsert_first ds rs h.1 in
        let same = same_test d r h.0 in
        elim (Bool-cases (test_row r)) [
          | inl t ↦ rw (same, t) (same_change d r h.0, h.1)
          | inr f ↦ rw (same, f) (h.0, ih)
        ]

  IsRow-merged :
      (content : Str) (d : M.Doc) (r : Row)
      → IsRow d r
      → IsRow (M.merged d (M.string_doc (str "content") content)) (record r { content = content })
  IsRow-merged content d r is = record {
    task = rw (M.field-merged, M.field-string_doc) (is.task);
    test = rw (M.field-merged, M.field-string_doc) (is.test);
    kind = rw (M.field-merged, M.field-string_doc) (is.kind);
    content = rw (M.field-merged, M.field-string_doc);
  }

  IsRow-seeded :
      (task_id test_id : ℕ) (kind content : Str)
      → IsRow
          (M.seeded (test_filter J M task_id test_id kind) (M.string_doc (str "content") content))
          (record {
            task = to_int64 task_id;
            test = to_int64 test_id;
            kind = kind;
            content = content;
          })
  IsRow-seeded task_id test_id kind content = record {
    task = rw (M.field-seeded f u (str "taskId") (ne_of_str_eq _ _ refl), M.field-string_doc);
    test = rw (M.field-seeded f u (str "testId") (ne_of_str_eq _ _ refl), M.field-string_doc);
    kind = rw (M.field-seeded f u (str "testType") (ne_of_str_eq _ _ refl), M.field-string_doc);
    content = rw (M.field-seeded f u (str "content") (ne_of_str_eq _ _ refl), M.field-string_doc);
  }
    where
      f : List Cond
      f = test_filter J M task_id test_id kind

      u : M.Doc
      u = M.string_doc (str "content") content

  -- An upsert of a test that returned is an upsert of its row.
  pub AreRows-update_one :
      (task_id test_id : ℕ) (kind content : Str) (c c' : M.Coll) (rs : List Row)
      → M.update_one c (test_filter J M task_id test_id kind) (M.string_doc (str "content") content)
        ≡ (value tt, c')
      → AreRows (M.docs c) rs
      → AreRows (M.docs c') (upsert_row (to_int64 task_id) (to_int64 test_id) kind content rs)
  AreRows-update_one task_id test_id kind content c c' rs done h =
      let f = test_filter J M task_id test_id kind in
      let u = M.string_doc (str "content") content in
      rw (M.docs-update_one c c' f u done) (
        AreRows-upsert_first (M.matches f) (has_key (to_int64 task_id) (to_int64 test_id) kind)
          (λ d. M.merged d u) (λ r. record r { content = content }) (M.seeded f u) _
          (matches-test_filter task_id test_id kind) (IsRow-merged content)
          (IsRow-seeded task_id test_id kind content) (M.docs c) rs h)

  pub row_of_doc :
      (ds : List M.Doc) (rs : List Row) (d : M.Doc)
      → AreRows ds rs
      → Memᴰ d ds
      → (r : Row) × Memᴰ r rs × IsRow d r
  row_of_doc [] rs d h m = absurd (Memᴰ.not-nil m)
  row_of_doc (x ∷ ds) [] d h m = absurd h
  row_of_doc (x ∷ ds) (r ∷ rs) d h m = elim (Memᴰ.cases_cons m) [
    | inl e ↦ (r, Memᴰ.head refl, rw e (h.0))
    | inr rest ↦ let (q, mem, is) = row_of_doc ds rs d h.1 rest in (q, Memᴰ.tail mem, is)
  ]

  pub doc_of_row :
      (ds : List M.Doc) (rs : List Row) (r : Row)
      → AreRows ds rs
      → Memᴰ r rs
      → (d : M.Doc) × Memᴰ d ds × IsRow d r
  doc_of_row ds [] r h m = absurd (Memᴰ.not-nil m)
  doc_of_row [] (x ∷ rs) r h m = absurd h
  doc_of_row (d ∷ ds) (x ∷ rs) r h m = elim (Memᴰ.cases_cons m) [
    | inl e ↦ (d, Memᴰ.head refl, rw e (h.0))
    | inr rest ↦ let (q, mem, is) = doc_of_row ds rs r h.1 rest in (q, Memᴰ.tail mem, is)
  ]
