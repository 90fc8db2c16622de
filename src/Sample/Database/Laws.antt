-- ===== src/Sample/Database/Laws.antt =====
-- The laws of Extern.Mongo on them.
use mathlib.Core.List.{Memᴰ}
use mathlib.Core.List.Memᴰ
use mathlib.Core.Option
use distributed_testing_syst.Base.{
  ◌≡◌, ◌↔◌, refl, ap, sym, ◌∙◌, Bool, true, false, Bool-cases, List, [], ◌∷◌, ◌++◌, Option, none,
  some, Str, str, str_eq_iff, arith, inl, inr,
}
use distributed_testing_syst.Base.Int.{ℤ, ◌≤ℤ◌, eq_ℤ_iff}
use distributed_testing_syst.Base.Outcome.{Outcome, value}
use distributed_testing_syst.Extern.Mongo.{Cond, is_int64, is_string, within, or_else, required}
use distributed_testing_syst.Sample.Trees.{
  Tree, null, num, text, arr, obj, Fields, end, member, find_member, tree_find,
}
use distributed_testing_syst.Sample.Database.Defs.{
  Coll, Doc, Val, all_hold, commit, doc_field, doc_of_fields, doc_of_tree, equalities, fields_of,
  first_match, fits_id, has_unique_ids, int64, is_id, is_text, is_within, json, lacks_id, selected,
  string, tree_of,
}

pub doc_field-append :
    (d e : Doc) (k : Str) → doc_field (d ++ e) k ≡ or_else (doc_field d k) (doc_field e k)
doc_field-append [] e k = refl
doc_field-append ((j, v) ∷ d) e k = ground (arith, doc_field-append d e k)

pub doc_field-equalities :
    (f : List Cond) (k : Str) → doc_field (equalities f) k ≡ required int64 string f k
doc_field-equalities [] k = refl
doc_field-equalities (is_int64 j n ∷ f) k = ground (arith, doc_field-equalities f k)
doc_field-equalities (is_string j s ∷ f) k = ground (arith, doc_field-equalities f k)
doc_field-equalities (within j lo hi ∷ f) k = doc_field-equalities f k

pub holds-within_lem :
    (o : Option Val) (lo hi n : ℤ)
    → o ≡ some (int64 n)
    → (is_within lo hi o ≡ true) ↔ (lo ≤ℤ n) × (n ≤ℤ hi)
holds-within_lem o lo hi n h = ground arith

pub holds-is_int64_lem : (o : Option Val) (n : ℤ) → (is_id n o ≡ true) ↔ (o ≡ some (int64 n))
holds-is_int64_lem none n = (λ e. cc, λ e. cc)
holds-is_int64_lem (some (int64 m)) n =
    (λ e. ground (arith, eq_ℤ_iff m n), λ e. ground (arith, eq_ℤ_iff m n))
holds-is_int64_lem (some (string s)) n = (λ e. cc, λ e. cc)
holds-is_int64_lem (some (json s)) n = (λ e. cc, λ e. cc)

pub holds-is_string_lem : (o : Option Val) (s : Str) → (is_text s o ≡ true) ↔ (o ≡ some (string s))
holds-is_string_lem none s = (λ e. cc, λ e. cc)
holds-is_string_lem (some (string t)) s =
    (λ e. ground (arith, str_eq_iff t s), λ e. ground (arith, str_eq_iff t s))
holds-is_string_lem (some (int64 t)) s = (λ e. cc, λ e. cc)
holds-is_string_lem (some (json t)) s = (λ e. cc, λ e. cc)

pub field-doc_of_tree :
    (v : Tree) (d : Doc) (k : Str)
    → doc_of_tree v ≡ value d
    → doc_field d k ≡ Option.map json (tree_find v k)
field-doc_of_tree (obj fs) d k h = let same : doc_of_fields fs ≡ d = cc in rw (← same) (go fs)
  where
    go : (fs : Fields) → doc_field (doc_of_fields fs) k ≡ Option.map json (find_member fs k)
    go end = refl
    go (member j v fs) = ground (arith, go fs)
field-doc_of_tree null d k h = cc
field-doc_of_tree (num n) d k h = cc
field-doc_of_tree (text n) d k h = cc
field-doc_of_tree (arr n) d k h = cc

pub find-fields_of :
    (d : Doc) (k : Str) → find_member (fields_of d) k ≡ Option.map tree_of (doc_field d k)
find-fields_of [] k = refl
find-fields_of ((j, v) ∷ d) k = ground (arith, find-fields_of d k)

pub commit-docs :
    (c c' : Coll) (ds : List Doc) (b : Bool) (h : has_unique_ids ds ≡ b)
    → commit c ds b h ≡ (value tt, c')
    → c'.docs ≡ ds
commit-docs c c' ds true h e = ap (λ p. p.1.docs) (sym e)
commit-docs c c' ds false h e = absurd (ground arith)

pub first_match-none :
    (f : List Cond) (ds : List Doc) (d : Doc)
    → first_match f ds ≡ none
    → Memᴰ d ds
    → all_hold f d ≡ false
first_match-none f [] d h m = absurd (Memᴰ.not-nil m)
first_match-none f (x ∷ ds) d h m = elim (Memᴰ.cases_cons m) [
  | inl e ↦ rw e (ground arith)
  | inr rest ↦ first_match-none f ds d (ground arith) rest
]

pub first_match-some :
    (f : List Cond) (ds : List Doc) (d : Doc)
    → first_match f ds ≡ some d
    → Memᴰ d ds × (all_hold f d ≡ true)
first_match-some f [] d h = cc
first_match-some f (x ∷ ds) d h = elim (Bool-cases (all_hold f x)) [
  | inl t ↦ let same : x ≡ d = ground arith in (Memᴰ.head (sym same), rw (← same) t)
  | inr e ↦ let (m, t) = first_match-some f ds d (ground arith) in (Memᴰ.tail m, t)
]

pub selected_sound :
    (f : List Cond) (ds : List Doc) (d : Doc)
    → Memᴰ d (selected f ds)
    → Memᴰ d ds × (all_hold f d ≡ true)
selected_sound f [] d m = absurd (Memᴰ.not-nil m)
selected_sound f (x ∷ ds) d m = elim (Bool-cases (all_hold f x)) [
  | inl t ↦
      let m' : Memᴰ d (x ∷ selected f ds) = rw t at m in
      elim (Memᴰ.cases_cons m') [
        | inl e ↦ (Memᴰ.head e, rw e t)
        | inr rest ↦ let (q, h) = selected_sound f ds d rest in (Memᴰ.tail q, h)
      ]
  | inr e ↦
      let m' : Memᴰ d (selected f ds) = rw e at m in
      let (q, h) = selected_sound f ds d m' in (Memᴰ.tail q, h)
]

pub selected_complete :
    (f : List Cond) (ds : List Doc) (d : Doc)
    → Memᴰ d ds
    → all_hold f d ≡ true
    → Memᴰ d (selected f ds)
selected_complete f [] d m h = absurd (Memᴰ.not-nil m)
selected_complete f (x ∷ ds) d m h = elim (Memᴰ.cases_cons m) [
  | inl e ↦ let t : all_hold f x ≡ true = rw (← e) h in rw t (Memᴰ.head e)
  | inr rest ↦ elim (Bool-cases (all_hold f x)) [
    | inl t ↦ rw t (Memᴰ.tail (selected_complete f ds d rest h))
    | inr e ↦ rw e (selected_complete f ds d rest h)
  ]
]

pub lacks_id-mem :
    (n : ℤ) (ds : List Doc) (d : Doc)
    → lacks_id n ds ≡ true
    → Memᴰ d ds
    → is_id n (doc_field d (str "_id")) ≡ false
lacks_id-mem n [] d h m = absurd (Memᴰ.not-nil m)
lacks_id-mem n (x ∷ ds) d h m = elim (Memᴰ.cases_cons m) [
  | inl e ↦ rw e (ground arith)
  | inr rest ↦ lacks_id-mem n ds d (ground arith) rest
]

-- A document whose `_id` stands at the head of a well-formed list does not stand in the rest.
pub id_apart :
    (o : Option Val) (ds : List Doc) (d : Doc) (v : Val)
    → fits_id o ds ≡ true
    → o ≡ some v
    → Memᴰ d ds
    → doc_field d (str "_id") ≡ some v
    → ⊥
id_apart none ds d v h e m k = cc
id_apart (some (int64 n)) ds d v h e m k =
    let apart = lacks_id-mem n ds d h m in
    let same : doc_field d (str "_id") ≡ some (int64 n) = k ∙ sym e in
    ground (arith, apart, (holds-is_int64_lem (doc_field d (str "_id")) n).1 same)
id_apart (some (string s)) ds d v h e m k = cc
id_apart (some (json s)) ds d v h e m k = cc

pub unique_doc :
    (ds : List Doc) (d e : Doc) (v : Val)
    → has_unique_ids ds ≡ true
    → Memᴰ d ds
    → Memᴰ e ds
    → doc_field d (str "_id") ≡ some v
    → doc_field e (str "_id") ≡ some v
    → d ≡ e
unique_doc [] d e v h m n i j = absurd (Memᴰ.not-nil m)
unique_doc (x ∷ ds) d e v h m n i j =
    let fits : fits_id (doc_field x (str "_id")) ds ≡ true = ground arith in
    let rest : has_unique_ids ds ≡ true = ground arith in
    elim (Memᴰ.cases_cons m) [
      | inl p ↦ elim (Memᴰ.cases_cons n) [
        | inl q ↦ p ∙ sym q
        | inr n' ↦
            let at_x : doc_field x (str "_id") ≡ some v = rw p at i in
            absurd (id_apart (doc_field x (str "_id")) ds e v fits at_x n' j)
      ]
      | inr m' ↦ elim (Memᴰ.cases_cons n) [
        | inl q ↦
            let at_x : doc_field x (str "_id") ≡ some v = rw q at j in
            absurd (id_apart (doc_field x (str "_id")) ds d v fits at_x m' i)
        | inr n' ↦ unique_doc ds d e v rest m' n' i j
      ]
    ]

pub found_sound :
    (c : Coll) (f : List Cond) (ds : List Doc) (d : Doc)
    → ◌≡◌ {A = Outcome (List Doc)} (value (selected f c.docs)) (value ds)
    → Memᴰ d ds
    → Memᴰ d c.docs × (all_hold f d ≡ true)
found_sound c f ds d e m =
    let same : selected f c.docs ≡ ds = cc in selected_sound f c.docs d (rw same m)

pub found_complete :
    (c : Coll) (f : List Cond) (ds : List Doc) (d : Doc)
    → ◌≡◌ {A = Outcome (List Doc)} (value (selected f c.docs)) (value ds)
    → Memᴰ d c.docs
    → all_hold f d ≡ true
    → Memᴰ d ds
found_complete c f ds d e m h =
    let same : selected f c.docs ≡ ds = cc in rw (← same) (selected_complete f c.docs d m h)

pub found_none :
    (c : Coll) (f : List Cond) (d : Doc)
    → ◌≡◌ {A = Outcome (Option Doc)} (value (first_match f c.docs)) (value none)
    → Memᴰ d c.docs
    → all_hold f d ≡ false
found_none c f d e m =
    let missed : first_match f c.docs ≡ none = cc in first_match-none f c.docs d missed m

pub found_some :
    (c : Coll) (f : List Cond) (d : Doc)
    → ◌≡◌ {A = Outcome (Option Doc)} (value (first_match f c.docs)) (value (some d))
    → Memᴰ d c.docs × (all_hold f d ≡ true)
found_some c f d e = let hit : first_match f c.docs ≡ some d = cc in first_match-some f c.docs d hit

pub find_tree_some :
    (d : Doc) (v w : Tree) (k : Str)
    → ◌≡◌ {A = Outcome Tree} (value (obj (fields_of d))) (value v)
    → doc_field d k ≡ some (json w)
    → tree_find v k ≡ some w
find_tree_some d v w k e h =
    let same : obj (fields_of d) ≡ v = cc in
    rw (← same) (find-fields_of d k ∙ ap (Option.map tree_of) h)

pub find_tree_none :
    (d : Doc) (v : Tree) (k : Str)
    → ◌≡◌ {A = Outcome Tree} (value (obj (fields_of d))) (value v)
    → doc_field d k ≡ none
    → tree_find v k ≡ none
find_tree_none d v k e h =
    let same : obj (fields_of d) ≡ v = cc in
    rw (← same) (find-fields_of d k ∙ ap (Option.map tree_of) h)

pub int64-injective : (m n : ℤ) → int64 m ≡ int64 n → m ≡ n
int64-injective m n e = cc

pub string-injective : (s t : Str) → string s ≡ string t → s ≡ t
string-injective s t e = cc
