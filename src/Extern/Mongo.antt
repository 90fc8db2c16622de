-- ===== src/Extern/Mongo.antt =====
-- mongocxx and bsoncxx: documents and collections. `docs`, `matches`, `merged` and `seeded` say
-- what a collection holds, when a filter selects a document, what `$set` makes of one, and which
-- document an upsert inserts; the laws are the documented meaning of the calls in these terms.
-- Reads and writes may throw; what a write that threw has done is left open.
use mathlib.Core.List.{Memᴰ}
use mathlib.Core.Option
use distributed_testing_syst.Base.{
  Bool, true, false, List, [], ◌∷◌, Option, none, some, Str, str, str_eq, if◌then◌else◌, ◌≡◌, ◌≢◌,
  ◌↔◌, ◌&&◌,
}
use distributed_testing_syst.Base.Int.{ℤ, ◌≤ℤ◌}
use distributed_testing_syst.Base.Outcome.{Outcome, value}
use distributed_testing_syst.Extern.Json.{Json}

-- The conditions of a filter document: `{key: n}`, `{key: text}`, `{key: {$gte: lo, $lte: hi}}`.
pub data Cond : Type 0 where
  is_int64 : Str → ℤ → Cond
  is_string : Str → Str → Cond
  within : Str → ℤ → ℤ → Cond

abbrev pub or_else {ℓ} : {A : Type ℓ} → Option A → Option A → Option A
or_else (some a) b = some a
or_else none b = b

-- The documents after an upsert: the first match is changed, or a document is added.
unfoldable pub upsert_first {ℓ} : {A : Type ℓ} → (A → Bool) → (A → A) → A → List A → List A
upsert_first test change new [] = new ∷ []
upsert_first test change new (x ∷ xs) =
    if test x then change x ∷ xs else x ∷ upsert_first test change new xs

module _ {ℓ} {V : Type ℓ} (int64_val : ℤ → V) (string_val : Str → V) where
  -- The value that the equalities of a filter give a key.
  abbrev pub required : List Cond → Str → Option V
  required [] k = none
  required (is_int64 j n ∷ f) k = if str_eq j k then some (int64_val n) else required f k
  required (is_string j s ∷ f) k = if str_eq j k then some (string_val s) else required f k
  required (within j lo hi ∷ f) k = required f k

pub record Mongo (J : Json) : Type 1 where
  pub Val : Type 0
  pub Doc : Type 0
  pub Coll : Type 0
  pub int64_val : ℤ → Val
  pub string_val : Str → Val
  -- The value that a JSON value becomes in a document.
  pub json_val : J.Value → Val
  -- A field of a document; `doc[key].get_int64().value`, `doc[key].get_string().value`.
  pub field : Doc → Str → Option Val
  pub get_int64 : Doc → Str → Outcome ℤ
  pub get_string : Doc → Str → Outcome Str
  -- `make_document(kvp(key, text))`, `bsoncxx::from_json(v.dump())` and
  -- `nlohmann::json::parse(bsoncxx::to_json(doc))`.
  pub string_doc : Str → Str → Doc
  pub doc_of_json : J.Value → Outcome Doc
  pub json_of_doc : Doc → Outcome J.Value
  -- `update_one(filter, {$set: doc}, upsert(true))`, `find_one(filter)`, the cursor `find(filter)`.
  pub update_one : Coll → List Cond → Doc → Outcome (Unit {0}) × Coll
  pub find_one : Coll → List Cond → Outcome (Option Doc)
  pub find_all : Coll → List Cond → Outcome (List Doc)
  pub docs : Coll → List Doc
  pub holds : Cond → Doc → Bool
  pub matches : List Cond → Doc → Bool
  pub merged : Doc → Doc → Doc
  pub seeded : List Cond → Doc → Doc
  pub int64_val-injective : (m n : ℤ) → int64_val m ≡ int64_val n → m ≡ n
  pub string_val-injective : (s t : Str) → string_val s ≡ string_val t → s ≡ t
  pub get_int64-field :
      (d : Doc) (k : Str) (n : ℤ) → field d k ≡ some (int64_val n) → get_int64 d k ≡ value n
  pub get_string-field :
      (d : Doc) (k : Str) (s : Str) → field d k ≡ some (string_val s) → get_string d k ≡ value s
  pub holds-is_int64 :
      (d : Doc) (k : Str) (n : ℤ)
      → (holds (is_int64 k n) d ≡ true) ↔ (field d k ≡ some (int64_val n))
  pub holds-is_string :
      (d : Doc) (k : Str) (s : Str)
      → (holds (is_string k s) d ≡ true) ↔ (field d k ≡ some (string_val s))
  pub holds-within :
      (d : Doc) (k : Str) (lo hi n : ℤ)
      → field d k ≡ some (int64_val n)
      → (holds (within k lo hi) d ≡ true) ↔ (lo ≤ℤ n) × (n ≤ℤ hi)
  pub matches-nil : (d : Doc) → matches [] d ≡ true
  pub matches-cons :
      (c : Cond) (f : List Cond) (d : Doc) → matches (c ∷ f) d ≡ (holds c d && matches f d)
  pub field-string_doc :
      (k s j : Str) → field (string_doc k s) j ≡ (if str_eq k j then some (string_val s) else none)
  pub field-doc_of_json :
      (v : J.Value) (d : Doc) (k : Str)
      → doc_of_json v ≡ value d
      → field d k ≡ Option.map json_val (J.find v k)
  pub find-json_of_doc_some :
      (d : Doc) (v w : J.Value) (k : Str)
      → json_of_doc d ≡ value v
      → field d k ≡ some (json_val w)
      → J.find v k ≡ some w
  pub find-json_of_doc_none :
      (d : Doc) (v : J.Value) (k : Str)
      → json_of_doc d ≡ value v
      → field d k ≡ none
      → J.find v k ≡ none
  pub field-merged : (d u : Doc) (k : Str) → field (merged d u) k ≡ or_else (field u k) (field d k)
  -- An upsert makes up an `_id` if the filter requires none.
  pub field-seeded :
      (f : List Cond) (u : Doc) (k : Str)
      → k ≢ str "_id"
      → field (seeded f u) k ≡ or_else (field u k) (required int64_val string_val f k)
  pub field-seeded_id :
      (f : List Cond) (u : Doc) (v : Val)
      → field u (str "_id") ≡ none
      → required int64_val string_val f (str "_id") ≡ some v
      → field (seeded f u) (str "_id") ≡ some v
  pub docs-update_one :
      (c c' : Coll) (f : List Cond) (u : Doc)
      → update_one c f u ≡ (value tt, c')
      → docs c' ≡ upsert_first (matches f) (λ d. merged d u) (seeded f u) (docs c)
  pub find_one-none :
      (c : Coll) (f : List Cond) (d : Doc)
      → find_one c f ≡ value none
      → Memᴰ d (docs c)
      → matches f d ≡ false
  pub find_one-some :
      (c : Coll) (f : List Cond) (d : Doc)
      → find_one c f ≡ value (some d)
      → Memᴰ d (docs c) × (matches f d ≡ true)
  -- The cursor gives the documents that match, in an order that is not fixed.
  pub find_all-sound :
      (c : Coll) (f : List Cond) (ds : List Doc) (d : Doc)
      → find_all c f ≡ value ds
      → Memᴰ d ds
      → Memᴰ d (docs c) × (matches f d ≡ true)
  pub find_all-complete :
      (c : Coll) (f : List Cond) (ds : List Doc) (d : Doc)
      → find_all c f ≡ value ds
      → Memᴰ d (docs c)
      → matches f d ≡ true
      → Memᴰ d ds
  -- `_id` is a unique index.
  pub id_unique :
      (c : Coll) (d e : Doc) (v : Val)
      → Memᴰ d (docs c)
      → Memᴰ e (docs c)
      → field d (str "_id") ≡ some v
      → field e (str "_id") ≡ some v
      → d ≡ e
