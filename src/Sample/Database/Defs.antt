-- ===== src/Sample/Database/Defs.antt =====
-- Documents, collections and the calls on them.
use distributed_testing_syst.Base.{
  ◌≡◌, refl, Bool, true, false, not, ◌&&◌, List, [], ◌∷◌, ◌++◌, Option, none, some, Str, str,
  str_eq, if◌then◌else◌,
}
use distributed_testing_syst.Base.Int.{ℤ, pos, negsuc, leb_ℤ, eq_ℤ}
use distributed_testing_syst.Base.Outcome.{Outcome, value, throws}
use distributed_testing_syst.Extern.Mongo.{Cond, is_int64, is_string, within, upsert_first}
use distributed_testing_syst.Sample.Trees.{Tree, null, num, text, obj, Fields, end, member}

pub data Val : Type 0 where
  int64 : ℤ → Val
  string : Str → Val
  json : Tree → Val

abbrev pub Doc : Type 0
Doc = List (Str × Val)

abbrev pub doc_field : Doc → Str → Option Val
doc_field [] k = none
doc_field ((j, v) ∷ d) k = if str_eq j k then some v else doc_field d k

abbrev pub int64_of : Option Val → Outcome ℤ
int64_of (some (int64 n)) = value n
int64_of _ = throws (str "no int64")

abbrev pub string_of : Option Val → Outcome Str
string_of (some (string s)) = value s
string_of _ = throws (str "no string")

abbrev pub is_id : ℤ → Option Val → Bool
is_id n (some (int64 m)) = eq_ℤ m n
is_id n _ = false

abbrev pub is_text : Str → Option Val → Bool
is_text s (some (string t)) = str_eq t s
is_text s _ = false

abbrev pub is_within : ℤ → ℤ → Option Val → Bool
is_within lo hi (some (int64 n)) = leb_ℤ lo n && leb_ℤ n hi
is_within lo hi _ = false

abbrev pub cond_holds : Cond → Doc → Bool
cond_holds (is_int64 k n) d = is_id n (doc_field d k)
cond_holds (is_string k s) d = is_text s (doc_field d k)
cond_holds (within k lo hi) d = is_within lo hi (doc_field d k)

abbrev pub all_hold : List Cond → Doc → Bool
all_hold [] d = true
all_hold (c ∷ f) d = cond_holds c d && all_hold f d

abbrev pub equalities : List Cond → Doc
equalities [] = []
equalities (is_int64 k n ∷ f) = (k, int64 n) ∷ equalities f
equalities (is_string k s ∷ f) = (k, string s) ∷ equalities f
equalities (within k lo hi ∷ f) = equalities f

-- Every `_id` is an int64, and none stands twice.
abbrev pub lacks_id : ℤ → List Doc → Bool
lacks_id n [] = true
lacks_id n (d ∷ ds) = not (is_id n (doc_field d (str "_id"))) && lacks_id n ds

abbrev pub fits_id : Option Val → List Doc → Bool
fits_id none ds = true
fits_id (some (int64 n)) ds = lacks_id n ds
fits_id (some (string s)) ds = false
fits_id (some (json v)) ds = false

abbrev pub has_unique_ids : List Doc → Bool
has_unique_ids [] = true
has_unique_ids (d ∷ ds) = fits_id (doc_field d (str "_id")) ds && has_unique_ids ds

pub record Coll : Type 0 where
  pub docs : List Doc
  pub unique : has_unique_ids docs ≡ true

abbrev pub empty_coll : Coll
empty_coll = record { docs = []; unique = refl }

abbrev pub commit :
    Coll → (ds : List Doc) (b : Bool) → has_unique_ids ds ≡ b → Outcome (Unit {0}) × Coll
commit c ds true h = (value tt, record { docs = ds; unique = h })
commit c ds false h = (throws (str "E11000 duplicate key"), c)

abbrev pub updated : Coll → List Cond → Doc → List Doc
updated c f u = upsert_first (all_hold f) (λ d. u ++ d) (u ++ equalities f) c.docs

abbrev pub update : Coll → List Cond → Doc → Outcome (Unit {0}) × Coll
update c f u = commit c (updated c f u) (has_unique_ids (updated c f u)) refl

abbrev pub first_match : List Cond → List Doc → Option Doc
first_match f [] = none
first_match f (d ∷ ds) = if all_hold f d then some d else first_match f ds

abbrev pub selected : List Cond → List Doc → List Doc
selected f [] = []
selected f (d ∷ ds) = let rest = selected f ds in if all_hold f d then d ∷ rest else rest

abbrev pub tree_of : Val → Tree
tree_of (int64 (pos n)) = num n
tree_of (int64 (negsuc n)) = null
tree_of (string s) = text s
tree_of (json v) = v

abbrev pub fields_of : Doc → Fields
fields_of [] = end
fields_of ((k, v) ∷ d) = member k (tree_of v) (fields_of d)

abbrev pub doc_of_fields : Fields → Doc
doc_of_fields end = []
doc_of_fields (member k v fs) = (k, json v) ∷ doc_of_fields fs

abbrev pub doc_of_tree : Tree → Outcome Doc
doc_of_tree (obj fs) = value (doc_of_fields fs)
doc_of_tree _ = throws (str "not an object")
