-- ===== src/Sample/Database.antt =====
-- A database of documents as lists of fields. A collection is a list of documents with different
-- `_id`s; a write that would repeat one throws.
mod Defs
mod Laws
pub use Defs.*
use mathlib.Core.List.{Memᴰ}
use mathlib.Core.List.Memᴰ
use mathlib.Core.Option
use distributed_testing_syst.Base.{
  ℕ, ◌≡◌, ◌≢◌, ◌↔◌, ◌⊎◌, refl, ap, sym, ◌∙◌, Bool, true, false, not, ◌&&◌, Bool-cases, List, [],
  ◌∷◌, ◌++◌, Option, none, some, Str, str, str_eq, str_eq_iff, if◌then◌else◌, arith, inl, inr,
}
use distributed_testing_syst.Base.Int.{ℤ, pos, negsuc, ◌≤ℤ◌, leb_ℤ, eq_ℤ, eq_ℤ_iff}
use distributed_testing_syst.Base.Outcome.{Outcome, value, throws}
use distributed_testing_syst.Extern.Mongo.{
  Mongo, Cond, is_int64, is_string, within, or_else, upsert_first, required,
}
use distributed_testing_syst.Sample.Trees.{
  Tree, null, num, text, arr, obj, Fields, end, member, find_member, tree_find, tree_json,
}
use Defs.{
  Coll, Doc, Val, all_hold, commit, cond_holds, doc_field, doc_of_fields, doc_of_tree, empty_coll,
  equalities, fields_of, first_match, fits_id, has_unique_ids, int64, int64_of, is_id, is_text,
  is_within, json, lacks_id, selected, string, string_of, tree_of, update, updated,
}
use Laws.{
  int64-injective, string-injective, doc_field-append, doc_field-equalities, holds-within_lem,
  holds-is_int64_lem, holds-is_string_lem, field-doc_of_tree, find-fields_of, commit-docs,
  first_match-none, first_match-some, selected_sound, selected_complete, lacks_id-mem, id_apart,
  unique_doc, found_sound, found_complete, found_none, found_some, find_tree_some, find_tree_none,
}

abbrev pub list_mongo : Mongo tree_json
list_mongo = record {
  Val = Val;
  Doc = Doc;
  Coll = Coll;
  int64_val = int64;
  string_val = string;
  json_val = json;
  field = doc_field;
  get_int64 = λ d k. int64_of (doc_field d k);
  get_string = λ d k. string_of (doc_field d k);
  string_doc = λ k s. (k, string s) ∷ [];
  doc_of_json = doc_of_tree;
  json_of_doc = λ d. value (obj (fields_of d));
  update_one = update;
  find_one = λ c f. value (first_match f c.docs);
  find_all = λ c f. value (selected f c.docs);
  docs = λ c. c.docs;
  holds = cond_holds;
  matches = all_hold;
  merged = λ d u. u ++ d;
  seeded = λ f u. u ++ equalities f;
  int64_val-injective = int64-injective;
  string_val-injective = string-injective;
  get_int64-field = λ d k n e. rw e;
  get_string-field = λ d k s e. rw e;
  holds-is_int64 = λ d k n. holds-is_int64_lem (doc_field d k) n;
  holds-is_string = λ d k s. holds-is_string_lem (doc_field d k) s;
  holds-within = λ d k lo hi n e. holds-within_lem (doc_field d k) lo hi n e;
  matches-nil = λ d. refl;
  matches-cons = λ c f d. refl;
  field-string_doc = λ k s j. refl;
  field-doc_of_json = field-doc_of_tree;
  find-json_of_doc_some = find_tree_some;
  find-json_of_doc_none = find_tree_none;
  field-merged = λ d u k. doc_field-append u d k;
  field-seeded = λ f u k ne.
      doc_field-append u (equalities f) k ∙ ap (or_else (doc_field u k)) (doc_field-equalities f k);
  field-seeded_id = λ f u v no_id e.
      doc_field-append u (equalities f) (str "_id")
      ∙ rw no_id (doc_field-equalities f (str "_id") ∙ e);
  docs-update_one =
      λ c c' f u e. commit-docs c c' (updated c f u) (has_unique_ids (updated c f u)) refl e;
  find_one-none = found_none;
  find_one-some = found_some;
  find_all-sound = found_sound;
  find_all-complete = found_complete;
  id_unique = λ c d e v m n i j. unique_doc c.docs d e v c.unique m n i j;
}
