-- ===== src/Sample/Trees.antt =====
-- JSON as trees.
use distributed_testing_syst.Base.{
  ltb, ◌==◌, ℕ, ◌≡◌, refl, ap, Bool, true, false, List, [], ◌∷◌, ◌++◌, Option, none, some, Str, str,
  str_eq, str_eq_iff, is_some, if◌then◌else◌, to_string, arith,
}
use distributed_testing_syst.Base.Number.{stoull}
use distributed_testing_syst.Base.Outcome.{Outcome, value, throws}
use distributed_testing_syst.Extern.Json.{Json}

mutual
  pub data Tree : Type 0 where
    null : Tree
    num : ℕ → Tree
    text : Str → Tree
    arr : Items → Tree
    obj : Fields → Tree

  pub data Items : Type 0 where
    nil : Items
    cons : Tree → Items → Items

  pub data Fields : Type 0 where
    end : Fields
    member : Str → Tree → Fields → Fields

abbrev pub items_of : List Tree → Items
items_of [] = nil
items_of (v ∷ vs) = cons v (items_of vs)

abbrev pub list_of : Items → List Tree
list_of nil = []
list_of (cons v vs) = v ∷ list_of vs

pub list_of-items_of : (vs : List Tree) → list_of (items_of vs) ≡ vs
list_of-items_of [] = refl
list_of-items_of (v ∷ vs) = ap (◌∷◌ v) (list_of-items_of vs)

abbrev pub values : Fields → List Tree
values end = []
values (member k v fs) = v ∷ values fs

abbrev pub find_member : Fields → Str → Option Tree
find_member end j = none
find_member (member k v fs) j = if str_eq k j then some v else find_member fs j

abbrev pub remove_member : Fields → Str → Fields
remove_member end j = end
remove_member (member k v fs) j =
    let rest = remove_member fs j in if str_eq k j then rest else member k v rest

find_member-remove_member :
    (fs : Fields) (k j : Str)
    → find_member (remove_member fs k) j ≡ (if str_eq k j then none else find_member fs j)
find_member-remove_member end k j = ground arith
find_member-remove_member (member i v fs) k j =
    ground (arith, find_member-remove_member fs k j, str_eq_iff i k, str_eq_iff i j, str_eq_iff k j)

abbrev pub type_error : {A : Type 0} → Outcome A
type_error = throws (str "type_error")

abbrev pub tree_to_nat : Tree → Outcome ℕ
tree_to_nat (num n) = value n
tree_to_nat _ = type_error

abbrev pub tree_to_str : Tree → Outcome Str
tree_to_str (text s) = value s
tree_to_str _ = type_error

abbrev pub tree_to_array : Tree → Outcome (List Tree)
tree_to_array (arr vs) = value (list_of vs)
tree_to_array _ = type_error

abbrev pub tree_equals : Tree → ℕ → Bool
tree_equals (num m) n = m == n
tree_equals _ n = false

abbrev pub tree_exceeds : Tree → ℕ → Bool
tree_exceeds (num m) n = ltb n m
tree_exceeds _ n = false

abbrev pub tree_items : Tree → List Tree
tree_items null = []
tree_items (arr vs) = list_of vs
tree_items (obj fs) = values fs
tree_items (num n) = num n ∷ []
tree_items (text s) = text s ∷ []

abbrev pub tree_is_assignable : Tree → Bool
tree_is_assignable null = true
tree_is_assignable (obj fs) = true
tree_is_assignable _ = false

abbrev pub tree_find : Tree → Str → Option Tree
tree_find (obj fs) k = find_member fs k
tree_find _ k = none

abbrev pub tree_index : Tree → Str → Outcome Tree
tree_index v k = elim (tree_find v k) [
  | some w ↦ value w
  | none ↦ if tree_is_assignable v then value null else type_error
]

abbrev pub tree_assign : Tree → Str → Tree → Tree
tree_assign null k w = obj (member k w end)
tree_assign (obj fs) k w = obj (member k w fs)
tree_assign v k w = v

abbrev pub tree_erase : Tree → Str → Tree
tree_erase (obj fs) k = obj (remove_member fs k)
tree_erase v k = v

-- The report of a run of 1500 microseconds.
abbrev pub run_report : Tree
run_report = obj (
    member (str "cpuTimeElapsedMicroSeconds") (num 1500)
      (member (str "memorySpent") (num 64) (member (str "exitCode") (num 0) end)))

-- A number stands for the object with this task id, and two words for the report of a run and for a
-- build.
abbrev build_tree : Tree
build_tree = obj (
    member (str "id") (num 5) (
      member (str "executeScript") (text (str "./run"))
        (member (str "initScript") (text (str "make")) end)))

abbrev number_parse : Outcome ℕ → Option Tree
number_parse (value n) = some (obj (member (str "taskId") (num n) end))
number_parse _ = none

abbrev pub tree_parse : Str → Option Tree
tree_parse s =
    if str_eq s (str "report")
    then some run_report
    else if str_eq s (str "build")
    then some build_tree
    else number_parse (stoull s)

abbrev pub tree_dump : Tree → Outcome Str
tree_dump (num n) = value (to_string n)
tree_dump (text s) = value (str "\"" ++ s ++ str "\"")
tree_dump _ = value (str "{}")

pub array-object :
    (v : Tree) (k : Str)
    → is_some (tree_find v k) ≡ true
    → record { message : Str; refused : tree_to_array v ≡ throws message }
array-object (obj fs) k h = record { message = str "type_error"; refused = refl }
array-object null k h = absurd (ground arith)
array-object (num n) k h = absurd (ground arith)
array-object (text s) k h = absurd (ground arith)
array-object (arr vs) k h = absurd (ground arith)

pub index-find : (v w : Tree) (k : Str) → tree_find v k ≡ some w → tree_index v k ≡ value w
index-find v w k h = rw (h, tree_index)

pub assignable-assign :
    (v w : Tree) (k : Str)
    → tree_is_assignable v ≡ true
    → tree_is_assignable (tree_assign v k w) ≡ true
assignable-assign null w k h = refl
assignable-assign _ w k h = h

pub find-assign :
    (v w : Tree) (k j : Str)
    → tree_is_assignable v ≡ true
    → tree_find (tree_assign v k w) j ≡ (if str_eq k j then some w else tree_find v j)
find-assign null w k j h = refl
find-assign (obj fs) w k j h = refl
find-assign (num n) w k j h = absurd (ground arith)
find-assign (text n) w k j h = absurd (ground arith)
find-assign (arr n) w k j h = absurd (ground arith)

pub find-erase :
    (v : Tree) (k j : Str)
    → tree_is_assignable v ≡ true
    → tree_find (tree_erase v k) j ≡ (if str_eq k j then none else tree_find v j)
find-erase (obj fs) k j h = find_member-remove_member fs k j
find-erase null k j h = ground arith
find-erase (num n) k j h = absurd (ground arith)
find-erase (text n) k j h = absurd (ground arith)
find-erase (arr n) k j h = absurd (ground arith)

abbrev pub tree_json : Json
tree_json = record {
  Value = Tree;
  null = null;
  of_nat = num;
  of_str = text;
  of_array = λ vs. arr (items_of vs);
  to_nat = tree_to_nat;
  to_str = tree_to_str;
  to_array = tree_to_array;
  equals_nat = tree_equals;
  exceeds_nat = tree_exceeds;
  items = tree_items;
  is_assignable = tree_is_assignable;
  find = tree_find;
  contains = λ v k. is_some (tree_find v k);
  index = tree_index;
  assign = tree_assign;
  erase = tree_erase;
  parse = tree_parse;
  dump = tree_dump;
  to_nat-of_nat = λ n. refl;
  to_str-of_str = λ s. refl;
  to_array-of_array = λ vs. ap value (list_of-items_of vs);
  equals_nat-of_nat = λ m n. refl;
  exceeds_nat-of_nat = λ m n. refl;
  items-of_array = list_of-items_of;
  to_array-object = array-object;
  contains-of_array = λ vs k. refl;
  contains-find = λ v k. refl;
  index-find = index-find;
  find-null = λ k. refl;
  is_assignable-null = refl;
  is_assignable-assign = assignable-assign;
  find-assign = find-assign;
  find-erase = find-erase;
}
