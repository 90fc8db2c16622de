-- ===== src/Extern/Json.antt =====
-- nlohmann::json. The operations of the package that src/ calls; the laws are its documented
-- behaviour on objects, arrays, numbers and strings.
use distributed_testing_syst.Base.{
  ltb, ◌==◌, ℕ, Bool, true, false, List, Option, none, some, Str, str_eq, is_some, if◌then◌else◌,
  ◌≡◌,
}
use distributed_testing_syst.Base.Outcome.{Outcome, value, throws}

pub record Json : Type 1 where
  pub Value : Type 0
  -- A default-constructed `nlohmann::json`.
  pub null : Value
  -- Construction from uint64_t, std::string and a vector.
  pub of_nat : ℕ → Value
  pub of_str : Str → Value
  pub of_array : List Value → Value
  -- Conversion to uint64_t, std::string and a vector; throws type_error on another type.
  pub to_nat : Value → Outcome ℕ
  pub to_str : Value → Outcome Str
  pub to_array : Value → Outcome (List Value)
  -- The comparisons `v == n` and `v > n` with a number.
  pub equals_nat : Value → ℕ → Bool
  pub exceeds_nat : Value → ℕ → Bool
  -- The elements that a range-for visits.
  pub items : Value → List Value
  -- Null or an object: what a key may be assigned in.
  pub is_assignable : Value → Bool
  -- `find(key)`, `none` for `end()`; `contains(key)`; `v[key]` as a value; `v[key] = w`;
  -- `v.erase(key)`.
  pub find : Value → Str → Option Value
  pub contains : Value → Str → Bool
  pub index : Value → Str → Outcome Value
  pub assign : Value → Str → Value → Value
  pub erase : Value → Str → Value
  -- `parse(text, nullptr, false)`, `none` for a discarded value, and `dump()`, which throws on
  -- text that is not UTF-8.
  pub parse : Str → Option Value
  pub dump : Value → Outcome Str
  pub to_nat-of_nat : (n : ℕ) → to_nat (of_nat n) ≡ value n
  pub to_str-of_str : (s : Str) → to_str (of_str s) ≡ value s
  pub to_array-of_array : (vs : List Value) → to_array (of_array vs) ≡ value vs
  pub equals_nat-of_nat : (m n : ℕ) → equals_nat (of_nat m) n ≡ (m == n)
  pub exceeds_nat-of_nat : (m n : ℕ) → exceeds_nat (of_nat m) n ≡ ltb n m
  pub items-of_array : (vs : List Value) → items (of_array vs) ≡ vs
  -- An object does not convert to a vector, and an array has no keys.
  pub to_array-object :
      (v : Value) (k : Str)
      → contains v k ≡ true
      → record { message : Str; refused : to_array v ≡ throws message }
  pub contains-of_array : (vs : List Value) (k : Str) → contains (of_array vs) k ≡ false
  pub contains-find : (v : Value) (k : Str) → contains v k ≡ is_some (find v k)
  pub index-find : (v w : Value) (k : Str) → find v k ≡ some w → index v k ≡ value w
  pub find-null : (k : Str) → find null k ≡ none
  pub is_assignable-null : is_assignable null ≡ true
  pub is_assignable-assign :
      (v w : Value) (k : Str) → is_assignable v ≡ true → is_assignable (assign v k w) ≡ true
  pub find-assign :
      (v w : Value) (k j : Str)
      → is_assignable v ≡ true
      → find (assign v k w) j ≡ (if str_eq k j then some w else find v j)
  pub find-erase :
      (v : Value) (k j : Str)
      → is_assignable v ≡ true
      → find (erase v k) j ≡ (if str_eq k j then none else find v j)
