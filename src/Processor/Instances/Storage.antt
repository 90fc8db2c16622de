-- ===== src/Processor/Instances/Storage.antt =====
-- The directories of the instances (testing_processor/main.cpp).
use mathlib.Core.List.{Memᴰ}
use mathlib.Core.List.Memᴰ
use distributed_testing_syst.Base.{
  ℕ, List, ◌==◌, [], ◌∷◌, ◌++◌, Str, str, to_string, Bool, Bool-cases, true, false, if◌then◌else◌,
  ◌≡◌, ◌≢◌, inl, inr, refl, sym, ap, ◌∙◌, arith,
}
use distributed_testing_syst.Base.Decimal.{
  to_string-injective, NoSlash, to_string-NoSlash, before_slash, before_slash-append,
}
use distributed_testing_syst.Base.Outcome.{value}
use distributed_testing_syst.Processor.Execute.{separator, is_absolute, child_path}
use distributed_testing_syst.Processor.Instances.{
  Config, BrokerClient, new_processor, new_broker_client, instance_path, start_instance,
}

separator-NoSlash : (c : ℕ) (s : Str) → NoSlash (c ∷ s) → separator (c ∷ s) ≡ str "/"
separator-NoSlash c [] h = rw h.0 refl
separator-NoSlash c (d ∷ s) h = separator-NoSlash d s h.1

is_plain : Str → Bool
is_plain [] = true
is_plain (c ∷ s) = let rest = is_plain s in if c == 47 then false else rest

instance_path-NoSlash : (i : ℕ) → NoSlash (instance_path i)
unfolding instance_path is_plain
instance_path-NoSlash i = prefix (str "localStorage") refl
  where
    prefix : (s : Str) → is_plain s ≡ true → NoSlash (s ++ to_string i)
    prefix [] h = to_string-NoSlash i
    prefix (c ∷ s) h = ground (arith, prefix s)

-- The files that an instance has in its directory.
abbrev pub file_names : List Str
file_names =
    str "input.txt"
    ∷ str "output.txt"
    ∷ str "userOutput.txt"
    ∷ str "report.json"
    ∷ str "root_dir.zip"
    ∷ []

is_absolute-file_names : (name : Str) → Memᴰ name file_names → is_absolute name ≡ false
is_absolute-file_names name mem = relative file_names (refl, (refl, (refl, (refl, (refl, tt))))) mem
  where
    AreRelative : List Str → Type 0
    AreRelative [] = Unit
    AreRelative (x ∷ names) = (is_absolute x ≡ false) × AreRelative names

    relative : (names : List Str) → AreRelative names → Memᴰ name names → is_absolute name ≡ false
    relative [] h m = absurd (Memᴰ.not-nil m)
    relative (x ∷ names) h m = elim (Memᴰ.cases_cons m) [
      | inl e ↦ rw e (h.0)
      | inr later ↦ relative names h.1 later
    ]

before_slash-child_path :
    (i : ℕ) (name : Str)
    → Memᴰ name file_names
    → before_slash (child_path (instance_path i) name) ≡ instance_path i
unfolding child_path instance_path
before_slash-child_path i name mem =
    let relative = is_absolute-file_names name mem in
    let slash : separator (instance_path i) ≡ str "/" =
      separator-NoSlash b'l' (str "ocalStorage" ++ to_string i) (instance_path-NoSlash i) in
    ap
      (λ b.
        before_slash (if b then name else instance_path i ++ (separator (instance_path i) ++ name)))
      relative
    ∙ ap (λ s. before_slash (instance_path i ++ (s ++ name))) slash
    ∙ before_slash-append (instance_path i) name (instance_path-NoSlash i)

start_instance-path :
    {W : Type 0} (exists : Str → W → Bool) (create_directory : Str → W → Bool × W) (config : Config)
    (i : ℕ) (w w' : W) (a : BrokerClient)
    → start_instance exists create_directory config i w ≡ (value a, w')
    → a.processor.local_storage_path ≡ instance_path i
unfolding start_instance new_broker_client new_processor
start_instance-path exists create_directory config i w w' a e =
    elim (Bool-cases (exists (instance_path i) w)) [
      | inl there ↦ path_of (cc (rw there at e))
      | inr absent ↦ elim (Bool-cases (create_directory (instance_path i) w).0) [
        | inl created ↦ path_of (cc (rw (absent, created) at e))
        | inr failed ↦ cc (rw (absent, failed) at e)
      ]
    ]
  where
    path_of :
        new_broker_client (record config { local_storage_path = instance_path i }) ≡ a
        → a.processor.local_storage_path ≡ instance_path i
    path_of q = ap (λ client. client.processor.local_storage_path) (sym q)

instance_path-injective : (i j : ℕ) → instance_path i ≡ instance_path j → i ≡ j
unfolding instance_path
instance_path-injective i j e = to_string-injective i j cc

-- Where two instances with different numbers start, no path of one of the files input.txt,
-- output.txt, userOutput.txt, report.json and root_dir.zip of the one is a path of one of these
-- files of the other.
pub start_instance-apart :
    {W : Type 0} (exists : Str → W → Bool) (create_directory : Str → W → Bool × W) (config : Config)
    (i j : ℕ) (w1 w2 w1' w2' : W) (a b : BrokerClient)
    → i ≢ j
    → start_instance exists create_directory config i w1 ≡ (value a, w1')
    → start_instance exists create_directory config j w2 ≡ (value b, w2')
    → (file1 file2 : Str) → Memᴰ file1 file_names
    → Memᴰ file2 file_names
    → child_path a.processor.local_storage_path file1
      ≢ child_path b.processor.local_storage_path file2
start_instance-apart exists create_directory config i j w1 w2 w1' w2' a b apart e1 e2 file1 file2
      in1 in2 same =
    let path1 = start_instance-path exists create_directory config i w1 w1' a e1 in
    let path2 = start_instance-path exists create_directory config j w2 w2' b e2 in
    apart (
      instance_path-injective i j (
        sym (before_slash-child_path i file1 in1)
        ∙ ap (λ p. before_slash (child_path p file1)) (sym path1)
        ∙ ap before_slash same
        ∙ ap (λ p. before_slash (child_path p file2)) path2
        ∙ before_slash-child_path j file2 in2))
