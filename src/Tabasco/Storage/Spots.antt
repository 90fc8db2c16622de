-- ===== src/Tabasco/Storage/Spots.antt =====
-- The loop of GetTaskBatch over the documents that the query gives, in whatever order they come.
use mathlib.Core.List.{Memᴰ}
use mathlib.Core.List.Memᴰ
use native.Mathlib.Decide.{ℕ_discrete}
use distributed_testing_syst.Base.{
  ℕ, ◌+◌, ◌<◌, List, [], ◌∷◌, Str, str, str_eq, str_eq_iff, some, get_elem?, set, length, list_ext,
  length-set, get_elem?-set_self, get_elem?-set_ne, if◌then◌else◌, Bool-cases, lt→ltb, ◌≡◌, ◌⊎◌,
  refl, ap, sym, ◌∙◌, arith, inl, inr,
}
use distributed_testing_syst.Base.Int.{pos, ◌-ℤ◌}
use distributed_testing_syst.Base.Outcome.{value}
use distributed_testing_syst.Extern.Json.{Json}
use distributed_testing_syst.Extern.Mongo.{Mongo}
use distributed_testing_syst.Tabasco.Data.{TaskTests}
use distributed_testing_syst.Tabasco.Storage.{write_if, place_test, place_tests}

-- A document of the query: its place in the batch, its kind and its content.
pub record Spot : Type 0 where
  pub place : ℕ
  pub kind : Str
  pub content : Str

put : Str → Spot → List Str → List Str
put kind s xs = if str_eq s.kind kind then set xs s.place s.content else xs

puts : Str → List Spot → List Str → List Str
puts kind [] xs = xs
puts kind (s ∷ ss) xs = puts kind ss (put kind s xs)

length-put : (kind : Str) (s : Spot) (xs : List Str) → length (put kind s xs) ≡ length xs
unfolding put
length-put kind s xs = elim (Bool-cases (str_eq s.kind kind)) [
  | inl t ↦ rw t (length-set xs s.place s.content)
  | inr f ↦ rw f
]

length-puts : (kind : Str) (ss : List Spot) (xs : List Str) → length (puts kind ss xs) ≡ length xs
unfolding puts
length-puts kind [] xs = refl
length-puts kind (s ∷ ss) xs = length-puts kind ss (put kind s xs) ∙ length-put kind s xs

-- Each spot of the kind says what the target holds at its place.
module _ (kind : Str) (target : List Str) where
  abbrev pub IsRight : Spot → Type 0
  IsRight s = s.kind ≡ kind → get_elem? target s.place ≡ some s.content

  put-keeps :
      (s : Spot) (xs : List Str) (j : ℕ)
      → IsRight s
      → s.place < length xs
      → get_elem? xs j ≡ get_elem? target j
      → get_elem? (put kind s xs) j ≡ get_elem? target j
  unfolding put
  put-keeps s xs j right inside h = elim (Bool-cases (str_eq s.kind kind)) [
    | inl t ↦
        let holds = right ((str_eq_iff s.kind kind).0 t) in
        rw t (elim (ℕ_discrete s.place j) [
          | yes e ↦ rw (← e) (get_elem?-set_self xs s.place s.content inside ∙ sym holds)
          | no ne ↦ get_elem?-set_ne xs s.place j s.content ne ∙ h
        ])
    | inr f ↦ rw f h
  ]

  put-writes :
      (s : Spot) (xs : List Str)
      → IsRight s
      → s.place < length xs
      → s.kind ≡ kind
      → get_elem? (put kind s xs) s.place ≡ get_elem? target s.place
  unfolding put
  put-writes s xs right inside e =
      rw ((str_eq_iff s.kind kind).1 e)
        (get_elem?-set_self xs s.place s.content inside ∙ sym (right e))

  -- A place that some spot of the kind names holds the target's element at the end.
  puts-eq-target :
      (ss : List Spot) (xs : List Str) (j : ℕ)
      → ((s : Spot) → Memᴰ s ss → IsRight s × (s.place < length xs))
      → (get_elem? xs j ≡ get_elem? target j)
        ⊎ ((s : Spot) × Memᴰ s ss × (s.place ≡ j) × (s.kind ≡ kind))
      → get_elem? (puts kind ss xs) j ≡ get_elem? target j
  unfolding puts
  puts-eq-target [] xs j all (inl h) = h
  puts-eq-target [] xs j all (inr (s, m, e, k)) = absurd (Memᴰ.not-nil m)
  puts-eq-target (x ∷ ss) xs j all found =
      let (right, inside) = all x (Memᴰ.head refl) in
      puts-eq-target ss (put kind x xs) j
        (λ s m. let (r, i) = all s (Memᴰ.tail m) in (r, omega (arith, i, length-put kind x xs)))
        (elim found [
          | inl h ↦ inl (put-keeps x xs j right inside h)
          | inr (s, m, e, k) ↦ elim (Memᴰ.cases_cons m) [
            | inl same ↦
                inl
                  (rw (← e, same) (put-writes x xs right inside (ap (λ t. t.kind) (sym same) ∙ k)))
            | inr rest ↦ inr (s, rest, e, k)
          ]
        ])

module _ (J : Json) (M : Mongo J) (first n : ℕ) where
  -- What the loop reads from a document; `first` is the first test id of a batch of `n` tests.
  pub record IsSpot (d : M.Doc) (s : Spot) : Type 0 where
    pub place : M.field d (str "testId") ≡ some (M.int64_val (pos (first + s.place)))
    pub kind : M.field d (str "testType") ≡ some (M.string_val s.kind)
    pub content : M.field d (str "content") ≡ some (M.string_val s.content)
    pub inside : s.place < n

  abbrev pub AreSpots : List M.Doc → List Spot → Type 0
  AreSpots [] [] = Unit
  AreSpots (d ∷ ds) (s ∷ ss) = IsSpot d s × AreSpots ds ss
  AreSpots _ _ = ⊥

  write_if-put :
      (kind : Str) (s : Spot) (xs : List Str)
      → s.place < length xs
      → write_if (str_eq s.kind kind) xs (pos s.place) s.content ≡ value (put kind s xs)
  unfolding put
  write_if-put kind s xs h = elim (Bool-cases (str_eq s.kind kind)) [
    | inl t ↦ rw (t, lt→ltb s.place (length xs) h)
    | inr f ↦ rw f
  ]

  place_test-put :
      (d : M.Doc) (s : Spot) (tests : TaskTests)
      → IsSpot d s
      → length tests.input_tests ≡ n
      → length tests.output_tests ≡ n
      → place_test J M (pos first) tests d
        ≡ value (record {
          input_tests = put (str "input") s tests.input_tests;
          output_tests = put (str "output") s tests.output_tests;
        })
  unfolding place_test
  place_test-put d s tests is li lo =
      let position : pos (first + s.place) -ℤ pos first ≡ pos s.place = ground arith in
      rw (
        M.get_string-field d _ s.kind is.kind,
        M.get_int64-field d _ (pos (first + s.place)) is.place,
        M.get_string-field d _ s.content is.content,
        position,
        write_if-put (str "input") s tests.input_tests (omega (arith, is.inside)),
        write_if-put (str "output") s tests.output_tests (omega (arith, is.inside)),
      )

  place_tests-puts :
      (ds : List M.Doc) (ss : List Spot) (tests : TaskTests)
      → AreSpots ds ss
      → length tests.input_tests ≡ n
      → length tests.output_tests ≡ n
      → place_tests J M (pos first) tests ds
        ≡ value (record {
          input_tests = puts (str "input") ss tests.input_tests;
          output_tests = puts (str "output") ss tests.output_tests;
        })
  unfolding place_tests puts
  place_tests-puts [] [] tests h li lo = refl
  place_tests-puts [] (s ∷ ss) tests h li lo = absurd h
  place_tests-puts (d ∷ ds) [] tests h li lo = absurd h
  place_tests-puts (d ∷ ds) (s ∷ ss) tests h li lo = rw (place_test-put d s tests h.0 li lo) (
      place_tests-puts ds ss _ h.1 (length-put (str "input") s tests.input_tests ∙ li)
        (length-put (str "output") s tests.output_tests ∙ lo))

  pub AreSpots-spot :
      (ds : List M.Doc) (ss : List Spot) (d : M.Doc)
      → AreSpots ds ss
      → Memᴰ d ds
      → (s : Spot) × Memᴰ s ss × IsSpot d s
  AreSpots-spot [] ss d h m = absurd (Memᴰ.not-nil m)
  AreSpots-spot (x ∷ ds) [] d h m = absurd h
  AreSpots-spot (x ∷ ds) (s ∷ ss) d h m = elim (Memᴰ.cases_cons m) [
    | inl e ↦ (s, Memᴰ.head refl, rw e (h.0))
    | inr rest ↦ let (t, mem, is) = AreSpots-spot ds ss d h.1 rest in (t, Memᴰ.tail mem, is)
  ]

  -- The tests of a batch: the loop fills every place of the two lists with the targets', if each
  -- document is a spot that is right about them, and each place has a spot of either kind.
  pub place_tests-eq_target :
      (ds : List M.Doc) (ss : List Spot) (tests target : TaskTests)
      → AreSpots ds ss
      → length tests.input_tests ≡ n
      → length tests.output_tests ≡ n
      → length target.input_tests ≡ n
      → length target.output_tests ≡ n
      → ((s : Spot)
          → Memᴰ s ss
          → IsRight (str "input") target.input_tests s
            × IsRight (str "output") target.output_tests s
            × (s.place < n))
      → ((j : ℕ)
          → j < n
          → ((s : Spot) × Memᴰ s ss × (s.place ≡ j) × (s.kind ≡ str "input"))
            × ((s : Spot) × Memᴰ s ss × (s.place ≡ j) × (s.kind ≡ str "output")))
      → place_tests J M (pos first) tests ds ≡ value target
  place_tests-eq_target ds ss tests target spots li lo ti to right full =
      let inputs =
        list_ext (puts (str "input") ss tests.input_tests) target.input_tests
          (length-puts (str "input") ss tests.input_tests ∙ li ∙ sym ti)
          (λ j h.
            puts-eq-target (str "input") target.input_tests ss tests.input_tests j
              (λ s m. let (a, b, c) = right s m in (a, omega (arith, c)))
              (inr
                (full j (omega (arith, h, length-puts (str "input") ss tests.input_tests))).0)) in
      let outputs =
        list_ext (puts (str "output") ss tests.output_tests) target.output_tests
          (length-puts (str "output") ss tests.output_tests ∙ lo ∙ sym to)
          (λ j h.
            puts-eq-target (str "output") target.output_tests ss tests.output_tests j
              (λ s m. let (a, b, c) = right s m in (b, omega (arith, c)))
              (inr
                (full j (omega (arith, h, length-puts (str "output") ss tests.output_tests))).1)) in
      place_tests-puts ds ss tests spots li lo ∙ λ i.
      value (record { input_tests = inputs i; output_tests = outputs i })
