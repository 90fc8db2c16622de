-- ===== src/Utils/ParseJson/Fields.antt =====
-- What ParseJSON accepts, and the fields that it reports as missing.
use mathlib.Core.List.{Memᴰ}
use mathlib.Core.List.Memᴰ
use distributed_testing_syst.Base.{
  List, [], ◌∷◌, Str, true, false, some, All, ◌≡◌, refl, ap, ◌↔◌, inl, inr, Bool-cases,
  Option-cases, arith,
}
use distributed_testing_syst.Extern.Json.{Json}
use distributed_testing_syst.Utils.Expected.{expected}
use distributed_testing_syst.Utils.ParseJson.{find_missing_json_fields, report_missing, parse_json}

module _ (J : Json) (v : J.Value) where
  abbrev IsMissing : List Str → Str → Type 0
  IsMissing fields k = Memᴰ k fields × (J.contains v k ≡ false)

  -- FindMissingJSONFields reports exactly the expected fields that the document lacks.
  pub mem-find_missing_json_fields :
      (fields : List Str) (k : Str)
      → Memᴰ k (find_missing_json_fields J fields v) ↔ (Memᴰ k fields × (J.contains v k ≡ false))
  unfolding find_missing_json_fields
  mem-find_missing_json_fields [] k = (λ m. absurd (Memᴰ.not-nil m), λ p. p.0)
  mem-find_missing_json_fields (x ∷ fields) k =
      let (sound, complete) = mem-find_missing_json_fields fields k in
      elim (Bool-cases (J.contains v x)) [
        | inl there ↦ rw there (
          λ m. let (q, absent) = sound m in (Memᴰ.tail q, absent),
          λ p. elim (Memᴰ.cases_cons p.0) [
            | inl e ↦ absurd (ground (arith, ap (J.contains v) e))
            | inr q ↦ complete (q, p.1)
          ],
        )
        | inr gone ↦ rw gone (
          λ m. elim (Memᴰ.cases_cons m) [
            | inl e ↦ (Memᴰ.head e, rw e gone)
            | inr q ↦ let (q', absent) = sound q in (Memᴰ.tail q', absent)
          ],
          λ p. elim (Memᴰ.cases_cons p.0) [
            | inl e ↦ Memᴰ.head e
            | inr q ↦ Memᴰ.tail (complete (q, p.1))
          ],
        )
      ]

  missing-nil :
      (fields : List Str)
      → All (λ k. J.contains v k ≡ true) fields
      → find_missing_json_fields J fields v ≡ []
  unfolding find_missing_json_fields
  missing-nil [] h = refl
  missing-nil (x ∷ fields) h = rw (h.0) (missing-nil fields h.1)

  All-contains :
      (fields : List Str)
      → find_missing_json_fields J fields v ≡ []
      → All (λ k. J.contains v k ≡ true) fields
  unfolding find_missing_json_fields
  All-contains [] h = tt
  All-contains (x ∷ fields) h = elim (Bool-cases (J.contains v x)) [
    | inl there ↦ (there, All-contains fields (ground arith))
    | inr gone ↦ absurd (ground arith)
  ]

module _ (J : Json) where
  report_missing-expected :
      (v w : J.Value) (missing : List Str)
      → (report_missing J v missing ≡ expected w) ↔ (v ≡ w) × (missing ≡ [])
  report_missing-expected v w [] = (λ e. (cc, refl), λ p. cc (p.0))
  report_missing-expected v w (x ∷ xs) = (λ e. cc, λ p. cc (p.1))

  -- ParseJSON returns a document exactly when the text parses to it and it has every expected
  -- field.
  pub parse_json-expected_iff :
      (text : Str) (fields : List Str) (v : J.Value)
      → (parse_json J text fields ≡ expected v)
        ↔ (J.parse text ≡ some v) × All (λ k. J.contains v k ≡ true) fields
  unfolding parse_json
  parse_json-expected_iff text fields v = elim (Option-cases (J.parse text)) [
    | inl bad ↦ rw (bad, parse_json) (λ e. cc, λ p. cc (p.0))
    | inr (w, parsed) ↦
        let (sound, complete) = report_missing-expected w v (find_missing_json_fields J fields w) in
        rw (parsed, parse_json)
          (
            λ e.
                let (same, none_missing) = sound e in
                (ap some same, rw (← same) (All-contains J w fields none_missing)),
            λ p.
                let same : w ≡ v = cc (p.0) in
                complete (same, rw same (missing-nil J v fields p.1)),
          )
  ]
