-- ===== src/Processor/Report.antt =====
-- testing_processor/testing_report.{h,cpp}.
use distributed_testing_syst.Base.{
  ℕ, List, Str, str, str_eq, if◌then◌else◌, map, ◌≡◌, ◌∙◌, refl, ap, sym,
}
use distributed_testing_syst.Extern.Json.{Json}

pub data Verdict : Type 0 where
  ok wa tl ml re ce crash : Verdict

-- GetStringRepr.
unfoldable pub get_string_repr : Verdict → Str
get_string_repr ok = str "OK"
get_string_repr wa = str "WA"
get_string_repr tl = str "TL"
get_string_repr ml = str "ML"
get_string_repr re = str "RE"
get_string_repr ce = str "CE"
get_string_repr crash = str "CRASH"

pub record TestingReport : Type 0 where
  pub cpu_time_elapsed_milli_seconds : ℕ
  pub memory_spent : ℕ
  pub verdict : Verdict

module _ (J : Json) where
  unfoldable pub report_to_json : TestingReport → J.Value
  report_to_json r =
      let v = J.assign J.null (str "verdict") (J.of_str (get_string_repr r.verdict)) in
      let w =
        J.assign v (str "cpuTimeElapsedMilliSeconds") (J.of_nat r.cpu_time_elapsed_milli_seconds) in
      J.assign w (str "memorySpent") (J.of_nat r.memory_spent)

  unfoldable pub reports_to_json : List TestingReport → List J.Value
  reports_to_json reports = map report_to_json reports

verdict_of_repr : Str → Verdict
verdict_of_repr s =
    if str_eq s (str "OK")
    then ok
    else if str_eq s (str "WA")
    then wa
    else if str_eq s (str "TL")
    then tl
    else if str_eq s (str "ML")
    then ml
    else if str_eq s (str "RE")
    then re
    else if str_eq s (str "CE")
    then ce
    else crash

verdict_of_repr-get_string_repr : (v : Verdict) → verdict_of_repr (get_string_repr v) ≡ v
unfolding verdict_of_repr get_string_repr
verdict_of_repr-get_string_repr ok = refl
verdict_of_repr-get_string_repr wa = refl
verdict_of_repr-get_string_repr tl = refl
verdict_of_repr-get_string_repr ml = refl
verdict_of_repr-get_string_repr re = refl
verdict_of_repr-get_string_repr ce = refl
verdict_of_repr-get_string_repr crash = refl

-- Two verdicts with the same text in a report are the same verdict.
pub get_string_repr-injective : (u v : Verdict) → get_string_repr u ≡ get_string_repr v → u ≡ v
get_string_repr-injective u v e =
    sym (verdict_of_repr-get_string_repr u)
    ∙ (ap verdict_of_repr e ∙ verdict_of_repr-get_string_repr v)
