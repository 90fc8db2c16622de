-- ===== src/Tabasco/Http/Codes.antt =====
-- The status codes of the handlers of task_batcher_storage_coordinator/http/handlers.
pub mod Answers
pub mod Exact
use distributed_testing_syst.Base.{
  ℕ, zero, suc, ◌+◌, ◌++◌, List, [], ◌∷◌, Option, Option-cases, none, some, Str, str, Bool, true,
  false, ◌==◌, ◌||◌, ◌≡◌, refl, ap, sym, inl, inr,
}
use distributed_testing_syst.Base.Outcome.{Outcome, value, throws, undefined, ◌>>=◌, traverse}
use distributed_testing_syst.Base.Number.{stoull}
use distributed_testing_syst.Extern.Json.{Json}
use distributed_testing_syst.Extern.Mongo.{Mongo}
use distributed_testing_syst.Extern.Crow.{Crow, Message, Response, new_response}
use distributed_testing_syst.Utils.Expected.{Expected, expected, unexpected}
use distributed_testing_syst.Utils.ParseJson.{parse_json}
use distributed_testing_syst.Tabasco.Data.{
  Task, TaskTests, TaskMetaData, Build, Builds, build_from_json, build_to_json, builds_to_json,
}
use distributed_testing_syst.Tabasco.Storage.{
  Error, upsert_task_tests, upsert_task_meta_data, upsert_build as store_build, get_build,
  get_builds, catch_error, build_found, build_of_doc, id_filter,
}
use distributed_testing_syst.Tabasco.Server.{Server}
use distributed_testing_syst.Tabasco.Batches.{split_into_batches}
use distributed_testing_syst.Tabasco.Http.{
  Handler, uploads_tests, uploads_task_root_dir, uploads_build, lists_builds, shows_build, callback,
}
use distributed_testing_syst.Tabasco.Http.Uploads.{
  Parsed, parsed, refused, collect_tests, with_task_id, parse_task, parse_message, parse_tests,
  parse_build, parsed_build, finish_upload, store_meta, store_task, store_parsed, upload_tests,
  finish_build, store_parsed_build, upload_build, upload_task_root_dir, input_name, output_name,
}
use distributed_testing_syst.Tabasco.Http.Reads.{
  parse_build_id, answer_build, show_build, handle_build, answer_builds, handle_builds,
}

-- The codes of the failures of a handler.
abbrev pub is_error_of : Handler → ℕ → Bool
is_error_of uploads_tests n = n == 400
is_error_of uploads_task_root_dir n = n == 501
is_error_of uploads_build n = n == 400 || n == 500
is_error_of lists_builds n = n == 500
is_error_of shows_build n = n == 400 || (n == 404 || n == 500)

abbrev pub is_code_of : Handler → ℕ → Bool
is_code_of h n = n == 200 || is_error_of h n

abbrev pub HasCode : Handler → Outcome Response → Type 0
HasCode h (value res) = is_code_of h res.code ≡ true
HasCode h (throws e) = Unit
HasCode h undefined = Unit

-- A refusal has an error code of the handler.
abbrev pub Refuses : {A : Type 0} → Handler → Parsed A → Type 0
Refuses h (parsed a) = Unit
Refuses h (refused res) = is_error_of h res.code ≡ true

abbrev pub Parses : {A : Type 0} → Handler → Outcome (Parsed A) → Type 0
Parses h (value p) = Refuses h p
Parses h (throws e) = Unit
Parses h undefined = Unit

>>=-Parses :
    {A B : Type 0} (h : Handler) (m : Outcome A) (f : A → Outcome (Parsed B))
    → ((a : A) → Parses h (f a))
    → Parses h (m >>= f)
>>=-Parses h (value a) f k = k a
>>=-Parses h (throws e) f k = tt
>>=-Parses h undefined f k = tt

pub >>=-HasCode :
    {A : Type 0} (h : Handler) (m : Outcome A) (f : A → Outcome Response)
    → ((a : A) → HasCode h (f a))
    → HasCode h (m >>= f)
>>=-HasCode h (value a) f k = k a
>>=-HasCode h (throws e) f k = tt
>>=-HasCode h undefined f k = tt

-- An error of the storage client has a code that the predicate accepts.
abbrev pub HasErrorCode : {A : Type 0} → (ℕ → Bool) → Outcome (Expected A Error) → Type 0
HasErrorCode is_code (value (expected a)) = Unit
HasErrorCode is_code (value (unexpected e)) = is_code e.error_code ≡ true
HasErrorCode is_code (throws e) = Unit
HasErrorCode is_code undefined = Unit

pub >>=-HasErrorCode :
    {A B : Type 0} (is_code : ℕ → Bool) (m : Outcome A) (f : A → Outcome (Expected B Error))
    → ((a : A) → HasErrorCode is_code (f a))
    → HasErrorCode is_code (m >>= f)
>>=-HasErrorCode is_code (value a) f k = k a
>>=-HasErrorCode is_code (throws e) f k = tt
>>=-HasErrorCode is_code undefined f k = tt

collect_tests-Refuses :
    (msg : Message) (n i : ℕ) (inputs outputs : List Str)
    → Refuses uploads_tests (collect_tests msg new_response n i inputs outputs)
unfolding collect_tests
collect_tests-Refuses msg zero i inputs outputs = tt
collect_tests-Refuses msg (suc n) i inputs outputs =
    elim (Option-cases (msg.part_body (input_name i))) [
      | inl missing ↦ rw (missing, Refuses) refl
      | inr (input, there) ↦ elim (Option-cases (msg.part_body (output_name i))) [
        | inl missing ↦ rw (there, missing, Refuses) refl
        | inr (output, there') ↦
            rw (there, there', Refuses)
              (collect_tests-Refuses msg n (i + 1) (inputs ++ input ∷ []) (outputs ++ output ∷ []))
      ]
    ]

module _ (J : Json) (C : Crow) where
  with_task_id-Parses :
      (v : J.Value) (p : Parsed TaskTests)
      → Refuses uploads_tests p
      → Parses uploads_tests (with_task_id J C v p)
  with_task_id-Parses v (refused res) h = h
  with_task_id-Parses v (parsed tests) h =
      >>=-Parses uploads_tests (J.index v (str "taskId")) _
        (λ w. >>=-Parses uploads_tests (J.to_nat w) _ (λ id. tt))

  parse_task-Parses :
      (msg : Message) (e : Expected J.Value Str)
      → Parses uploads_tests (parse_task J C msg new_response e)
  parse_task-Parses msg (unexpected message) = refl
  parse_task-Parses msg (expected v) = with_task_id-Parses v _ (collect_tests-Refuses msg _ 1 [] [])

  pub parse_tests-Parses :
      (req : C.Request) → Parses uploads_tests (parse_tests J C req new_response)
  unfolding parse_tests
  parse_tests-Parses req = >>=-Parses uploads_tests (C.multipart req) _ (λ msg.
      elim (Option-cases (msg.part_body (str "taskData.json"))) [
        | inl missing ↦ rw (missing, Parses, parse_message) refl
        | inr (text, there) ↦
            rw (there, Parses, parse_message)
              (parse_task-Parses msg (parse_json J text (str "taskId" ∷ [])))
      ])

  pub parsed_build-Parses :
      (e : Expected J.Value Str) → Parses uploads_build (parsed_build J C new_response e)
  parsed_build-Parses (unexpected message) = refl
  parsed_build-Parses (expected v) =
      >>=-Parses uploads_build (build_from_json J v) (λ b. value (parsed b)) (λ b. tt)
