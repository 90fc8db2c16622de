-- ===== src/Tabasco/Http/Codes/Exact.antt =====
-- When a handler of task_batcher_storage_coordinator/http/handlers answers by 200, and when by an
-- error code.
use distributed_testing_syst.Base.{
  ℕ, Option, Option-cases, none, some, Str, str, Bool, true, ◌||◌, ◌==◌, ◌≡◌, ◌⊎◌, ◌↔◌, refl, ap,
  arith, inl, inr,
}
use distributed_testing_syst.Base.Number.{stoull}
use distributed_testing_syst.Base.Outcome.{Outcome, value, throws, undefined, ◌>>=◌, >>=-eq-value}
use distributed_testing_syst.Extern.Json.{Json}
use distributed_testing_syst.Extern.Mongo.{Mongo}
use distributed_testing_syst.Extern.Crow.{Crow, Response, new_response}
use distributed_testing_syst.Utils.Expected.{Expected, expected, unexpected}
use distributed_testing_syst.Tabasco.Data.{Task, Build, Builds, build_to_json, builds_to_json}
use distributed_testing_syst.Tabasco.Storage.{
  Error, upsert_build as store_build, get_build, get_builds,
}
use distributed_testing_syst.Tabasco.Server.{Server}
use distributed_testing_syst.Tabasco.Http.{
  Handler, uploads_tests, uploads_task_root_dir, uploads_build, lists_builds, shows_build, callback,
}
use distributed_testing_syst.Tabasco.Http.Uploads.{
  Parsed, parsed, refused, parse_tests, parse_build, store_parsed, upload_tests, store_parsed_build,
  upload_build, upload_task_root_dir,
}
use distributed_testing_syst.Tabasco.Http.Reads.{
  parse_build_id, answer_build, handle_build, answer_builds, handle_builds,
}
use distributed_testing_syst.Tabasco.Http.Accepted.{Accepted, upload_tests-Accepted}
use distributed_testing_syst.Tabasco.Http.Builds.{upload_build-written}
use distributed_testing_syst.Tabasco.Http.Codes.{
  is_error_of, Parses, HasErrorCode, parse_tests-Parses, parsed_build-Parses,
}
use distributed_testing_syst.Tabasco.Http.Codes.Answers.{
  get_build-code, get_builds-code, callback-is_code_of,
}

module _ (J : Json) (M : Mongo J) (C : Crow) where
  -- The handler did what the request asks for. uploadTaskRootDir never does.
  abbrev pub Did : Handler → C.Request → Server J M → Server J M → Type 0
  Did uploads_tests req server server' =
      (task : Task) × (parse_tests J C req new_response ≡ value (parsed task))
      × Accepted J M task server server'
  Did uploads_task_root_dir req server server' = ⊥
  Did uploads_build req server server' =
      (b : Build) × (parse_build J C req new_response ≡ value (parsed b))
      × (store_build J M b server.builds ≡ (value none, server'.builds))
  Did lists_builds req server server' =
      (bs : Builds) × (get_builds J M server.builds ≡ value (expected bs))
  Did shows_build req server server' =
      (id : ℕ) × (b : Build) × (parse_build_id J M C req new_response
        ≡ value (new_response, some id))
      × (get_build J M id server.builds ≡ value (expected b))

  task_of_ok :
      (q : Outcome (Parsed Task)) (server server' : Server J M) (res : Response)
      → Parses uploads_tests q
      → store_parsed J M C new_response q server ≡ (value res, server')
      → res.code ≡ 200
      → (task : Task) × (q ≡ value (parsed task))
  task_of_ok (value (parsed task)) server server' res h e fine = (task, refl)
  task_of_ok (value (refused r)) server server' res h e fine = absurd (ground (arith, h, e, fine))
  task_of_ok (throws x) server server' res h e fine = absurd (ground (arith, e))
  task_of_ok undefined server server' res h e fine = absurd (ground (arith, e))

  build_of_ok :
      (q : Outcome (Parsed Build)) (server server' : Server J M) (res : Response)
      → Parses uploads_build q
      → store_parsed_build J M C new_response q server ≡ (value res, server')
      → res.code ≡ 200
      → (b : Build) × (q ≡ value (parsed b))
  build_of_ok (value (parsed b)) server server' res h e fine = (b, refl)
  build_of_ok (value (refused r)) server server' res h e fine = absurd (ground (arith, h, e, fine))
  build_of_ok (throws x) server server' res h e fine = absurd (ground (arith, e))
  build_of_ok undefined server server' res h e fine = absurd (ground (arith, e))

  answer_builds-ok_iff :
      (m : Outcome (Expected Builds Error)) (res : Response)
      → HasErrorCode (is_error_of lists_builds) m
      → (m >>= answer_builds J M C new_response) ≡ value res
      → (res.code ≡ 200) ↔ ((bs : Builds) × (m ≡ value (expected bs)))
  answer_builds-ok_iff (value (expected bs)) res h e =
      let (text, dumped, same) = >>=-eq-value (J.dump (builds_to_json J bs)) _ e in
      (λ fine. (bs, refl), λ did. ground (arith, same))
  answer_builds-ok_iff (value (unexpected x)) res h e =
      (λ fine. absurd (ground (arith, h, e, fine)), λ did. absurd (ground (arith, did.1)))
  answer_builds-ok_iff (throws x) res h e = absurd (ground (arith, e))
  answer_builds-ok_iff undefined res h e = absurd (ground (arith, e))

  answer_build-ok_iff :
      (m : Outcome (Expected Build Error)) (res : Response)
      → HasErrorCode (is_error_of shows_build) m
      → (m >>= answer_build J M C new_response) ≡ value res
      → (res.code ≡ 200) ↔ ((b : Build) × (m ≡ value (expected b)))
  answer_build-ok_iff (value (expected b)) res h e =
      let (text, dumped, same) = >>=-eq-value (J.dump (build_to_json J b)) _ e in
      (λ fine. (b, refl), λ did. ground (arith, same))
  answer_build-ok_iff (value (unexpected x)) res h e =
      (λ fine. absurd (ground (arith, h, e, fine)), λ did. absurd (ground (arith, did.1)))
  answer_build-ok_iff (throws x) res h e = absurd (ground (arith, e))
  answer_build-ok_iff undefined res h e = absurd (ground (arith, e))

  parse_build_id-missing :
      (req : C.Request)
      → C.url_param req (str "id") ≡ none
      → parse_build_id J M C req new_response
        ≡ value (record { code = 400; body = str "id wasn't specified in url!" }, none)
  unfolding parse_build_id
  parse_build_id-missing req missing = rw (missing, parse_build_id) refl

  abbrev with_id : ℕ → Outcome (Response × Option ℕ)
  with_id id = value (new_response, some id)

  parse_build_id-stoull :
      (req : C.Request) (text : Str) (n : Outcome ℕ)
      → C.url_param req (str "id") ≡ some text
      → stoull text ≡ n
      → parse_build_id J M C req new_response ≡ (n >>= with_id)
  unfolding parse_build_id
  parse_build_id-stoull req text n there e = rw (there, parse_build_id, e) refl

  handle_build-stoull :
      (req : C.Request) (server server' : Server J M) (res : Response) (n : Outcome ℕ)
      → parse_build_id J M C req new_response ≡ (n >>= with_id)
      → handle_build J M C req new_response server ≡ value res
      → (res.code ≡ 200) ↔ Did shows_build req server server'
  unfolding handle_build
  handle_build-stoull req server server' res (value id) is done =
      let answers =
        answer_build-ok_iff (get_build J M id server.builds) res
          (get_build-code J M C id server.builds) (rw is at done) in
      (
        λ fine. let (b, got) = answers.0 fine in (id, b, is, got),
        λ did.
            let (id', b, is', got) = did in
            let same : id' ≡ id = cc (is, is') in answers.1 (b, rw same at got),
      )
  handle_build-stoull req server server' res (throws e) is done =
      absurd (ground (arith, rw is at done))
  handle_build-stoull req server server' res undefined is done =
      absurd (ground (arith, rw is at done))

  handle_build-ok_iff :
      (req : C.Request) (server server' : Server J M) (res : Response)
      → handle_build J M C req new_response server ≡ value res
      → (res.code ≡ 200) ↔ Did shows_build req server server'
  unfolding handle_build
  handle_build-ok_iff req server server' res done =
      elim (Option-cases (C.url_param req (str "id"))) [
        | inl missing ↦
            let is = parse_build_id-missing req missing in
            (
              λ fine. absurd (ground (arith, rw is at done, fine)),
              λ did. absurd (ground (arith, is, did.2)),
            )
        | inr (text, there) ↦
            handle_build-stoull req server server' res (stoull text)
              (parse_build_id-stoull req text (stoull text) there refl) done
      ]

  upload_tests-ok_iff :
      (req : C.Request) (server server' : Server J M) (res : Response)
      → upload_tests J M C req new_response server ≡ (value res, server')
      → (res.code ≡ 200) ↔ Did uploads_tests req server server'
  unfolding upload_tests
  upload_tests-ok_iff req server server' res done = (
    λ fine.
        let (task, accepted) =
          task_of_ok (parse_tests J C req new_response) server server' res
            (parse_tests-Parses J C req) done fine in
        (
          task,
          accepted,
          upload_tests-Accepted J M C req server server' res task done fine accepted,
        ),
    λ did.
        let (task, accepted, a) = did in
        ground (arith, rw (accepted, a.split, a.tests_written, a.meta_written) at done),
  )

  upload_build-ok_iff :
      (req : C.Request) (server server' : Server J M) (res : Response)
      → callback J M C uploads_build req server ≡ (value res, server')
      → (res.code ≡ 200) ↔ Did uploads_build req server server'
  unfolding callback upload_build parse_build
  upload_build-ok_iff req server server' res done = (
    λ fine.
        let (b, accepted) =
          build_of_ok (parse_build J C req new_response) server server' res
            (parsed_build-Parses J C _) done fine in
        (b, accepted, upload_build-written J M C req server server' res b done fine accepted),
    λ did. let (b, accepted, written) = did in ground (arith, rw (accepted, written) at done),
  )

  callback-ok_iff :
      (h : Handler) (req : C.Request) (server server' : Server J M) (res : Response)
      → callback J M C h req server ≡ (value res, server')
      → (res.code ≡ 200) ↔ Did h req server server'
  unfolding callback upload_task_root_dir handle_builds
  callback-ok_iff uploads_tests req server server' res done =
      upload_tests-ok_iff req server server' res done
  callback-ok_iff uploads_task_root_dir req server server' res done =
      (λ fine. ground (arith, done, fine), λ did. absurd did)
  callback-ok_iff uploads_build req server server' res done =
      upload_build-ok_iff req server server' res done
  callback-ok_iff lists_builds req server server' res done =
      answer_builds-ok_iff (get_builds J M server.builds) res (get_builds-code J M C server.builds)
        (ap (λ r. r.0) done)
  callback-ok_iff shows_build req server server' res done =
      handle_build-ok_iff req server server' res (ap (λ r. r.0) done)

  -- Where a handler returns a response, its code is 200 exactly when the handler did what the
  -- request asks for, and is otherwise an error code of the handler. That is, for uploadTests, that
  -- Parse accepted the request, the tests were divided into batches and both writes reported no
  -- error, else 400; for uploadBuild that Parse accepted the request and the write reported no
  -- error, else 400 or 500; for builds that all builds were read, else 500; for build that Parse
  -- gave an id and the build was read, else 400, 404 or 500; uploadTaskRootDir is never answered by
  -- 200 but by 501. A handler that throws returns no response.
  pub callback-code :
      (h : Handler) (req : C.Request) (server server' : Server J M) (res : Response)
      → callback J M C h req server ≡ (value res, server')
      → ((res.code ≡ 200) ↔ Did h req server server')
        × ((res.code ≡ 200) ⊎ (is_error_of h res.code ≡ true))
  callback-code h req server server' res done = (
    callback-ok_iff h req server server' res done,
    ok_or_error (is_error_of h res.code) (callback-is_code_of J M C h req server server' res done),
  )
    where
      ok_or_error : (b : Bool) → (res.code == 200 || b) ≡ true → (res.code ≡ 200) ⊎ (b ≡ true)
      ok_or_error b e = ground (arith, e)
