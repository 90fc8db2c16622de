-- ===== src/Tabasco/Http/Builds.antt =====
-- A build that is put and then shown: upload_build_handler.cpp and build_handler.cpp of
-- task_batcher_storage_coordinator/http/handlers.
use distributed_testing_syst.Base.{ℕ, Option, none, some, Str, str, ◌≡◌, refl, ap, arith}
use distributed_testing_syst.Base.Number.{stoull}
use distributed_testing_syst.Base.Outcome.{Outcome, value, throws, undefined}
use distributed_testing_syst.Extern.Json.{Json}
use distributed_testing_syst.Utils.Expected.{expected}
use distributed_testing_syst.Extern.Mongo.{Mongo}
use distributed_testing_syst.Extern.Crow.{Crow, Response, new_response}
use distributed_testing_syst.Tabasco.Data.{Build, build_to_json}
use distributed_testing_syst.Tabasco.Storage.{upsert_build as store_build, get_build}
use distributed_testing_syst.Tabasco.Storage.Fetch.{Answers}
use distributed_testing_syst.Tabasco.Storage.Written.{Converts}
use distributed_testing_syst.Tabasco.Storage.Documents.{HasNoId, get-upsert_build}
use distributed_testing_syst.Tabasco.Server.{Server}
use distributed_testing_syst.Tabasco.Http.{uploads_build, shows_build, callback}
use distributed_testing_syst.Tabasco.Http.Uploads.{parsed, parse_build, finish_build, upload_build}
use distributed_testing_syst.Tabasco.Http.Reads.{parse_build_id, handle_build}

module _ (J : Json) (M : Mongo J) (C : Crow) where
  finish_build-written :
      (p : Outcome (Option Str) × M.Coll) (server server' : Server J M) (res : Response)
      → finish_build J M C new_response p server ≡ (value res, server')
      → res.code ≡ 200
      → p ≡ (value none, server'.builds)
  finish_build-written (value none, builds) server server' res e fine =
      ap (λ q. (value none, q.1.builds)) e
  finish_build-written (value (some x), builds) server server' res e fine =
      absurd (ground (arith, e, fine))
  finish_build-written (throws x, builds) server server' res e fine = absurd (ground (arith, e))
  finish_build-written (undefined, builds) server server' res e fine = absurd (ground (arith, e))

  pub upload_build-written :
      (req : C.Request) (server server' : Server J M) (res : Response) (b : Build)
      → callback J M C uploads_build req server ≡ (value res, server')
      → res.code ≡ 200
      → parse_build J C req new_response ≡ value (parsed b)
      → store_build J M b server.builds ≡ (value none, server'.builds)
  unfolding callback upload_build
  upload_build-written req server server' res b done fine accepted =
      finish_build-written (store_build J M b server.builds) server server' res
        (rw accepted at done) fine

  pub parse_build_id-found :
      (req : C.Request) (id_text : Str) (id : ℕ)
      → C.url_param req (str "id") ≡ some id_text
      → stoull id_text ≡ value id
      → parse_build_id J M C req new_response ≡ value (new_response, some id)
  unfolding parse_build_id
  parse_build_id-found req id_text id asked number = rw (asked, parse_build_id, number) refl

  handle_build-found :
      (req : C.Request) (server : Server J M) (b : Build) (id_text text : Str) (id : ℕ)
      → C.url_param req (str "id") ≡ some id_text
      → stoull id_text ≡ value id
      → get_build J M id server.builds ≡ value (expected b)
      → J.dump (build_to_json J b) ≡ value text
      → callback J M C shows_build req server
        ≡ (value (record new_response { body = text }), server)
  unfolding callback handle_build
  handle_build-found req server b id_text text id asked number got dumped =
      rw (parse_build_id-found req id_text id asked number, got, dumped) refl

  -- After PUT /uploadBuild that Parse accepts and that is answered by 200, into a collection of
  -- builds with no field id, and where the database answers reads and its documents convert to
  -- JSON: GET /build with a text that stoull reads as the id of the build is answered by 200 and
  -- the JSON text of the build with the id 0 in place of its own, where that can be dumped, and
  -- leaves the server as it is.
  pub upload_build-shows_build :
      (req req' : C.Request) (server server' : Server J M) (res : Response) (b : Build)
      (id_text text : Str)
      → callback J M C uploads_build req server ≡ (value res, server')
      → res.code ≡ 200
      → parse_build J C req new_response ≡ value (parsed b)
      → HasNoId J M server.builds
      → Answers J M server'.builds
      → Converts J M
      → C.url_param req' (str "id") ≡ some id_text
      → stoull id_text ≡ value b.id
      → J.dump (build_to_json J (record b { id = 0 })) ≡ value text
      → callback J M C shows_build req' server'
        ≡ (value (record new_response { body = text }), server')
  upload_build-shows_build req req' server server' res b id_text text done fine accepted no_id
        answers converts asked number dumped =
      handle_build-found req' server' (record b { id = 0 }) id_text text b.id asked number
        (get-upsert_build J M b server.builds server'.builds
          (upload_build-written req server server' res b done fine accepted) no_id answers converts)
        dumped
