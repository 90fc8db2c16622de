-- ===== src/Tabasco/Served/Kept.antt =====
-- Requests that leave the tests and the metadata as they are.
use distributed_testing_syst.Base.{Option, none, some, Str, ◌≡◌, ◌≢◌, refl, ap}
use distributed_testing_syst.Base.Outcome.{Outcome, value, throws, undefined}
use distributed_testing_syst.Extern.Json.{Json}
use distributed_testing_syst.Extern.Mongo.{Mongo}
use distributed_testing_syst.Extern.Crow.{Crow, Response, new_response}
use distributed_testing_syst.Tabasco.Data.{Task, Build}
use distributed_testing_syst.Tabasco.Storage.{upsert_build as store_build}
use distributed_testing_syst.Tabasco.Server.{Server}
use distributed_testing_syst.Tabasco.Http.{
  Handler, uploads_tests, uploads_task_root_dir, uploads_build, lists_builds, shows_build, callback,
}
use distributed_testing_syst.Tabasco.Http.Uploads.{
  Parsed, parsed, refused, parse_tests, store_parsed, upload_tests, parse_build, finish_build,
  store_parsed_build, upload_build, upload_task_root_dir,
}

module _ (J : Json) (M : Mongo J) (C : Crow) where
  -- The second server has the tests and the metadata of the first.
  abbrev pub Keeps : Server J M → Server J M → Type 0
  Keeps server server' =
      (server'.task_tests ≡ server.task_tests) × (server'.task_meta ≡ server.task_meta)

  finish_build-Keeps :
      (p : Outcome (Option Str) × M.Coll) (server : Server J M)
      → Keeps server (finish_build J M C new_response p server).1
  finish_build-Keeps (value none, builds) server = (refl, refl)
  finish_build-Keeps (value (some e), builds) server = (refl, refl)
  finish_build-Keeps (throws e, builds) server = (refl, refl)
  finish_build-Keeps (undefined, builds) server = (refl, refl)

  store_parsed_build-Keeps :
      (p : Outcome (Parsed Build)) (server : Server J M)
      → Keeps server (store_parsed_build J M C new_response p server).1
  store_parsed_build-Keeps (value (parsed b)) server =
      finish_build-Keeps (store_build J M b server.builds) server
  store_parsed_build-Keeps (value (refused res)) server = (refl, refl)
  store_parsed_build-Keeps (throws e) server = (refl, refl)
  store_parsed_build-Keeps undefined server = (refl, refl)

  callback-Keeps :
      (h : Handler) (req : C.Request) (server : Server J M)
      → h ≢ uploads_tests
      → Keeps server (callback J M C h req server).1
  unfolding callback upload_build upload_task_root_dir
  callback-Keeps uploads_tests req server other = absurd (other refl)
  callback-Keeps uploads_task_root_dir req server other = (refl, refl)
  callback-Keeps uploads_build req server other =
      store_parsed_build-Keeps (parse_build J C req new_response) server
  callback-Keeps lists_builds req server other = (refl, refl)
  callback-Keeps shows_build req server other = (refl, refl)

  store_parsed-Keeps :
      (p : Outcome (Parsed Task)) (server : Server J M)
      → ((task : Task) → p ≢ value (parsed task))
      → Keeps server (store_parsed J M C new_response p server).1
  store_parsed-Keeps (value (parsed task)) server no_task = absurd (no_task task refl)
  store_parsed-Keeps (value (refused res)) server no_task = (refl, refl)
  store_parsed-Keeps (throws e) server no_task = (refl, refl)
  store_parsed-Keeps undefined server no_task = (refl, refl)

  second_server :
      (p : Outcome Response × Server J M) (reply : Outcome Response) (server server' : Server J M)
      → p ≡ (reply, server')
      → Keeps server p.1
      → Keeps server server'
  second_server p reply server server' e h =
      let same : p.1 ≡ server' = ap (λ q. q.1) e in rw (← same) h

  pub another_handler-Keeps :
      (h : Handler) (req : C.Request) (reply : Outcome Response) (server server' : Server J M)
      → h ≢ uploads_tests
      → callback J M C h req server ≡ (reply, server')
      → Keeps server server'
  another_handler-Keeps h req reply server server' other done =
      second_server (callback J M C h req server) reply server server' done
        (callback-Keeps h req server other)

  pub not_parsed-Keeps :
      (req : C.Request) (reply : Outcome Response) (server server' : Server J M)
      → ((task : Task) → parse_tests J C req new_response ≢ value (parsed task))
      → callback J M C uploads_tests req server ≡ (reply, server')
      → Keeps server server'
  unfolding callback upload_tests
  not_parsed-Keeps req reply server server' no_task done =
      second_server (store_parsed J M C new_response (parse_tests J C req new_response) server)
        reply server server' done
        (store_parsed-Keeps (parse_tests J C req new_response) server no_task)
