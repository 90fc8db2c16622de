-- ===== src/Tabasco/Served.antt =====
-- Requests that the HTTP server (task_batcher_storage_coordinator/http/server.cpp) answers one after
-- the other.
pub mod Kept
pub mod Fetched
use distributed_testing_syst.Base.{
  ℕ, List, [], ◌∷◌, Option, none, some, ◌==◌, if◌then◌else◌, ◌≡◌, ◌≢◌,
}
use distributed_testing_syst.Base.Outcome.{Outcome, value}
use distributed_testing_syst.Extern.Json.{Json}
use distributed_testing_syst.Extern.Mongo.{Mongo}
use distributed_testing_syst.Extern.Crow.{Crow, Response, new_response}
use distributed_testing_syst.Tabasco.Data.{Task}
use distributed_testing_syst.Tabasco.Server.{Server}
use distributed_testing_syst.Tabasco.Http.{Handler, uploads_tests, callback}
use distributed_testing_syst.Tabasco.Http.Uploads.{parsed, parse_tests}

-- The last upload of a task, of uploads that stand in a list with the last one first.
abbrev pub last_upload : ℕ → List Task → Option Task
last_upload id [] = none
last_upload id (task ∷ tasks) = if task.id == id then some task else last_upload id tasks

-- The servers after requests, and the tasks that were uploaded and answered by 200. An upload that
-- Parse accepts and that ends in another way is not one of these requests.
pub data Serves (J : Json) (M : Mongo J) (C : Crow) (start : Server J M)
    : List Task → Server J M → Type 0 where
  begun : Serves J M C start [] start
  uploaded_task :
      {tasks : List Task} {server server' : Server J M} (req : C.Request) (task : Task)
      (res : Response)
      → Serves J M C start tasks server
      → parse_tests J C req new_response ≡ value (parsed task)
      → callback J M C uploads_tests req server ≡ (value res, server')
      → res.code ≡ 200
      → Serves J M C start (task ∷ tasks) server'
  not_parsed :
      {tasks : List Task} {server server' : Server J M} (req : C.Request) (reply : Outcome Response)
      → Serves J M C start tasks server
      → ((task : Task) → parse_tests J C req new_response ≢ value (parsed task))
      → callback J M C uploads_tests req server ≡ (reply, server')
      → Serves J M C start tasks server'
  another_handler :
      {tasks : List Task} {server server' : Server J M} (h : Handler) (req : C.Request)
      (reply : Outcome Response)
      → Serves J M C start tasks server
      → h ≢ uploads_tests
      → callback J M C h req server ≡ (reply, server')
      → Serves J M C start tasks server'
