-- ===== src/Tabasco/Http.antt =====
-- task_batcher_storage_coordinator/http: the server and its handlers. A handler fills in a response
-- and may throw; the server is the batch size and the three collections.
pub mod Uploads
pub mod Reads
pub mod Accepted
pub mod Order
pub mod Codes
pub mod Builds
use distributed_testing_syst.Base.{ℕ, Option, none, some, Str, str, str_eq, if◌then◌else◌, Bool}
use distributed_testing_syst.Base.Outcome.{Outcome}
use distributed_testing_syst.Extern.Json.{Json}
use distributed_testing_syst.Extern.Mongo.{Mongo}
use distributed_testing_syst.Extern.Crow.{Crow, Response, new_response}
use distributed_testing_syst.Tabasco.Server.{Server}
use distributed_testing_syst.Tabasco.Http.Uploads.{upload_tests, upload_task_root_dir, upload_build}
use distributed_testing_syst.Tabasco.Http.Reads.{handle_build, handle_builds}

pub data Method : Type 0 where
  get put : Method

-- The handlers of InitHandlers.
pub data Handler : Type 0 where
  uploads_tests uploads_task_root_dir uploads_build lists_builds shows_build : Handler

-- The routes of InitHandlers, by method and path.
unfoldable pub route : Method → Str → Option Handler
route put path =
    if str_eq path (str "/uploadTests")
    then some uploads_tests
    else if str_eq path (str "/uploadTaskRootDir")
    then some uploads_task_root_dir
    else if str_eq path (str "/uploadBuild")
    then some uploads_build
    else none
route get path =
    if str_eq path (str "/builds")
    then some lists_builds
    else if str_eq path (str "/build")
    then some shows_build
    else none

module _ (J : Json) (M : Mongo J) (C : Crow) where
  -- The callback of GetHandlerCallback: a handler on a new response.
  unfoldable pub callback : Handler → C.Request → Server J M → Outcome Response × Server J M
  callback uploads_tests req server = upload_tests J M C req new_response server
  callback uploads_task_root_dir req server = upload_task_root_dir J M C req new_response server
  callback uploads_build req server = upload_build J M C req new_response server
  callback lists_builds req server = (handle_builds J M C req new_response server, server)
  callback shows_build req server = (handle_build J M C req new_response server, server)
