-- ===== src/Tabasco/Http/Reads.antt =====
-- http/handlers/build_handler.cpp and builds_handler.cpp.
use distributed_testing_syst.Base.{ℕ, Option, none, some, str}
use distributed_testing_syst.Base.Number.{stoull}
use distributed_testing_syst.Base.Outcome.{Outcome, value, ◌>>=◌}
use distributed_testing_syst.Extern.Json.{Json}
use distributed_testing_syst.Extern.Mongo.{Mongo}
use distributed_testing_syst.Extern.Crow.{Crow, Response}
use distributed_testing_syst.Utils.Expected.{Expected, expected, unexpected}
use distributed_testing_syst.Tabasco.Data.{Build, Builds, build_to_json, builds_to_json}
use distributed_testing_syst.Tabasco.Storage.{Error, get_build, get_builds}
use distributed_testing_syst.Tabasco.Server.{Server}

module _ (J : Json) (M : Mongo J) (C : Crow) where
  -- TBuildHandler::Parse: the response, and the id if the request has one.
  unfoldable pub parse_build_id : C.Request → Response → Outcome (Response × Option ℕ)
  parse_build_id req res = elim (C.url_param req (str "id")) [
    | none ↦ value (record res { code = 400; body = str "id wasn't specified in url!" }, none)
    | some serialized_id ↦ do id ← stoull serialized_id; value (res, some id)
  ]

  abbrev pub answer_build : Response → Expected Build Error → Outcome Response
  answer_build res (unexpected e) = value (record res { code = e.error_code; body = e.msg })
  answer_build res (expected b) = do
    text ← J.dump (build_to_json J b)
    value (record res { body = text })

  abbrev pub show_build : Response → Option ℕ → Server J M → Outcome Response
  show_build res none server = value res
  show_build res (some build_id) server = do
    got ← get_build J M build_id server.builds
    answer_build res got

  -- TBuildHandler::Handle.
  unfoldable pub handle_build : C.Request → Response → Server J M → Outcome Response
  unfolding parse_build_id
  handle_build req res server = do (res', id) ← parse_build_id req res; show_build res' id server

  abbrev pub answer_builds : Response → Expected Builds Error → Outcome Response
  answer_builds res (unexpected e) = value (record res { code = e.error_code; body = e.msg })
  answer_builds res (expected bs) = do
    text ← J.dump (builds_to_json J bs)
    value (record res { body = text })

  -- TBuildsHandler::Handle.
  unfoldable pub handle_builds : C.Request → Response → Server J M → Outcome Response
  handle_builds req res server = do got ← get_builds J M server.builds; answer_builds res got
