-- ===== src/Tabasco/Server.antt =====
-- TTabascoHTTPServer of task_batcher_storage_coordinator/http/server.h: the batch size and the
-- storage client, as the collections that the client keeps.
use distributed_testing_syst.Base.{ℕ}
use distributed_testing_syst.Extern.Json.{Json}
use distributed_testing_syst.Extern.Mongo.{Mongo}

pub record Server (J : Json) (M : Mongo J) : Type 0 where
  pub batch_size : ℕ
  pub builds : M.Coll
  pub task_meta : M.Coll
  pub task_tests : M.Coll
