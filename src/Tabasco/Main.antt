-- ===== src/Tabasco/Main.antt =====
-- The main functions of task_batcher_storage_coordinator/http and grpc, and the constructors that they
-- call. The configuration is TTabascoServerConfig of common/proto.
use distributed_testing_syst.Base.{
  ℕ, ◌++◌, Option, none, some, Str, str, to_string, ◌≡◌, refl, sym, ap, ◌∙◌,
}
use distributed_testing_syst.Base.Outcome.{Outcome, value, ◌>>=◌, >>=-eq-value}
use distributed_testing_syst.Config.{read_config}
use distributed_testing_syst.Extern.Json.{Json}
use distributed_testing_syst.Extern.Mongo.{Mongo}
use distributed_testing_syst.Tabasco.Server.{Server}

pub record StorageClientConfig : Type 0 where
  pub uri : Str
  pub dbname : Str

pub record ServerConfig : Type 0 where
  pub batch_size : ℕ
  pub server_port : ℕ
  pub server_thread_count : ℕ
  pub storage_client : StorageClientConfig

-- `--server-port`, where it is given, takes the place of the port of the file.
abbrev pub with_port : Option ℕ → ServerConfig → ServerConfig
with_port none config = config
with_port (some port) config = record config { server_port = port }

unfoldable pub server_config :
    (Str → Option ServerConfig) → Option Str → Option ℕ → Outcome ServerConfig
unfolding read_config
server_config parse file port = do config ← read_config parse file; value (with_port port config)

-- The address on which the gRPC server listens.
unfoldable pub address : ServerConfig → Str
address config = str "0.0.0.0" ++ (str ":" ++ to_string config.server_port)

-- A collection by the address of the database, its name and the collection's.
module _ (J : Json) (M : Mongo J) (collection : Str → Str → Str → M.Coll) where
  unfoldable pub new_server : ServerConfig → Server J M
  new_server config =
      let client = config.storage_client in
      record {
        batch_size = config.batch_size;
        builds = collection client.uri client.dbname (str "builds");
        task_meta = collection client.uri client.dbname (str "taskMeta");
        task_tests = collection client.uri client.dbname (str "taskTests");
      }

  -- What Crow is given besides the handlers.
  pub record App : Type 0 where
    pub server : Server J M
    pub concurrency : ℕ
    pub port : ℕ

  unfoldable pub http_main : (Str → Option ServerConfig) → Option Str → Option ℕ → Outcome App
  unfolding server_config new_server
  http_main parse file port = do
    config ← server_config parse file port
    value (record {
      server = new_server config;
      concurrency = config.server_thread_count;
      port = config.server_port;
    })

  pub record Listening : Type 0 where
    pub service : Server J M
    pub ip_addr : Str

  unfoldable pub grpc_main : (Str → Option ServerConfig) → Option Str → Option ℕ → Outcome Listening
  unfolding server_config new_server address
  grpc_main parse file port = do
    config ← server_config parse file port
    value (record { service = new_server config; ip_addr = address config })

  with_port-new_server :
      (port : Option ℕ) (config : ServerConfig)
      → new_server (with_port port config) ≡ new_server config
  unfolding new_server
  with_port-new_server none config = refl
  with_port-new_server (some port) config = refl

  server_config-new_server :
      (parse : Str → Option ServerConfig) (file : Option Str) (port : Option ℕ)
      (config : ServerConfig)
      → server_config parse file port ≡ value config
      → (read : ServerConfig) × (read_config parse file ≡ value read)
        × (new_server config ≡ new_server read)
  unfolding server_config
  server_config-new_server parse file port config e =
      let (read, is_read, ported) = >>=-eq-value (read_config parse file) _ e in
      let same : with_port port read ≡ config = cc in
      (read, is_read, ap new_server (sym same) ∙ with_port-new_server port read)

  -- Where the two main functions start with the same configuration file, whatever ports their
  -- command lines give, the HTTP server and the gRPC service have the same batch size and the same
  -- collections.
  pub mains-same_server :
      (parse : Str → Option ServerConfig) (file : Option Str) (port1 port2 : Option ℕ) (app : App)
      (listening : Listening)
      → http_main parse file port1 ≡ value app
      → grpc_main parse file port2 ≡ value listening
      → app.server ≡ listening.service
  unfolding http_main grpc_main
  mains-same_server parse file port1 port2 app listening e1 e2 =
      let (config1, c1, d1) = >>=-eq-value (server_config parse file port1) _ e1 in
      let (config2, c2, d2) = >>=-eq-value (server_config parse file port2) _ e2 in
      let (read1, r1, s1) = server_config-new_server parse file port1 config1 c1 in
      let (read2, r2, s2) = server_config-new_server parse file port2 config2 c2 in
      let same : read1 ≡ read2 = cc in
      let here : app.server ≡ new_server config1 = cc in
      let there : new_server config2 ≡ listening.service = cc in
      here ∙ s1 ∙ ap new_server same ∙ sym s2 ∙ there
