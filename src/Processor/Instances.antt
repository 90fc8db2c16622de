-- ===== src/Processor/Instances.antt =====
-- testing_processor/main.cpp, and the constructors that it calls: one broker client per instance, each
-- with a directory of its own. The configuration is a message of testing_processor/proto.
pub mod Storage
use distributed_testing_syst.Base.{
  ℕ, zero, suc, ◌+◌, ◌==◌, List, [], ◌∷◌, ◌++◌, map, Option, none, some, Str, str, to_string, Bool,
  true, false, if◌then◌else◌,
}
use distributed_testing_syst.Base.Outcome.{Outcome, value, throws, ◌>>=◌}
use distributed_testing_syst.Config.{read_config}
use distributed_testing_syst.Processor.Container.{Container}
use distributed_testing_syst.Processor.Execute.{Processor}

pub record ContainerConfig : Type 0 where
  pub cpu_count : ℕ
  pub memory_limit : Str
  pub memory_swap_limit : Str
  pub pid_limit : ℕ
  pub image_name : Str

pub record BrokerConfig : Type 0 where
  pub server_url : Str
  pub queue_name : Str

pub record Config : Type 0 where
  pub docker_container : ContainerConfig
  pub broker_client : BrokerConfig
  pub tabasco_url : Str
  pub commit_service_url : Str
  pub instance_count : ℕ
  pub local_storage_path : Str

-- TDockerContainer, before Run has given it an id.
unfoldable pub new_container : ContainerConfig → Container
new_container config = record {
  image = config.image_name;
  cpu_count = config.cpu_count;
  memory_limit = config.memory_limit;
  memory_swap_limit = config.memory_swap_limit;
  pid_limit = config.pid_limit;
  container_id = [];
}

unfoldable pub new_processor : Config → Processor
new_processor config = record {
  container = new_container config.docker_container;
  local_storage_path = config.local_storage_path;
  commit_service_url = config.commit_service_url;
}

pub record BrokerClient : Type 0 where
  pub url : Str
  pub queue : Str
  pub processor : Processor

unfoldable pub new_broker_client : Config → BrokerClient
new_broker_client config = record {
  url = config.broker_client.server_url;
  queue = config.broker_client.queue_name;
  processor = new_processor config;
}

unfoldable pub instance_path : ℕ → Str
instance_path i = str "localStorage" ++ to_string i

-- The file system, as the threads use it: whether a path is there, and whether a directory could
-- be made.
module _ {W : Type 0} (exists : Str → W → Bool) (create_directory : Str → W → Bool × W) where
  -- The thread of an instance, up to the loop of its client.
  unfoldable pub start_instance : Config → ℕ → W → Outcome BrokerClient × W
  start_instance config i w =
      let path = instance_path i in
      let client = new_broker_client (record config { local_storage_path = path }) in
      let (created, w') = create_directory path w in
      if exists path w
      then (value client, w)
      else if created
      then (value client, w')
      else (throws (str "can't create local storage for: " ++ path), w')

  -- 0, 1, …: `count` numbers from `i` on.
  abbrev pub indices : ℕ → ℕ → List ℕ
  indices i zero = []
  indices i (suc count) = i ∷ indices (i + 1) count

  -- The threads that main starts and joins.
  unfoldable pub main :
      (Str → Option Config) → Option Str → Outcome (List (W → Outcome BrokerClient × W))
  unfolding read_config start_instance
  main parse file = do
    config ← read_config parse file
    value (map (start_instance config) (indices 0 config.instance_count))
