-- ===== src/Examples/Startup.antt =====
-- The programs as their main functions start them.
use mathlib.Core.List.Memᴰ
use distributed_testing_syst.Base.{ℕ, ◌+◌, [], none, some, str, true, false, ◌≡◌, ◌≢◌, refl, arith}
use distributed_testing_syst.Base.Outcome.{throws}
use distributed_testing_syst.Config.{read_config}
use distributed_testing_syst.Processor.Execute.{child_path}
use distributed_testing_syst.Processor.Instances.{
  Config, BrokerClient, new_broker_client, new_processor, instance_path, start_instance,
}
use distributed_testing_syst.Processor.Instances.Storage.{start_instance-apart}
use distributed_testing_syst.Tabasco.Server.{Server}
use distributed_testing_syst.Tabasco.Main.{ServerConfig, App, Listening}
use distributed_testing_syst.Sample.Trees.{tree_json}
use distributed_testing_syst.Sample.Database.{list_mongo, empty_coll}

abbrev file : ServerConfig
file = record {
  batch_size = 6;
  server_port = 8080;
  server_thread_count = 4;
  storage_client = record { uri = str "mongodb://db"; dbname = str "tabasco" };
}

abbrev server : Server tree_json list_mongo
server = record {
  batch_size = 6;
  builds = empty_coll;
  task_meta = empty_coll;
  task_tests = empty_coll;
}

abbrev app : App tree_json list_mongo (λ uri dbname name. empty_coll)
app = record { server = server; concurrency = 4; port = 8080 }

abbrev listening : Listening tree_json list_mongo (λ uri dbname name. empty_coll)
listening = record { service = server; ip_addr = str "0.0.0.0:50051" }

unreadable : read_config (λ content. some file) none ≡ throws (str "can't parse config")
unfolding read_config
unreadable = refl

abbrev config : Config
config = record {
  docker_container = record {
    cpu_count = 1;
    memory_limit = str "256m";
    memory_swap_limit = str "256m";
    pid_limit = 64;
    image_name = str "box";
  };
  broker_client = record { server_url = str "amqp://queue"; queue_name = str "submissions" };
  tabasco_url = str "tabasco:50051";
  commit_service_url = str "http://commit";
  instance_count = 2;
  local_storage_path = [];
}

abbrev client : ℕ → BrokerClient
client i = new_broker_client (record config { local_storage_path = instance_path i })

start_instance-apart_example :
    child_path (instance_path 1) (str "input.txt") ≢ child_path (instance_path 11) (str "input.txt")
unfolding start_instance new_broker_client new_processor
start_instance-apart_example =
    start_instance-apart (λ path w. false) (λ path w. (true, w + 1)) config 1 11 0 0 1 1 (client 1)
      (client 11) (omega arith) refl refl (str "input.txt") (str "input.txt") (Memᴰ.head refl)
      (Memᴰ.head refl)
