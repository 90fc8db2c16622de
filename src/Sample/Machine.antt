-- ===== src/Sample/Machine.antt =====
-- A machine for the testing processor: its world is the number of test runs, and the executor's
-- report is a fixed text.
use distributed_testing_syst.Base.{
  ℕ, ◌+◌, ◌==◌, if◌then◌else◌, List, Option, none, some, str, get_elem?, true,
}
use distributed_testing_syst.Base.Int.{pos}
use distributed_testing_syst.Extern.Json.{Json}
use distributed_testing_syst.Extern.System.{System, exited, GrpcReply, failed, replied, BatchFields}
use distributed_testing_syst.Processor.Execute.{Processor}
use distributed_testing_syst.Processor.Request.{Request}
use distributed_testing_syst.Sample.Trees.{run_report, tree_json}

abbrev pub report_json : Json
report_json = record tree_json { parse = λ s. some run_report }

abbrev pub reply_of : Option BatchFields → GrpcReply BatchFields
reply_of none = failed (str "no batch")
reply_of (some batch) = replied batch

-- The checker accepts until the number of its runs is `bad`.
abbrev pub machine : ℕ → List BatchFields → System
machine bad batches = record {
  World = ℕ;
  write_file = λ path content w. w;
  read_file = λ path w. some (str "report");
  fork = λ code w. (pos 1, w);
  open_to_read = λ path w. (pos 3, w);
  open_to_write = λ path w. (pos 3, w);
  dup2 = λ fd fd' w. w;
  execv = λ path args w. (true, w);
  perror = λ text w. w;
  waitpid = λ pid w. (some (exited 0), w);
  popen = λ command w. (some (str "c0ffee"), w);
  system = λ command w. ((if w + 1 == bad then 1 else 0), w + 1);
  log = λ line w. w;
  stub_get_scripts = λ task_id build_id w. (failed (str "no task"), w);
  stub_get_batch = λ task_id batch_id w. (reply_of (get_elem? batches batch_id), w);
  post = λ url body w. (none, w);
}

abbrev pub processor : Processor
processor = record {
  container = record {
    image = str "box";
    cpu_count = 1;
    memory_limit = str "256m";
    memory_swap_limit = str "256m";
    pid_limit = 64;
    container_id = str "c0ffee";
  };
  local_storage_path = str "/tmp";
  commit_service_url = str "http://commit";
}

abbrev pub submission : Request
submission = record {
  submission_id = 11;
  build_id = 5;
  user_data = str "main";
  task_id = 7;
  memory_limit = 1024;
  cpu_time_limit_milli_seconds = 2000;
  batch_count = 2;
}
