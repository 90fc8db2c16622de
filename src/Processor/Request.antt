-- ===== src/Processor/Request.antt =====
-- testing_processor/testing_processor_request.h: a submission, read from the JSON of a message.
use distributed_testing_syst.Base.{ℕ, Str, str}
use distributed_testing_syst.Base.Outcome.{Outcome, value, ◌>>=◌}
use distributed_testing_syst.Extern.Json.{Json}

pub record Request : Type 0 where
  pub submission_id : ℕ
  pub build_id : ℕ
  pub user_data : Str
  pub task_id : ℕ
  pub memory_limit : ℕ
  pub cpu_time_limit_milli_seconds : ℕ
  pub batch_count : ℕ

module _ (J : Json) where
  abbrev pub nat_at : J.Value → Str → Outcome ℕ
  nat_at v key = do w ← J.index v key; J.to_nat w

  -- The members are initialised in the order of their declaration.
  unfoldable pub request_from_json : J.Value → Outcome Request
  request_from_json v = do
    submission_id ← nat_at v (str "submissionId")
    build_id ← nat_at v (str "buildId")
    data' ← J.index v (str "userData")
    user_data ← J.to_str data'
    task_id ← nat_at v (str "taskId")
    memory_limit ← nat_at v (str "memoryLimit")
    cpu_time_limit ← nat_at v (str "cpuTimeLimitMilliSeconds")
    value (record {
      submission_id = submission_id;
      build_id = build_id;
      user_data = user_data;
      task_id = task_id;
      memory_limit = memory_limit;
      cpu_time_limit_milli_seconds = cpu_time_limit;
      batch_count = 0;
    })
