-- ===== src/Examples/Executor.antt =====
-- A run of 1.5 seconds, of which the system counts 0.3 in the kernel and 1.2 outside it.
use distributed_testing_syst.Base.{◌↔◌, ◌≤◌, ◌*◌}
use distributed_testing_syst.Base.{
  ℕ, ◌+◌, ◌/◌, List, [], ◌∷◌, some, Str, str, true, ◌≡◌, refl, arith,
}
use distributed_testing_syst.Base.Int.{pos, negsuc}
use distributed_testing_syst.Base.Outcome.{value}
use distributed_testing_syst.Extern.Json.{Json}
use distributed_testing_syst.Extern.System.{System, WaitStatus, exited, not_exited}
use distributed_testing_syst.Extern.Unix.{Unix, Rusage}
use distributed_testing_syst.Processor.Report.{re}
use distributed_testing_syst.Processor.Execute.{ran, execute_and_test}
use distributed_testing_syst.Processor.Execute.Verdicts.{judge, check_command}
use distributed_testing_syst.Executor.{
  ExecutorArgs, Ended, timeout, supervise, child, wall_time, exit_code, report_json,
}
use distributed_testing_syst.Executor.Timeout.{timeout-exact_iff, timeout-negative}
use distributed_testing_syst.Executor.Reported.{report_of, report_of-judge, signalled-re}
use distributed_testing_syst.Sample.Trees.{tree_json}
use distributed_testing_syst.Sample.Machine.{machine, processor, submission}

-- The clock in nanoseconds, and the files that were written.
pub record State : Type 0 where
  pub clock : ℕ
  pub files : List (Str × Str)

abbrev used : Rusage
used = record {
  ru_utime = record { tv_sec = 1; tv_usec = 200000 };
  ru_stime = record { tv_sec = 0; tv_usec = 300000 };
  ru_maxrss = 64;
}

abbrev unix : WaitStatus → Unix
unix status = record {
  World = State;
  setpgrp = λ w. (true, w);
  setrlimit_cpu = λ soft hard w. w;
  execv = λ path args w. (true, w);
  perror = λ text w. w;
  fork = λ code w. (pos 7, (code w).1);
  now = λ w. (w.clock, w);
  epoll_create = λ w. (pos 3, w);
  pidfd_open = λ pid w. (pos 4, w);
  epoll_ctl_add = λ epoll fd w. w;
  epoll_wait = λ epoll timeout w. record w { clock = w.clock + 1600000000 };
  kill = λ pid w. w;
  close = λ fd w. w;
  wait4 = λ pid w. ((status, used), w);
  write_file = λ path text w. record w { files = (path, text) ∷ w.files };
}

abbrev start : State
start = record { clock = 10; files = [] }

abbrev args : ExecutorArgs
args = record { execute = str "./a"; cpu_time_limit_seconds = 2; output_report_file = str "r" }

abbrev ended : (status : WaitStatus) → Ended (unix status)
ended status = record { wall = 1600000; status = status; info = used }

supervised : (supervise (unix (exited 0)) args start).0 ≡ ended (exited 0)
unfolding supervise child wall_time timeout
supervised = refl

timeout-exact_iff_example : (timeout 2147483 ≡ pos (2147483 * 1000)) ↔ (2147483 ≤ 2147483)
timeout-exact_iff_example = timeout-exact_iff 2147483

timeout-negative_example : (n : ℕ) × (timeout 2147484 ≡ negsuc n)
timeout-negative_example = timeout-negative 2147484 (omega arith) (omega arith)

-- The report is what the machine of the processor reads.
abbrev reading : WaitStatus → Json
reading status = record tree_json {
  parse = λ text. some (report_of tree_json (unix status) (ended status));
}

abbrev system : System
system = machine 2 []

abbrev checker : WaitStatus → ℕ
checker status =
    (system.system (check_command (str "/tmp"))
      (ran (reading status) system processor submission (str "ab") (str "c") 0)).0

report_of-judge_example :
    (execute_and_test (reading (exited 0)) system processor submission (str "ab") (str "c") 0).0
    ≡ value (record {
      cpu_time_elapsed_milli_seconds = 1500000 / 1000;
      memory_spent = 64;
      verdict = judge submission (exit_code (exited 0)) 1500000 64 (checker (exited 0));
    })
unfolding report_json
report_of-judge_example =
    report_of-judge (reading (exited 0)) (unix (exited 0)) system processor submission
      (ended (exited 0)) (str "ab") (str "c") 0 (str "report") refl refl

signalled-re_example :
    (execute_and_test (reading not_exited) system processor submission (str "ab") (str "c") 0).0
    ≡ value (record {
      cpu_time_elapsed_milli_seconds = 1500000 / 1000;
      memory_spent = 64;
      verdict = re;
    })
unfolding report_json
signalled-re_example =
    signalled-re (reading not_exited) (unix not_exited) system processor submission
      (ended not_exited) (str "ab") (str "c") 0 (str "report") refl refl refl
