-- ===== src/Executor.antt =====
-- executor/: a command under a limit of its processor time, and the report of its run.
pub mod Timeout
pub mod Reported
use distributed_testing_syst.Base.{
  ℕ, zero, suc, ◌+◌, ◌-◌, ◌*◌, ◌/◌, ◌%◌, ◌^◌, List, [], ◌∷◌, Option, none, some, Str, str, Bool,
  true, false, ltb, leb, if◌then◌else◌,
}
use distributed_testing_syst.Base.Int.{ℤ, pos, negsuc, negate}
use distributed_testing_syst.Base.Outcome.{Outcome, value, undefined, ◌>>=◌}
use distributed_testing_syst.Base.Action.{continue}
use distributed_testing_syst.Extern.Json.{Json}
use distributed_testing_syst.Extern.System.{WaitStatus, exited, not_exited}
use distributed_testing_syst.Extern.Unix.{Timeval, Rusage, Unix}
use distributed_testing_syst.Extern.System.{ChildEnd, replaced, exits}
use distributed_testing_syst.Utils.ExecVArgs.{ExecVArgs, exec_v_args, read_args}

pub record ExecutorArgs : Type 0 where
  pub execute : Str
  pub cpu_time_limit_seconds : ℕ
  pub output_report_file : Str

-- The options that the command line gives.
pub record Options : Type 0 where
  pub execute : Str
  pub cpu_time_limit : ℕ
  pub output_report_path : Option Str

abbrev pub or_default : Option Str → Str
or_default none = str "report.json"
or_default (some path) = path

unfoldable pub args_of_options : Options → ExecutorArgs
args_of_options o = record {
  execute = o.execute;
  cpu_time_limit_seconds = o.cpu_time_limit;
  output_report_file = or_default o.output_report_path;
}

-- static_cast<int> of a uint64_t.
abbrev pub to_int32 : ℕ → ℤ
to_int32 n =
    if ltb (n % 2 ^ 32) (2 ^ 31) then pos (n % 2 ^ 32) else negsuc (2 ^ 32 - n % 2 ^ 32 - 1)

-- The timeout of epoll_wait, from a product of uint64_t.
unfoldable pub timeout : ℕ → ℤ
timeout seconds = to_int32 ((seconds * 1000) % 2 ^ 64)

-- `!WIFEXITED(waitStatus) || WEXITSTATUS(waitStatus)`, as an int.
unfoldable pub exit_code : WaitStatus → ℕ
exit_code (exited zero) = 0
exit_code (exited (suc n)) = 1
exit_code not_exited = 1

-- A value of `long` that is not negative; overflow is undefined.
abbrev pub long : ℕ → Outcome ℕ
long n = if ltb n (2 ^ 63) then value n else undefined

unfoldable pub cpu_time : Rusage → Outcome ℕ
cpu_time info = do
  system ← long (1000000 * info.ru_stime.tv_sec)
  system' ← long (system + info.ru_stime.tv_usec)
  user ← long (1000000 * info.ru_utime.tv_sec)
  both ← long (system' + user)
  long (both + info.ru_utime.tv_usec)

-- duration_cast<microseconds>(end - begin).count() as a uint64_t.
unfoldable pub wall_time : ℕ → ℕ → ℕ
wall_time begin end =
    if leb begin end then (end - begin) / 1000 else (2 ^ 64 - (begin - end) / 1000) % 2 ^ 64

module _ (J : Json) where
  unfoldable pub report_json : ℕ → ℕ → ℕ → ℕ → J.Value
  report_json cpu wall memory exit =
      let v = J.assign J.null (str "cpuTimeElapsedMicroSeconds") (J.of_nat cpu) in
      let v' = J.assign v (str "wallTimeElapsedMicroSeconds") (J.of_nat wall) in
      let v'' = J.assign v' (str "memorySpent") (J.of_nat memory) in
      J.assign v'' (str "exitCode") (J.of_nat exit)

module _ (U : Unix) where
  -- What the child does after the fork.
  unfoldable pub child : ExecutorArgs → U.World → ChildEnd × U.World
  unfolding exec_v_args
  child args w =
      let command =
        exec_v_args (str "/usr/bin/sh") (str "/usr/bin/sh" ∷ str "-c" ∷ args.execute ∷ []) in
      let (grouped, w1) = U.setpgrp w in
      let w2 = U.setrlimit_cpu args.cpu_time_limit_seconds args.cpu_time_limit_seconds w1 in
      let (done, w3) = U.execv command.path_name (read_args command.arg_v) w2 in
      if grouped
      then if done then (replaced, w3) else (exits 1, U.perror (str "error: ") w3)
      else (exits 1, w1)

  -- What the parent learns of the run.
  pub record Ended : Type 0 where
    pub wall : ℕ
    pub status : WaitStatus
    pub info : Rusage

  unfoldable pub supervise : ExecutorArgs → U.World → Ended × U.World
  supervise args w =
      let (pid, w1) = U.fork (child args) w in
      let (begin, w2) = U.now w1 in
      let (epoll, w3) = U.epoll_create w2 in
      let (pidfd, w4) = U.pidfd_open pid w3 in
      let w5 =
        U.epoll_wait epoll (timeout args.cpu_time_limit_seconds) (U.epoll_ctl_add epoll pidfd w4) in
      let (end, w6) = U.now w5 in
      let w7 = U.close pidfd (U.close epoll (U.kill (negate pid) w6)) in
      let ((status, info), w8) = U.wait4 pid w7 in
      (record { wall = wall_time begin end; status = status; info = info }, w8)

module _ (J : Json) (U : Unix) where
  unfoldable pub report_text : Ended U → Outcome Str
  report_text ended = do
    cpu ← cpu_time ended.info
    J.dump (report_json J cpu ended.wall ended.info.ru_maxrss (exit_code ended.status))

  unfoldable pub write_report : Str → Ended U → U.World → Outcome (Unit {0}) × U.World
  write_report path ended w =
      continue (report_text ended, w) (λ text w'. (value tt, U.write_file path text w'))

  unfoldable pub execute : ExecutorArgs → U.World → Outcome (Unit {0}) × U.World
  execute args w =
      let (ended, w') = supervise U args w in write_report args.output_report_file ended w'

  unfoldable pub main : Options → U.World → Outcome (Unit {0}) × U.World
  main o = execute (args_of_options o)
