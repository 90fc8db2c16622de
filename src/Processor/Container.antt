-- ===== src/Processor/Container.antt =====
-- testing_processor/docker_container.{h,cpp}.
pub mod Arguments
use distributed_testing_syst.Base.{
  ℕ, zero, suc, List, [], ◌∷◌, ◌++◌, Option, none, some, Str, str, to_string, ◌==◌, if◌then◌else◌,
  map,
}
use distributed_testing_syst.Base.Outcome.{Outcome, value, undefined}
use distributed_testing_syst.Utils.ExecVArgs.{ExecVArgs, exec_v_args, read_args}
use distributed_testing_syst.Extern.System.{
  System, WaitStatus, exited, not_exited, ChildEnd, replaced, exits,
}

pub record ExecOptions : Type 0 where
  pub std_in : Option Str
  pub std_out : Option Str
  pub working_dir : Option Str

abbrev pub no_options : ExecOptions
no_options = record { std_in = none; std_out = none; working_dir = none }

pub record Container : Type 0 where
  pub image : Str
  pub cpu_count : ℕ
  pub memory_limit : Str
  pub memory_swap_limit : Str
  pub pid_limit : ℕ
  pub container_id : Str

abbrev pub docker : Str
docker = str "/usr/bin/docker"

abbrev pub working_dir_args : Option Str → List Str
working_dir_args none = []
working_dir_args (some dir) = str "-w" ∷ dir ∷ []

-- GetExecCommandArgs.
unfoldable pub exec_command_args : Str → List Str → Option Str → ExecVArgs
unfolding exec_v_args
exec_command_args container_id script_args working_dir = exec_v_args docker (
    (docker ∷ str "exec" ∷ str "-i" ∷ [])
    ++ (working_dir_args working_dir ++ (container_id ∷ script_args)))

-- `!WIFEXITED(stat) || WEXITSTATUS(stat)`, as an int.
unfoldable pub exit_code : WaitStatus → ℕ
exit_code (exited zero) = 0
exit_code (exited (suc n)) = 1
exit_code not_exited = 1

-- `stat` keeps its first value 0, the status of an exit with 0, where waitpid fails.
abbrev pub or_zero : Option WaitStatus → WaitStatus
or_zero none = exited 0
or_zero (some status) = status

-- The characters before the end of the first line.
abbrev pub first_line : Str → Str
first_line [] = []
first_line (c ∷ s) = let rest = first_line s in if c == 10 then [] else c ∷ rest

-- The content stands between single quotes as it is.
abbrev pub echo_command : Str → Str → Str
echo_command path content =
    str "/usr/bin/echo" ++ (str " " ++ (str "'" ++ (content ++ (str "'" ++ (str " > " ++ path)))))

module _ (S : System) where
  abbrev pub run_command : Container → Str
  run_command c =
      str "/usr/bin/docker run -itd"
      ++ (str " --cpus "
          ++ (to_string c.cpu_count
              ++ (str " --memory "
                  ++ (c.memory_limit
                      ++ (str " --memory-swap "
                          ++ (c.memory_swap_limit
                              ++ (str " --pids-limit "
                                  ++ (to_string c.pid_limit ++ (str " " ++ c.image)))))))))

  -- fgetc on the null pointer that popen gives where it fails is undefined.
  abbrev pub read_id : Container → Option Str × S.World → Outcome Container × S.World
  read_id c (none, w) = (undefined, w)
  read_id c (some output, w) = (value (record c { container_id = first_line output }), w)

  unfoldable pub run : Container → S.World → Outcome Container × S.World
  run c w = read_id c (S.popen (run_command c) w)

  -- A file that cannot be opened gives -1, and dup2 of it fails: the child keeps what it had.
  abbrev pub redirect_in : Option Str → S.World → S.World
  redirect_in none w = w
  redirect_in (some path) w = let (fd, w') = S.open_to_read path w in S.dup2 fd 0 w'

  abbrev pub redirect_out : Option Str → S.World → S.World
  redirect_out none w = w
  redirect_out (some path) w = let (fd, w') = S.open_to_write path w in S.dup2 fd 1 w'

  -- What the child of Exec does.
  unfoldable pub exec_child : ExecVArgs → ExecOptions → S.World → ChildEnd × S.World
  exec_child command options w =
      let w' = redirect_out options.std_out (redirect_in options.std_in w) in
      let (done, w'') = S.execv command.path_name (read_args command.arg_v) w' in
      if done then (replaced, w'') else (exits 1, S.perror (str "docker container exec fail: ") w'')

  unfoldable pub exec : Container → List Str → ExecOptions → S.World → ℕ × S.World
  unfolding exec_command_args exit_code
  exec c script_args options w =
      let command = exec_command_args c.container_id script_args options.working_dir in
      let (pid, w1) = S.fork (exec_child command options) w in
      let (status, w2) = S.waitpid pid w1 in (exit_code (or_zero status), w2)

  unfoldable pub exec_bash : Container → List Str → ExecOptions → S.World → ℕ × S.World
  unfolding exec
  exec_bash c script_args options = exec c (str "/usr/bin/bash" ∷ script_args) options

  -- MoveFileInside; the status of the command is not read.
  unfoldable pub move_file_inside : Container → Str → Str → S.World → S.World
  move_file_inside c outside_path container_path w =
      (S.system
        (str "/usr/bin/docker cp"
          ++ (str " "
              ++ (outside_path ++ (str " " ++ (c.container_id ++ (str ":" ++ container_path))))))
        w).1

  -- CreateFile; the exit code is not read.
  unfoldable pub create_file : Container → Str → Str → S.World → S.World
  unfolding exec
  create_file c path content w =
      (exec c (str "sh" ∷ str "-c" ∷ echo_command path content ∷ []) no_options w).1
