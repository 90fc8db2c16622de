-- ===== src/Processor/Process/Childless.antt =====
-- A system that cannot make another process: fork gives -1 and waitpid fails
-- (testing_processor/docker_container.cpp, Exec, and testing_processor.cpp, Prepare).
use distributed_testing_syst.Base.{ap, ◌∙◌, str, List, [], ◌∷◌, Str, none, true, ◌≡◌, refl}
use distributed_testing_syst.Base.Int.{negsuc}
use distributed_testing_syst.Extern.System.{System, ChildEnd, replied, ScriptsFields}
use distributed_testing_syst.Processor.Container.{
  Container, ExecOptions, no_options, exec, exec_bash, create_file, echo_command,
}
use distributed_testing_syst.Processor.Request.{Request}
use distributed_testing_syst.Processor.Tabasco.{get_scripts}
use distributed_testing_syst.Processor.Execute.{Processor, execute_script_path}
use distributed_testing_syst.Processor.Process.{
  prepare, create_script, unpack_root_dir, in_user_root, init_script_path, user_data_path,
}

pub record IsChildless (S : System) : Type 0 where
  pub no_child : (code : S.World → ChildEnd × S.World) (w : S.World) → S.fork code w ≡ (negsuc 0, w)
  pub no_status : (w : S.World) → S.waitpid (negsuc 0) w ≡ (none, w)

module _ (S : System) (childless : IsChildless S) where
  exec-no_child :
      (c : Container) (args : List Str) (options : ExecOptions) (w : S.World)
      → exec S c args options w ≡ (0, w)
  unfolding exec
  exec-no_child c args options w = rw (childless.no_child, childless.no_status) refl

  create_file-no_child :
      (c : Container) (path content : Str) (w : S.World) → create_file S c path content w ≡ w
  unfolding create_file
  create_file-no_child c path content w =
      ap (λ r. r.1)
        (exec-no_child c (str "sh" ∷ str "-c" ∷ echo_command path content ∷ []) no_options w)

  create_script-no_child :
      (c : Container) (path content : Str) (w : S.World) → create_script S c path content w ≡ w
  unfolding create_script
  create_script-no_child c path content w =
      ap (λ r. r.1)
        (exec-no_child c (str "chmod" ∷ str "+x" ∷ path ∷ []) no_options
          (create_file S c path content w))
      ∙ create_file-no_child c path content w

  exec_bash-no_child :
      (c : Container) (args : List Str) (options : ExecOptions) (w : S.World)
      → exec_bash S c args options w ≡ (0, w)
  unfolding exec_bash
  exec_bash-no_child c args options w = exec-no_child c (str "/usr/bin/bash" ∷ args) options w

  -- Where fork gives no child and waitpid then fails, and both leave the world as it is, Prepare of
  -- a submission whose scripts the service sends with no root directory reports success and takes
  -- over the batch count, although none of its commands has run and no file was created in the
  -- container.
  pub prepare-no_child :
      (p : Processor) (r : Request) (w w' : S.World) (scripts : ScriptsFields)
      → S.stub_get_scripts r.task_id r.build_id w ≡ (replied scripts, w')
      → scripts.task_root_dir ≡ []
      → prepare S p r w ≡ ((true, record r { batch_count = scripts.batch_count }), w')
  unfolding prepare get_scripts unpack_root_dir
  prepare-no_child p r w w' scripts replies no_root_dir =
      rw
        (
          replies,
          no_root_dir,
          create_script-no_child p.container init_script_path scripts.init_script w',
          create_file-no_child p.container user_data_path r.user_data w',
          exec_bash-no_child p.container (str "init.sh" ∷ user_data_path ∷ []) in_user_root w',
          create_script-no_child p.container execute_script_path scripts.execute_script w',
        )
        refl
