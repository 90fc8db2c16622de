-- ===== src/Processor/Container/Arguments.antt =====
-- The arguments of execv (utils/execv_args.h).
use distributed_testing_syst.Base.{List, [], ◌∷◌, Str, map, ◌≡◌, refl, ap}
use distributed_testing_syst.Utils.ExecVArgs.{read_args, exec_v_args, c_string}

-- The arguments that execv reads from the vector of TExecVArgs, up to its null pointer, are the
-- arguments that it was made from, each up to its first null byte.
pub read_args-exec_v_args :
    (path_name : Str) (args : List Str)
    → read_args (exec_v_args path_name args).arg_v ≡ map c_string args
unfolding exec_v_args
read_args-exec_v_args path_name [] = refl
read_args-exec_v_args path_name (arg ∷ args) =
    ap (◌∷◌ (c_string arg)) (read_args-exec_v_args path_name args)
