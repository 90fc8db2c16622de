-- ===== src/Utils/ExecVArgs.antt =====
-- utils/execv_args.h.
use distributed_testing_syst.Base.{
  List, [], ◌∷◌, ◌++◌, Option, none, some, Str, map, ◌==◌, if◌then◌else◌,
}

-- TExecVArgs: a path, and the arguments with the null pointer that ends them.
pub record ExecVArgs : Type 0 where
  pub path_name : Str
  pub arg_v : List (Option Str)

-- What is read of the bytes of a string through a char pointer: those before the first null.
unfoldable pub c_string : Str → Str
c_string [] = []
c_string (c ∷ s) = let rest = c_string s in if c == 0 then [] else c ∷ rest

unfoldable pub exec_v_args : Str → List Str → ExecVArgs
unfolding c_string
exec_v_args path_name args = record {
  path_name = c_string path_name;
  arg_v = map (λ arg. some (c_string arg)) args ++ none ∷ [];
}

-- What execv reads: the arguments before the first null pointer.
abbrev pub read_args : List (Option Str) → List Str
read_args [] = []
read_args (none ∷ args) = []
read_args (some arg ∷ args) = arg ∷ read_args args
