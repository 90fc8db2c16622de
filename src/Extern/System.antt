-- ===== src/Extern/System.antt =====
-- The operating system, Docker, curl and the gRPC stub, as the testing processor calls them. Each
-- call takes the world and returns the world that it leaves; nothing is assumed of what it does.
use distributed_testing_syst.Base.{ℕ, List, Option, Str, Bool}
use distributed_testing_syst.Base.Int.{ℤ}

-- The status that waitpid gives.
pub data WaitStatus : Type 0 where
  exited : ℕ → WaitStatus
  not_exited : WaitStatus

-- How the code of a child ends: another program is in its place, or it exits with a code.
pub data ChildEnd : Type 0 where
  replaced : ChildEnd
  exits : ℕ → ChildEnd

-- The reply of the service to GetScripts and to GetBatch: the message of a status that is not OK,
-- or the fields of the response.
pub data GrpcReply (A : Type 0) : Type 0 where
  failed : Str → GrpcReply A
  replied : A → GrpcReply A

pub record ScriptsFields : Type 0 where
  pub init_script : Str
  pub execute_script : Str
  pub batch_count : ℕ
  pub task_root_dir : Str

pub record BatchFields : Type 0 where
  pub input : List Str
  pub output : List Str

pub record System : Type 1 where
  pub World : Type 0
  -- `std::ofstream(path) << content`, and the content of a file that can be opened.
  pub write_file : Str → Str → World → World
  pub read_file : Str → World → Option Str
  -- A child that runs this code beside its parent; its process id, -1 where there is no child.
  pub fork : (World → ChildEnd × World) → World → ℤ × World
  -- open with O_RDONLY, and with O_WRONLY | O_CREAT | O_TRUNC: a file descriptor, or -1.
  pub open_to_read : Str → World → ℤ × World
  pub open_to_write : Str → World → ℤ × World
  pub dup2 : ℤ → ℕ → World → World
  -- execv of a path with its arguments tells whether it succeeded.
  pub execv : Str → List Str → World → Bool × World
  pub perror : Str → World → World
  -- The status of the process, none where waitpid fails.
  pub waitpid : ℤ → World → Option WaitStatus × World
  -- What a command run by popen prints, none where popen gives no stream, and WEXITSTATUS of a command run by system.
  pub popen : Str → World → Option Str × World
  pub system : Str → World → ℕ × World
  pub log : Str → World → World
  -- The stub's GetScripts and GetBatch, by task and build id and by task and batch id.
  pub stub_get_scripts : ℕ → ℕ → World → GrpcReply ScriptsFields × World
  pub stub_get_batch : ℕ → ℕ → World → GrpcReply BatchFields × World
  -- A POST of a JSON body to a URL; the message of an exception.
  pub post : Str → Str → World → Option Str × World
