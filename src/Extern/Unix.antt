-- ===== src/Extern/Unix.antt =====
-- The system calls of the executor. Each takes the world and returns the world that it leaves.
use distributed_testing_syst.Base.{ℕ, List, Str, Bool}
use distributed_testing_syst.Base.Int.{ℤ}
use distributed_testing_syst.Extern.System.{WaitStatus, ChildEnd}

-- timeval, and what wait4 tells of the resources of a process.
pub record Timeval : Type 0 where
  pub tv_sec : ℕ
  pub tv_usec : ℕ

pub record Rusage : Type 0 where
  pub ru_utime : Timeval
  pub ru_stime : Timeval
  pub ru_maxrss : ℕ

pub record Unix : Type 1 where
  pub World : Type 0
  -- setpgrp and execv tell whether they succeeded; execv of a path with its arguments.
  pub setpgrp : World → Bool × World
  pub setrlimit_cpu : ℕ → ℕ → World → World
  pub execv : Str → List Str → World → Bool × World
  pub perror : Str → World → World
  -- A child that runs this code beside its parent; its process id, -1 where there is no child.
  pub fork : (World → ChildEnd × World) → World → ℤ × World
  -- std::chrono::steady_clock::now in nanoseconds.
  pub now : World → ℕ × World
  -- A file descriptor, or -1.
  pub epoll_create : World → ℤ × World
  pub pidfd_open : ℤ → World → ℤ × World
  pub epoll_ctl_add : ℤ → ℤ → World → World
  -- epoll_wait of one event with its timeout in milliseconds.
  pub epoll_wait : ℤ → ℤ → World → World
  -- kill with SIGKILL: a negative number is a process group.
  pub kill : ℤ → World → World
  pub close : ℤ → World → World
  pub wait4 : ℤ → World → (WaitStatus × Rusage) × World
  -- `std::ofstream(path) << content`.
  pub write_file : Str → Str → World → World
