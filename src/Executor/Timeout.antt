-- ===== src/Executor/Timeout.antt =====
-- The timeout of the executor, in the int of epoll_wait.
use distributed_testing_syst.Base.{ℕ, ◌-◌, ◌*◌, ◌≤◌, ◌<◌, ◌≡◌, ◌↔◌, arith}
use distributed_testing_syst.Base.Int.{pos, negsuc}
use distributed_testing_syst.Executor.{timeout}

-- The timeout of epoll_wait is the limit in milliseconds exactly up to 2147483 seconds, for every
-- limit, with the wrap-around of uint64_t and the conversion to int.
pub timeout-exact_iff :
    (seconds : ℕ) → (timeout seconds ≡ pos (seconds * 1000)) ↔ (seconds ≤ 2147483)
unfolding timeout
timeout-exact_iff seconds = ground arith

-- From 2147484 to 4294967 seconds the timeout of epoll_wait is negative.
pub timeout-negative :
    (seconds : ℕ) → 2147483 < seconds → seconds ≤ 4294967 → (n : ℕ) × (timeout seconds ≡ negsuc n)
unfolding timeout
timeout-negative seconds h k = (4294967295 - seconds * 1000, ground arith)
