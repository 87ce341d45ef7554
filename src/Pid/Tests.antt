-- ===== src/Pid/Tests.antt =====
-- arch/i386/task/task.c: the theorems on a map whose first word is full.
use Prim.Native.Nat.{ℕ}
use hurlex_ii.Base.{◌==◌, if◌then◌else◌}
use hurlex_ii.Pid.{alloc_pid}
use hurlex_ii.Pid.Alloc.{Allocated, alloc_pid-Allocated}

abbrev first_full : ℕ → ℕ
first_full i = if i == 0 then 0xFFFF_FFFF else 1

-- The first free id is 33.
alloc_pid-Allocated_example : Allocated 0 8192 first_full (alloc_pid first_full)
alloc_pid-Allocated_example = alloc_pid-Allocated first_full
