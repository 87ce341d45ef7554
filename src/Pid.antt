-- ===== src/Pid.antt =====
-- arch/i386/task/task.c: the map of the process ids in use, a bit for each. The words of
-- `glb_pid_map` are a function of the index.
pub mod Alloc
mod Tests
use hurlex_ii.Base.{
  ℕ, zero, suc, ◌+◌, ◌*◌, ◌/◌, ◌%◌, Bool, Option, none, some, ◌==◌, ltb, not, if◌then◌else◌, update,
  has_bit, set_bit, clear_bit, ℤ, pos, negsuc,
}

abbrev pub max_pid : ℕ
max_pid = 8192

-- The inner loop of `alloc_pid`: the first clear bit from `j` on.
pub clear_bit_from : (rounds j word : ℕ) → Option ℕ
clear_bit_from zero j word = none
clear_bit_from (suc rounds) j word =
    let rest = clear_bit_from rounds (j + 1) word in if not (has_bit j word) then some j else rest

-- The outer loop over the words from `i` on.
pub alloc_pid_from : (rounds i : ℕ) → (ℕ → ℕ) → ℤ × (ℕ → ℕ)
alloc_pid_from zero i pid_map = (negsuc 0, pid_map)
alloc_pid_from (suc rounds) i pid_map =
    let rest = alloc_pid_from rounds (i + 1) pid_map in
    if pid_map i == 0xFFFF_FFFF then rest else elim (clear_bit_from 32 0 (pid_map i)) [
      | some j ↦ (pos (i * 32 + j), update pid_map i (set_bit j (pid_map i)))
      | none ↦ rest
    ]

pub alloc_pid : (ℕ → ℕ) → ℤ × (ℕ → ℕ)
alloc_pid pid_map = alloc_pid_from (max_pid / 32) 0 pid_map

pub free_pid : ℤ → (ℕ → ℕ) → ℕ → ℕ
free_pid (pos pid) pid_map =
    if ltb max_pid pid
    then pid_map
    else update pid_map (pid / 32) (clear_bit (pid % 32) (pid_map (pid / 32)))
free_pid (negsuc n) pid_map = pid_map
