-- ===== src/Syscall/Dispatch.antt =====
-- arch/i386/syscall/syscall.c and kernel/errno.c: what a program gets back.
use hurlex_ii.Base.{ℕ, zero, suc, ◌^◌, ◌<◌, ◌≡◌, ◌||◌, arith, ◌==◌, leb, if◌then◌else◌}
use hurlex_ii.Vfs.Files.{vfs_open, vfs_close, vfs_read, vfs_write}
use hurlex_ii.Task.{PtRegs}
use hurlex_ii.Syscall.{
  syscalls, syscall_handler, sys_test, sys_exit, sys_fork, sys_read, sys_write, sys_open, sys_close,
  sys_getpid,
}

-- What each number from 0 on leaves in eax. Only the numbers 3, 4 and 6 reach an operation on files
-- whose result depends on the arguments.
abbrev pub answered : PtRegs → ℕ
answered regs =
    if regs.eax == 3 || regs.eax == 4
    then (if regs.ecx == 0 || regs.edx == 0 then 0 else regs.ebx)
    else if regs.eax == 5
    then 0
    else if leb regs.eax 7
    then regs.ebx
    else regs.eax

abbrev Answers : PtRegs → Type 0
Answers regs = syscall_handler regs ≡ record regs { eax = answered regs }

by_number : (n : ℕ) (r : PtRegs) → n < 2 ^ 32 → Answers (record r { eax = n })
unfolding syscall_handler syscalls sys_test sys_exit sys_fork sys_read sys_write sys_open sys_close
    sys_getpid vfs_open vfs_read vfs_write vfs_close
by_number zero r h = ground arith
by_number (suc zero) r h = ground arith
by_number (suc (suc zero)) r h = ground arith
by_number (suc (suc (suc zero))) r h = ground arith
by_number (suc (suc (suc (suc zero)))) r h = ground arith
by_number (suc (suc (suc (suc (suc zero))))) r h = ground arith
by_number (suc (suc (suc (suc (suc (suc zero)))))) r h = ground arith
by_number (suc (suc (suc (suc (suc (suc (suc zero))))))) r h = ground arith
by_number (suc (suc (suc (suc (suc (suc (suc (suc n)))))))) r h = ground arith

-- For every 32-bit pattern in eax syscall_handler leaves all other registers as they are, and in eax:
-- for a read or a write the file descriptor of ebx, or 0 if the buffer or the size is 0; 0 for an
-- open; the first argument for the five other numbers up to 7; and what was there for any other
-- pattern, the negative numbers among them.
pub syscall_handler_lem :
    (regs : PtRegs) → regs.eax < 2 ^ 32 → syscall_handler regs ≡ record regs { eax = answered regs }
syscall_handler_lem regs h = by_number regs.eax regs h
