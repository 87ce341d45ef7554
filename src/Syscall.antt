-- ===== src/Syscall.antt =====
-- arch/i386/syscall/syscall.c and kernel/errno.c: the system calls by their number, and the texts of
-- errors by theirs.
pub mod Dispatch
use hurlex_ii.Base.{
  ℕ, zero, suc, ◌+◌, ◌-◌, ◌^◌, Bool, true, false, List, [], ◌∷◌, ◌&&◌, Option, none, some, ◌==◌,
  ltb, leb, if◌then◌else◌, ℤ, pos, negsuc, get_elem?,
}
use hurlex_ii.Task.{PtRegs}
use hurlex_ii.Vfs.Files.{vfs_open, vfs_close, vfs_read, vfs_write}

abbrev pub syscall_max : ℕ
syscall_max = 7

-- The array `args` of five words.
pub record Args : Type 0 where
  pub arg0 : ℕ
  pub arg1 : ℕ
  pub arg2 : ℕ
  pub arg3 : ℕ
  pub arg4 : ℕ

pub sys_test : Args → ℕ
sys_test args = args.arg0

pub sys_exit : Args → ℕ
sys_exit args = args.arg0

pub sys_fork : Args → ℕ
sys_fork args = args.arg0

pub sys_read : Args → ℕ
sys_read args = vfs_read args.arg0 args.arg1 args.arg2

pub sys_write : Args → ℕ
sys_write args = vfs_write args.arg0 args.arg1 args.arg2

pub sys_open : Args → ℕ
sys_open args = vfs_open args.arg0 args.arg1

pub sys_close : Args → ℕ
sys_close args = vfs_close args.arg0

pub sys_getpid : Args → ℕ
sys_getpid args = args.arg0

-- The table, in the order of the numbers SYS_test to SYS_getpid.
pub syscalls : List (Args → ℕ)
syscalls =
    sys_test ∷ sys_exit ∷ sys_fork ∷ sys_read ∷ sys_write ∷ sys_open ∷ sys_close ∷ sys_getpid ∷ []

-- `eax` as an int.
abbrev pub sysno : PtRegs → ℤ
sysno regs = if ltb regs.eax (2 ^ 31) then pos regs.eax else negsuc (2 ^ 32 - regs.eax - 1)

abbrev pub is_call : ℤ → Bool
is_call (pos n) = leb n syscall_max
is_call (negsuc n) = false

pub syscall_handler : PtRegs → PtRegs
syscall_handler regs =
    if is_call (sysno regs)
    then (elim (get_elem? syscalls regs.eax) [
      | none ↦ regs
      | some call ↦ record regs {
        eax = call record {
          arg0 = regs.ebx;
          arg1 = regs.ecx;
          arg2 = regs.edx;
          arg3 = regs.esi;
          arg4 = regs.edi;
        };
      }
    ])
    else regs

-- `MAXERROR`, the number of `E_FAULT`.
abbrev pub maxerror : ℕ
maxerror = 6

-- What `strerr` returns: NULL, the text in the table for a number, what lies before the table, or
-- "unknown error".
pub data ErrorText : Type 0 where
  null : ErrorText
  string : (number : ℕ) → ErrorText
  before_table : ErrorText
  unknown : ErrorText

pub strerr : (errno : ℤ) → ErrorText
strerr (negsuc n) = before_table
strerr (pos zero) = null
strerr (pos (suc n)) = if ltb (suc n) maxerror then string (suc n) else unknown
