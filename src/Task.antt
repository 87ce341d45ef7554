-- ===== src/Task.antt =====
-- arch/i386/task/task.h: tasks and the list of them. A task and the node in it that links it into
-- the list have one address here; the registers that an interrupt saves on a stack are a function of
-- the address.
use hurlex_ii.Base.{ℕ, Bool, true, false, update, ℤ}
use hurlex_ii.Links.{Links}

pub data TaskState : Type 0 where
  task_uninit : TaskState
  task_sleeping : TaskState
  task_runnable : TaskState
  task_zombie : TaskState

pub record Context : Type 0 where
  pub eip : ℕ
  pub esp : ℕ
  pub ebx : ℕ
  pub ecx : ℕ
  pub edx : ℕ
  pub esi : ℕ
  pub edi : ℕ
  pub ebp : ℕ

pub record PtRegs : Type 0 where
  pub ds : ℕ
  pub edi : ℕ
  pub esi : ℕ
  pub ebp : ℕ
  pub oesp : ℕ
  pub ebx : ℕ
  pub edx : ℕ
  pub ecx : ℕ
  pub eax : ℕ
  pub int_no : ℕ
  pub err_code : ℕ
  pub eip : ℕ
  pub cs : ℕ
  pub eflags : ℕ
  pub esp : ℕ
  pub ss : ℕ

-- `pt_regs` is the address of the saved registers; the name and the open files are left out.
pub record Task : Type 0 where
  pub state : TaskState
  pub stack : ℕ
  pub pid : ℤ
  pub runs_time : ℕ
  pub need_resched : Bool
  pub parent : ℕ
  pub mm : ℕ
  pub pt_regs : ℕ
  pub context : Context
  pub flags : ℕ
  pub exit_code : ℕ

-- `current` is the task whose stack is in use, which `get_current` reads off the stack pointer.
pub record Tasks : Type 0 where
  pub task : ℕ → Task
  pub saved : ℕ → PtRegs
  pub links : Links
  pub nr_task : ℕ
  pub pid_map : ℕ → ℕ
  pub glb_idle_task : ℕ
  pub current : ℕ

-- The address of the head of `task_list`, which no task has.
abbrev pub task_list : ℕ
task_list = 4

abbrev pub max_task : ℕ
max_task = 4096

abbrev pub stack_size : ℕ
stack_size = 0x1000

abbrev pub set_task : ℕ → Task → Tasks → Tasks
set_task p t s = record s { task = update s.task p t }

abbrev pub is_runnable : TaskState → Bool
is_runnable task_runnable = true
is_runnable task_uninit = false
is_runnable task_sleeping = false
is_runnable task_zombie = false

abbrev pub is_zombie : TaskState → Bool
is_zombie task_zombie = true
is_zombie task_uninit = false
is_zombie task_sleeping = false
is_zombie task_runnable = false
