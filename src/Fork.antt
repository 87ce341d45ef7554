-- ===== src/Fork.antt =====
-- arch/i386/task/task.c: how tasks come into being, are found, and end. `alloc_pages` and the stack of
-- the kernel are arguments: the address that the call returned, and that of `kern_stack`.
pub mod Forked
pub mod Find
mod Tests
use hurlex_ii.Base.{
  ℕ, zero, suc, ◌+◌, ◌-◌, ◌%◌, ◌^◌, Bool, true, false, not, ◌&&◌, ◌||◌, Option, none, some, ◌==◌,
  ltb, leb, if◌then◌else◌, update, add32, sub32, set_bit, ℤ, pos, negsuc,
}
use hurlex_ii.Links.{Links, list_add, init_list_head}
use hurlex_ii.Pid.{alloc_pid, free_pid, max_pid}
use hurlex_ii.Task.{
  Task, Tasks, TaskState, Context, PtRegs, task_uninit, task_runnable, task_zombie, set_task,
  task_list, max_task, stack_size,
}
use hurlex_ii.Pmm.{kernbase}
use hurlex_ii.Sched.{wakeup_task, schedule}

abbrev pub no_context : Context
no_context = record { eip = 0; esp = 0; ebx = 0; ecx = 0; edx = 0; esi = 0; edi = 0; ebp = 0 }

abbrev pub no_regs : PtRegs
no_regs = record {
  ds = 0;
  edi = 0;
  esi = 0;
  ebp = 0;
  oesp = 0;
  ebx = 0;
  edx = 0;
  ecx = 0;
  eax = 0;
  int_no = 0;
  err_code = 0;
  eip = 0;
  cs = 0;
  eflags = 0;
  esp = 0;
  ss = 0;
}

-- A task whose fields are all zero.
abbrev pub no_task : Task
no_task = record {
  state = task_uninit;
  stack = 0;
  pid = pos 0;
  runs_time = 0;
  need_resched = false;
  parent = 0;
  mm = 0;
  pt_regs = 0;
  context = no_context;
  flags = 0;
  exit_code = 0;
}

-- The name is set besides, and the handler of system calls registered.
pub task_init : (kern_stack : ℕ) → Tasks → Tasks
task_init kern_stack s =
    let s1 = record s { links = init_list_head task_list s.links } in
    let (pid, pid_map) = alloc_pid s1.pid_map in
    let idle = record no_task {
      state = task_runnable;
      stack = kern_stack + stack_size;
      pid = pid;
      need_resched = true;
    } in
    let s2 =
      set_task kern_stack idle (record s1 { pid_map = pid_map; nr_task = add32 s1.nr_task 1 }) in
    record s2 { links = list_add kern_stack task_list s2.links; glb_idle_task = kern_stack }

-- `task_to_stack`.
abbrev pub task_to_stack : ℕ → ℕ
task_to_stack task = add32 task (stack_size - 8)

-- The address of the task, or none if the assertion fails; `page` is what `alloc_pages` returned.
pub alloc_task_struct : (page : ℕ) → Tasks → Option (ℕ × Tasks)
alloc_task_struct page s =
    if page == 0
    then none
    else (let task = add32 page kernbase in
        some
          (task, set_task task (record no_task { stack = task_to_stack task; pid = negsuc 0 }) s))

pub copy_mm : (clone_flags task : ℕ) → ℤ
copy_mm clone_flags task = if (clone_flags == 0) && (task == 0) then negsuc 0 else pos 0

abbrev pub is_zero : ℤ → Bool
is_zero (pos n) = n == 0
is_zero (negsuc n) = false

-- `sizeof(pt_regs_t)` is 64, and FL_IF is bit 9; `forkret` is the address of `forkret_s`.
pub copy_thread : (forkret task : ℕ) → PtRegs → Tasks → Tasks
copy_thread forkret task regs s =
    let t = s.task task in
    let at = sub32 t.stack 64 in
    let frame = record regs { eax = 0; esp = t.stack; eflags = set_bit 9 regs.eflags } in
    let s1 = record s { saved = update s.saved at frame } in
    set_task task
      (record t { pt_regs = at; context = record (t.context) { eip = forkret; esp = at } }) s1

-- `nr_task` is a signed int.
abbrev pub is_full : Tasks → Bool
is_full s = leb max_task s.nr_task && ltb s.nr_task (2 ^ 31)

-- The second half of `do_fork`, once there is a task.
pub start_task : (forkret task : ℕ) → PtRegs → Tasks → ℤ × Tasks
unfolding copy_thread
start_task forkret task regs s =
    let s2 = copy_thread forkret task regs s in
    let (pid, pid_map) = alloc_pid s2.pid_map in
    let s3 =
      set_task task (record (s2.task task) { pid = pid }) (record s2 { pid_map = pid_map }) in
    let s4 = record s3 { links = list_add task task_list s3.links; nr_task = add32 s3.nr_task 1 } in
    (pid, wakeup_task task s4)

-- The pid or the error code, and the new state; none if an assertion fails. The pages that a failed
-- fork gives back are not in this state.
pub do_fork : (page forkret clone_flags : ℕ) → PtRegs → Tasks → Option (ℤ × Tasks)
do_fork page forkret clone_flags regs s =
    if is_full s then some (negsuc 4, s) else elim (alloc_task_struct page s) [
      | none ↦ none
      | some (task, s1) ↦
          if task == 0
          then some (negsuc 3, s1)
          else if not (is_zero (copy_mm clone_flags task))
          then some (negsuc 3, s1)
          else some (start_task forkret task regs s1)
    ]

-- KERNEL_CS is 8 and KERNEL_DS is 16; CLONE_VM is bit 8; `entry` is the address of `kthread_entry`.
pub kernel_thread : (page forkret entry func args clone_flags : ℕ) → Tasks → Option (ℤ × Tasks)
kernel_thread page forkret entry func args clone_flags s =
    do_fork page forkret (set_bit 8 clone_flags)
      (record no_regs { cs = 8; ds = 16; ss = 16; ebx = func; edx = args; eip = entry }) s

abbrev pub has_pid : ℕ → ℤ → Bool
has_pid pid (pos n) = n == pid
has_pid pid (negsuc n) = false

-- The walk over the list; 0 if the task is not on it, none if the fuel is not enough.
pub find_from : (fuel le pid : ℕ) → Tasks → Option ℕ
find_from zero le pid s = none
find_from (suc fuel) le pid s =
    let rest = find_from fuel (s.links.next le) pid s in
    if le == task_list then some 0 else if has_pid pid (s.task le).pid then some le else rest

pub find_task : (fuel : ℕ) → ℤ → Tasks → Option ℕ
find_task fuel (negsuc n) s = some 0
find_task fuel (pos pid) s =
    if ltb 0 pid && ltb pid max_pid then find_from fuel (s.links.next task_list) pid s else some 0

pub cpu_idle : (fuel : ℕ) → Tasks → Option Tasks
cpu_idle fuel s = if (s.task s.current).need_resched then schedule fuel s else some s

-- `do_exit` up to the call of `cpu_idle`.
pub leave : (errno : ℕ) → Tasks → Tasks
leave errno s =
    let t = s.task s.current in
    let s1 =
      set_task s.current (record t { state = task_zombie; exit_code = errno; need_resched = true })
        s in
    record s1 { nr_task = sub32 s1.nr_task 1; pid_map = free_pid t.pid s1.pid_map }

pub do_exit : (fuel errno : ℕ) → Tasks → Option Tasks
unfolding cpu_idle
do_exit fuel errno s = cpu_idle fuel (leave errno s)
