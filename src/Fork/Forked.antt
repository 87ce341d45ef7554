-- ===== src/Fork/Forked.antt =====
-- arch/i386/task/task.c: what a successful `do_fork` leaves.
use Prim.Native.Nat.{ℕ}
use hurlex_ii.Base.{
  ◌≡◌, refl, sym, ◌≢◌, true, false, some, arith, ◌==◌, List, ◌∷◌, set_bit, sub32, add32, ℤ, negsuc,
  ne→==_false,
}
use hurlex_ii.Links.Ring.{has, IsRing}
use hurlex_ii.Links.Ops.{list_add-IsRing}
use hurlex_ii.Pid.Alloc.{Allocated, alloc_pid-Allocated}
use hurlex_ii.Task.{Task, Tasks, PtRegs, task_runnable, set_task, task_list}
use hurlex_ii.Pmm.{kernbase}
use hurlex_ii.Sched.{wakeup_task}
use hurlex_ii.Fork.{
  do_fork, start_task, alloc_task_struct, copy_mm, copy_thread, is_full, task_to_stack, no_task,
}

-- The new task and its neighbours after a fork.
pub record IsForked (s s' : Tasks) (task forkret : ℕ) (regs : PtRegs) (pid : ℤ) (ts : List ℕ)
    : Type 0 where
  pub ring : IsRing s'.links task_list (task ∷ ts)
  pub runnable : (s'.task task).state ≡ task_runnable
  pub numbered : (s'.task task).pid ≡ pid
  pub fresh : Allocated 0 8192 s.pid_map (pid, s'.pid_map)
  pub starts : (s'.task task).context.eip ≡ forkret
  pub frame :
      s'.saved (s'.task task).context.esp
      ≡ record regs { eax = 0; esp = task_to_stack task; eflags = set_bit 9 regs.eflags }
  pub others : (q : ℕ) → q ≢ task → s'.task q ≡ s.task q
  pub current : s'.current ≡ s.current

abbrev new_task : ℕ → Task
new_task task = record no_task { stack = task_to_stack task; pid = negsuc 0 }

start_task-IsForked :
    (forkret task : ℕ) (regs : PtRegs) (s : Tasks) (ts : List ℕ)
    → IsRing s.links task_list ts
    → has task (task_list ∷ ts) ≡ false
    → let (pid, s') = start_task forkret task regs (set_task task (new_task task) s) in
      IsForked s s' task forkret regs pid ts
unfolding start_task copy_thread wakeup_task
start_task-IsForked forkret task regs s ts v out =
    let e : (task == task) ≡ true = ground arith in
    let e2 : (sub32 (task_to_stack task) 64 == sub32 (task_to_stack task) 64) ≡ true =
      ground arith in
    rw (e) (record {
      ring = list_add-IsRing s.links task task_list ts v out;
      runnable = rw e refl;
      numbered = rw e refl;
      fresh = (alloc_pid-Allocated s.pid_map);
      starts = rw e refl;
      frame = rw (e, e2) refl;
      others =
          λ q ne. let n : (task == q) ≡ false = ne→==_false task q (λ x. ne (sym x)) in rw n refl;
      current = refl;
    })

-- When there is room for a task and a page for it, the address of the page in the kernel, as a word,
-- is not 0 and not on the well-linked list of tasks, and the flags are not 0, `do_fork` returns the
-- smallest free pid, or -1 when none is free; the task stands at the front of the list, is
-- runnable, and will start at `forkret_s` with the caller's registers, but for 0 in eax, its own
-- stack, and interrupts on. No other task changes.
pub do_fork-IsForked :
    (page forkret clone_flags : ℕ) (regs : PtRegs) (s : Tasks) (ts : List ℕ)
    → is_full s ≡ false
    → page ≢ 0
    → add32 page kernbase ≢ 0
    → clone_flags ≢ 0
    → IsRing s.links task_list ts
    → has (add32 page kernbase) (task_list ∷ ts) ≡ false
    → (pid : ℤ) × (s' : Tasks) × (do_fork page forkret clone_flags regs s ≡ some (pid, s'))
      × IsForked s s' (add32 page kernbase) forkret regs pid ts
unfolding do_fork alloc_task_struct copy_mm
do_fork-IsForked page forkret clone_flags regs s ts room np nk nf v out =
    let task = add32 page kernbase in
    let p : (page == 0) ≡ false = ne→==_false page 0 np in
    let k : (task == 0) ≡ false = ne→==_false task 0 nk in
    let f : (clone_flags == 0) ≡ false = ne→==_false clone_flags 0 nf in
    let (pid, s') = start_task forkret task regs (set_task task (new_task task) s) in
    (pid, s', rw (room, p, k, f) refl, start_task-IsForked forkret task regs s ts v out)
