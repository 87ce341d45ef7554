-- ===== src/Sched.antt =====
-- kernel/sched/sched.c, and `task_run` of arch/i386/task/task.c.
pub mod Walk
pub mod Pick
pub mod Fair
use hurlex_ii.Base.{
  ℕ, zero, suc, ◌+◌, ◌%◌, ◌^◌, Bool, true, false, not, Option, none, some, ◌==◌, if◌then◌else◌,
  update, add32,
}
use hurlex_ii.Links.{Links}
use hurlex_ii.Task.{
  Task, Tasks, TaskState, task_runnable, is_runnable, is_zombie, set_task, task_list,
}

-- `switch_to` saves the registers of the task that runs and loads those of the other.
pub task_run : (task : ℕ) → Tasks → Tasks
task_run task s = if task == s.current then s else record s { current = task }

-- The loop of `schedule`: `le` goes on to `last`, and `task_next` is the last task seen, or none.
-- The result is none if the fuel is not enough.
pub next_task : (fuel le last : ℕ) (task_next : Option ℕ) → Tasks → Option (Option ℕ)
next_task zero le last task_next s = none
next_task (suc fuel) le last task_next s =
    let skip = next_task fuel (s.links.next le) last task_next s in
    let go = next_task fuel (s.links.next le) last (some le) s in
    if le == last
    then some task_next
    else if le == task_list
    then skip
    else if is_runnable (s.task le).state
    then some (some le)
    else go

-- The idle task in place of a task that cannot run.
pub settle_next : Option ℕ → Tasks → ℕ
settle_next none s = s.glb_idle_task
settle_next (some t) s = if is_runnable (s.task t).state then t else s.glb_idle_task

-- The last lines of `schedule`.
pub run_next : ℕ → Tasks → Tasks
unfolding task_run
run_next t s =
    let s1 = set_task t (record (s.task t) { runs_time = add32 (s.task t).runs_time 1 }) s in
    if t == s1.current then s1 else task_run t s1

pub schedule : (fuel : ℕ) → Tasks → Option Tasks
schedule fuel s =
    let s1 = set_task s.current (record (s.task s.current) { need_resched = false }) s in
    let last = if s1.current == s1.glb_idle_task then task_list else s1.current in
    elim (next_task fuel (s1.links.next last) last none s1) [
      | none ↦ none
      | some task_next ↦ some (run_next (settle_next task_next s1) s1)
    ]

pub clock_callback : (fuel : ℕ) → Tasks → Option Tasks
unfolding schedule
clock_callback fuel s = schedule fuel s

unfoldable pub wakeup_task : (task : ℕ) → Tasks → Tasks
wakeup_task t s =
    if is_zombie (s.task t).state
    then s
    else set_task t (record (s.task t) { state = task_runnable }) s
