-- ===== src/Fork/Tests.antt =====
-- arch/i386/task/task.c: the theorems on a list of two tasks.
use Prim.Native.Nat.{ℕ, ◌≤◌}
use hurlex_ii.Base.{
  ◌≡◌, refl, true, false, some, arith, ◌==◌, if◌then◌else◌, [], ◌∷◌, ℤ, pos, add32,
}
use hurlex_ii.Links.Ring.{IsRing}
use hurlex_ii.Task.{Tasks, task_list, task_runnable, is_runnable}
use hurlex_ii.Sched.{schedule}
use hurlex_ii.Sched.Pick.{Scheduled, schedule-round_robin}
use hurlex_ii.Sched.Fair.{times, schedule_runs}
use hurlex_ii.Fork.{do_fork, do_exit, leave, no_task, no_regs}
use hurlex_ii.Pmm.{kernbase}
use hurlex_ii.Fork.Forked.{IsForked, do_fork-IsForked}
use hurlex_ii.Fork.Find.{do_exit-Scheduled}

-- The tasks 0x2000 and the idle task 0x1000, both runnable; `running` runs.
abbrev two_tasks : ℕ → Tasks
two_tasks running = record {
  task = λ t. record no_task {
    state = task_runnable;
    pid = if t == 0x2000 then pos 1 else pos 0;
    need_resched = true;
  };
  saved = λ p. no_regs;
  links = record {
    next = λ p. if p == 4 then 0x2000 else if p == 0x2000 then 0x1000 else 4;
    prev = λ p. if p == 4 then 0x1000 else if p == 0x2000 then 4 else 0x2000;
  };
  nr_task = 2;
  pid_map = λ i. if i == 0 then 3 else 0;
  glb_idle_task = 0x1000;
  current = running;
}

two_tasks-IsRing : (running : ℕ) → IsRing (two_tasks running).links task_list (0x2000 ∷ 0x1000 ∷ [])
two_tasks-IsRing running = record {
  path = ((refl, refl), ((refl, refl), (refl, refl)));
  distinct = (refl, (refl, (refl, tt)));
}

do_fork-IsForked_example :
    (pid : ℤ) × (s' : Tasks) × (do_fork 0x3000 99 1 no_regs (two_tasks 0x1000) ≡ some (pid, s'))
    × IsForked (two_tasks 0x1000) s' (add32 0x3000 kernbase) 99 no_regs pid (0x2000 ∷ 0x1000 ∷ [])
do_fork-IsForked_example =
    do_fork-IsForked 0x3000 99 1 no_regs (two_tasks 0x1000) (0x2000 ∷ 0x1000 ∷ []) refl
      (omega arith) (omega arith) (omega arith) (two_tasks-IsRing 0x1000) refl

do_exit-Scheduled_example :
    (is_runnable ((leave 7 (two_tasks 0x2000)).task 0x2000).state ≡ false)
    × Scheduled (do_exit 5 7 (two_tasks 0x2000)) 0x1000 (two_tasks 0x2000).links
unfolding leave
do_exit-Scheduled_example =
    do_exit-Scheduled 5 7 [] (0x1000 ∷ []) (two_tasks 0x2000) (two_tasks-IsRing 0x2000)
      (omega arith) (omega arith)

schedule-round_robin_example :
    Scheduled (schedule 5 (two_tasks 0x2000)) 0x1000 (two_tasks 0x2000).links
schedule-round_robin_example =
    schedule-round_robin 5 [] (0x1000 ∷ []) (two_tasks 0x2000) (two_tasks-IsRing 0x2000)
      (omega arith) (omega arith)

-- The idle task runs, and the other task is the only one before it.
schedule_runs_example :
    (j : ℕ) × (j ≤ 1)
    × ((s' : Tasks) × (times j 5 (two_tasks 0x1000) ≡ some s') × (s'.current ≡ 0x2000))
schedule_runs_example =
    schedule_runs 5 0x2000 (0x2000 ∷ []) [] (two_tasks 0x1000) (two_tasks-IsRing 0x1000) refl
      (omega arith) refl refl
