-- ===== src/Fork/Find.antt =====
-- arch/i386/task/task.c: the search for a task, and the end of one.
use Prim.Native.Nat.{ℕ, zero, suc, ◌+◌, ◌<◌, ◌≤◌}
use hurlex_ii.Base.{
  ◌≡◌, refl, ◌≢◌, true, false, ◌&&◌, some, arith, ◌==◌, ltb, if◌then◌else◌, Bool-cases, inl, inr,
  List, [], ◌∷◌, ◌++◌, length, pos,
}
use hurlex_ii.Links.Ring.{has, IsRing, Right, Right-of, first_or, first_link}
use hurlex_ii.Pid.{max_pid}
use hurlex_ii.Task.{Tasks, task_list, is_runnable}
use hurlex_ii.Sched.Walk.{choice}
use hurlex_ii.Sched.Pick.{Scheduled, schedule-round_robin}
use hurlex_ii.Fork.{find_task, find_from, has_pid, leave, do_exit, cpu_idle}

-- The first task of the list with this id, or 0.
abbrev pub first_with : ℕ → Tasks → List ℕ → ℕ
first_with pid s [] = 0
first_with pid s (t ∷ ts) =
    let rest = first_with pid s ts in if has_pid pid (s.task t).pid then t else rest

find_from-first_with :
    (ts : List ℕ) (fuel pid : ℕ) (s : Tasks)
    → Right s.links ts task_list
    → has task_list ts ≡ false
    → length ts < fuel
    → find_from fuel (first_or ts task_list) pid s ≡ some (first_with pid s ts)
unfolding find_from
find_from-first_with ts zero pid s r nh h = absurd (omega arith)
find_from-first_with [] (suc fuel) pid s r nh h = refl
find_from-first_with (t ∷ ts) (suc fuel) pid s r nh h =
    let nt : (t == task_list) ≡ false = ground arith in
    elim (Bool-cases (has_pid pid (s.task t).pid)) [
      | inl y ↦ rw (nt, y) refl
      | inr n ↦
          rw (nt, n, r.0.0) (find_from-first_with ts fuel pid s r.1 (ground arith) (omega arith))
    ]

-- On a well-linked list, with more fuel than tasks, `find_task` returns the first task on the list that has the id, or NULL
-- if none has it; an id of 0 or from 8192 on is never found.
pub find_task-first_with :
    (fuel pid : ℕ) (s : Tasks) (ts : List ℕ)
    → IsRing s.links task_list ts
    → length ts < fuel
    → find_task fuel (pos pid) s
      ≡ some (if ltb 0 pid && ltb pid max_pid then first_with pid s ts else 0)
unfolding find_task
find_task-first_with fuel pid s ts v h = elim (Bool-cases (ltb 0 pid && ltb pid max_pid)) [
  | inl y ↦
      let l = first_link s.links task_list task_list ts v.path in
      rw (y, l.0)
        (find_from-first_with ts fuel pid s (Right-of s.links task_list task_list ts v.path)
          v.distinct.0 h)
  | inr n ↦ rw n refl
]

leave-zombie :
    (errno : ℕ) (s : Tasks)
    → (is_runnable ((leave errno s).task s.current).state ≡ false)
      × (((leave errno s).task s.current).need_resched ≡ true)
unfolding leave
leave-zombie errno s = let e : (s.current == s.current) ≡ true = ground arith in rw e (refl, refl)

-- When a task other than the idle task exits, with enough fuel for the list, it can no longer run, and the scheduler goes
-- on with the first runnable task behind it, or with the idle task; the dead task stays on the list.
pub do_exit-Scheduled :
    (fuel errno : ℕ) (us vs : List ℕ) (s : Tasks)
    → IsRing s.links task_list (us ++ (s.current ∷ vs))
    → s.current ≢ s.glb_idle_task
    → length us + length vs + 2 ≤ fuel
    → (is_runnable ((leave errno s).task s.current).state ≡ false)
      × Scheduled (do_exit fuel errno s) (choice (leave errno s) (vs ++ us)) s.links
unfolding do_exit leave
do_exit-Scheduled fuel errno us vs s v ne h =
    let (z, n) = leave-zombie errno s in
    (z, rw (do_exit, cpu_idle, n) (schedule-round_robin fuel us vs (leave errno s) v ne h))
