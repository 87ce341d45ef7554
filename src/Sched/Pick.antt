-- ===== src/Sched/Pick.antt =====
-- kernel/sched/sched.c: which task `schedule` runs next.
use Prim.Native.Nat.{ℕ, suc, ◌+◌, ◌-◌, ◌≤◌}
use hurlex_ii.Base.{
  ◌≡◌, refl, ap, sym, subst, ◌∙◌, ◌≢◌, true, false, Option, none, some, arith, ◌==◌, Bool-cases,
  inl, inr, List, [], ◌∷◌, ◌++◌, length,
}
use hurlex_ii.Links.{Links}
use hurlex_ii.Links.Ring.{IsRing, Right-of, first_link}
use hurlex_ii.Task.{Tasks, set_task, task_list}
use hurlex_ii.Sched.{next_task, settle_next, run_next, schedule, task_run}
use hurlex_ii.Sched.Walk.{first_runnable, or_task, walk, choice, Settled, settled, go_round}

-- What `schedule` has written before its loop.
abbrev pub yielding : Tasks → Tasks
yielding s = set_task s.current (record (s.task s.current) { need_resched = false }) s

pub yielding-state : (s : Tasks) (t : ℕ) → ((yielding s).task t).state ≡ (s.task t).state
yielding-state s t = elim (Bool-cases (s.current == t)) [
  | inl y ↦ let e : s.current ≡ t = ground arith in rw y (ap (λ p. (s.task p).state) e)
  | inr n ↦ rw n refl
]

first_runnable-yielding :
    (s : Tasks) (ts : List ℕ) → first_runnable (yielding s) ts ≡ first_runnable s ts
first_runnable-yielding s [] = refl
first_runnable-yielding s (t ∷ ts) = rw (yielding-state s t, first_runnable-yielding s ts) refl

run_next-current :
    (t : ℕ) (s : Tasks) → ((run_next t s).current ≡ t) × ((run_next t s).links ≡ s.links)
unfolding run_next task_run
run_next-current t s = ground arith

-- What the call leaves: the task that runs, and the list as it was.
unfoldable pub Scheduled : Option Tasks → ℕ → Links → Type 0
Scheduled r t h = (s1 : Tasks) × (r ≡ some s1) × (s1.current ≡ t) × (s1.links ≡ h)

finish :
    (s : Tasks) (ts : List ℕ) (r : Option (Option ℕ))
    → Settled (yielding s) ts r
    → Scheduled
        (elim r [
          | none ↦ none
          | some o ↦ some (run_next (settle_next o (yielding s)) (yielding s))
        ])
        (choice s ts)
        s.links
unfolding Settled Scheduled
finish s ts r (o, e, c) =
    let (q, l) = run_next-current (settle_next o (yielding s)) (yielding s) in
    rw e (
      run_next (settle_next o (yielding s)) (yielding s),
      refl,
      q ∙ (c ∙ ap (λ x. or_task x s.glb_idle_task) (first_runnable-yielding s ts)),
      l,
    )

-- With enough fuel for the list, `schedule` called by a task other than the idle task runs the first
-- runnable task behind the caller, round the list up to the caller itself, or the idle task if there
-- is none, and leaves the list as it is.
pub schedule-round_robin :
    (fuel : ℕ) (us vs : List ℕ) (s : Tasks)
    → IsRing s.links task_list (us ++ (s.current ∷ vs))
    → s.current ≢ s.glb_idle_task
    → length us + length vs + 2 ≤ fuel
    → Scheduled (schedule fuel s) (choice s (vs ++ us)) s.links
unfolding schedule
schedule-round_robin fuel us vs s v ne h =
    let q : (s.current == s.glb_idle_task) ≡ false = ground arith in
    let e : fuel ≡ length vs + suc (length us + suc (fuel - (length us + length vs + 2))) =
      omega arith in
    rw (schedule, q)
      (finish s (vs ++ us) (next_task fuel (s.links.next s.current) s.current none (yielding s)) (
        subst (Settled (yielding s) (vs ++ us))
          (sym (
            ap (λ f. next_task f (s.links.next s.current) s.current none (yielding s)) e
            ∙ go_round us vs (fuel - (length us + length vs + 2)) s.current (yielding s) v))
          (settled (yielding s) (vs ++ us))))

-- Called by the idle task, with enough fuel for the list, `schedule` runs the first runnable task of
-- the whole list, or the idle task if there is none, and leaves the list as it is.
pub schedule-idle :
    (fuel : ℕ) (ts : List ℕ) (s : Tasks)
    → IsRing s.links task_list ts
    → s.current ≡ s.glb_idle_task
    → length ts + 1 ≤ fuel
    → Scheduled (schedule fuel s) (choice s ts) s.links
unfolding schedule next_task
schedule-idle fuel ts s v e h =
    let q : (s.current == s.glb_idle_task) ≡ true = ground arith in
    let k = fuel - (length ts + 1) in
    let f : fuel ≡ length ts + suc k = omega arith in
    let l = first_link s.links task_list task_list ts v.path in
    let w =
      walk ts k task_list task_list none (yielding s)
        (Right-of s.links task_list task_list ts v.path) v.distinct.0 v.distinct.0 in
    rw (schedule, q)
      (finish s ts (next_task fuel (s.links.next task_list) task_list none (yielding s))
        (rw (f, l.0, w) (settled (yielding s) ts)))
