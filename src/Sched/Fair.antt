-- ===== src/Sched/Fair.antt =====
-- kernel/sched/sched.c: that every task which can run gets to run.
use Prim.Native.Nat.{ℕ, zero, suc, ◌+◌, ◌≤◌, ◌<◌}
use hurlex_ii.Base.{
  ◌≡◌, refl, ap, sym, subst, ◌∙◌, ◌⊎◌, true, Option, none, some, arith, ◌==◌, Bool-cases, inl, inr,
  List, [], ◌∷◌, ◌++◌, length, length-append, if◌then◌else◌,
}
use mathlib.Core.List.{append_assoc}
use hurlex_ii.Links.Ring.{IsRing, has, last_or, has-last_or, Distinct-right}
use hurlex_ii.Links.Cut.{split_append, has-split}
use hurlex_ii.Task.{Tasks, task_list, is_runnable}
use hurlex_ii.Sched.{next_task, settle_next, run_next, schedule, task_run}
use hurlex_ii.Sched.Walk.{first_runnable, first_runnable-append, or_task, choice}
use hurlex_ii.Sched.Pick.{yielding, yielding-state, Scheduled, schedule-round_robin, schedule-idle}

-- `k` calls of `schedule`, one after the other.
pub times : (k fuel : ℕ) → Tasks → Option Tasks
times zero fuel s = some s
times (suc k) fuel s = elim (schedule fuel s) [ none ↦ none | some s1 ↦ times k fuel s1 ]

-- What no call of `schedule` changes.
record Kept (s s1 : Tasks) : Type 0 where
  states : (t : ℕ) → (s1.task t).state ≡ (s.task t).state
  idle : s1.glb_idle_task ≡ s.glb_idle_task

run_next-state : (n t : ℕ) (s : Tasks) → ((run_next n s).task t).state ≡ (s.task t).state
unfolding run_next task_run
run_next-state n t s = elim (Bool-cases (n == t)) [
  | inl y ↦ let e : n ≡ t = ground arith in ground (arith, ap (λ p. (s.task p).state) e)
  | inr ne ↦ ground (arith, ne)
]

run_next-Kept : (n : ℕ) (s : Tasks) → Kept s (run_next n (yielding s))
unfolding run_next task_run
run_next-Kept n s = record {
  states = λ t. run_next-state n t (yielding s) ∙ yielding-state s t;
  idle = ground arith;
}

schedule-Kept : (fuel : ℕ) (s s1 : Tasks) → schedule fuel s ≡ some s1 → Kept s s1
unfolding schedule
schedule-Kept fuel s s1 e =
    go
      (next_task fuel
        ((yielding s).links.next
          (if (yielding s).current == (yielding s).glb_idle_task then task_list else s.current))
        (if (yielding s).current == (yielding s).glb_idle_task then task_list else s.current) none
        (yielding s))
      e
  where
    go :
        (r : Option (Option ℕ))
        → (elim r [
          | none ↦ none
          | some o ↦ some (run_next (settle_next o (yielding s)) (yielding s))
        ])
          ≡ some s1
        → Kept s s1
    go none q = absurd (ground arith)
    go (some o) q =
        let i : run_next (settle_next o (yielding s)) (yielding s) ≡ s1 = cc in
        subst (Kept s) i (run_next-Kept (settle_next o (yielding s)) s)

-- The first task that can run, when `t` can: `t` itself or one before it.
first_before :
    (s : Tasks) (t : ℕ) (ps bs : List ℕ)
    → is_runnable (s.task t).state ≡ true
    → (first_runnable s (ps ++ (t ∷ bs)) ≡ some t)
      ⊎ ((x : ℕ) × (cs : List ℕ) × (ds : List ℕ) × (ps ≡ cs ++ (x ∷ ds))
          × (first_runnable s (ps ++ (t ∷ bs)) ≡ some x))
first_before s t [] bs r = inl (rw r refl)
first_before s t (a ∷ ps) bs r = elim (Bool-cases (is_runnable (s.task a).state)) [
  | inl y ↦ inr (a, [], ps, refl, rw y refl)
  | inr n ↦ elim (first_before s t ps bs r) [
    | inl e ↦ inl (rw n e)
    | inr (x, cs, ds, p, e) ↦ inr (x, a ∷ cs, ds, ap (λ l. a ∷ l) p, rw n e)
  ]
]

-- The task that runs, and those behind it on the list round to it, in their order; the idle task is
-- the last of the list.
record Turn (s : Tasks) (us vs : List ℕ) : Type 0 where
  ring : IsRing s.links task_list (us ++ (s.current ∷ vs))
  idle_last : last_or task_list (us ++ (s.current ∷ vs)) ≡ s.glb_idle_task

last_or-append : (a c : ℕ) (us vs : List ℕ) → last_or a (us ++ (c ∷ vs)) ≡ last_or c vs
last_or-append a c [] vs = refl
last_or-append a c (u ∷ us) vs = last_or-append u c us vs

-- Nothing is behind the last task.
idle_end : (s : Tasks) (us vs : List ℕ) → Turn s us vs → s.current ≡ s.glb_idle_task → vs ≡ []
idle_end s us [] r e = refl
idle_end s us (v ∷ vs) r e =
    let l = last_or-append task_list s.current us (v ∷ vs) in
    let h = has-last_or v vs in
    let d = (Distinct-right us (s.current ∷ (v ∷ vs)) r.ring.distinct.1).0 in
    let w : last_or v vs ≡ s.current = sym l ∙ (r.idle_last ∙ sym e) in
    absurd (let k : has s.current (v ∷ vs) ≡ true = subst (λ x. has x (v ∷ vs) ≡ true) w h in cc)

-- One call runs the first task behind the one that runs, of those that can.
schedule-Turn :
    (fuel : ℕ) (s : Tasks) (us vs : List ℕ) (x : ℕ)
    → Turn s us vs
    → length us + length vs + 2 ≤ fuel
    → first_runnable s (vs ++ us) ≡ some x
    → (s1 : Tasks) × (schedule fuel s ≡ some s1)
      × (s1.current ≡ x)
      × (s1.links ≡ s.links)
      × Kept s s1
unfolding Scheduled
schedule-Turn fuel s us vs x r h f = elim (Bool-cases (s.current == s.glb_idle_task)) [
  | inl y ↦
      let i : s.current ≡ s.glb_idle_task = ground arith in
      let f' : first_runnable s us ≡ some x = rw (idle_end s us vs r i) at f in
      let a = first_runnable-append s us (s.current ∷ vs) in
      let w : choice s (us ++ (s.current ∷ vs)) ≡ x = rw (a, f') refl in
      let b : length (us ++ (s.current ∷ vs)) + 1 ≤ fuel =
        omega (arith, length-append us (s.current ∷ vs)) in
      let (s1, e, c, l) = schedule-idle fuel (us ++ (s.current ∷ vs)) s r.ring i b in
      (s1, e, c ∙ w, l, schedule-Kept fuel s s1 e)
  | inr n ↦
      let (s1, e, c, l) = schedule-round_robin fuel us vs s r.ring (ground arith) h in
      (s1, e, c ∙ ap (λ o. or_task o s.glb_idle_task) f, l, schedule-Kept fuel s s1 e)
]

-- The list seen from another task of it.
abbrev Seen : (c x : ℕ) (us vs cs ds : List ℕ) → Type 0
Seen c x us vs cs ds =
    (us' : List ℕ) × (vs' : List ℕ) × (us' ++ (x ∷ vs') ≡ us ++ (c ∷ vs))
    × (vs' ++ us' ≡ ds ++ (c ∷ cs))

split_ring-Seen :
    (c x : ℕ) (us vs cs ds : List ℕ) → vs ++ us ≡ cs ++ (x ∷ ds) → Seen c x us vs cs ds
split_ring-Seen c x us vs cs ds e = elim (split_append vs us cs ds x e) [
  | inl (m, p, q) ↦
      (us ++ (c ∷ cs), m, rw p (simp append_assoc refl), rw q (simp append_assoc refl))
  | inr (m, p, q) ↦
      (m, ds ++ (c ∷ vs), rw q (simp append_assoc refl), rw p (simp append_assoc refl))
]

Turn-after :
    (s s1 : Tasks) (x : ℕ) (us vs us' vs' : List ℕ)
    → Turn s us vs
    → Kept s s1
    → s1.current ≡ x
    → s1.links ≡ s.links
    → us' ++ (x ∷ vs') ≡ us ++ (s.current ∷ vs)
    → Turn s1 us' vs'
Turn-after s s1 x us vs us' vs' r k c l e =
    let w : us' ++ (s1.current ∷ vs') ≡ us ++ (s.current ∷ vs) = rw c e in
    record { ring = rw (l, w) r.ring; idle_last = rw w (r.idle_last ∙ sym k.idle) }

-- The state after at most `k` calls, in which the task `t` runs.
abbrev Runs : (k fuel t : ℕ) → Tasks → Type 0
Runs k fuel t s = (j : ℕ) × (j ≤ k) × ((s' : Tasks) × (times j fuel s ≡ some s') × (s'.current ≡ t))

times_step :
    (k fuel t : ℕ) (s s1 : Tasks)
    → schedule fuel s ≡ some s1
    → Runs k fuel t s1
    → Runs (suc k) fuel t s
unfolding times
times_step k fuel t s s1 e (j, b, (s', w, c)) = (suc j, omega arith, (s', rw (times, e) w, c))

-- By the number of tasks that stand before `t`.
times-Runs :
    (n fuel t : ℕ) (s : Tasks) (us vs ps bs : List ℕ)
    → Turn s us vs
    → length us + length vs + 2 ≤ fuel
    → is_runnable (s.task t).state ≡ true
    → vs ++ us ≡ ps ++ (t ∷ bs)
    → length ps < n
    → Runs n fuel t s
unfolding times
times-Runs zero fuel t s us vs ps bs r h o e l = absurd (omega arith)
times-Runs (suc n) fuel t s us vs ps bs r h o e l = elim (first_before s t ps bs o) [
  | inl f ↦
      let (s1, q, c, k, kept) = schedule-Turn fuel s us vs t r h (rw e f) in
      (1, omega arith, (s1, rw (times, q) refl, c))
  | inr (x, cs, ds, p, f) ↦
      let (s1, q, c, k, kept) = schedule-Turn fuel s us vs x r h (rw e f) in
      let v : vs ++ us ≡ cs ++ (x ∷ (ds ++ (t ∷ bs))) = rw (e, p) (simp append_assoc refl) in
      let (us', vs', a, b) = split_ring-Seen s.current x us vs cs (ds ++ (t ∷ bs)) v in
      let r' = Turn-after s s1 x us vs us' vs' r kept c k a in
      let z : length us' + length vs' ≡ length us + length vs =
        omega
          (arith, ap length a, length-append us' (x ∷ vs'), length-append us (s.current ∷ vs)) in
      let y : length ds < n = omega (arith, ap length p, length-append cs (x ∷ ds)) in
      times_step n fuel t s s1 q (
        times-Runs n fuel t s1 us' vs' ds (bs ++ (s.current ∷ cs)) r' (omega (arith, z))
          (ap is_runnable (kept.states t) ∙ o) (b ∙ append_assoc ds (t ∷ bs) (s.current ∷ cs)) y)
]

-- No task starves: with the idle task as the last of the list and enough fuel for the list, every
-- other task of it that can run runs after as many calls of schedule as there are other tasks, or
-- fewer, whichever task runs first.
pub schedule_runs :
    (fuel t : ℕ) (us vs : List ℕ) (s : Tasks)
    → IsRing s.links task_list (us ++ (s.current ∷ vs))
    → last_or task_list (us ++ (s.current ∷ vs)) ≡ s.glb_idle_task
    → length us + length vs + 2 ≤ fuel
    → has t (vs ++ us) ≡ true
    → is_runnable (s.task t).state ≡ true
    → (j : ℕ) × (j ≤ length us + length vs)
      × ((s' : Tasks) × (times j fuel s ≡ some s') × (s'.current ≡ t))
schedule_runs fuel t us vs s r i h o y =
    let (ps, (bs, e)) = has-split t (vs ++ us) o in
    let w : Turn s us vs = record { ring = r; idle_last = i } in
    let l : suc (length ps) ≤ length us + length vs =
      omega (arith, ap length e, length-append vs us, length-append ps (t ∷ bs)) in
    let (j, b, z) = times-Runs (suc (length ps)) fuel t s us vs ps bs w h y e (omega arith) in
    (j, omega arith, z)
