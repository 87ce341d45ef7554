-- ===== src/Sched/Walk.antt =====
-- kernel/sched/sched.c: the walk of `schedule` over the list of tasks.
use Prim.Native.Nat.{ℕ, suc, ◌+◌}
use hurlex_ii.Base.{
  ◌≡◌, refl, ap, subst, true, false, Option, none, some, arith, ◌==◌, if◌then◌else◌, Bool-cases,
  inl, inr, List, [], ◌∷◌, ◌++◌, length,
}
use mathlib.Core.List.{append-nil}
use hurlex_ii.Links.Ring.{
  has, has-append, Distinct, Right, Chain, first_or, IsRing, Right-of, split, first_link,
  Distinct-apart, Distinct-right, Distinct-left, Distinct-insert,
}
use hurlex_ii.Task.{Tasks, is_runnable, task_list}
use hurlex_ii.Sched.{next_task, settle_next}

-- The first of the tasks that can run.
abbrev pub first_runnable : Tasks → List ℕ → Option ℕ
first_runnable s [] = none
first_runnable s (t ∷ ts) =
    let rest = first_runnable s ts in if is_runnable (s.task t).state then some t else rest

abbrev pub last_of : Option ℕ → List ℕ → Option ℕ
last_of o [] = o
last_of o (t ∷ ts) = last_of (some t) ts

-- A walk that found no task goes on.
abbrev pub or_on : Option ℕ → Option (Option ℕ) → Option (Option ℕ)
or_on (some t) r = some (some t)
or_on none r = r

abbrev pub or_first : Option ℕ → Option ℕ → Option ℕ
or_first (some t) o = some t
or_first none o = o

abbrev pub or_task : Option ℕ → ℕ → ℕ
or_task (some t) p = t
or_task none p = p

-- From the first of `ts` the links lead through `ts` to `b`.
pub walk :
    (ts : List ℕ) (fuel b last : ℕ) (o : Option ℕ) (s : Tasks)
    → Right s.links ts b
    → has last ts ≡ false
    → has task_list ts ≡ false
    → next_task (length ts + suc fuel) (first_or ts b) last o s
      ≡ or_on (first_runnable s ts) (next_task (suc fuel) b last (last_of o ts) s)
unfolding next_task
walk [] fuel b last o s r nl nh =
    (let e : 0 + suc fuel ≡ suc fuel = omega arith in ap (λ n. next_task n b last o s) e)
walk (t ∷ ts) fuel b last o s r nl nh =
    let e : suc (length ts) + suc fuel ≡ suc (length ts + suc fuel) = omega arith in
    let ne : (t == last) ≡ false = ground arith in
    let nt : (t == task_list) ≡ false = ground arith in
    elim (Bool-cases (is_runnable (s.task t).state)) [
      | inl y ↦ rw (e, ne, nt, y) refl
      | inr n ↦
          rw (e, ne, nt, n, r.0.0)
            (walk ts fuel b last (some t) s r.1 (ground arith) (ground arith))
    ]

pub first_runnable-append :
    (s : Tasks) (us vs : List ℕ)
    → first_runnable s (us ++ vs) ≡ or_first (first_runnable s us) (first_runnable s vs)
first_runnable-append s [] vs = refl
first_runnable-append s (u ∷ us) vs = elim (Bool-cases (is_runnable (s.task u).state)) [
  | inl y ↦ rw y refl
  | inr n ↦ rw n (first_runnable-append s us vs)
]

-- The task that `schedule` is to run: the first that can, or the idle task.
abbrev pub choice : Tasks → List ℕ → ℕ
choice s ts = or_task (first_runnable s ts) s.glb_idle_task

-- A task that the walk passed cannot run.
settle_last :
    (s : Tasks) (ts : List ℕ) (o : Option ℕ)
    → first_runnable s ts ≡ none
    → settle_next o s ≡ s.glb_idle_task
    → settle_next (last_of o ts) s ≡ s.glb_idle_task
unfolding settle_next
settle_last s [] o e i = i
settle_last s (t ∷ ts) o e i = elim (Bool-cases (is_runnable (s.task t).state)) [
  | inl y ↦ absurd (ground arith)
  | inr n ↦ settle_last s ts (some t) (rw n at e) (rw n refl)
]

first_runnable-can :
    (s : Tasks) (ts : List ℕ) (t : ℕ)
    → first_runnable s ts ≡ some t
    → is_runnable (s.task t).state ≡ true
first_runnable-can s [] t e = absurd (ground arith)
first_runnable-can s (u ∷ us) t e = elim (Bool-cases (is_runnable (s.task u).state)) [
  | inl y ↦ let q : u ≡ t = ground arith in subst (λ p. is_runnable (s.task p).state ≡ true) q y
  | inr n ↦ first_runnable-can s us t (ground arith)
]

-- What the walk over `vs` and then `us`, back to its start, settles on.
unfoldable pub Settled : Tasks → List ℕ → Option (Option ℕ) → Type 0
Settled s ts r = (o : Option ℕ) × (r ≡ some o) × (settle_next o s ≡ choice s ts)

pub settled :
    (s : Tasks) (ts : List ℕ) → Settled s ts (or_on (first_runnable s ts) (some (last_of none ts)))
unfolding Settled settle_next
settled s ts = go (first_runnable s ts) refl
  where
    go :
        (o : Option ℕ)
        → first_runnable s ts ≡ o
        → Settled s ts (or_on (first_runnable s ts) (some (last_of none ts)))
    go (some t) e = rw e (some t, refl, rw (first_runnable-can s ts t e) refl)
    go none e = rw e (last_of none ts, refl, settle_last s ts none e refl)

last_of-append : (o : Option ℕ) (us vs : List ℕ) → last_of o (us ++ vs) ≡ last_of (last_of o us) vs
last_of-append o [] vs = refl
last_of-append o (u ∷ us) vs = last_of-append (some u) us vs

-- One walk after the other is a walk over both lists.
join_walks : (a b o : Option ℕ) → or_on a (or_on b (some o)) ≡ or_on (or_first a b) (some o)
join_walks none b o = refl
join_walks (some t) b o = refl

-- From the head through `us` to `c`, where the walk stops.
go_on :
    (us : List ℕ) (fuel c : ℕ) (o : Option ℕ) (s : Tasks)
    → Chain s.links task_list us c
    → Distinct (task_list ∷ (us ++ (c ∷ [])))
    → next_task (suc (length us + suc fuel)) task_list c o s
      ≡ or_on (first_runnable s us) (some (last_of o us))
unfolding next_task
go_on us fuel c o s p d =
    let du : has task_list us ≡ false = ground (arith, d.0, has-append task_list us (c ∷ [])) in
    let dc : (task_list == c) ≡ false = ground (arith, d.0, has-append task_list us (c ∷ [])) in
    let cu : has c us ≡ false = ground (arith, Distinct-apart c us (c ∷ []) d.1) in
    let e : (c == c) ≡ true = ground arith in
    let l = first_link s.links task_list c us p in
    rw (dc, l.0, walk us fuel c c o s (Right-of s.links task_list c us p) cu du, e) refl

-- The whole walk from behind the task `c` round to `c`.
pub go_round :
    (us vs : List ℕ) (fuel c : ℕ) (s : Tasks)
    → IsRing s.links task_list (us ++ (c ∷ vs))
    → next_task (length vs + suc (length us + suc fuel)) (s.links.next c) c none s
      ≡ or_on (first_runnable s (vs ++ us)) (some (last_of none (vs ++ us)))
go_round us vs fuel c s v =
    let (pu, pv) = split s.links task_list c task_list us vs v.path in
    let lv = first_link s.links c task_list vs pv in
    let rv = Right-of s.links c task_list vs pv in
    let d : has task_list vs ≡ false =
      ground (arith, v.distinct.0, has-append task_list us (c ∷ vs)) in
    let cv : has c vs ≡ false = (Distinct-right us (c ∷ vs) v.distinct.1).0 in
    let ends : Distinct (task_list ∷ (us ++ (c ∷ []))) = (
      ground
          (arith, v.distinct.0, has-append task_list us (c ∷ vs), has-append task_list us (c ∷ [])),
      Distinct-insert c us [] (rw (append-nil us) (Distinct-left us (c ∷ vs) v.distinct.1))
          (rw (append-nil us) (ground (arith, Distinct-apart c us (c ∷ vs) v.distinct.1))),
    ) in
    rw
      (
        lv.0,
        walk vs (length us + suc fuel) task_list c none s rv cv d,
        first_runnable-append s vs us,
        last_of-append none vs us,
        go_on us fuel c (last_of none vs) s pu ends,
      )
      (join_walks (first_runnable s vs) (first_runnable s us) (last_of (last_of none vs) us))
