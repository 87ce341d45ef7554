-- ===== src/Pid/Alloc.antt =====
-- arch/i386/task/task.c: which process ids `alloc_pid` and `free_pid` take and give back.
use Prim.Native.Nat.{ℕ, zero, suc, ◌+◌, ◌*◌, ◌/◌, ◌%◌, ◌<◌, ◌≤◌}
use hurlex_ii.Base.{
  ◌≡◌, refl, ap, sym, subst, ◌∙◌, ◌≢◌, Bool, true, false, not, ◌&&◌, Option, none, some, arith,
  ◌==◌, ltb, ltb→lt, ltb_false→le, Bool-cases, inl, inr, update, has_bit, set_bit, clear_bit, ℤ,
  pos, negsuc, has_bit-set_bit, has_bit-set_bit_ne, has_bit-clear_bit, has_bit-clear_bit_ne,
}
use hurlex_ii.Pid.{max_pid, clear_bit_from, alloc_pid_from, alloc_pid, free_pid}

abbrev pub taken : (ℕ → ℕ) → ℕ → Bool
taken pid_map pid = has_bit (pid % 32) (pid_map (pid / 32))

-- What the first clear bit is.
Clear : (j word : ℕ) → Option ℕ → (rounds : ℕ) → Type 0
Clear j word (some k) rounds =
    (j ≤ k)
    × (k < j + rounds)
    × (has_bit k word ≡ false)
    × ((m : ℕ) → j ≤ m → m < k → has_bit m word ≡ true)
Clear j word none rounds = (m : ℕ) → j ≤ m → m < j + rounds → has_bit m word ≡ true

Clear-step :
    (j word : ℕ) (r : Option ℕ) (rounds : ℕ)
    → has_bit j word ≡ true
    → Clear (j + 1) word r rounds
    → Clear j word r (suc rounds)
unfolding Clear
Clear-step j word (some k) rounds y (l, h, n, before) = (
  omega arith,
  omega arith,
  n,
  λ m jm mk. elim (Bool-cases (m == j)) [
    | inl e ↦ subst (λ i. has_bit i word ≡ true) (ground arith) y
    | inr ne ↦ before m (ground arith) mk
  ],
)
Clear-step j word none rounds y all = λ m jm mk. elim (Bool-cases (m == j)) [
  | inl e ↦ subst (λ i. has_bit i word ≡ true) (ground arith) y
  | inr ne ↦ all m (ground arith) (omega arith)
]

clear_bit_from-Clear : (rounds j word : ℕ) → Clear j word (clear_bit_from rounds j word) rounds
unfolding clear_bit_from Clear
clear_bit_from-Clear zero j word = λ m l h. absurd (omega arith)
clear_bit_from-Clear (suc rounds) j word = elim (Bool-cases (has_bit j word)) [
  | inl y ↦ rw y (
      Clear-step j word (clear_bit_from rounds (j + 1) word) rounds y
        (clear_bit_from-Clear rounds (j + 1) word))
  | inr n ↦ rw n (omega arith, omega arith, n, λ m l h. absurd (omega arith))
]

-- Every bit of a full word is set.
all_set : (count : ℕ) → ℕ → Bool
all_set zero word = true
all_set (suc count) word = has_bit count word && all_set count word

all_set_lem : (count word j : ℕ) → all_set count word ≡ true → j < count → has_bit j word ≡ true
unfolding all_set
all_set_lem zero word j e h = absurd (omega arith)
all_set_lem (suc count) word j e h = elim (Bool-cases (j == count)) [
  | inl y ↦
      let q : j ≡ count = ground arith in subst (λ i. has_bit i word ≡ true) (sym q) (ground arith)
  | inr n ↦ all_set_lem count word j (ground arith) (ground arith)
]

full_lem : (j : ℕ) → j < 32 → has_bit j 0xFFFF_FFFF ≡ true
unfolding all_set
full_lem j h = all_set_lem 32 0xFFFF_FFFF j refl h

-- The smallest free id from `low` below `high` is taken, or there is none.
pub Allocated : (low high : ℕ) (before : ℕ → ℕ) → ℤ × (ℕ → ℕ) → Type 0
Allocated low high before (pos pid, after) =
    (low ≤ pid)
    × (pid < high)
    × (taken before pid ≡ false)
    × ((q : ℕ) → low ≤ q → q < pid → taken before q ≡ true)
    × (taken after pid ≡ true)
    × ((q : ℕ) → q ≢ pid → taken after q ≡ taken before q)
Allocated low high before (negsuc n, after) =
    ((q : ℕ) → low ≤ q → q < high → taken before q ≡ true) × (after ≡ before)

in_word :
    (i q : ℕ) (before : ℕ → ℕ)
    → ((j : ℕ) → j < 32 → has_bit j (before i) ≡ true)
    → i * 32 ≤ q
    → q < (i + 1) * 32
    → taken before q ≡ true
in_word i q before full l h =
    let e : q / 32 ≡ i = omega arith in
    subst (λ w. has_bit (q % 32) (before w) ≡ true) (sym e) (full (q % 32) (omega arith))

Allocated-step :
    (i rounds : ℕ) (before : ℕ → ℕ) (r : ℤ × (ℕ → ℕ))
    → ((j : ℕ) → j < 32 → has_bit j (before i) ≡ true)
    → Allocated ((i + 1) * 32) ((i + 1 + rounds) * 32) before r
    → Allocated (i * 32) ((i + suc rounds) * 32) before r
unfolding Allocated
Allocated-step i rounds before (pos pid, after) full (l, h, n, less, y, others) = (
  omega arith,
  omega arith,
  n,
  (λ q lq hq. elim (Bool-cases (ltb q ((i + 1) * 32))) [
    | inl y2 ↦ in_word i q before full lq (ltb→lt q ((i + 1) * 32) y2)
    | inr n2 ↦ less q (omega (arith, ltb_false→le q ((i + 1) * 32) n2)) hq
  ]),
  y,
  others,
)
Allocated-step i rounds before (negsuc n, after) full (all, e) = (
  (λ q lq hq. elim (Bool-cases (ltb q ((i + 1) * 32))) [
    | inl y2 ↦ in_word i q before full lq (ltb→lt q ((i + 1) * 32) y2)
    | inr n2 ↦ all q (omega (arith, ltb_false→le q ((i + 1) * 32) n2)) (omega arith)
  ]),
  e,
)

-- Writing one bit of the map changes one id.
taken-update :
    (i j bits q : ℕ) (before : ℕ → ℕ)
    → j < 32
    → ((m : ℕ) → j ≢ m → has_bit m bits ≡ has_bit m (before i))
    → q ≢ i * 32 + j
    → taken (update before i bits) q ≡ taken before q
taken-update i j bits q before h same ne = elim (Bool-cases (i == q / 32)) [
  | inl y ↦
      let e : i ≡ q / 32 = ground arith in
      let d : j ≢ q % 32 = omega arith in
      rw y (same (q % 32) d ∙ ap (λ w. has_bit (q % 32) (before w)) e)
  | inr n ↦ rw n refl
]

update_bit :
    (i j bits : ℕ) (before : ℕ → ℕ)
    → j < 32
    → taken (update before i bits) (i * 32 + j) ≡ has_bit j bits
update_bit i j bits before h =
    let d : (i * 32 + j) / 32 ≡ i = omega arith in
    let m : (i * 32 + j) % 32 ≡ j = omega arith in
    let s : (i == i) ≡ true = ground arith in rw (d, m, s) refl

search_word :
    (rounds i : ℕ) (before : ℕ → ℕ) (r : Option ℕ) (rest : ℤ × (ℕ → ℕ))
    → Clear 0 (before i) r 32
    → Allocated ((i + 1) * 32) ((i + 1 + rounds) * 32) before rest
    → Allocated (i * 32) ((i + suc rounds) * 32) before (elim r [
      | some j ↦ (pos (i * 32 + j), update before i (set_bit j (before i)))
      | none ↦ rest
    ])
unfolding Clear Allocated
search_word rounds i before (some j) rest (_, h, n, less) a =
    let d : (i * 32 + j) / 32 ≡ i = omega arith in
    let m : (i * 32 + j) % 32 ≡ j = omega arith in
    let w = set_bit j (before i) in
    (
      omega arith,
      omega arith,
      rw (d, m) n,
      (λ q lq hq.
          let e : q / 32 ≡ i = omega arith in rw e (less (q % 32) (omega arith) (omega arith))),
      update_bit i j w before (omega arith) ∙ has_bit-set_bit j (before i),
      λ q ne. taken-update i j w q before (omega arith) (λ k. has_bit-set_bit_ne j k (before i)) ne,
    )
search_word rounds i before none rest all a =
    Allocated-step i rounds before rest (λ j h. all j (omega arith) (omega arith)) a

alloc_pid_from-Allocated :
    (rounds i : ℕ) (before : ℕ → ℕ)
    → Allocated (i * 32) ((i + rounds) * 32) before (alloc_pid_from rounds i before)
unfolding alloc_pid_from Allocated
alloc_pid_from-Allocated zero i before = ((λ q l h. absurd (omega arith)), refl)
alloc_pid_from-Allocated (suc rounds) i before =
    let rest = alloc_pid_from-Allocated rounds (i + 1) before in
    elim (Bool-cases (before i == 0xFFFF_FFFF)) [
      | inl y ↦
          let e : before i ≡ 0xFFFF_FFFF = ground arith in
          rw y (
            Allocated-step i rounds before (alloc_pid_from rounds (i + 1) before)
              (λ j h. subst (λ w. has_bit j w ≡ true) (sym e) (full_lem j h)) rest)
      | inr n ↦ rw n (
          search_word rounds i before (clear_bit_from 32 0 (before i))
            (alloc_pid_from rounds (i + 1) before) (clear_bit_from-Clear 32 0 (before i)) rest)
    ]

-- `alloc_pid` takes the smallest id below 8192 that is free and no other, or returns -1 with
-- the map unchanged, and then every id is in use.
pub alloc_pid-Allocated : (before : ℕ → ℕ) → Allocated 0 8192 before (alloc_pid before)
unfolding alloc_pid
alloc_pid-Allocated before = alloc_pid_from-Allocated 256 0 before

-- For an id below 8192 `free_pid` gives back that id and no other.
pub free_pid_lem :
    (pid q : ℕ) (before : ℕ → ℕ)
    → pid < max_pid
    → taken (free_pid (pos pid) before) q ≡ (not (q == pid) && taken before q)
unfolding free_pid
free_pid_lem pid q before h =
    let n : ltb max_pid pid ≡ false = ground arith in
    let i = pid / 32 in
    let j = pid % 32 in
    let w = clear_bit j (before i) in
    let e : pid ≡ i * 32 + j = omega arith in
    rw n (elim (Bool-cases (q == pid)) [
      | inl y ↦
          let d : q ≡ i * 32 + j = ground arith in
          rw y (
            subst (λ p. taken (update before i w) p ≡ false) (sym d)
              (update_bit i j w before (omega arith) ∙ has_bit-clear_bit j (before i)))
      | inr ne ↦
          let d : q ≢ i * 32 + j = ground arith in
          rw ne
            (taken-update i j w q before (omega arith) (λ k. has_bit-clear_bit_ne j k (before i)) d)
    ])
