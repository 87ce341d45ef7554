-- ===== src/Strings.antt =====
-- lib/string.c: memory as a function from addresses to bytes, and the functions that copy, fill and
-- read it. Loops that run up to a null byte are on fuel.
pub mod Texts
pub mod Copies
mod Tests
use hurlex_ii.Base.{
  ℕ, zero, suc, ◌+◌, ◌-◌, Option, none, some, ◌==◌, ltb, if◌then◌else◌, update, ℤ, pos, negsuc,
}

abbrev pub Memory : Type 0
Memory = ℕ → ℕ

pub memcpy : (dest src len : ℕ) → Memory → Memory
memcpy dest src zero m = m
memcpy dest src (suc len) m = memcpy (dest + 1) (src + 1) len (update m dest (m src))

pub memset : (dest val len : ℕ) → Memory → Memory
memset dest val zero m = m
memset dest val (suc len) m = memset (dest + 1) val len (update m dest val)

pub bzero : (dest len : ℕ) → Memory → Memory
unfolding memset
bzero dest len m = memset dest 0 len m

pub strcmp : (fuel dest src : ℕ) → Memory → Option ℤ
strcmp zero dest src m = none
strcmp (suc fuel) dest src m =
    let rest = strcmp fuel (dest + 1) (src + 1) m in
    if m src == m dest
    then (if m dest == 0 then some (pos 0) else rest)
    else some (if ltb (m src) (m dest) then negsuc 0 else pos 1)

-- The loop `while (*src)`: the place where it stops, and the memory.
pub copy_text : (fuel dest src : ℕ) → Memory → Option (ℕ × ℕ × Memory)
copy_text zero dest src m = none
copy_text (suc fuel) dest src m =
    let rest = copy_text fuel (dest + 1) (src + 1) (update m dest (m src)) in
    if m src == 0 then some (dest, src, m) else rest

-- `*dest = 0` after the loops.
abbrev pub terminate : Option (ℕ × ℕ × Memory) → Option Memory
terminate none = none
terminate (some (dest, src, m)) = some (update m dest 0)

pub strcpy : (fuel dest src : ℕ) → Memory → Option Memory
unfolding copy_text
strcpy fuel dest src m = terminate (copy_text fuel dest src m)

-- The outer loop of `strncpy`, in which each round has the whole inner loop.
pub copy_rounds : (fuel dest src len : ℕ) → Memory → Option (ℕ × ℕ × Memory)
unfolding copy_text
copy_rounds fuel dest src zero m = some (dest, src, m)
copy_rounds fuel dest src (suc len) m = elim (copy_text fuel dest src m) [
  | none ↦ none
  | some (dest', src', m') ↦ copy_rounds fuel dest' src' len m'
]

pub strncpy : (fuel dest src len : ℕ) → Memory → Option Memory
unfolding copy_rounds
strncpy fuel dest src len m = terminate (copy_rounds fuel dest src len m)

-- The first null byte from `p` on.
pub find_null : (fuel p : ℕ) → Memory → Option ℕ
find_null zero p m = none
find_null (suc fuel) p m = let rest = find_null fuel (p + 1) m in if m p == 0 then some p else rest

-- The loop `while ((*cp++ = *src++))`, which copies the null byte too.
pub append_text : (fuel cp src : ℕ) → Memory → Option Memory
append_text zero cp src m = none
append_text (suc fuel) cp src m =
    let rest = append_text fuel (cp + 1) (src + 1) (update m cp (m src)) in
    if m src == 0 then some (update m cp (m src)) else rest

pub strcat : (fuel dest src : ℕ) → Memory → Option Memory
unfolding find_null append_text
strcat fuel dest src m = elim (find_null fuel dest m) [
  | none ↦ none
  | some cp ↦ append_text fuel cp src m
]

-- The end that `while (*eos++)` passes, less the start and one.
pub strlen : (fuel src : ℕ) → Memory → Option ℕ
unfolding find_null
strlen fuel src m = elim (find_null fuel src m) [ none ↦ none | some eos ↦ some (eos - src) ]
