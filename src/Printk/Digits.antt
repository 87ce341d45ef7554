-- ===== src/Printk/Digits.antt =====
-- kernel/printk.c: the digits that `number` writes, and `skip_atoi` that reads them.
use Prim.Native.Nat.{ℕ, zero, suc, ◌+◌, ◌-◌, ◌*◌, ◌/◌, ◌%◌, ◌^◌, ◌<◌, ◌≤◌}
use native.Mathlib.Nat.{pow-suc}
use hurlex_ii.Base.{
  ◌≡◌, refl, ◌∙◌, Bool, true, false, ◌&&◌, List, [], ◌∷◌, arith, ◌==◌, Bool-cases, inl, inr, length,
}
use hurlex_ii.Printk.{is_digit, atoi_from, skip_atoi, digit, digit_loop, digits, reverse_onto}

-- A word has at most 32 digits in any base from 2 on.
pub digit_loop-length :
    (rounds num base : ℕ) (small : Bool) → length (digit_loop rounds num base small) ≤ rounds
unfolding digit_loop
digit_loop-length zero num base small = omega arith
digit_loop-length (suc rounds) num base small = elim (Bool-cases (num == 0)) [
  | inl y ↦ rw y (omega arith)
  | inr n ↦ rw n (omega (arith, digit_loop-length rounds (num / base) base small))
]

-- The value that `skip_atoi` reads in decimal digits, the last one first.
abbrev value : List ℕ → ℕ
value [] = 0
value (c ∷ cs) = value cs * 10 + (c - 48)

digit_loop-value :
    (rounds num : ℕ) → num < 2 ^ rounds → value (digit_loop rounds num 10 false) ≡ num
unfolding digit_loop
digit_loop-value zero num h = omega arith
digit_loop-value (suc rounds) num h = elim (Bool-cases (num == 0)) [
  | inl y ↦ rw y (ground arith)
  | inr n ↦
      let ih = digit_loop-value rounds (num / 10) (omega (arith, pow-suc 2 rounds)) in
      let q : digit false (num % 10) ≡ 48 + num % 10 = ground arith in rw (n, q, ih) (omega arith)
]

-- Every one of them is a decimal digit.
abbrev all_digits : List ℕ → Bool
all_digits [] = true
all_digits (c ∷ cs) = is_digit c && all_digits cs

digit_loop-digits : (rounds num : ℕ) → all_digits (digit_loop rounds num 10 false) ≡ true
unfolding digit_loop
digit_loop-digits zero num = refl
digit_loop-digits (suc rounds) num = elim (Bool-cases (num == 0)) [
  | inl y ↦ rw y refl
  | inr n ↦
      let q : digit false (num % 10) ≡ 48 + num % 10 = ground arith in
      let d : is_digit (48 + num % 10) ≡ true = ground arith in
      rw (n, q, d) (digit_loop-digits rounds (num / 10))
]

-- Reading digits in their order, most significant first.
atoi_rev :
    (cs rest : List ℕ)
    → all_digits cs ≡ true
    → value cs < 2 ^ 32
    → atoi_from 0 (reverse_onto cs rest) ≡ atoi_from (value cs) rest
unfolding atoi_from
atoi_rev [] rest d h = refl
atoi_rev (c ∷ cs) rest d h =
    let dc : is_digit c ≡ true = ground arith in
    let lo : 48 ≤ c = ground arith in
    let e : (value cs * 10 + c - 48) % 2 ^ 32 ≡ value cs * 10 + (c - 48) = omega arith in
    atoi_rev cs (c ∷ rest) (ground arith) (omega arith) ∙ rw (dc, e) refl

digits-value : (num : ℕ) → num < 2 ^ 32 → value (digits num 10 false) ≡ num
digits-value num h = elim (Bool-cases (num == 0)) [
  | inl y ↦ rw y (ground arith)
  | inr n ↦ rw n (digit_loop-value 32 num h)
]

digits-digits : (num : ℕ) → all_digits (digits num 10 false) ≡ true
digits-digits num = elim (Bool-cases (num == 0)) [
  | inl y ↦ rw y refl
  | inr n ↦ rw n (digit_loop-digits 32 num)
]

-- The decimal digits of a word are read back to the word, and the reading stops at the first
-- character that is no digit.
pub skip_atoi-digits :
    (num c : ℕ) (rest : List ℕ)
    → num < 2 ^ 32
    → is_digit c ≡ false
    → skip_atoi (reverse_onto (digits num 10 false) (c ∷ rest)) ≡ (num, c ∷ rest)
unfolding skip_atoi atoi_from
skip_atoi-digits num c rest h n =
    let v = digits-value num h in
    atoi_rev (digits num 10 false) (c ∷ rest) (digits-digits num) (rw v h) ∙ rw (v, n) refl
