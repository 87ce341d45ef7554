-- ===== src/Base/Bits.antt =====
-- Single bits of a word, by division, and integers over the native numbers.
use Prim.Native.Nat.{ℕ, zero, suc, ◌+◌, ◌-◌, ◌*◌, ◌/◌, ◌%◌, ◌^◌, ◌<◌, ◌≤◌}
use native.Mathlib.Nat.{
  add-zero, pow-zero, mul-one, add-div_right, div-eq-sub-div, div-div-eq-div-mul, add-mul-div_left,
  one-le-pow, pow-suc, div-eq_of_lt, mul_assoc,
}
use native.Mathlib.Omega.{arith}
use mathlib.Core.Bool.{Bool, true, false}
use mathlib.Core.Path.{subst, ◌≡◌, refl, ap, sym, ◌∙◌}
use mathlib.Core.Logic.{◌≢◌, inl, inr}
use hurlex_ii.Base.Tests.{◌==◌, if◌then◌else◌, Bool-cases, ltb, ltb→lt, ltb_false→le}

-- `w & (1 << i)`, `w | (1 << i)` and `w & ~(1 << i)`.
abbrev pub has_bit : (i w : ℕ) → Bool
has_bit i w = w / 2 ^ i % 2 == 1

abbrev pub set_bit : (i w : ℕ) → ℕ
set_bit i w = if has_bit i w then w else w + 2 ^ i

abbrev pub clear_bit : (i w : ℕ) → ℕ
clear_bit i w = if has_bit i w then w - 2 ^ i else w

-- `negsuc n` is -(n + 1).
pub data ℤ : Type 0 where
  pos : ℕ → ℤ
  negsuc : ℕ → ℤ

pub pow_pos : (i : ℕ) → 0 < 2 ^ i
pow_pos i = one-le-pow i 2 (omega arith)

pow-add : (i k : ℕ) → 2 ^ (i + k) ≡ 2 ^ i * 2 ^ k
pow-add i zero = rw (add-zero, pow-zero, mul-one) refl
pow-add i (suc k) =
    let e : i + suc k ≡ suc (i + k) = omega arith in
    rw (e, pow-suc 2 (i + k), pow-add i k, pow-suc 2 k, mul_assoc) refl

pub has_bit-set_bit : (i w : ℕ) → has_bit i (set_bit i w) ≡ true
has_bit-set_bit i w = elim (Bool-cases (has_bit i w)) [
  | inl y ↦ rw y y
  | inr n ↦ rw (n, add-div_right w (pow_pos i)) (ground arith)
]

has_bit→le : (i w : ℕ) → has_bit i w ≡ true → 2 ^ i ≤ w
has_bit→le i w y = elim (Bool-cases (ltb w (2 ^ i))) [
  | inl l ↦ let z : w / 2 ^ i ≡ 0 = div-eq_of_lt (ltb→lt w (2 ^ i) l) in absurd (ground arith)
  | inr n ↦ ltb_false→le w (2 ^ i) n
]

pub has_bit-clear_bit : (i w : ℕ) → has_bit i (clear_bit i w) ≡ false
has_bit-clear_bit i w = elim (Bool-cases (has_bit i w)) [
  | inl y ↦
      let e : w / 2 ^ i ≡ (w - 2 ^ i) / 2 ^ i + 1 = div-eq-sub-div (pow_pos i) (has_bit→le i w y) in
      rw y (ground arith)
  | inr n ↦ rw n n
]

-- Setting a clear bit carries into no bit above it, and touches none below it.
bit_above : (i k w : ℕ) → has_bit i w ≡ false → (w + 2 ^ i) / 2 ^ (suc i + k) ≡ w / 2 ^ (suc i + k)
bit_above i k w n =
    let q : (w + 2 ^ i) / 2 ^ i ≡ w / 2 ^ i + 1 = add-div_right w (pow_pos i) in
    let h : (w / 2 ^ i + 1) / 2 ≡ w / 2 ^ i / 2 = ground arith in
    rw
      (
        pow-add (suc i) k,
        pow-suc 2 i,
        ← div-div-eq-div-mul,
        ← div-div-eq-div-mul,
        ← div-div-eq-div-mul,
        ← div-div-eq-div-mul,
        q,
        h,
      )
      refl

bit_below : (j k w : ℕ) → has_bit j (w + 2 ^ (suc j + k)) ≡ has_bit j w
bit_below j k w =
    let q : (w + 2 ^ (suc j + k)) / 2 ^ j ≡ w / 2 ^ j + 2 * 2 ^ k =
      rw (pow-add (suc j) k, pow-suc 2 j, mul_assoc) (add-mul-div_left w (2 * 2 ^ k) (pow_pos j)) in
    rw q (ground arith)

bit_other : (i j w : ℕ) → i ≢ j → has_bit i w ≡ false → has_bit j (w + 2 ^ i) ≡ has_bit j w
bit_other i j w ne n = elim (Bool-cases (ltb i j)) [
  | inl l ↦
      let e : j ≡ suc i + (j - suc i) = omega (arith, ltb→lt i j l) in
      subst (λ k. has_bit k (w + 2 ^ i) ≡ has_bit k w) (sym e)
        (ap (λ q. q % 2 == 1) (bit_above i (j - suc i) w n))
  | inr g ↦
      let e : i ≡ suc j + (i - suc j) = omega (arith, ne, ltb_false→le i j g) in
      subst (λ k. has_bit j (w + 2 ^ k) ≡ has_bit j w) (sym e) (bit_below j (i - suc j) w)
]

pub has_bit-set_bit_ne : (i j w : ℕ) → i ≢ j → has_bit j (set_bit i w) ≡ has_bit j w
has_bit-set_bit_ne i j w ne = elim (Bool-cases (has_bit i w)) [
  | inl y ↦ rw y refl
  | inr n ↦ rw n (bit_other i j w ne n)
]

pub has_bit-clear_bit_ne : (i j w : ℕ) → i ≢ j → has_bit j (clear_bit i w) ≡ has_bit j w
has_bit-clear_bit_ne i j w ne = elim (Bool-cases (has_bit i w)) [
  | inl y ↦
      let e : w - 2 ^ i + 2 ^ i ≡ w = omega (arith, has_bit→le i w y) in
      let c : has_bit i (w - 2 ^ i) ≡ false =
        subst (λ b. has_bit i (if b then w - 2 ^ i else w) ≡ false) y (has_bit-clear_bit i w) in
      rw y (sym (bit_other i j (w - 2 ^ i) ne c) ∙ ap (has_bit j) e)
  | inr n ↦ rw n refl
]
