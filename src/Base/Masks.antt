-- ===== src/Base/Masks.antt =====
-- `|` on words: putting low bits into a word that has none.
use Prim.Native.Nat.{
  ℕ, zero, suc, ◌+◌, ◌*◌, ◌/◌, ◌%◌, ◌^◌, ◌≤◌, ◌<◌, max, bit_or, digits, bit_or-bitwise,
}
use mathlib.Core.Path.{◌≡◌, refl, ◌∙◌, sym}
use native.Mathlib.Nat.{pow-suc, pow-zero, mul-one, mul_assoc}
use native.Mathlib.Omega.{arith}

-- The digits of `a | b`, the lowest `n` of them worked out.
abbrev either : ℕ → ℕ → ℕ → ℕ
either n a b = digits (λ d. d) max n a b

either_enough : (n m a b : ℕ) → a ≤ n → a ≤ m → either n a b ≡ either m a b
either_enough zero zero a b p q = refl
either_enough zero (suc m) zero b p q = refl
either_enough zero (suc m) (suc a) b p q = absurd (omega arith)
either_enough (suc n) zero zero b p q = refl
either_enough (suc n) zero (suc a) b p q = absurd (omega arith)
either_enough (suc n) (suc m) zero b p q = refl
either_enough (suc n) (suc m) (suc a) b p q =
    omega (arith, either_enough n m (suc a / 2) (b / 2) (omega arith) (omega arith))

or_of_zero : (b : ℕ) → bit_or 0 b ≡ b
or_of_zero b = bit_or-bitwise 0 b

-- One digit of the result, and the digits above it.
low_digit : (a b : ℕ) → bit_or a b ≡ bit_or (a / 2) (b / 2) * 2 + max (a % 2) (b % 2)
low_digit zero b = omega (arith, or_of_zero b, or_of_zero (b / 2))
low_digit (suc a) b = omega (
  arith,
  bit_or-bitwise (suc a) b,
  bit_or-bitwise (suc a / 2) (b / 2),
  either_enough a (suc a / 2) (suc a / 2) (b / 2) (omega arith) (omega arith),
)

or_with_zero : (n a : ℕ) → a ≤ n → bit_or a 0 ≡ a
or_with_zero n zero h = or_of_zero 0
or_with_zero zero (suc a) h = absurd (omega arith)
or_with_zero (suc n) (suc a) h =
    omega (arith, low_digit (suc a) 0, or_with_zero n (suc a / 2) (omega arith))

double : (m f : ℕ) → bit_or m (f / 2) ≡ m + f / 2 → bit_or (m * 2) f ≡ m * 2 + f
double m f e =
    let h : m * 2 / 2 ≡ m = omega arith in
    let z : m * 2 % 2 ≡ 0 = omega arith in rw (low_digit (m * 2) f, h, z, e) (omega arith)

-- Bits below 2 ^ `k` put into a multiple of it are added.
pub bit_or-low : (k a f : ℕ) → f < 2 ^ k → bit_or (a * 2 ^ k) f ≡ a * 2 ^ k + f
bit_or-low zero a f h =
    let z : f ≡ 0 = omega arith in
    rw (z, pow-zero, mul-one) (or_with_zero a a (omega arith) ∙ omega arith)
bit_or-low (suc k) a f h =
    let p : a * 2 ^ suc k ≡ a * 2 ^ k * 2 = rw (pow-suc 2 k) (sym (mul_assoc a (2 ^ k) 2)) in
    rw p (double (a * 2 ^ k) f (bit_or-low k a (f / 2) (omega (arith, pow-suc 2 k))))

comm_upto : (n a b : ℕ) → a + b ≤ n → bit_or a b ≡ bit_or b a
comm_upto zero a b h = let p : a ≡ 0 = omega arith in let q : b ≡ 0 = omega arith in rw (p, q) refl
comm_upto (suc n) zero b h = or_of_zero b ∙ sym (or_with_zero b b (omega arith))
comm_upto (suc n) (suc a) b h =
    let half = comm_upto n (suc a / 2) (b / 2) (omega arith) in
    omega (arith, low_digit (suc a) b, low_digit b (suc a), half)

-- So too with the low bits on the left.
pub bit_or-high : (k a f : ℕ) → f < 2 ^ k → bit_or f (a * 2 ^ k) ≡ a * 2 ^ k + f
bit_or-high k a f h = comm_upto (f + a * 2 ^ k) f (a * 2 ^ k) (omega arith) ∙ bit_or-low k a f h
