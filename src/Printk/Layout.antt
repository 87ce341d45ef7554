-- ===== src/Printk/Layout.antt =====
-- kernel/printk.c: how much `number` writes.
use Prim.Native.Nat.{ℕ, ◌+◌, ◌-◌, ◌^◌, ◌<◌, ◌≤◌, max}
use hurlex_ii.Base.{
  ◌≡◌, refl, ◌∙◌, Bool, true, false, not, ◌||◌, Option, none, some, List, [], ◌∷◌, ◌++◌, arith, ltb,
  if◌then◌else◌, length, length-append, length-replicate, replicate, has_bit,
}
use hurlex_ii.Printk.{
  digits, reverse_onto, number, sign_of, sign_text, special_of, magnitude, or_zero, kept, lay_out,
  is_digit, skip_atoi,
}
use hurlex_ii.Printk.Digits.{skip_atoi-digits}
use mathlib.Core.List.{append-nil}

length-reverse_onto : (xs ys : List ℕ) → length (reverse_onto xs ys) ≡ length xs + length ys
length-reverse_onto [] ys = omega arith
length-reverse_onto (x ∷ xs) ys = omega (arith, length-reverse_onto xs (x ∷ ys))

-- The number of bytes of the sign, the prefix and the digits.
abbrev pub body : (num base : ℕ) (precision : Option ℕ) (type : ℕ) → ℕ
body num base precision type =
    length (sign_text (sign_of num type))
    + length (special_of base type)
    + max (length (digits (magnitude num type) base (has_bit 6 type))) (or_zero precision)

length-lay_out :
    (before middle zeros after : ℕ) (sign special tmp : List ℕ)
    → length (lay_out before middle zeros after sign special tmp)
      ≡ before + length sign + length special + middle + zeros + length tmp + after
length-lay_out before middle zeros after sign special tmp = omega (
  arith,
  length-append (replicate before 32) (
      sign
      ++ (special
          ++ (replicate middle 48
              ++ (replicate zeros 48 ++ (reverse_onto tmp [] ++ replicate after 32))))),
  length-append sign (
      special
      ++ (replicate middle 48
          ++ (replicate zeros 48 ++ (reverse_onto tmp [] ++ replicate after 32)))),
  length-append special
      (replicate middle 48 ++ (replicate zeros 48 ++ (reverse_onto tmp [] ++ replicate after 32))),
  length-append (replicate middle 48)
      (replicate zeros 48 ++ (reverse_onto tmp [] ++ replicate after 32)),
  length-append (replicate zeros 48) (reverse_onto tmp [] ++ replicate after 32),
  length-append (reverse_onto tmp []) (replicate after 32),
  length-reverse_onto tmp [],
  length-replicate {A = ℕ} before 32,
  length-replicate {A = ℕ} middle 48,
  length-replicate {A = ℕ} zeros 48,
  length-replicate {A = ℕ} after 32,
)

-- The padding goes to one of its three places.
padding :
    (z l : Bool) (pad : ℕ)
    → (if z || l then 0 else pad) + (if l || not z then 0 else pad) + (if l then pad else 0) ≡ pad
padding true true pad = omega arith
padding true false pad = omega arith
padding false true pad = omega arith
padding false false pad = omega arith

-- In a base from 2 to 36 `number` writes exactly as many bytes as the field is wide, or as its sign,
-- prefix and digits need if they need more.
pub length-number :
    (num base : ℕ) (size precision : Option ℕ) (type : ℕ)
    → 2 ≤ base
    → base ≤ 36
    → (text : List ℕ) × (number num base size precision type ≡ some text)
      × (length text ≡ max (or_zero size) (body num base precision (kept type)))
unfolding number
length-number num base size precision type0 lo hi =
    let a : ltb base 2 ≡ false = ground arith in
    let b : ltb 36 base ≡ false = ground arith in
    let type = kept type0 in
    let sign = sign_text (sign_of num type) in
    let special = special_of base type in
    let tmp = digits (magnitude num type) base (has_bit 6 type) in
    let zeros = max (length tmp) (or_zero precision) - length tmp in
    let pad = or_zero size - length sign - length special - (length tmp + zeros) in
    let before = if has_bit 0 type || has_bit 4 type then 0 else pad in
    let middle = if has_bit 4 type || not (has_bit 0 type) then 0 else pad in
    let after = if has_bit 4 type then pad else 0 in
    (
      lay_out before middle zeros after sign special tmp,
      rw (a, b) refl,
      length-lay_out before middle zeros after sign special tmp
          ∙ total before middle after pad (length sign) (length special) (length tmp)
              (or_zero precision) (or_zero size) (padding (has_bit 0 type) (has_bit 4 type) pad)
              refl,
    )
  where
    total :
        (before middle after pad sign special tmp precision size : ℕ)
        → before + middle + after ≡ pad
        → pad ≡ size - sign - special - (tmp + (max tmp precision - tmp))
        → before + sign + special + middle + (max tmp precision - tmp) + tmp + after
          ≡ max size (sign + special + max tmp precision)
    total before middle after pad sign special tmp precision size e p = omega arith

reverse_onto-append : (xs ys zs : List ℕ) → reverse_onto xs ys ++ zs ≡ reverse_onto xs (ys ++ zs)
reverse_onto-append [] ys zs = refl
reverse_onto-append (x ∷ xs) ys zs = reverse_onto-append xs (x ∷ ys) zs

-- A word printed in decimal without flags, width and precision is read back to the same word by
-- `skip_atoi`, whatever follows that does not start with a digit.
pub number-skip_atoi :
    (num c : ℕ) (rest : List ℕ)
    → num < 2 ^ 32
    → is_digit c ≡ false
    → (text : List ℕ) × (number num 10 none none 0 ≡ some text)
      × (skip_atoi (text ++ (c ∷ rest)) ≡ (num, c ∷ rest))
unfolding number sign_of magnitude special_of
number-skip_atoi num c rest h n =
    let tmp = digits num 10 false in
    let z : max (length tmp) 0 - length tmp ≡ 0 = omega arith in
    let z2 : 0 - (length tmp + 0) ≡ 0 = omega arith in
    (
      reverse_onto tmp [] ++ [],
      rw (z, z2) refl,
      rw (append-nil (reverse_onto tmp []), reverse_onto-append tmp [] (c ∷ rest))
          (skip_atoi-digits num c rest h n),
    )
