-- ===== src/Printk.antt =====
-- kernel/printk.c: formatted output. Characters are bytes, a format or a string is the list of its
-- bytes before the null byte, and the buffer is the list of the bytes written to it. An `int` is a
-- 32-bit word, negative from 2 ^ 31 on. A width or a precision is none for -1, its value before the
-- format sets it; the code never holds another negative one, but for INT_MIN as a `*`
-- argument and widths written with ten digits.
pub mod Digits
pub mod Layout
mod Tests
use Prim.Native.Nat.{bit_or, max}
use hurlex_ii.Base.{
  ℕ, zero, suc, ◌+◌, ◌-◌, ◌*◌, ◌/◌, ◌%◌, ◌^◌, Bool, true, false, not, ◌&&◌, ◌||◌, Option, none,
  some, List, [], ◌∷◌, ◌++◌, ◌==◌, ltb, leb, if◌then◌else◌, has_bit, clear_bit, replicate, length,
}

abbrev pub is_digit : ℕ → Bool
is_digit c = leb 48 c && leb c 57

-- The loop of `skip_atoi` from the value `i`: the value and the rest of the text.
unfoldable pub atoi_from : ℕ → List ℕ → ℕ × List ℕ
atoi_from i [] = (i, [])
atoi_from i (c ∷ cs) =
    let rest = atoi_from ((i * 10 + c - 48) % 2 ^ 32) cs in if is_digit c then rest else (i, c ∷ cs)

unfoldable pub skip_atoi : List ℕ → ℕ × List ℕ
unfolding atoi_from
skip_atoi s = atoi_from 0 s

-- The flags: 1 ZEROPAD, 2 SIGN, 4 PLUS, 8 SPACE, 16 LEFT, 32 SPECIAL, 64 SMALL.
abbrev pub digit : (small : Bool) → ℕ → ℕ
digit small d = if ltb d 10 then 48 + d else (if small then 97 else 65) + (d - 10)

-- The loop over the digits, the last one first; 32 rounds are enough for a word.
unfoldable pub digit_loop : (rounds num base : ℕ) (small : Bool) → List ℕ
digit_loop zero num base small = []
digit_loop (suc rounds) num base small =
    let rest = digit_loop rounds (num / base) base small in
    if num == 0 then [] else digit small (num % base) ∷ rest

abbrev pub digits : (num base : ℕ) (small : Bool) → List ℕ
digits num base small = if num == 0 then 48 ∷ [] else digit_loop 32 num base small

abbrev pub reverse_onto : List ℕ → List ℕ → List ℕ
reverse_onto [] ys = ys
reverse_onto (x ∷ xs) ys = reverse_onto xs (x ∷ ys)

abbrev pub or_zero : Option ℕ → ℕ
or_zero none = 0
or_zero (some n) = n

-- The character of the sign, or 0.
unfoldable pub sign_of : (num type : ℕ) → ℕ
sign_of num type =
    if has_bit 1 type && leb (2 ^ 31) num
    then 45
    else if has_bit 2 type
    then 43
    else if has_bit 3 type
    then 32
    else 0

unfoldable pub magnitude : (num type : ℕ) → ℕ
magnitude num type = if has_bit 1 type && leb (2 ^ 31) num then (2 ^ 32 - num) % 2 ^ 32 else num

-- What SPECIAL puts before the digits.
unfoldable pub special_of : (base type : ℕ) → List ℕ
special_of base type =
    if has_bit 5 type
    then if base == 8
      then 48 ∷ []
      else if base == 16
      then 48 ∷ digit (has_bit 6 type) 33 ∷ []
      else []
    else []

abbrev pub sign_text : ℕ → List ℕ
sign_text sign = if sign == 0 then [] else sign ∷ []

-- LEFT turns ZEROPAD off.
abbrev pub kept : ℕ → ℕ
kept type = if has_bit 4 type then clear_bit 0 type else type

-- The loops that write, one after the other; `tmp` holds the digits from the last one on.
abbrev pub lay_out : (before middle zeros after : ℕ) (sign special tmp : List ℕ) → List ℕ
lay_out before middle zeros after sign special tmp =
    replicate before 32
    ++ (sign
        ++ (special
            ++ (replicate middle 48
                ++ (replicate zeros 48 ++ (reverse_onto tmp [] ++ replicate after 32)))))

-- The bytes that `number` writes, or none where it returns a null pointer. A count of a loop that is
-- below 0 in the code is 0 here.
unfoldable pub number : (num base : ℕ) (size precision : Option ℕ) (type : ℕ) → Option (List ℕ)
number num base size precision type0 =
    let type = kept type0 in
    let sign = sign_text (sign_of num type) in
    let special = special_of base type in
    let tmp = digits (magnitude num type) base (has_bit 6 type) in
    let zeros = max (length tmp) (or_zero precision) - length tmp in
    let pad = or_zero size - length sign - length special - (length tmp + zeros) in
    let before = if has_bit 0 type || has_bit 4 type then 0 else pad in
    let middle = if has_bit 4 type || not (has_bit 0 type) then 0 else pad in
    let after = if has_bit 4 type then pad else 0 in
    if ltb base 2 || ltb 36 base
    then none
    else some (lay_out before middle zeros after sign special tmp)
