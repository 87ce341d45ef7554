-- ===== src/Printk/Tests.antt =====
-- kernel/printk.c: the theorems on numbers.
use hurlex_ii.Base.{◌≡◌, refl, none, some, List, [], ◌∷◌, ◌++◌, arith, length, ℕ}
use Prim.Native.Nat.{max}
use hurlex_ii.Printk.{number, skip_atoi, kept}
use hurlex_ii.Printk.Layout.{body, length-number, number-skip_atoi}

-- "%#8x" of 255, in small letters.
length-number_example :
    (text : List ℕ) × (number 255 16 (some 8) none 96 ≡ some text)
    × (length text ≡ max 8 (body 255 16 none (kept 96)))
length-number_example = length-number 255 16 (some 8) none 96 (omega arith) (omega arith)

number-skip_atoi_example :
    (text : List ℕ) × (number 1024 10 none none 0 ≡ some text)
    × (skip_atoi (text ++ (32 ∷ 55 ∷ [])) ≡ (1024, 32 ∷ 55 ∷ []))
number-skip_atoi_example = number-skip_atoi 1024 32 (55 ∷ []) (omega arith) refl
