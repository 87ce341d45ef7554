-- ===== src/Strings/Tests.antt =====
-- lib/string.c: the theorems on two texts of two and three bytes.
use hurlex_ii.Base.{
  ℕ, ◌+◌, ◌<◌, ◌≡◌, ◌⊎◌, List, [], ◌∷◌, ◌++◌, some, arith, inl, ◌==◌, if◌then◌else◌,
}
use hurlex_ii.Registry
use hurlex_ii.Strings.{Memory, strcmp, strcpy, strncpy, strcat}
use hurlex_ii.Strings.Texts.{IsText, strcmp-IsText}
use hurlex_ii.Strings.Copies.{Copied, strncpy-Copied, strcat-Copied}

-- "ab" at 10 and "cde" at 20.
abbrev two_texts : Memory
two_texts p =
    if p == 10
    then 97
    else if p == 11
    then 98
    else if p == 20
    then 99
    else if p == 21
    then 100
    else if p == 22
    then 101
    else 0

abbrev ab : List ℕ
ab = 97 ∷ 98 ∷ []

abbrev cde : List ℕ
cde = 99 ∷ 100 ∷ 101 ∷ []

ab-IsText : IsText two_texts 10 ab
ab-IsText = omega arith

cde-IsText : IsText two_texts 20 cde
cde-IsText = omega arith

strcmp-IsText_example : strcmp 3 10 20 two_texts ≡ some (Registry.strcmp ab cde)
strcmp-IsText_example = strcmp-IsText 3 10 20 ab cde two_texts ab-IsText cde-IsText (omega arith)

-- A length of one byte does not keep the copy from writing four.
strncpy-Copied_example :
    (m' : Memory) × (strncpy 4 9 20 1 two_texts ≡ some m')
    × (strcpy 4 9 20 two_texts ≡ some m')
    × Copied two_texts m' 9 cde
strncpy-Copied_example =
    strncpy-Copied 4 9 20 1 cde two_texts cde-IsText (inl (omega arith)) (omega arith) (omega arith)

strcat-Copied_example :
    (m' : Memory) × (strcat 4 10 20 two_texts ≡ some m')
    × IsText m' 10 (ab ++ cde)
    × ((i : ℕ) → (i < 10 + 2) ⊎ (10 + 2 + 3 < i) → m' i ≡ two_texts i)
strcat-Copied_example =
    strcat-Copied 4 10 20 ab cde two_texts ab-IsText cde-IsText (inl (omega arith)) (omega arith)
      (omega arith)
