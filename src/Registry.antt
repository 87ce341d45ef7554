-- ===== src/Registry.antt =====
-- driver/char_dev.c, driver/block_dev.c and fs/vfs.c: the three registries, which are lists of
-- structures with a name and a `next` pointer each, and strcmp of lib/string.c, which they call. A
-- string is the list of its bytes before the null byte.
pub mod Names
mod Tests
use hurlex_ii.Base.{
  ℕ, zero, suc, ◌+◌, Bool, true, false, Option, none, some, List, [], ◌∷◌, ◌==◌, ltb, if◌then◌else◌,
  update, ℤ, pos, negsuc,
}

-- The sign of the first difference, taken from `src` to `dest`.
unfoldable pub strcmp : (dest src : List ℕ) → ℤ
strcmp [] [] = pos 0
strcmp [] (s ∷ src) = pos 1
strcmp (d ∷ dest) [] = negsuc 0
strcmp (d ∷ dest) (s ∷ src) =
    let rest = strcmp dest src in if d == s then rest else if ltb d s then pos 1 else negsuc 0

abbrev pub is_zero : ℤ → Bool
is_zero (pos n) = n == 0
is_zero (negsuc n) = false

-- The head of the list, and the fields of the structures by their address.
pub record Registry : Type 0 where
  pub head : ℕ
  pub next : ℕ → ℕ
  pub name : ℕ → List ℕ

-- The loop: whether a structure from `p` on has the name; none if the fuel is not enough.
unfoldable pub is_taken : (fuel p : ℕ) (name : List ℕ) → Registry → Option Bool
is_taken zero p name s = none
is_taken (suc fuel) p name s =
    let rest = is_taken fuel (s.next p) name s in
    if p == 0 then some false else if is_zero (strcmp (s.name p) name) then some true else rest

unfoldable pub add_char_dev : (fuel cdev : ℕ) → Registry → Option (ℤ × Registry)
add_char_dev fuel cdev s = elim (is_taken fuel s.head (s.name cdev) s) [
  | none ↦ none
  | some true ↦ some (negsuc 0, s)
  | some false ↦ some (pos 0, record s { next = update s.next cdev s.head; head = cdev })
]

-- The code is the same for block devices and for file systems.
pub add_block_dev : (fuel bdev : ℕ) → Registry → Option (ℤ × Registry)
unfolding add_char_dev
add_block_dev fuel bdev s = add_char_dev fuel bdev s

unfoldable pub add_filesystem : (fuel fs : ℕ) → Registry → Option (ℤ × Registry)
unfolding add_char_dev
add_filesystem fuel fs s = add_char_dev fuel fs s
