-- ===== src/Strings/Texts.antt =====
-- lib/string.c: what is a text in memory, and the functions that read one.
use hurlex_ii.Base.{ℕ, zero, suc, ◌+◌, ◌<◌, ◌≡◌, ◌≢◌, List, [], ◌∷◌, length, some, arith}
use hurlex_ii.Registry
use hurlex_ii.Strings.{Memory, strcmp, find_null, strlen}

-- The bytes `cs`, none of them null, stand from `a` on, and a null byte behind them.
abbrev pub IsText : Memory → (a : ℕ) → List ℕ → Type 0
IsText m a [] = m a ≡ 0
IsText m a (c ∷ cs) = (m a ≡ c) × (c ≢ 0) × IsText m (a + 1) cs

pub find_null-IsText :
    (fuel a : ℕ) (cs : List ℕ) (m : Memory)
    → IsText m a cs
    → length cs < fuel
    → find_null fuel a m ≡ some (a + length cs)
unfolding find_null
find_null-IsText zero a cs m t h = absurd (omega arith)
find_null-IsText (suc fuel) a [] m t h = ground arith
find_null-IsText (suc fuel) a (c ∷ cs) m t h =
    ground (arith, find_null-IsText fuel (a + 1) cs m t.2)

-- strlen of a text is its length, given fuel for its bytes and the null byte.
pub strlen-IsText :
    (fuel a : ℕ) (cs : List ℕ) (m : Memory)
    → IsText m a cs
    → length cs < fuel
    → strlen fuel a m ≡ some (length cs)
unfolding strlen
strlen-IsText fuel a cs m t h = ground (arith, find_null-IsText fuel a cs m t h)

-- On two texts strcmp returns, given fuel for one byte more than the first text has, the sign of the
-- first difference that the comparison of the registries finds.
pub strcmp-IsText :
    (fuel a b : ℕ) (ds cs : List ℕ) (m : Memory)
    → IsText m a ds
    → IsText m b cs
    → length ds < fuel
    → strcmp fuel a b m ≡ some (Registry.strcmp ds cs)
unfolding strcmp Registry.strcmp
strcmp-IsText zero a b ds cs m t u h = absurd (omega arith)
strcmp-IsText (suc fuel) a b [] [] m t u h = ground arith
strcmp-IsText (suc fuel) a b [] (c ∷ cs) m t u h = ground arith
strcmp-IsText (suc fuel) a b (d ∷ ds) [] m t u h = ground arith
strcmp-IsText (suc fuel) a b (d ∷ ds) (c ∷ cs) m t u h =
    ground (arith, strcmp-IsText fuel (a + 1) (b + 1) ds cs m t.2 u.2)
