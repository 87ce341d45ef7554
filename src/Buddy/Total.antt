-- ===== src/Buddy/Total.antt =====
-- mm/buddy_mm.c: the number of pages on the free lists.
use hurlex_ii.Base.{
  ℕ, zero, suc, ◌+◌, ◌*◌, ◌^◌, ◌≤◌, ◌<◌, ◌≡◌, refl, false, List, ◌∷◌, arith, ◌==◌, Bool-cases, inl,
  inr, update, length, ap,
}

-- The pages of the blocks of the orders below `n`.
abbrev pub total : (n : ℕ) (free : ℕ → List ℕ) → ℕ
total zero free = 0
total (suc n) free = total n free + length (free n) * 2 ^ n

total-above :
    (n k : ℕ) (free : ℕ → List ℕ) (xs : List ℕ) → n ≤ k → total n (update free k xs) ≡ total n free
total-above zero k free xs h = refl
total-above (suc n) k free xs h =
    let z : (k == n) ≡ false = ground arith in
    rw z (ap (λ m. m + length (free n) * 2 ^ n) (total-above n k free xs (omega arith)))

total-update :
    (n k : ℕ) (free : ℕ → List ℕ) (xs : List ℕ)
    → k < n
    → total n (update free k xs) + length (free k) * 2 ^ k ≡ total n free + length xs * 2 ^ k
total-update zero k free xs h = absurd (omega arith)
total-update (suc n) k free xs h = elim (Bool-cases (k == n)) [
  | inl y ↦
      let z : k ≡ n = ground arith in
      let a = total-above k k free xs (omega arith) in rw (y, ← z) (omega (arith, a))
  | inr e ↦ let a = total-update n k free xs (ground arith) in rw e (omega (arith, a))
]

pub total-push :
    (n k v : ℕ) (free : ℕ → List ℕ)
    → k < n
    → total n (update free k (v ∷ free k)) ≡ total n free + 2 ^ k
total-push n k v free h =
    let a = total-update n k free (v ∷ free k) h in
    let e : suc (length (free k)) * 2 ^ k ≡ length (free k) * 2 ^ k + 2 ^ k = grind arith in
    omega (arith, a, e)

pub total-pop :
    (n k v : ℕ) (free : ℕ → List ℕ) (rest : List ℕ)
    → k < n
    → free k ≡ v ∷ rest
    → total n (update free k rest) + 2 ^ k ≡ total n free
total-pop n k v free rest h f =
    let a = total-update n k free rest h in
    let l : length (free k) ≡ suc (length rest) = ap length f in
    let e : suc (length rest) * 2 ^ k ≡ length rest * 2 ^ k + 2 ^ k = grind arith in
    let b : length (free k) * 2 ^ k ≡ length rest * 2 ^ k + 2 ^ k = rw l e in omega (arith, a, b)
