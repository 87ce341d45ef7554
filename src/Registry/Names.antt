-- ===== src/Registry/Names.antt =====
-- driver/char_dev.c, driver/block_dev.c, fs/vfs.c and lib/string.c: a registry has each name once.
use Prim.Native.Nat.{ℕ, zero, suc, ◌<◌}
use hurlex_ii.Base.{
  ◌≡◌, refl, ◌≢◌, ◌⊎◌, Bool, true, false, ◌&&◌, ◌||◌, Option, some, List, [], ◌∷◌, arith, ◌==◌, ltb,
  Bool-cases, inl, inr, length, update, ne→==_false, ℤ, pos, negsuc,
}
use hurlex_ii.Links.Ring.{has}
use hurlex_ii.Registry.{
  Registry, strcmp, is_zero, is_taken, add_char_dev, add_block_dev, add_filesystem,
}

abbrev pub same : List ℕ → List ℕ → Bool
same [] [] = true
same [] (b ∷ ys) = false
same (a ∷ xs) [] = false
same (a ∷ xs) (b ∷ ys) = (a == b) && same xs ys

strcmp-same : (a b : List ℕ) → is_zero (strcmp a b) ≡ same a b
unfolding strcmp
strcmp-same [] [] = refl
strcmp-same [] (b ∷ ys) = refl
strcmp-same (a ∷ xs) [] = refl
strcmp-same (a ∷ xs) (b ∷ ys) = elim (Bool-cases (a == b)) [
  | inl y ↦ rw y (strcmp-same xs ys)
  | inr n ↦ elim (Bool-cases (ltb a b)) [ inl l ↦ rw (n, l) refl | inr g ↦ rw (n, g) refl ]
]

-- From `p` the `next` pointers lead through `ps` to null.
abbrev pub Leads : Registry → ℕ → List ℕ → Type 0
Leads s p [] = p ≡ 0
Leads s p (q ∷ qs) = (p ≡ q) × (q ≢ 0) × Leads s (s.next q) qs

abbrev pub has_name : (ℕ → List ℕ) → List ℕ → List ℕ → Bool
has_name name [] n = false
has_name name (p ∷ ps) n = same (name p) n || has_name name ps n

abbrev pub Unique : (ℕ → List ℕ) → List ℕ → Type 0
Unique name [] = Unit
Unique name (p ∷ ps) = (has_name name ps (name p) ≡ false) × Unique name ps

-- The registry holds the structures `ps`, and no two of them have one name.
pub record IsRegistry (s : Registry) (ps : List ℕ) : Type 0 where
  pub leads : Leads s s.head ps
  pub unique : Unique s.name ps

is_taken-has_name :
    (ps : List ℕ) (fuel p : ℕ) (n : List ℕ) (s : Registry)
    → Leads s p ps
    → length ps < fuel
    → is_taken fuel p n s ≡ some (has_name s.name ps n)
unfolding is_taken
is_taken-has_name ps zero p n s l h = absurd (omega arith)
is_taken-has_name [] (suc fuel) p n s l h = let e : (p == 0) ≡ true = ground arith in rw e refl
is_taken-has_name (q ∷ qs) (suc fuel) p n s (e, nz, l) h =
    let z : (q == 0) ≡ false = ne→==_false q 0 nz in
    rw (e, z, strcmp-same (s.name q) n)
      (elim (Bool-cases (same (s.name q) n)) [
        | inl y ↦ rw y refl
        | inr d ↦ rw d (is_taken-has_name qs fuel (s.next q) n s l (omega arith))
      ])

-- A structure outside of the list is put in front of it, and the list behind it stays.
Leads-update :
    (ps : List ℕ) (p c v : ℕ) (s : Registry)
    → has c ps ≡ false
    → Leads s p ps
    → Leads (record s { next = update s.next c v; head = c }) p ps
Leads-update [] p c v s o l = l
Leads-update (q ∷ qs) p c v s o (e, nz, l) =
    let d : (c == q) ≡ false = ground arith in
    (e, nz, rw d (Leads-update qs (s.next q) c v s (ground arith) l))

-- What registering does to the registry of the structures `ps`.
abbrev pub Registered : (ps : List ℕ) (c : ℕ) → Registry → Option (ℤ × Registry) → Type 0
Registered ps c s r =
    ((has_name s.name ps (s.name c) ≡ true) × (r ≡ some (negsuc 0, s)))
    ⊎ ((has_name s.name ps (s.name c) ≡ false)
        × ((s1 : Registry) × (r ≡ some (pos 0, s1)) × IsRegistry s1 (c ∷ ps)))

-- With more fuel than structures, registering one that is not in the registry, under a name that is
-- taken, fails and changes nothing; under a new name it succeeds, the structure stands in front of
-- the others, and all names still differ. This holds for character devices, block devices and
-- file systems.
pub add_char_dev-Registered :
    (fuel c : ℕ) (s : Registry) (ps : List ℕ)
    → IsRegistry s ps
    → c ≢ 0
    → has c ps ≡ false
    → length ps < fuel
    → Registered ps c s (add_char_dev fuel c s)
      × Registered ps c s (add_block_dev fuel c s)
      × Registered ps c s (add_filesystem fuel c s)
unfolding add_char_dev add_block_dev add_filesystem
add_char_dev-Registered fuel c s ps v nz o h = (one, one, one)
  where
    one : Registered ps c s (add_char_dev fuel c s)
    one =
        let t = is_taken-has_name ps fuel s.head (s.name c) s v.leads h in
        elim (Bool-cases (has_name s.name ps (s.name c))) [
          | inl y ↦ inl (y, rw (add_char_dev, t, y) refl)
          | inr n ↦
              let s1 = record s { next = update s.next c s.head; head = c } in
              let e : (c == c) ≡ true = ground arith in
              inr (
                n,
                (
                  s1,
                  rw (add_char_dev, t, n) refl,
                  record {
                    leads = (refl, nz, rw e (Leads-update ps s.head c s.head s o v.leads));
                    unique = (n, v.unique);
                  },
                ),
              )
        ]
