-- ===== src/Links/Cut.antt =====
-- include/lib/list.h: lists of nodes taken apart.
use hurlex_ii.Base.{
  ℕ, ◌≡◌, refl, ap, sym, ◌⊎◌, true, arith, ◌==◌, Bool-cases, inl, inr, List, [], ◌∷◌, ◌++◌,
}
use mathlib.Core.Bool.{false≢true}
use hurlex_ii.Links.Ring.{has}

-- The two ways in which an element stands in a list that is in two parts.
pub split_append :
    (ps bs cs ds : List ℕ) (x : ℕ)
    → ps ++ bs ≡ cs ++ (x ∷ ds)
    → ((m : List ℕ) × (ps ≡ cs ++ (x ∷ m)) × (ds ≡ m ++ bs))
      ⊎ ((m : List ℕ) × (cs ≡ ps ++ m) × (bs ≡ m ++ (x ∷ ds)))
split_append [] bs cs ds x e = inr (cs, refl, e)
split_append (a ∷ ps) bs [] ds x e = inl (ps, cc, cc)
split_append (a ∷ ps) bs (c ∷ cs) ds x e = elim (split_append ps bs cs ds x cc) [
  | inl (m, p, q) ↦ inl (m, cc, q)
  | inr (m, p, q) ↦ inr (m, cc, q)
]

-- A node of a list, and what is before and behind it.
pub has-split :
    (b : ℕ) (bs : List ℕ)
    → has b bs ≡ true
    → (us : List ℕ) × ((vs : List ℕ) × (bs ≡ us ++ (b ∷ vs)))
has-split b [] i = absurd (false≢true i)
has-split b (x ∷ bs) i = elim (Bool-cases (b == x)) [
  | inl e ↦ let q : b ≡ x = ground arith in ([], (bs, ap (λ k. k ∷ bs) (sym q)))
  | inr e ↦ let (us, (vs, q)) = has-split b bs (ground arith) in (x ∷ us, (vs, ap (λ l. x ∷ l) q))
]
