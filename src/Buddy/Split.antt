-- ===== src/Buddy/Split.antt =====
-- mm/buddy_mm.c: the first block of a list is taken off, and split into halves.
use native.Mathlib.Nat.{pow-suc}
use hurlex_ii.Base.{
  ℕ, zero, suc, ◌+◌, ◌-◌, ◌*◌, ◌%◌, ◌^◌, ◌≤◌, ◌<◌, ◌≡◌, ◌≢◌, refl, true, false, List, ◌∷◌, arith,
  ◌==◌, Bool-cases, inl, inr, update, sym, subst, ◌∙◌, length, sub32, ap,
}
use hurlex_ii.Links.{list_del}
use hurlex_ii.Links.Ring.{has, Distinct}
use hurlex_ii.Buddy.{Buddy, add_block, page_node, set_page, split_block}
use hurlex_ii.Buddy.Rings.{IsRings, pop-IsRings, pushed, popped}
use hurlex_ii.Buddy.Total.{total, total-push}
use hurlex_ii.Buddy.Blocks.{IsBuddy, Away, Clear, Clear-fresh, add_block-IsBuddy}

module _ (s : Buddy) (free : ℕ → List ℕ) (k page : ℕ) (rest : List ℕ) (i : IsBuddy s free)
    (a : k < 11) (f : free k ≡ page_node page ∷ rest) where
  first : has (page_node page) (free k) ≡ true
  first = rw f (ground arith)

  -- The block that is first on a list has no page in common with the blocks that stay.
  pub popped-Clear : Clear (update free k rest) page k
  popped-Clear o v b m =
      let j = popped free (page_node page) k o v rest f m in
      i.disjoint o k v (page_node page) b a j first (λ e. elim (Bool-cases (k == o)) [
        | inl y ↦
            let r = subst (λ xs. IsRings s.links free) f i.rings in
            let d = (i.rings.ring k a).distinct.1 in
            let q = (subst Distinct f d).0 in
            let t : has v rest ≡ true = rw y at m in
            let u : has (page_node page) rest ≡ true = subst (λ w. has w rest ≡ true) e t in cc
        | inr n ↦
            let q = i.rings.apart k o (page_node page) a b (ground arith) first in
            let u : has (page_node page) (free o) ≡ true = subst (λ w. has w (free o) ≡ true) e j in
            cc
      ])

  pub pop-IsBuddy :
      IsBuddy
        (record s {
          links = list_del (page_node page) s.links;
          nr_free = update s.nr_free k (sub32 (s.nr_free k) 1);
        })
        (update free k rest)
  pop-IsBuddy = record {
    rings = pop-IsRings s.links free (page_node page) k rest i.rings a f;
    marked = λ o v b m. i.marked o v b (popped free (page_node page) k o v rest f m);
    counted = counted;
    disjoint = λ o p v w b c m n ne.
        i.disjoint o p v w b c (popped free (page_node page) k o v rest f m)
          (popped free (page_node page) k p w rest f n) ne;
  }
    where
      counted :
          (p : ℕ)
          → p < 11
          → update s.nr_free k (sub32 (s.nr_free k) 1) p ≡ length (update free k rest p) % 2 ^ 32
      counted p b = elim (Bool-cases (k == p)) [
        | inl y ↦
            let l : length (free k) ≡ suc (length rest) = ap length f in
            rw y (omega (arith, i.counted k a, l))
        | inr n ↦ rw n (i.counted p b)
      ]

-- A page of no free block loses its mark.
pub unmark-IsBuddy :
    (s : Buddy) (free : ℕ → List ℕ) (page order : ℕ)
    → IsBuddy s free
    → Clear free page order
    → IsBuddy (set_page page (record (s.pages page) { ordered = false }) s) free
unmark-IsBuddy s free page order i c = record {
  rings = i.rings;
  marked = λ p v b l.
      let m = i.marked p v b l in
      let big = i.rings.behind p v b l in
      let f = Clear-fresh free page order p c b in
      let ne : v ≢ page_node page = λ e.
        (let t : has (page_node page) (free p) ≡ true = subst (λ w. has w (free p) ≡ true) e l in
          cc) in
      let z : (page == v - 11) ≡ false = ground arith in rw z m;
  counted = i.counted;
  disjoint = i.disjoint;
}

-- The lists after a block of `page`, of the order `k`, has been split down to `order`.
pub record Halves (order k page : ℕ) (free free' : ℕ → List ℕ) : Type 0 where
  pub half : (o : ℕ) → order ≤ o → o < k → free' o ≡ page_node (page + 2 ^ o) ∷ free o
  pub below : (o : ℕ) → o < order → free' o ≡ free o
  pub above : (o : ℕ) → k ≤ o → free' o ≡ free o
  pub number : total 11 free' + 2 ^ order ≡ total 11 free + 2 ^ k

Halves-step :
    (order k page : ℕ) (free free2 : ℕ → List ℕ)
    → order ≤ k
    → k < 11
    → Halves order k page (update free k (page_node (page + 2 ^ k) ∷ free k)) free2
    → Halves order (suc k) page free free2
Halves-step order k page free free2 le lt h = record {
  half = half;
  below = λ o l. let n : (k == o) ≡ false = ground arith in h.below o l ∙ rw n refl;
  above = λ o l. let n : (k == o) ≡ false = ground arith in h.above o (omega arith) ∙ rw n refl;
  number = omega (arith, h.number, total-push 11 k (page_node (page + 2 ^ k)) free lt, pow-suc 2 k);
}
  where
    half : (o : ℕ) → order ≤ o → o < suc k → free2 o ≡ page_node (page + 2 ^ o) ∷ free o
    half o l u = elim (Bool-cases (k == o)) [
      | inl y ↦
          let z : k ≡ o = ground arith in
          subst (λ m. free2 m ≡ page_node (page + 2 ^ m) ∷ free m) z
            (h.above k (omega arith) ∙ (let t : (k == k) ≡ true = ground arith in rw t refl))
      | inr n ↦ h.half o l (ground arith) ∙ rw n refl
    ]

pub split_block-Halves :
    (rounds order page : ℕ) (s : Buddy) (free : ℕ → List ℕ)
    → IsBuddy s free
    → order + rounds < 11
    → Clear free page (order + rounds)
    → (free' : ℕ → List ℕ) × IsBuddy (split_block rounds order page s) free'
      × Clear free' page order
      × Halves order (order + rounds) page free free'
unfolding split_block
split_block-Halves zero order page s free i a c =
    let z : order + 0 ≡ order = omega arith in
    (
      free,
      i,
      subst (Clear free page) z c,
      record {
        half = λ o l h. absurd (omega arith);
        below = λ o h. refl;
        above = λ o h. refl;
        number = ap (λ m. total 11 free + 2 ^ m) (sym z);
      },
    )
split_block-Halves (suc rounds) order page s free i a c =
    let k = order + rounds in
    let buddy = page + 2 ^ k in
    let e : 2 ^ (order + suc rounds) ≡ 2 ^ k * 2 =
      subst (λ m. 2 ^ m ≡ 2 ^ k * 2) (omega arith) (pow-suc 2 k) in
    let cb : Clear free buddy k = λ o v b m. upper o v (c o v b m) e in
    let i1 = add_block-IsBuddy s free buddy k i (omega arith) cb in
    let free1 = update free k (page_node buddy ∷ free k) in
    let c1 : Clear free1 page k = λ o v b m. elim (pushed free (page_node buddy) k o v m) [
      | inl (x, y) ↦ inr (rw x (omega arith))
      | inr n ↦ lower o v (c o v b n) e
    ] in
    let (free2, i2, c2, h) =
      split_block-Halves rounds order page (add_block buddy k s) free1 i1 (omega arith) c1 in
    let z : suc (order + rounds) ≡ order + suc rounds = omega arith in
    (
      free2,
      i2,
      c2,
      subst (λ m. Halves order m page free free2) z
          (Halves-step order k page free free2 (omega arith) (omega arith) h),
    )
  where
    upper :
        (o v : ℕ)
        → Away v o (page_node page) (order + suc rounds)
        → 2 ^ (order + suc rounds) ≡ 2 ^ (order + rounds) * 2
        → Away v o (page_node (page + 2 ^ (order + rounds))) (order + rounds)
    upper o v (inl l) e = inl (omega arith)
    upper o v (inr l) e = inr (omega arith)

    lower :
        (o v : ℕ)
        → Away v o (page_node page) (order + suc rounds)
        → 2 ^ (order + suc rounds) ≡ 2 ^ (order + rounds) * 2
        → Away v o (page_node page) (order + rounds)
    lower o v (inl l) e = inl (omega arith)
    lower o v (inr l) e = inr (omega arith)
