-- ===== src/Buddy/Blocks.antt =====
-- mm/buddy_mm.c: the invariant of the buddy allocator. A block is known by the node of its first page.
use hurlex_ii.Base.{
  ℕ, ◌+◌, ◌-◌, ◌%◌, ◌^◌, ◌≤◌, ◌<◌, ◌≡◌, ◌≢◌, refl, true, false, List, ◌∷◌, arith, ◌==◌, Bool-cases,
  inl, inr, update, sym, subst, ◌⊎◌, ◌∙◌, length, pow_pos,
}
use hurlex_ii.Links.Ring.{has}
use hurlex_ii.Buddy.{Buddy, add_block, page_node}
use hurlex_ii.Buddy.Rings.{IsRings, push-IsRings, pushed}

-- Two blocks with no page in common: `2 ^ o` pages from `v` on, and `2 ^ p` from `w` on.
abbrev pub Away : (v o w p : ℕ) → Type 0
Away v o w p = (v + 2 ^ o ≤ w) ⊎ (w + 2 ^ p ≤ v)

-- The free lists hold blocks of their order that have no page in common, each of them marked with
-- its order, and they are as long as their counts say.
pub record IsBuddy (s : Buddy) (free : ℕ → List ℕ) : Type 0 where
  pub rings : IsRings s.links free
  pub marked :
      (o v : ℕ)
      → o < 11
      → has v (free o) ≡ true
      → ((s.pages (v - 11)).ordered ≡ true) × ((s.pages (v - 11)).order ≡ o)
  pub counted : (o : ℕ) → o < 11 → s.nr_free o ≡ length (free o) % 2 ^ 32
  pub disjoint :
      (o p v w : ℕ)
      → o < 11
      → p < 11
      → has v (free o) ≡ true
      → has w (free p) ≡ true
      → v ≢ w
      → Away v o w p

-- A block that has no page in common with the free ones.
abbrev pub Clear : (free : ℕ → List ℕ) (page order : ℕ) → Type 0
Clear free page order = (o v : ℕ) → o < 11 → has v (free o) ≡ true → Away v o (page_node page) order

pub Clear-fresh :
    (free : ℕ → List ℕ) (page order p : ℕ)
    → Clear free page order
    → p < 11
    → has (page_node page) (free p) ≡ false
Clear-fresh free page order p c b = elim (Bool-cases (has (page_node page) (free p))) [
  | inl y ↦ elim (c p (page_node page) b y) [
    | inl l ↦ let q = pow_pos p in absurd (omega arith)
    | inr l ↦ let q = pow_pos order in absurd (omega arith)
  ]
  | inr n ↦ n
]

Away-sym : (v o w p : ℕ) → Away v o w p → Away w p v o
Away-sym v o w p (inl l) = inr l
Away-sym v o w p (inr l) = inl l

-- A block that is clear of the free ones is added to them.
pub add_block-IsBuddy :
    (s : Buddy) (free : ℕ → List ℕ) (page o : ℕ)
    → IsBuddy s free
    → o < 11
    → Clear free page o
    → IsBuddy (add_block page o s) (update free o (page_node page ∷ free o))
unfolding add_block
add_block-IsBuddy s free page o i a c = record {
  rings =
      push-IsRings s.links free (page_node page) o i.rings a (omega arith)
        (λ p b. Clear-fresh free page o p c b);
  marked = marked;
  counted = counted;
  disjoint = disjoint;
}
  where
    free' : ℕ → List ℕ
    free' = update free o (page_node page ∷ free o)

    marked :
        (p v : ℕ)
        → p < 11
        → has v (free' p) ≡ true
        → (((add_block page o s).pages (v - 11)).ordered ≡ true)
          × (((add_block page o s).pages (v - 11)).order ≡ p)
    marked p v b k = elim (pushed free (page_node page) o p v k) [
      | inl (x, y) ↦ let z : (page == v - 11) ≡ true = ground arith in rw z (refl, y)
      | inr l ↦
          let m = i.marked p v b l in
          let big = i.rings.behind p v b l in
          let f = Clear-fresh free page o p c b in
          let ne : v ≢ page_node page = λ e.
            (let t : has (page_node page) (free p) ≡ true =
                subst (λ w. has w (free p) ≡ true) e l in
              cc) in
          let z : (page == v - 11) ≡ false = ground arith in rw z m
    ]

    counted : (p : ℕ) → p < 11 → (add_block page o s).nr_free p ≡ length (free' p) % 2 ^ 32
    counted p b = elim (Bool-cases (o == p)) [
      | inl y ↦ rw y (omega (arith, i.counted o a))
      | inr n ↦ rw n (i.counted p b)
    ]

    disjoint :
        (p q v w : ℕ)
        → p < 11
        → q < 11
        → has v (free' p) ≡ true
        → has w (free' q) ≡ true
        → v ≢ w
        → Away v p w q
    disjoint p q v w b d k l ne = elim (pushed free (page_node page) o p v k) [
      | inl (x, y) ↦ elim (pushed free (page_node page) o q w l) [
        | inl (x', y') ↦ absurd (ne (x ∙ sym x'))
        | inr l' ↦ rw (x, ← y) (Away-sym w q (page_node page) o (c q w d l'))
      ]
      | inr k' ↦ elim (pushed free (page_node page) o q w l) [
        | inl (x, y) ↦ rw (x, ← y) (c p v b k')
        | inr l' ↦ i.disjoint p q v w b d k' l' ne
      ]
    ]
