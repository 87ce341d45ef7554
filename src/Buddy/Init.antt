-- ===== src/Buddy/Init.antt =====
-- mm/buddy_mm.c: `buddy_page_init` up to its test, which sets up the free lists.
use hurlex_ii.Base.{
  ℕ, zero, suc, ◌+◌, ◌-◌, ◌^◌, ◌≤◌, ◌<◌, ◌≡◌, ◌≢◌, refl, true, false, List, [], ◌∷◌, arith, ◌==◌,
  Option, some, leb, Bool-cases, inl, inr, update, subst, ◌∙◌, sub32, add32, mul32, pow_pos,
}
use hurlex_ii.Links.{init_list_head}
use hurlex_ii.Links.Ring.{has}
use hurlex_ii.Pmm.{page_size}
use hurlex_ii.Buddy.{
  Buddy, add_block, count_free, page_node, init_lists, init_blocks, fill_lists, max_order,
}
use hurlex_ii.Buddy.Rings.{pushed}
use hurlex_ii.Pmm.Bounds.{page_to_addr_lem}
use hurlex_ii.Buddy.Count.{add_block-now}
use hurlex_ii.Buddy.Total.{total, total-push}
use hurlex_ii.Buddy.Blocks.{IsBuddy, add_block-IsBuddy}

-- The lists below `i` are empty, and so are their counts.
abbrev IsCleared : (i : ℕ) → Buddy → Type 0
IsCleared i s = (o : ℕ) → o < i → (s.links.next o ≡ o) × (s.links.prev o ≡ o) × (s.nr_free o ≡ 0)

init_lists-IsCleared :
    (rounds i : ℕ) (s : Buddy) → IsCleared i s → IsCleared (i + rounds) (init_lists rounds i s)
unfolding init_lists init_list_head
init_lists-IsCleared zero i s c = let z : i + 0 ≡ i = omega arith in rw z c
init_lists-IsCleared (suc rounds) i s c =
    let z : i + suc rounds ≡ i + 1 + rounds = omega arith in
    rw z (
      init_lists-IsCleared rounds (i + 1)
        (count_free i 0 (record s { links = init_list_head i s.links }))
        (λ o l. elim (Bool-cases (i == o)) [
          | inl y ↦ let e : i ≡ o = ground arith in rw y (e, e, refl)
          | inr n ↦ rw n (c o (ground arith))
        ]))

nothing : ℕ → List ℕ
nothing o = []

cleared-IsBuddy : (s : Buddy) → IsCleared 11 s → IsBuddy s nothing
unfolding nothing
cleared-IsBuddy s c = record {
  rings = record {
    ring = λ o l. record { path = ((c o l).0, (c o l).1); distinct = (refl, tt) };
    behind = λ o v l k. cc;
    apart = λ o p v l m n k. refl;
  };
  marked = λ o v l k. cc;
  counted = λ o l. (c o l).2;
  disjoint = λ o p v w l m k j n. cc;
}

-- The blocks lie below `page`.
abbrev pub IsBelow : (free : ℕ → List ℕ) (page : ℕ) → Type 0
IsBelow free page = (o v : ℕ) → o < 11 → has v (free o) ≡ true → v + 2 ^ o ≤ page_node page

abbrev Filled : (n : ℕ) (r : Option Buddy) (page count now : ℕ) → Type 0
Filled n r page count now =
    (s' : Buddy) × (free' : ℕ → List ℕ) × (r ≡ some s')
    × IsBuddy s' free'
    × IsBelow free' (page + n)
    × (total 11 free' ≡ count + n)
    × (s'.phy_page_now_count ≡ now)

init_blocks-Filled :
    (fuel n p order : ℕ) (s : Buddy) (free : ℕ → List ℕ)
    → IsBuddy s free
    → IsBelow free p
    → order < 11
    → n + order < fuel
    → Filled n (init_blocks fuel n p order s) p (total 11 free) s.phy_page_now_count
unfolding init_blocks
init_blocks-Filled zero n p order s free i b a h = absurd (omega arith)
init_blocks-Filled (suc fuel) n p order s free i b a h = elim (Bool-cases (n == 0)) [
  | inl y ↦
      let z : p + n ≡ p = ground arith in
      (s, free, rw (init_blocks, y) refl, i, rw z b, ground arith, refl)
  | inr y ↦ elim (Bool-cases (leb (2 ^ order) n)) [
    | inl m ↦
        let big = pow_pos order in
        let le : 2 ^ order ≤ n = ground arith in
        let z : p + 2 ^ order + (n - 2 ^ order) ≡ p + n = omega arith in
        let b1 : IsBelow (update free order (page_node p ∷ free order)) (p + 2 ^ order) = λ o v l k.
          elim (pushed free (page_node p) order o v k) [
            | inl (x, e) ↦ rw (x, e) (omega arith)
            | inr j ↦ let q = b o v l j in omega arith
          ] in
        let (s', free', e, i', b', t, c) =
          init_blocks-Filled fuel (n - 2 ^ order) (p + 2 ^ order) order (add_block p order s)
            (update free order (page_node p ∷ free order))
            (add_block-IsBuddy s free p order i a (λ o v l k. inl (b o v l k))) b1 a
            (omega arith) in
        (
          s',
          free',
          rw (init_blocks, y, m) e,
          i',
          subst (IsBelow free') z b',
          omega (arith, t, total-push 11 order (page_node p) free a, le),
          c ∙ add_block-now p order s,
        )
    | inr m ↦
        let some_left : order ≢ 0 = λ z.
          (let one : leb (2 ^ 0) n ≡ false = subst (λ o. leb (2 ^ o) n ≡ false) z m in
            ground arith) in
        let (s', free', e, i', b', t, c) =
          init_blocks-Filled fuel n p (order - 1) s free i b (omega arith) (ground arith) in
        (s', free', rw (init_blocks, y, m) e, i', b', t, c)
  ]
]

-- The structure before its lists are set up.
abbrev set_up : (start n : ℕ) → Buddy → Buddy
set_up start n s = record s {
  phy_page_count = n;
  phy_page_now_count = n;
  mm_addr_start = add32 start (mul32 0 page_size);
  mm_addr_end = add32 (add32 start (mul32 (sub32 n 1) page_size)) page_size;
}

fill_lists-init_blocks :
    (fuel start n : ℕ) (s : Buddy)
    → start ≢ 0
    → fill_lists fuel start n s ≡ init_blocks fuel n 0 10 (init_lists 11 0 (set_up start n s))
unfolding fill_lists
fill_lists-init_blocks fuel start n s ns =
    rw (fill_lists, page_to_addr_lem start 0 ns, page_to_addr_lem start (sub32 n 1) ns) refl

init_lists-now :
    (rounds i : ℕ) (s : Buddy) → (init_lists rounds i s).phy_page_now_count ≡ s.phy_page_now_count
unfolding init_lists
init_lists-now zero i s = refl
init_lists-now (suc rounds) i s =
    init_lists-now rounds (i + 1) (count_free i 0 (record s { links = init_list_head i s.links }))

-- For pages that are set up and fuel for their number, `buddy_page_init` comes to its test, with free
-- lists that keep the invariant, blocks that lie within the `n` pages and hold all of them, and the
-- count `n`.
pub fill_lists-IsBuddy :
    (fuel start n : ℕ) (s : Buddy)
    → start ≢ 0
    → n + max_order < fuel
    → (s' : Buddy) × (free : ℕ → List ℕ) × (fill_lists fuel start n s ≡ some s')
      × IsBuddy s' free
      × IsBelow free n
      × (total 11 free ≡ n)
      × (s'.phy_page_now_count ≡ n)
unfolding nothing
fill_lists-IsBuddy fuel start n s ns h =
    let s1 = init_lists 11 0 (set_up start n s) in
    let c = init_lists-IsCleared 11 0 (set_up start n s) (λ o l. absurd (omega arith)) in
    let (s', free, e, i, b, t, now) =
      init_blocks-Filled fuel n 0 10 s1 nothing (cleared-IsBuddy s1 c) (λ o v l k. cc) (omega arith)
        (omega arith) in
    let z : 0 + n ≡ n = omega arith in
    (
      s',
      free,
      fill_lists-init_blocks fuel start n s ns ∙ e,
      i,
      subst (IsBelow free) z b,
      t ∙ z,
      now ∙ init_lists-now 11 0 (set_up start n s),
    )
