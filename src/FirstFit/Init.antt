-- ===== src/FirstFit/Init.antt =====
-- mm/ff_mm.c: `ff_page_init`, which puts all pages on the free list as one run.
use hurlex_ii.Base.{
  ℕ, zero, suc, ◌+◌, ◌-◌, ◌^◌, ◌≤◌, ◌<◌, ◌≡◌, ◌≢◌, refl, true, false, [], ◌∷◌, ◌++◌, arith, ◌==◌,
  Bool-cases, inl, inr, ◌∙◌, sub32, add32, mul32, some, subst,
}
use mathlib.Core.List.{append-nil}
use hurlex_ii.Links.{list_add_before, init_list_head}
use hurlex_ii.Links.Ring.{has, IsRing}
use hurlex_ii.Links.Ops.{list_add_before_head-IsRing}
use hurlex_ii.Pmm.{page_size}
use hurlex_ii.Pmm.Bounds.{page_to_addr_lem}
use hurlex_ii.FirstFit.{
  FirstFit, Page, free_list, page_node, set_links, set_reserved, init_pages, ff_page_init,
  set_counted, set_ncount,
}
use hurlex_ii.FirstFit.Blocks.{run, IsFree, Unmarked, run-append}

has-run_out : (a c p : ℕ) → a + c ≤ p → has (page_node p) (run a c) ≡ false
has-run_out a zero p h = refl
has-run_out a (suc c) p h = ground (arith, has-run_out (suc a) c p (omega arith))

init_pages-IsRing :
    (rounds p : ℕ) (s : FirstFit)
    → IsRing s.links free_list (run 0 p)
    → IsRing (init_pages rounds p s).links free_list (run 0 (p + rounds))
unfolding init_pages
init_pages-IsRing zero p s r = let z : p + 0 ≡ p = omega arith in rw z r
init_pages-IsRing (suc rounds) p s r =
    let z : p + suc rounds ≡ p + 1 + rounds = omega arith in
    let s1 = set_reserved true p s in
    let q : 0 + p ≡ p = omega arith in
    let e : run 0 (p + 1) ≡ run 0 p ++ (page_node p ∷ []) =
      subst (λ x. run 0 (p + 1) ≡ run 0 p ++ (page_node x ∷ [])) q (run-append 0 p 1) in
    let o = has-run_out 0 p p (omega arith) in
    let r1 : IsRing (list_add_before (page_node p) free_list s.links) free_list (run 0 (p + 1)) =
      rw e
        (list_add_before_head-IsRing s.links (page_node p) free_list (run 0 p) r (ground arith)) in
    rw z (
      init_pages-IsRing rounds (p + 1)
        (set_links (list_add_before (page_node p) free_list s1.links) s1) r1)

-- The loop sets one flag of the pages it goes over.
record Reserved (rounds p : ℕ) (s s' : FirstFit) : Type 0 where
  counted : (q : ℕ) → (s'.pages q).counted ≡ (s.pages q).counted
  within : (q : ℕ) → p ≤ q → q < p + rounds → (s'.pages q).reserved ≡ true
  kept : (q : ℕ) → (s.pages q).reserved ≡ true → (s'.pages q).reserved ≡ true
  now : s'.phy_page_now_count ≡ s.phy_page_now_count

init_pages-Reserved : (rounds p : ℕ) (s : FirstFit) → Reserved rounds p s (init_pages rounds p s)
unfolding init_pages
init_pages-Reserved zero p s = record {
  counted = λ q. refl;
  within = λ q l u. absurd (omega arith);
  kept = λ q k. k;
  now = refl;
}
init_pages-Reserved (suc rounds) p s =
    let s1 = set_reserved true p s in
    let s2 = set_links (list_add_before (page_node p) free_list s1.links) s1 in
    let r = init_pages-Reserved rounds (p + 1) s2 in
    record {
      counted = λ q. r.counted q ∙ same q;
      within = λ q l u. elim (Bool-cases (p == q)) [
        | inl y ↦ r.kept q (rw y refl)
        | inr n ↦ r.within q (ground arith) (omega arith)
      ];
      kept = λ q k. r.kept q (elim (Bool-cases (p == q)) [ inl y ↦ rw y refl | inr n ↦ rw n k ]);
      now = r.now;
    }
  where
    same : (q : ℕ) → ((set_reserved true p s).pages q).counted ≡ (s.pages q).counted
    same q = elim (Bool-cases (p == q)) [
      | inl y ↦ let z : p ≡ q = ground arith in rw (y, z) refl
      | inr n ↦ rw n refl
    ]

all-Unmarked :
    (pages : ℕ → Page) (a c : ℕ)
    → ((p : ℕ) → a ≤ p → (pages p).counted ≡ false)
    → Unmarked pages a c
all-Unmarked pages a zero h = tt
all-Unmarked pages a (suc c) h =
    (h a (omega arith), all-Unmarked pages (suc a) c (λ p l. h p (omega arith)))

-- The state before the loop.
abbrev set_up : (start n : ℕ) → FirstFit → FirstFit
set_up start n s = record s {
  phy_page_count = n;
  phy_page_now_count = n;
  mm_addr_start = add32 start (mul32 0 page_size);
  mm_addr_end = add32 (add32 start (mul32 (sub32 n 1) page_size)) page_size;
  links = init_list_head free_list s.links;
}

ff_page_init-init_pages :
    (start n : ℕ) (s : FirstFit)
    → start ≢ 0
    → ff_page_init start n s
      ≡ some (set_counted true 0 (set_ncount n 0 (init_pages n 0 (set_up start n s))))
unfolding ff_page_init
ff_page_init-init_pages start n s ns =
    rw (ff_page_init, page_to_addr_lem start 0 ns, page_to_addr_lem start (sub32 n 1) ns) refl

-- For some pages, below 2 ^ 31, none of them marked yet, `ff_page_init` ends with all of them
-- reserved and on the free list as one run, in the state that the allocator keeps.
pub ff_page_init-IsFree :
    (start n : ℕ) (s : FirstFit)
    → start ≢ 0
    → 0 < n
    → n < 2 ^ 31
    → ((p : ℕ) → (s.pages p).counted ≡ false)
    → (s' : FirstFit) × (ff_page_init start n s ≡ some s')
      × IsFree s' ((0, n) ∷ [])
      × ((p : ℕ) → p < n → (s'.pages p).reserved ≡ true)
unfolding init_list_head
ff_page_init-IsFree start n s ns pos small clean =
    let s0 = set_up start n s in
    let s1 = init_pages n 0 s0 in
    let s' = set_counted true 0 (set_ncount n 0 s1) in
    let empty : IsRing s0.links free_list [] = record {
      path = (refl, refl);
      distinct = (refl, tt);
    } in
    let ring : IsRing s1.links free_list (run 0 (0 + n)) = init_pages-IsRing n 0 s0 empty in
    let z : 0 + n ≡ n = omega arith in
    let r = init_pages-Reserved n 0 s0 in
    (
      s',
      ff_page_init-init_pages start n s ns,
      record {
        ring = rw (append-nil (run 0 n)) (subst (λ m. IsRing s1.links free_list (run 0 m)) z ring);
        marked = (
          pos,
          refl,
          refl,
          all-Unmarked s'.pages 1 (n - 1)
              (λ p l. let e : (0 == p) ≡ false = ground arith in rw e (r.counted p ∙ clean p)),
          tt,
        );
        count = omega (arith, r.now);
        small = omega arith;
      },
      λ p l. elim (Bool-cases (0 == p)) [
        | inl y ↦ rw y (r.within 0 (omega arith) (omega arith))
        | inr e ↦ rw e (r.within p (omega arith) (omega arith))
      ],
    )
