-- ===== src/FirstFit/Free.antt =====
-- mm/ff_mm.c: `ff_free_pages`, which puts pages back on the free list at their place.
use hurlex_ii.Base.{
  ℕ, zero, suc, ◌+◌, ◌≤◌, ◌<◌, ◌≡◌, refl, true, false, not, ◌&&◌, List, ◌++◌, arith, ◌==◌,
  Bool-cases, inl, inr, ◌∙◌, add32, Option, some, subst, ap, length, if◌then◌else◌, length-append,
}
use hurlex_ii.Links.{Links}
use hurlex_ii.Links.Ring.{has, IsRing, Right-of, first_or, last_or, first_link, last_link, split}
use hurlex_ii.Pmm.{addr_to_page}
use hurlex_ii.FirstFit.{
  FirstFit, free_list, page_node, le_to_page, set_counted, set_ncount, set_ref, find_above,
  insert_pages, merge_back, ff_free_pages,
}
use hurlex_ii.FirstFit.Blocks.{run}
use hurlex_ii.FirstFit.Insert.{
  Parted, find_above-Parted, insert_pages-IsRing, merge_back-Keeps, Keeps,
}

abbrev marked : (base n : ℕ) → FirstFit → FirstFit
marked base n s = set_ncount n base (set_counted true base (set_ref 0 base s))

abbrev next_joined : (base n p : ℕ) → FirstFit → FirstFit
next_joined base n p s =
    if base + n == p
    then set_ncount 0 p
        (set_counted false p (set_ncount ((s.pages base).ncount + (s.pages p).ncount) base s))
    else s

next_joined_keeps :
    (base n p : ℕ) (s : FirstFit)
    → ((next_joined base n p s).links ≡ s.links)
      × ((next_joined base n p s).phy_page_now_count ≡ s.phy_page_now_count)
next_joined_keeps base n p s = elim (Bool-cases (base + n == p)) [
  | inl y ↦ rw y (refl, refl)
  | inr e ↦ rw e (refl, refl)
]

abbrev back_joined : (fuel before base : ℕ) → FirstFit → Option FirstFit
back_joined fuel before base s =
    if not (before == free_list) && (le_to_page before + 1 == base)
    then merge_back fuel before base s
    else some s

back_joined-Keeps :
    (fuel base : ℕ) (s : FirstFit) (us rest : List ℕ)
    → IsRing s.links free_list (us ++ rest)
    → length us < fuel
    → Keeps (back_joined fuel (last_or free_list us) base s) s
back_joined-Keeps fuel base s us rest r l =
    let before = last_or free_list us in
    elim (Bool-cases (not (before == free_list) && (le_to_page before + 1 == base))) [
      | inl y ↦ rw y (merge_back-Keeps fuel base s us rest r l)
      | inr n ↦ rw n (s, refl, refl, refl)
    ]

-- The state before the loop that joins backwards.
abbrev inserted : (base n le : ℕ) → FirstFit → FirstFit
inserted base n le s = next_joined base n (le_to_page le) (insert_pages n base le (marked base n s))

ff_free_pages-steps :
    (fuel start addr base n le before : ℕ) (s s4 : FirstFit)
    → (n == 0) ≡ false
    → addr_to_page start addr ≡ some base
    → (s.pages base).reserved ≡ false
    → find_above fuel free_list base s.links ≡ some le
    → (inserted base n le s).links.prev (page_node base) ≡ before
    → back_joined fuel before base (inserted base n le s) ≡ some s4
    → ff_free_pages fuel start addr n s
      ≡ some (record s4 { phy_page_now_count = add32 s4.phy_page_now_count n })
unfolding ff_free_pages
ff_free_pages-steps fuel start addr base n le before s s4 z ea er f e q =
    rw (ff_free_pages, z, ea, er, f, e, q) refl

-- For a page of the array that is not reserved, the first of `n` pages that are not on the free list,
-- and fuel for the list, `ff_free_pages` ends: the `n` pages are on the list, in their order, behind
-- those up to the first of them and before the first one above it, and the count rises by `n`, as a
-- word.
pub ff_free_pages-IsRing :
    (fuel start addr base n : ℕ) (s : FirstFit) (ts : List ℕ)
    → addr_to_page start addr ≡ some base
    → (s.pages base).reserved ≡ false
    → IsRing s.links free_list ts
    → 0 < n
    → ((q : ℕ) → base ≤ q → q < base + n → has (page_node q) ts ≡ false)
    → length ts < fuel
    → (us : List ℕ) × (vs : List ℕ) × (s' : FirstFit) × Parted base ts us vs
      × (ff_free_pages fuel start addr n s ≡ some s')
      × IsRing s'.links free_list (us ++ (run base n ++ vs))
      × (s'.phy_page_now_count ≡ add32 s.phy_page_now_count n)
ff_free_pages-IsRing fuel start addr base n s ts ea er r pos fresh l =
    let z : (n == 0) ≡ false = ground arith in
    let s1 = marked base n s in
    let (us, vs, p, f) =
      find_above-Parted ts fuel free_list base s.links
        (Right-of s.links free_list free_list ts r.path)
        (first_link s.links free_list free_list ts r.path).0 r.distinct.0 l in
    let le = first_or vs free_list in
    let w = p.whole in
    let s2 = insert_pages n base le s1 in
    let (r2, c2) =
      insert_pages-IsRing n base s1 us vs (subst (IsRing s.links free_list) w r)
        (λ q a b. subst (λ xs. has (page_node q) xs ≡ false) w (fresh q a b)) in
    let s3 = next_joined base n (le_to_page le) s2 in
    let (k3, c3) = next_joined_keeps base n (le_to_page le) s2 in
    let r3 : IsRing s3.links free_list (us ++ (run base n ++ vs)) = rw k3 r2 in
    let m : length us ≤ length ts = rw w (omega (arith, length-append us vs)) in
    let (s4, q, k4, c4) = back_joined-Keeps fuel base s3 us (run base n ++ vs) r3 (omega arith) in
    let e = before_run s3.links base n us vs r3 pos in
    (
      us,
      vs,
      record s4 { phy_page_now_count = add32 s4.phy_page_now_count n },
      p,
      ff_free_pages-steps fuel start addr base n le (last_or free_list us) s s4 z ea er f e q,
      rw k4 r3,
      ap (λ c. add32 c n) (c4 ∙ (c3 ∙ c2)),
    )
  where
    before_run :
        (h : Links) (base n : ℕ) (us vs : List ℕ)
        → IsRing h free_list (us ++ (run base n ++ vs))
        → 0 < n
        → h.prev (page_node base) ≡ last_or free_list us
    before_run h base zero us vs r pos = absurd (omega arith)
    before_run h base (suc n) us vs r pos =
        (last_link h free_list (page_node base) us
          (split h free_list (page_node base) free_list us (run (suc base) n ++ vs) r.path).0).1
