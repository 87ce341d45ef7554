-- ===== src/FirstFit/Insert.antt =====
-- mm/ff_mm.c: the loops of `ff_free_pages`.
use hurlex_ii.Base.{
  ℕ, zero, suc, ◌+◌, ◌-◌, ◌≤◌, ◌<◌, ◌≡◌, refl, true, false, List, [], ◌∷◌, ◌++◌, arith, ◌==◌,
  Bool-cases, inl, inr, ◌∙◌, Option, some, subst, ap, length, ltb, ◌⊎◌, if◌then◌else◌,
  length-append,
}
use mathlib.Core.List.{append-nil, append_assoc}
use hurlex_ii.Links.{Links, list_add_before}
use hurlex_ii.Links.Ring.{has, has-append, IsRing, Right, first_or, last_or, last_link, split}
use hurlex_ii.Links.Ops.{list_add_before_head-IsRing, list_add_before-IsRing, last_or-snoc}
use hurlex_ii.FirstFit.{
  FirstFit, free_list, page_node, le_to_page, set_links, set_counted, set_ncount, find_above,
  insert_pages, merge_back,
}
use hurlex_ii.FirstFit.Blocks.{run}

-- The nodes of a list before the first one of a page above `base`, and the others.
pub record Parted (base : ℕ) (ts us vs : List ℕ) : Type 0 where
  pub whole : ts ≡ us ++ vs
  pub low : (v : ℕ) → has v us ≡ true → le_to_page v ≤ base
  pub high : (vs ≡ []) ⊎ (base < le_to_page (first_or vs free_list))

pub find_above-Parted :
    (ts : List ℕ) (fuel le base : ℕ) (h : Links)
    → Right h ts free_list
    → h.next le ≡ first_or ts free_list
    → has free_list ts ≡ false
    → length ts < fuel
    → (us : List ℕ) × (vs : List ℕ) × Parted base ts us vs
      × (find_above fuel le base h ≡ some (first_or vs free_list))
unfolding find_above
find_above-Parted ts zero le base h r e o l = absurd (omega arith)
find_above-Parted [] (suc fuel) le base h r e o l =
    ([], [], record { whole = refl; low = λ v k. cc; high = inl refl }, rw (find_above, e) refl)
find_above-Parted (t ∷ ts) (suc fuel) le base h r e o l =
    let n : (t == 0) ≡ false = ground arith in
    elim (Bool-cases (ltb base (t - 1))) [
      | inl y ↦ (
        [],
        t ∷ ts,
        record { whole = refl; low = λ v k. cc; high = inr (ground arith) },
        rw (find_above, e, n, y) refl,
      )
      | inr y ↦
          let (us, vs, p, q) =
            find_above-Parted ts fuel t base h r.1 r.0.0 (ground arith) (omega arith) in
          (
            t ∷ us,
            vs,
            record {
              whole = ap (λ m. t ∷ m) p.whole;
              low = λ v k. elim (Bool-cases (v == t)) [
                | inl z ↦ ground arith
                | inr z ↦ p.low v (ground arith)
              ];
              high = p.high;
            },
            rw (find_above, e, n, y) q,
          )
    ]

-- A node goes in before the rest `vs` of a ring.
add_before-IsRing :
    (h : Links) (new : ℕ) (us vs : List ℕ)
    → IsRing h free_list (us ++ vs)
    → has new (free_list ∷ (us ++ vs)) ≡ false
    → IsRing (list_add_before new (first_or vs free_list) h) free_list (us ++ (new ∷ vs))
add_before-IsRing h new us [] r o =
    list_add_before_head-IsRing h new free_list us (rw (append-nil us) at r)
      (rw (append-nil us) at o)
add_before-IsRing h new us (v ∷ vs) r o = list_add_before-IsRing h new v free_list us vs r o

pub insert_pages-IsRing :
    (rounds p : ℕ) (s : FirstFit) (us vs : List ℕ)
    → IsRing s.links free_list (us ++ vs)
    → ((q : ℕ) → p ≤ q → q < p + rounds → has (page_node q) (us ++ vs) ≡ false)
    → IsRing
        (insert_pages rounds p (first_or vs free_list) s).links
        free_list
        (us ++ (run p rounds ++ vs))
      × ((insert_pages rounds p (first_or vs free_list) s).phy_page_now_count
          ≡ s.phy_page_now_count)
unfolding insert_pages
insert_pages-IsRing zero p s us vs r f = (r, refl)
insert_pages-IsRing (suc rounds) p s us vs r f =
    let le = first_or vs free_list in
    let s1 = set_links (list_add_before (page_node p) le s.links) s in
    let o = f p (omega arith) (omega arith) in
    let r1 = add_before-IsRing s.links (page_node p) us vs r (ground arith) in
    let a : us ++ (page_node p ∷ vs) ≡ (us ++ (page_node p ∷ [])) ++ vs = simp append_assoc refl in
    let b : (us ++ (page_node p ∷ [])) ++ (run (p + 1) rounds ++ vs)
        ≡ us ++ (page_node p ∷ (run (p + 1) rounds ++ vs)) =
      simp append_assoc refl in
    let (r2, c) =
      insert_pages-IsRing rounds (p + 1) s1 (us ++ (page_node p ∷ [])) vs
        (subst (IsRing s1.links free_list) a r1)
        (λ q l u.
          let k = f q (omega arith) (omega arith) in
          let m : has (page_node q) ((us ++ (page_node p ∷ [])) ++ vs) ≡ false =
            subst (λ xs. has (page_node q) xs ≡ false) a
              (ground (
                arith,
                has-append (page_node q) us vs,
                has-append (page_node q) us (page_node p ∷ vs),
              )) in
          m) in
    let z : p + 1 ≡ suc p = omega arith in
    (
      subst
          (λ x.
            IsRing (insert_pages rounds (p + 1) le s1).links free_list
              (us ++ (page_node p ∷ (run x rounds ++ vs))))
          z (subst (IsRing (insert_pages rounds (p + 1) le s1).links free_list) b r2),
      c,
    )

snoc-cases : (us : List ℕ) → (us ≡ []) ⊎ ((ws : List ℕ) × (e : ℕ) × (us ≡ ws ++ (e ∷ [])))
snoc-cases [] = inl refl
snoc-cases (u ∷ us) = elim (snoc-cases us) [
  | inl z ↦ inr ([], u, ap (λ m. u ∷ m) z)
  | inr (ws, e, z) ↦ inr (u ∷ ws, e, ap (λ m. u ∷ m) z)
]

-- A round of the loop that joins runs changes marks only.
abbrev joined : (p base : ℕ) → FirstFit → FirstFit
joined p base s =
    if (s.pages p).counted
    then set_ncount 0 base
        (set_counted false base (set_ncount ((s.pages p).ncount + (s.pages base).ncount) p s))
    else s

joined_keeps :
    (p base : ℕ) (s : FirstFit)
    → ((joined p base s).links ≡ s.links)
      × ((joined p base s).phy_page_now_count ≡ s.phy_page_now_count)
joined_keeps p base s = elim (Bool-cases ((s.pages p).counted)) [
  | inl y ↦ rw y (refl, refl)
  | inr n ↦ rw n (refl, refl)
]

-- A result whose list and count are those of `s`.
abbrev pub Keeps : Option FirstFit → FirstFit → Type 0
Keeps r s =
    (s' : FirstFit) × (r ≡ some s')
    × (s'.links ≡ s.links)
    × (s'.phy_page_now_count ≡ s.phy_page_now_count)

pub merge_back-Keeps :
    (fuel base : ℕ) (s : FirstFit) (us rest : List ℕ)
    → IsRing s.links free_list (us ++ rest)
    → length us < fuel
    → Keeps (merge_back fuel (last_or free_list us) base s) s
unfolding merge_back
merge_back-Keeps zero base s us rest r l = absurd (omega arith)
merge_back-Keeps (suc fuel) base s us rest r l = elim (snoc-cases us) [
  | inl z ↦ rw z (s, refl, refl, refl)
  | inr (ws, e, z) ↦
      let a : us ++ rest ≡ ws ++ (e ∷ rest) = rw z (append_assoc ws (e ∷ []) rest) in
      let r1 : IsRing s.links free_list (ws ++ (e ∷ rest)) = subst (IsRing s.links free_list) a r in
      let c = split s.links free_list e free_list ws rest r1.path in
      let b : s.links.prev e ≡ last_or free_list ws = (last_link s.links free_list e ws c.0).1 in
      let n : (e == free_list) ≡ false =
        ground (arith, r1.distinct.0, has-append free_list ws (e ∷ rest)) in
      let f : last_or free_list us ≡ e = rw z (last_or-snoc free_list e ws) in
      let (k1, k2) = joined_keeps (le_to_page e) base s in
      let m : length us ≡ length ws + 1 = rw z (length-append ws (e ∷ [])) in
      let (s', q, k3, k4) =
        merge_back-Keeps fuel base (joined (le_to_page e) base s) ws (e ∷ rest) (rw k1 r1)
          (omega arith) in
      (s', rw (f, merge_back, n, b) q, k3 ∙ k1, k4 ∙ k2)
]
