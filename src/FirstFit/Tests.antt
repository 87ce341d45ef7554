-- ===== src/FirstFit/Tests.antt =====
-- mm/ff_mm.c: the theorems at a free list of two runs, and a run of the code.
use hurlex_ii.Base.{
  ◌++◌, not, ◌<◌, ℕ, ◌+◌, ◌-◌, ◌≡◌, refl, true, false, ◌==◌, ◌||◌, ◌&&◌, if◌then◌else◌, List, [],
  ◌∷◌, arith, some, add32, mul32, leb, ltb,
}
use hurlex_ii.Links.{Links}
use hurlex_ii.Links.Ring.{IsRing}
use hurlex_ii.Pmm.{page_size, addr_to_page}
use hurlex_ii.FirstFit.{FirstFit, free_list, ff_alloc_pages, ff_page_init, ff_free_pages}
use hurlex_ii.FirstFit.Blocks.{run, Block, nodes, IsFree}
use hurlex_ii.FirstFit.Init.{ff_page_init-IsFree}
use hurlex_ii.FirstFit.Insert.{Parted}
use hurlex_ii.FirstFit.Free.{ff_free_pages-IsRing}
use hurlex_ii.FirstFit.Take.{ff_alloc_pages-first, ff_alloc_pages-short}

-- Pages 4 to 6 and 10 to 11 are free; their nodes are 5 to 7 and 11 to 12.
abbrev links : Links
links = record {
  next = λ p. if p == 0 then 5 else if p == 7 then 11 else if p == 12 then 0 else p + 1;
  prev = λ p. if p == 0 then 12 else if p == 5 then 0 else if p == 11 then 7 else p - 1;
}

abbrev state : FirstFit
state = record {
  links = links;
  pages = λ p. record {
    ref = 0;
    reserved = true;
    counted = (p == 4) || (p == 10);
    ncount = if p == 4 then 3 else if p == 10 then 2 else 0;
  };
  mm_addr_start = 0x40_0000;
  mm_addr_end = 0x50_0000;
  phy_page_count = 256;
  phy_page_now_count = 5;
}

abbrev runs : List Block
runs = (4, 3) ∷ (10, 2) ∷ []

state-IsFree : IsFree state runs
state-IsFree = record {
  ring = record {
    path = omega arith;
    distinct = (refl, (refl, (refl, (refl, (refl, (refl, tt))))));
  };
  marked = (omega arith, refl, refl, (refl, (refl, tt)), (omega arith, refl, refl, (refl, tt), tt));
  count = refl;
  small = omega arith;
}

ff_alloc_pages-first_example :
    (s' : FirstFit) × (ff_alloc_pages 0x40_0000 2 state
      ≡ some (add32 0x40_0000 (mul32 4 page_size), s'))
    × IsFree s' ((6, 1) ∷ (10, 2) ∷ [])
    × ((p : ℕ) → (s'.pages p).reserved ≡ (if leb 4 p && ltb p 6 then false else true))
ff_alloc_pages-first_example =
    ff_alloc_pages-first 0x40_0000 2 4 3 state ((10, 2) ∷ []) state-IsFree (omega arith)
      (omega arith) (omega arith)

-- Four pages are asked for, and the first run has three.
ff_alloc_pages-short_example :
    (s' : FirstFit) × (ff_alloc_pages 0x40_0000 4 state
      ≡ some (add32 0x40_0000 (mul32 4 page_size), s'))
    × IsRing s'.links free_list (nodes runs)
    × ((s'.pages 4).counted ≡ false)
    × (s'.phy_page_now_count ≡ 1)
ff_alloc_pages-short_example =
    ff_alloc_pages-short 0x40_0000 4 4 3 state ((10, 2) ∷ []) state-IsFree (omega arith)
      (omega arith) (omega arith)

-- No page is marked, and the links lead nowhere.
abbrev blank_state : FirstFit
blank_state = record state {
  pages = λ p. record { ref = 0; reserved = false; counted = false; ncount = 0 };
}

ff_page_init-IsFree_example :
    (s' : FirstFit) × (ff_page_init 0x40_0000 3 blank_state ≡ some s')
    × IsFree s' ((0, 3) ∷ [])
    × ((p : ℕ) → p < 3 → (s'.pages p).reserved ≡ true)
ff_page_init-IsFree_example =
    ff_page_init-IsFree 0x40_0000 3 blank_state (omega arith) (omega arith) (omega arith)
      (λ p. refl)

-- Page 8 is in use.
abbrev used_state : FirstFit
used_state = record state {
  pages = λ p. record { ref = 1; reserved = not (p == 8); counted = false; ncount = 0 };
}

abbrev listed : List ℕ
listed = 5 ∷ 6 ∷ 7 ∷ 11 ∷ 12 ∷ []

ff_free_pages-IsRing_example :
    (us : List ℕ) × (vs : List ℕ) × (s' : FirstFit) × Parted 8 listed us vs
    × (ff_free_pages 10 0x40_0000 0x40_8000 2 used_state ≡ some s')
    × IsRing s'.links free_list (us ++ (run 8 2 ++ vs))
    × (s'.phy_page_now_count ≡ 7)
unfolding addr_to_page
ff_free_pages-IsRing_example =
    ff_free_pages-IsRing 10 0x40_0000 0x40_8000 8 2 used_state listed refl refl state-IsFree.ring
      (omega arith) (λ q l u. ground arith) (omega arith)
