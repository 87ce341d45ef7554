-- ===== src/FirstFit/Alloc.antt =====
-- mm/ff_mm.c: what `ff_alloc_pages` takes off the free list.
use hurlex_ii.Base.{
  ℕ, zero, suc, ◌+◌, ◌-◌, ◌≤◌, ◌<◌, ◌≡◌, ◌≢◌, refl, true, false, ◌&&◌, List, [], ◌∷◌, ◌++◌, arith,
  sub32, ltb, leb, if◌then◌else◌,
}
use mathlib.Core.List.{append_assoc}
use hurlex_ii.Links.{list_del}
use hurlex_ii.Links.Ring.{has, IsRing, first_or, first_link, Distinct-apart}
use hurlex_ii.Links.Ops.{list_del-IsRing}
use hurlex_ii.FirstFit.{
  FirstFit, free_list, page_node, le_to_page, take_pages, set_links, set_reserved, settle,
}
use hurlex_ii.FirstFit.Blocks.{Block, run, nodes, IsFree, run-append, has-run}

-- The inner loop takes the first `n` nodes off the list and leaves the cursor on the next one.
take_pages-IsRing :
    (n a le : ℕ) (s : FirstFit) (rest : List ℕ)
    → IsRing s.links free_list (run a n ++ rest)
    → le ≡ first_or (run a n ++ rest) free_list
    → IsRing (take_pages n le s).1.links free_list rest
      × ((take_pages n le s).0 ≡ first_or rest free_list)
unfolding take_pages
take_pages-IsRing zero a le s rest r e = (r, e)
take_pages-IsRing (suc n) a le s rest r e = rw e (
    take_pages-IsRing n (suc a) (s.links.next (page_node a)) _ rest
      (list_del-IsRing s.links (page_node a) free_list [] (run (suc a) n ++ rest) r)
      (first_link s.links (page_node a) free_list (run (suc a) n ++ rest) r.path.1).0)

abbrev after_one : ℕ → FirstFit → FirstFit
after_one a s =
    set_links (list_del (page_node a) s.links) (set_reserved false (le_to_page (page_node a)) s)

-- It changes no mark, and clears the flag of each page that it takes.
pub record Taken (n a : ℕ) (s s' : FirstFit) : Type 0 where
  pub counted : (p : ℕ) → (s'.pages p).counted ≡ (s.pages p).counted
  pub ncount : (p : ℕ) → (s'.pages p).ncount ≡ (s.pages p).ncount
  pub reserved :
      (p : ℕ)
      → (s'.pages p).reserved ≡ (if leb a p && ltb p (a + n) then false else (s.pages p).reserved)
  pub now : s'.phy_page_now_count ≡ s.phy_page_now_count

Taken-suc : (n a : ℕ) (s s' : FirstFit) → Taken n (suc a) (after_one a s) s' → Taken (suc n) a s s'
Taken-suc n a s s' t = record {
  counted = λ p. ground (arith, t.counted p);
  ncount = λ p. ground (arith, t.ncount p);
  reserved = λ p. ground (arith, t.reserved p);
  now = t.now;
}

take_pages-Taken :
    (n a le : ℕ) (s : FirstFit) (rest : List ℕ)
    → IsRing s.links free_list (run a n ++ rest)
    → le ≡ first_or (run a n ++ rest) free_list
    → Taken n a s (take_pages n le s).1
unfolding take_pages
take_pages-Taken zero a le s rest r e = record {
  counted = λ p. refl;
  ncount = λ p. refl;
  reserved = λ p. ground arith;
  now = refl;
}
take_pages-Taken (suc n) a le s rest r e = rw e (
    Taken-suc n a s _ (
      take_pages-Taken n (suc a) (s.links.next (page_node a)) (after_one a s) rest
        (list_del-IsRing s.links (page_node a) free_list [] (run (suc a) n ++ rest) r)
        (first_link s.links (page_node a) free_list (run (suc a) n ++ rest) r.path.1).0))

-- What is left of the list when `n` pages of its first run are taken and `m` stay.
abbrev pub left : (b n m : ℕ) → List Block → List Block
left b n zero bs = bs
left b n (suc m) bs = (b + n, suc m) ∷ bs

module _ (s : FirstFit) (b n m : ℕ) (bs : List Block) (inv : IsFree s ((b, n + m) ∷ bs))
    (pos : 0 < n) where
  pub first-IsRing : IsRing s.links free_list (run b n ++ (run (b + n) m ++ nodes bs))
  first-IsRing =
      rw (append_assoc (run b n) (run (b + n) m) (nodes bs)) at (rw (run-append b n m) at inv.ring)

  pub cursor : page_node b ≡ first_or (run b n ++ (run (b + n) m ++ nodes bs)) free_list
  cursor =
      elim n
          as (λ k.
            0 < k → page_node b ≡ first_or (run b k ++ (run (b + n) m ++ nodes bs)) free_list) [
              | zero ↦ λ h. absurd (omega arith)
              | suc k ↦ λ h. refl
            ]
        pos

  abbrev pub taken : FirstFit
  taken = (take_pages n (page_node b) s).1

  pub taken-IsRing :
      IsRing taken.links free_list (run (b + n) m ++ nodes bs)
      × ((take_pages n (page_node b) s).0 ≡ first_or (run (b + n) m ++ nodes bs) free_list)
  taken-IsRing =
      take_pages-IsRing n b (page_node b) s (run (b + n) m ++ nodes bs) first-IsRing cursor

  pub taken-Taken : Taken n b s taken
  taken-Taken = take_pages-Taken n b (page_node b) s (run (b + n) m ++ nodes bs) first-IsRing cursor

  pub outside : (p : ℕ) → b ≤ p → p < b + n + m → has (page_node p) (nodes bs) ≡ false
  outside p le lt =
      Distinct-apart (page_node p) (run b (n + m)) (nodes bs) inv.ring.distinct.1
        (has-run b (n + m) p le (omega arith))

  -- The mark and the count of the first page decide for the inner loop.
  pub test :
      ((s.pages (le_to_page (page_node b))).counted
        && leb n (s.pages (le_to_page (page_node b))).ncount)
      ≡ true
  test = let e : le_to_page (page_node b) ≡ b = omega arith in rw e (ground (arith, inv.marked))

module _ (n p le c : ℕ) (s : FirstFit) (count : (s.pages p).ncount ≡ c) where
  pub settle-whole :
      c ≤ n
      → ((q : ℕ)
          → q ≢ p
          → (((settle n p le s).pages q).counted ≡ (s.pages q).counted)
            × (((settle n p le s).pages q).ncount ≡ (s.pages q).ncount))
        × ((settle n p le s).links ≡ s.links)
        × ((settle n p le s).phy_page_now_count ≡ sub32 s.phy_page_now_count n)
  unfolding settle
  settle-whole h =
      let t : ltb n (s.pages p).ncount ≡ false = ground arith in
      rw t (λ q ne. (ground arith, ground arith), refl, refl)

  pub settle-part :
      n < c
      → p ≢ le_to_page le
      → ((q : ℕ)
          → q ≢ p
          → q ≢ le_to_page le
          → (((settle n p le s).pages q).counted ≡ (s.pages q).counted)
            × (((settle n p le s).pages q).ncount ≡ (s.pages q).ncount))
        × (((settle n p le s).pages (le_to_page le)).counted ≡ true)
        × (((settle n p le s).pages (le_to_page le)).ncount ≡ c - n)
        × ((settle n p le s).links ≡ s.links)
        × ((settle n p le s).phy_page_now_count ≡ sub32 s.phy_page_now_count n)
  unfolding settle
  settle-part h apart =
      let t : ltb n (s.pages p).ncount ≡ true = ground arith in
      rw t (λ q ne nl. (ground arith, ground arith), ground arith, ground arith, refl, refl)

  -- In both cases the flag `reserved` stays, and the first page taken heads no run any more.
  pub settle-flags :
      ((q : ℕ) → ((settle n p le s).pages q).reserved ≡ (s.pages q).reserved)
      × (((settle n p le s).pages p).counted ≡ false)
      × (((settle n p le s).pages p).ncount ≡ 0)
  unfolding settle
  settle-flags = (λ q. ground arith, ground arith, ground arith)
