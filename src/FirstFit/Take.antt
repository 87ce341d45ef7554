-- ===== src/FirstFit/Take.antt =====
-- mm/ff_mm.c: the state that `ff_alloc_pages` leaves.
use hurlex_ii.Base.{
  ℕ, zero, suc, ◌+◌, ◌-◌, ◌≤◌, ◌<◌, ◌≡◌, ◌≢◌, refl, true, false, ◌||◌, ◌&&◌, List, ◌∷◌, ◌++◌, arith,
  ◌==◌, ap, some, add32, sub32, mul32, ltb, leb, ne→==_false, if◌then◌else◌, ◌∙◌,
}
use mathlib.Core.Path.{subst}
use hurlex_ii.Links.Ring.{has, IsRing, first_or, first_link, ne_of_has}
use hurlex_ii.Pmm.{page_size, page_to_addr}
use hurlex_ii.FirstFit.{
  FirstFit, free_list, page_node, le_to_page, take_pages, settle, take_first, ff_alloc_pages,
}
use hurlex_ii.FirstFit.Blocks.{
  Block, run, nodes, total, Unmarked, IsFree, Unmarked-frame, Unmarked-drop, Marked-frame,
}
use hurlex_ii.FirstFit.Alloc.{
  left, taken, taken-IsRing, taken-Taken, outside, test, settle-whole, settle-part, settle-flags,
}

take_first-eq :
    (s : FirstFit) (b n m : ℕ) (bs : List Block)
    → IsFree s ((b, n + m) ∷ bs)
    → 0 < n
    → take_first n (page_node b) s
      ≡ settle n b (take_pages n (page_node b) s).0 (take_pages n (page_node b) s).1
unfolding take_first
take_first-eq s b n m bs inv pos =
    let e : le_to_page (page_node b) ≡ b = omega arith in
    rw (test s b n m bs inv pos)
      (ap (λ p. settle n p (take_pages n (page_node b) s).0 (take_pages n (page_node b) s).1) e)

module _ (s : FirstFit) (b n : ℕ) (bs : List Block) (inv : IsFree s ((b, n + 0) ∷ bs))
    (pos : 0 < n) where
  abbrev whole : FirstFit
  whole = settle n b (take_pages n (page_node b) s).0 (take_pages n (page_node b) s).1

  whole-IsFree : IsFree whole bs
  whole-IsFree =
      let t = taken-Taken s b n 0 bs inv pos in
      let w =
        settle-whole n b (take_pages n (page_node b) s).0 (n + 0) (taken s b n 0 bs inv pos)
          (t.ncount b ∙ inv.marked.2) (omega arith) in
      record {
        ring = rw w.1 (taken-IsRing s b n 0 bs inv pos).0;
        marked =
            Marked-frame s.pages whole.pages bs
              (λ p i.
                let ne : page_node p ≢ page_node b =
                  ne_of_has _ _ (nodes bs) i
                    (outside s b n 0 bs inv pos b (omega arith) (omega arith)) in
                let q = w.0 p (λ e. ne (ap suc e)) in (q.0 ∙ t.counted p, q.1 ∙ t.ncount p))
              inv.marked.4;
        count = w.2 ∙ omega (arith, t.now, inv.count, inv.small);
        small = omega (arith, inv.small);
      }

module _ (s : FirstFit) (b n m : ℕ) (bs : List Block) (inv : IsFree s ((b, n + suc m) ∷ bs))
    (pos : 0 < n) where
  abbrev part : FirstFit
  part = settle n b (take_pages n (page_node b) s).0 (take_pages n (page_node b) s).1

  next_node : le_to_page (take_pages n (page_node b) s).0 ≡ b + n
  next_node = rw (taken-IsRing s b n (suc m) bs inv pos).1 (omega arith)

  part-settled :
      ((q : ℕ)
        → q ≢ b
        → q ≢ b + n
        → ((part.pages q).counted ≡ (s.pages q).counted)
          × ((part.pages q).ncount ≡ (s.pages q).ncount))
      × ((part.pages (b + n)).counted ≡ true)
      × ((part.pages (b + n)).ncount ≡ suc m)
      × (part.links ≡ (taken s b n (suc m) bs inv pos).links)
      × (part.phy_page_now_count ≡ sub32 s.phy_page_now_count n)
  part-settled =
      let t = taken-Taken s b n (suc m) bs inv pos in
      let w =
        settle-part n b (take_pages n (page_node b) s).0 (n + suc m)
          (taken s b n (suc m) bs inv pos) (t.ncount b ∙ inv.marked.2) (omega arith)
          (λ e. absurd (omega (arith, e, next_node))) in
      (
        λ q ne nl.
            let r = w.0 q ne (λ e. nl (e ∙ next_node)) in (r.0 ∙ t.counted q, r.1 ∙ t.ncount q),
        rw next_node at w.1,
        (rw next_node at w.2) ∙ omega arith,
        w.3,
        w.4 ∙ ap (λ k. sub32 k n) t.now,
      )

  Unmarked-rest : Unmarked s.pages (suc (b + n)) (suc m - 1)
  Unmarked-rest =
      let e : n + suc m - 1 ≡ n + m = omega arith in
      let u : Unmarked s.pages (suc b) (n + m) = rw e at inv.marked.3 in
      let f : suc (b + n) ≡ suc b + n = omega arith in
      let g : suc m - 1 ≡ m = omega arith in rw (f, g) (Unmarked-drop s.pages (suc b) n m u)

  part-IsFree : IsFree part ((b + n, suc m) ∷ bs)
  part-IsFree = record {
    ring = rw part-settled.3 (taken-IsRing s b n (suc m) bs inv pos).0;
    marked = (
      omega arith,
      part-settled.1,
      part-settled.2,
      Unmarked-frame s.pages part.pages (suc (b + n)) (suc m - 1)
          (λ p le lt. (part-settled.0 p (omega arith) (omega arith)).0) Unmarked-rest,
      Marked-frame s.pages part.pages bs
          (λ p i.
            part-settled.0 p (ne p b i (omega arith) (omega arith))
              (ne p (b + n) i (omega arith) (omega arith)))
          inv.marked.4,
    );
    count = part-settled.4 ∙ omega (arith, inv.count, inv.small);
    small = omega (arith, inv.small);
  }
    where
      ne : (p q : ℕ) → has (page_node p) (nodes bs) ≡ true → b ≤ q → q < b + n + suc m → p ≢ q
      ne p q i le lt e =
          ne_of_has (page_node p) (page_node q) (nodes bs) i
            (outside s b n (suc m) bs inv pos q le lt) (ap suc e)

first_node :
    (s : FirstFit) (b c : ℕ) (bs : List Block)
    → IsFree s ((b, c) ∷ bs)
    → s.links.next free_list ≡ page_node b
first_node s b c bs inv =
    go c inv.marked.0 (first_link s.links free_list free_list (run b c ++ nodes bs) inv.ring.path).0
  where
    go :
        (k : ℕ)
        → 0 < k
        → s.links.next free_list ≡ first_or (run b k ++ nodes bs) free_list
        → s.links.next free_list ≡ page_node b
    go zero h e = absurd (omega arith)
    go (suc k) h e = e

-- A request that the state can meet goes to the first page of the list.
ff_alloc_pages-eq :
    (start n : ℕ) (s : FirstFit) (b c : ℕ) (bs : List Block)
    → IsFree s ((b, c) ∷ bs)
    → 0 < n
    → n ≤ total ((b, c) ∷ bs)
    → start ≢ 0
    → ff_alloc_pages start n s
      ≡ some (add32 start (mul32 b page_size), take_first n (page_node b) s)
unfolding ff_alloc_pages page_to_addr
ff_alloc_pages-eq start n s b c bs inv pos fits ne =
    let t : ((n == 0) || ltb s.phy_page_now_count n) ≡ false = ground (arith, inv.count) in
    let e : le_to_page (page_node b) ≡ b = omega arith in
    let h : (page_node b == free_list) ≡ false = ground arith in
    rw (t, first_node s b c bs inv, h, e, ne→==_false start 0 ne)
      (ap (λ (l : ℕ). some (add32 start (mul32 b page_size), take_first n l s))
        (first_node s b c bs inv))

take_first-short :
    (s : FirstFit) (b n c : ℕ) (bs : List Block)
    → IsFree s ((b, c) ∷ bs)
    → c < n
    → take_first n (page_node b) s ≡ settle n b (page_node b) s
unfolding take_first
take_first-short s b n c bs inv short =
    let e : le_to_page (page_node b) ≡ b = omega arith in
    let t : ((s.pages b).counted && leb n (s.pages b).ncount) ≡ false =
      ground (arith, inv.marked) in
    rw (e, t)

reserved_after :
    (n b m : ℕ) (s : FirstFit) (bs : List Block)
    → IsFree s ((b, n + m) ∷ bs)
    → 0 < n
    → (p : ℕ)
    → ((settle n b (take_pages n (page_node b) s).0 (take_pages n (page_node b) s).1).pages
        p).reserved
      ≡ (if leb b p && ltb p (b + n) then false else (s.pages p).reserved)
reserved_after n b m s bs inv pos p =
    let t = taken-Taken s b n m bs inv pos in
    (settle-flags n b (take_pages n (page_node b) s).0 _ (taken s b n m bs inv pos) refl).0 p
    ∙ t.reserved p

abbrev Outcome : (start n b : ℕ) → (s : FirstFit) → List Block → Type 0
Outcome start n b s rest =
    (s' : FirstFit) × (ff_alloc_pages start n s ≡ some (add32 start (mul32 b page_size), s'))
    × IsFree s' rest
    × ((p : ℕ)
        → (s'.pages p).reserved
          ≡ (if leb b p && ltb p (b + n) then false else (s.pages p).reserved))

outcome :
    (start n b m : ℕ) (s : FirstFit) (bs : List Block)
    → IsFree s ((b, n + m) ∷ bs)
    → 0 < n
    → start ≢ 0
    → Outcome start n b s (left b n m bs)
outcome start n b zero s bs inv pos ne = (
  whole s b n bs inv pos,
  ff_alloc_pages-eq start n s b (n + 0) bs inv pos (omega arith) ne
      ∙ ap (λ t. some (add32 start (mul32 b page_size), t)) (take_first-eq s b n 0 bs inv pos),
  whole-IsFree s b n bs inv pos,
  reserved_after n b 0 s bs inv pos,
)
outcome start n b (suc m) s bs inv pos ne = (
  part s b n m bs inv pos,
  ff_alloc_pages-eq start n s b (n + suc m) bs inv pos (omega arith) ne
      ∙ ap (λ t. some (add32 start (mul32 b page_size), t))
          (take_first-eq s b n (suc m) bs inv pos),
  part-IsFree s b n m bs inv pos,
  reserved_after n b (suc m) s bs inv pos,
)

-- If the first run of the free list has `n` pages, `ff_alloc_pages` gives the address of its first
-- page, takes exactly those `n` pages off the list, leaves the rest of the run at its place in the
-- list, and clears `reserved` on the pages given and on no other.
pub ff_alloc_pages-first :
    (start n b c : ℕ) (s : FirstFit) (bs : List Block)
    → IsFree s ((b, c) ∷ bs)
    → 0 < n
    → n ≤ c
    → start ≢ 0
    → (s' : FirstFit) × (ff_alloc_pages start n s ≡ some (add32 start (mul32 b page_size), s'))
      × IsFree s' (left b n (c - n) bs)
      × ((p : ℕ)
          → (s'.pages p).reserved
            ≡ (if leb b p && ltb p (b + n) then false else (s.pages p).reserved))
ff_alloc_pages-first start n b c s bs inv pos le ne =
    let e : c ≡ n + (c - n) = omega arith in
    outcome start n b (c - n) s bs (subst (λ k. IsFree s ((b, k) ∷ bs)) e inv) pos ne

-- If the first run is shorter than the request, and the free pages altogether are enough for it,
-- `ff_alloc_pages` looks no further: it gives the address of the first page, which stays on the
-- free list with all the others, and takes off the count what it did not hand out.
pub ff_alloc_pages-short :
    (start n b c : ℕ) (s : FirstFit) (bs : List Block)
    → IsFree s ((b, c) ∷ bs)
    → c < n
    → n ≤ total ((b, c) ∷ bs)
    → start ≢ 0
    → (s' : FirstFit) × (ff_alloc_pages start n s ≡ some (add32 start (mul32 b page_size), s'))
      × IsRing s'.links free_list (nodes ((b, c) ∷ bs))
      × ((s'.pages b).counted ≡ false)
      × (s'.phy_page_now_count ≡ total ((b, c) ∷ bs) - n)
ff_alloc_pages-short start n b c s bs inv short fits ne =
    let w = settle-whole n b (page_node b) c s inv.marked.2 (omega arith) in
    (
      settle n b (page_node b) s,
      ff_alloc_pages-eq start n s b c bs inv (omega arith) fits ne
          ∙ ap (λ t. some (add32 start (mul32 b page_size), t))
              (take_first-short s b n c bs inv short),
      rw w.1 inv.ring,
      (settle-flags n b (page_node b) c s inv.marked.2).1,
      w.2 ∙ omega (arith, inv.count, inv.small),
    )
