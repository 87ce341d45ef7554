-- ===== src/FirstFit/Blocks.antt =====
-- mm/ff_mm.c: the invariant of the allocator. The free list holds runs of neighbouring pages, and
-- the first page of each run says how long it is.
use hurlex_ii.Base.{
  ℕ, zero, suc, ◌+◌, ◌-◌, ◌^◌, ◌≤◌, ◌<◌, ◌≡◌, true, false, List, [], ◌∷◌, ◌++◌, arith, ◌==◌, ap,
  Bool-cases, inl, inr,
}
use hurlex_ii.Links.Ring.{has, IsRing, has-append}
use hurlex_ii.FirstFit.{FirstFit, Page, free_list, page_node}

-- A run: its first page, and how many.
abbrev pub Block : Type 0
Block = ℕ × ℕ

abbrev pub run : ℕ → ℕ → List ℕ
run a zero = []
run a (suc c) = page_node a ∷ run (suc a) c

abbrev pub nodes : List Block → List ℕ
nodes [] = []
nodes ((b, c) ∷ bs) = run b c ++ nodes bs

abbrev pub total : List Block → ℕ
total [] = 0
total ((b, c) ∷ bs) = c + total bs

abbrev pub Unmarked : (ℕ → Page) → ℕ → ℕ → Type 0
Unmarked pages a zero = Unit
Unmarked pages a (suc c) = ((pages a).counted ≡ false) × Unmarked pages (suc a) c

abbrev pub Marked : (ℕ → Page) → List Block → Type 0
Marked pages [] = Unit
Marked pages ((b, c) ∷ bs) =
    (0 < c)
    × ((pages b).counted ≡ true)
    × ((pages b).ncount ≡ c)
    × Unmarked pages (suc b) (c - 1)
    × Marked pages bs

pub record IsFree (s : FirstFit) (bs : List Block) : Type 0 where
  pub ring : IsRing s.links free_list (nodes bs)
  pub marked : Marked s.pages bs
  pub count : s.phy_page_now_count ≡ total bs
  pub small : total bs < 2 ^ 31

pub run-append : (a n m : ℕ) → run a (n + m) ≡ run a n ++ run (a + n) m
run-append a zero m =
    let e : 0 + m ≡ m = omega arith in let f : a + 0 ≡ a = omega arith in rw (e, f)
run-append a (suc n) m =
    let e : suc n + m ≡ suc (n + m) = omega arith in
    let f : a + suc n ≡ suc a + n = omega arith in
    rw (e, f) (ap (λ l. page_node a ∷ l) (run-append (suc a) n m))

pub has-run : (a c p : ℕ) → a ≤ p → p < a + c → has (page_node p) (run a c) ≡ true
has-run a zero p le lt = absurd (omega arith)
has-run a (suc c) p le lt = elim (Bool-cases (page_node p == page_node a)) [
  | inl e ↦ ground arith
  | inr e ↦ ground (arith, has-run (suc a) c p (ground arith) (omega arith))
]

-- Marks depend on the pages of the runs only.
pub Unmarked-frame :
    (f g : ℕ → Page) (a c : ℕ)
    → ((p : ℕ) → a ≤ p → p < a + c → (g p).counted ≡ (f p).counted)
    → Unmarked f a c
    → Unmarked g a c
Unmarked-frame f g a zero same u = tt
Unmarked-frame f g a (suc c) same u = (
  ground (arith, same a),
  Unmarked-frame f g (suc a) c (λ p le lt. same p (omega arith) (omega arith)) u.1,
)

pub Marked-frame :
    (f g : ℕ → Page) (bs : List Block)
    → ((p : ℕ)
        → has (page_node p) (nodes bs) ≡ true
        → ((g p).counted ≡ (f p).counted) × ((g p).ncount ≡ (f p).ncount))
    → Marked f bs
    → Marked g bs
Marked-frame f g [] same m = tt
Marked-frame f g ((b, c) ∷ bs) same m =
    let q = same b (ground (arith, has-run b c b, has-append (page_node b) (run b c) (nodes bs))) in
    (
      m.0,
      ground arith,
      ground arith,
      Unmarked-frame f g (suc b) (c - 1)
          (λ p le lt.
            (same p
              (ground (arith, has-run b c p, has-append (page_node p) (run b c) (nodes bs)))).0)
          m.3,
      Marked-frame f g bs
          (λ p i. same p (ground (arith, has-append (page_node p) (run b c) (nodes bs)))) m.4,
    )

pub Unmarked-drop : (f : ℕ → Page) (a n m : ℕ) → Unmarked f a (n + m) → Unmarked f (a + n) m
Unmarked-drop f a zero m u =
    let e : 0 + m ≡ m = omega arith in let g : a + 0 ≡ a = omega arith in rw g (rw e at u)
Unmarked-drop f a (suc n) m u =
    let e : suc n + m ≡ suc (n + m) = omega arith in
    let g : a + suc n ≡ suc a + n = omega arith in
    let v : Unmarked f a (suc (n + m)) = rw e at u in rw g (Unmarked-drop f (suc a) n m v.1)
