-- ===== src/Buddy/Boot.antt =====
-- mm/buddy_mm.c: the test at the end of `buddy_page_init`, and what it does to the count.
use hurlex_ii.Base.{ℕ, ◌+◌, ◌^◌, ◌<◌, ◌≡◌, ◌≢◌, List, [], ◌∷◌, arith, ◌⊎◌, Option, some, inl, inr}
use hurlex_ii.Buddy.{
  Buddy, get_order, order_from, alloc_and_free, buddy_test_mm, fill_lists, buddy_page_init,
  max_order,
}
use hurlex_ii.Buddy.Blocks.{IsBuddy}
use hurlex_ii.Buddy.Total.{total}
use hurlex_ii.Buddy.Init.{IsBelow, fill_lists-IsBuddy}
use hurlex_ii.Buddy.Rounds.{IsRefused, alloc_and_free-count}

-- The requests of the two rounds of the test.
abbrev pub first_round : List ℕ
first_round = 1 ∷ 2 ∷ []

abbrev pub second_round : List ℕ
second_round = 8 ∷ 16 ∷ 18 ∷ 27 ∷ 32 ∷ 129 ∷ 547 ∷ []

-- How the test ends that starts in `s`.
abbrev pub Tested : (start : ℕ) (s : Buddy) → Option Buddy → Type 0
Tested start s r =
    IsRefused start first_round s
    ⊎ ((s1 : Buddy) × (alloc_and_free start first_round s ≡ some s1)
        × IsRefused start second_round s1)
    ⊎ ((s' : Buddy) × (r ≡ some s') × (s'.phy_page_now_count ≡ s.phy_page_now_count + 623))

buddy_test_mm-Tested :
    (start : ℕ) (s : Buddy)
    → start ≢ 0
    → s.phy_page_now_count < 2 ^ 30
    → Tested start s (buddy_test_mm start s)
unfolding buddy_test_mm get_order order_from
buddy_test_mm-Tested start s ns small =
    elim (alloc_and_free-count start first_round s ns (omega arith) (omega arith) (omega arith)) [
      | inl refused ↦ inl refused
      | inr (s1, e, c) ↦
          elim (alloc_and_free-count start second_round s1 ns (omega arith) (omega arith)
            (omega arith)) [
              | inl refused ↦ inr (inl (s1, e, refused))
              | inr (s2, e2, c2) ↦ inr (inr (s2, rw (buddy_test_mm, e) e2, omega (arith, c, c2)))
            ]
    ]

-- For pages that are set up, fewer than 2 ^ 30, and fuel for their number, `buddy_page_init` comes to
-- its test with free lists that keep the invariant, blocks that lie within the `n` pages and hold
-- all of them, and the count `n`. Then a request in the first or the second round of the test gets
-- the address 0; or `buddy_page_init` ends, and counts 623 pages more as free than there are.
pub buddy_page_init-Tested :
    (fuel start n : ℕ) (s : Buddy)
    → start ≢ 0
    → n + max_order < fuel
    → n < 2 ^ 30
    → (s1 : Buddy) × (free : ℕ → List ℕ) × (fill_lists fuel start n s ≡ some s1)
      × IsBuddy s1 free
      × IsBelow free n
      × (total 11 free ≡ n)
      × (s1.phy_page_now_count ≡ n)
      × Tested start s1 (buddy_page_init fuel start n s)
unfolding buddy_page_init
buddy_page_init-Tested fuel start n s ns h small =
    let (s1, free, e, i, b, t, c) = fill_lists-IsBuddy fuel start n s ns h in
    (
      s1,
      free,
      e,
      i,
      b,
      t,
      c,
      rw (buddy_page_init, e) (buddy_test_mm-Tested start s1 ns (omega (arith, c))),
    )
