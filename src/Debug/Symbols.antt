-- ===== src/Debug/Symbols.antt =====
-- arch/i386/debug/debug.c: which symbol an address has.
use hurlex_ii.Base.{
  ℕ, zero, suc, ◌+◌, ◌/◌, ◌≤◌, ◌<◌, ◌≡◌, ◌⊎◌, refl, subst, Bool, true, false, ◌&&◌, Option, none,
  some, arith, inl, inr, Bool-cases, ◌==◌, add32,
}
use hurlex_ii.Debug.{ElfSymbol, Elf, is_function, covers, lookup_from, elf_lookup_symbol}

-- A function that has the address in it.
abbrev pub has_address : (addr : ℕ) → ElfSymbol → Bool
has_address addr s = is_function s && covers addr s

-- The first such symbol from `i` on and below `n`, or that there is none.
abbrev pub Looked : (i n addr : ℕ) (symbols : ℕ → ElfSymbol) → Elf → Option ℕ → Type 0
Looked i n addr symbols elf r =
    ((r ≡ none) × ((j : ℕ) → i ≤ j → j < n → has_address addr (symbols j) ≡ false))
    ⊎ ((k : ℕ) × (i ≤ k)
        × (k < n)
        × (r ≡ some (add32 elf.strtab (symbols k).name))
        × (has_address addr (symbols k) ≡ true)
        × ((j : ℕ) → i ≤ j → j < k → has_address addr (symbols j) ≡ false))

from_next :
    (p : ℕ → Bool) (i top : ℕ)
    → p i ≡ false
    → ((j : ℕ) → i + 1 ≤ j → j < top → p j ≡ false)
    → (j : ℕ) → i ≤ j
    → j < top
    → p j ≡ false
from_next p i top n f j l h = elim (Bool-cases (i == j)) [
  | inl e ↦ let z : i ≡ j = ground arith in subst (λ k. p k ≡ false) z n
  | inr ne ↦ f j (ground arith) h
]

lookup_from-Looked :
    (left i addr : ℕ) (symbols : ℕ → ElfSymbol) (elf : Elf)
    → Looked i (i + left) addr symbols elf (lookup_from left i addr symbols elf)
unfolding lookup_from
lookup_from-Looked zero i addr symbols elf = inl (refl, λ j h k. absurd (omega arith))
lookup_from-Looked (suc left) i addr symbols elf =
    let p = λ (j : ℕ). has_address addr (symbols j) in
    elim (Bool-cases (has_address addr (symbols i))) [
      | inl y ↦ inr (i, omega arith, omega arith, ground arith, y, λ j h k. absurd (omega arith))
      | inr n ↦ elim (lookup_from-Looked left (i + 1) addr symbols elf) [
        | inl no_more ↦ inl (
          ground (arith, no_more.0),
          from_next p i (i + suc left) n (λ j h k. no_more.1 j h (omega arith)),
        )
        | inr (k, l, u, r, y, f) ↦
            inr (k, omega arith, omega arith, ground (arith, r), y, from_next p i k n f)
      ]
    ]

-- elf_lookup_symbol finds the first symbol of the table that is a function and has the address in it,
-- and returns the address of its name; it returns NULL exactly if there is none.
pub elf_lookup_symbol-Looked :
    (addr : ℕ) (symbols : ℕ → ElfSymbol) (elf : Elf)
    → Looked 0 (elf.symtabsz / 16) addr symbols elf (elf_lookup_symbol addr symbols elf)
unfolding elf_lookup_symbol
elf_lookup_symbol-Looked addr symbols elf =
    subst (λ n. Looked 0 n addr symbols elf (lookup_from (elf.symtabsz / 16) 0 addr symbols elf))
      (omega arith) (lookup_from-Looked (elf.symtabsz / 16) 0 addr symbols elf)
