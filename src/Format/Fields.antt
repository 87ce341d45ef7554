-- ===== src/Format/Fields.antt =====
-- kernel/printk.c: the parts of a directive of `vsprintf`, each of them within the format.
use Prim.Native.Nat.{bit_or}
use hurlex_ii.Base.{
  ℕ, ◌+◌, ◌-◌, ◌*◌, ◌%◌, ◌^◌, ◌≤◌, ◌<◌, ◌≡◌, refl, ◌||◌, Option, none, some, List, [], ◌∷◌, arith,
  ◌==◌, length, leb, if◌then◌else◌, sub32, Bool-cases, inl, inr,
}
use hurlex_ii.Printk.{is_digit, atoi_from, skip_atoi}
use hurlex_ii.Format.{read_flags, flag_of, read_width, read_digits, read_precision, skip_qualifier}

abbrev pub percents : List ℕ → ℕ
percents [] = 0
percents (c ∷ cs) = if c == 37 then percents cs + 1 else percents cs

-- 1 for a format that goes on with the `*` that has already taken its argument.
abbrev pub star : List ℕ → ℕ
star [] = 0
star (c ∷ cs) = if c == 42 then 1 else 0

abbrev pub Within : (rest cs : List ℕ) → Type 0
Within rest cs = (length rest ≤ length cs) × (percents rest ≤ percents cs)

pub read_flags-Within :
    (cs : List ℕ) (flags : ℕ)
    → (f : ℕ) × (rest : List ℕ) × (read_flags cs flags ≡ (f, rest)) × Within rest cs
unfolding read_flags
read_flags-Within [] flags = (flags, [], refl, (omega arith, omega arith))
read_flags-Within (c ∷ cs) flags =
    let (f, rest, e, (l, p)) = read_flags-Within cs (bit_or flags (flag_of c)) in
    elim (Bool-cases (flag_of c == 0)) [
      | inl q ↦ (flags, c ∷ cs, rw (read_flags, q) refl, (omega arith, omega arith))
      | inr q ↦ (f, rest, rw (read_flags, q, e) refl, (omega arith, ground arith))
    ]

atoi_from-Within :
    (cs : List ℕ) (i : ℕ)
    → (n : ℕ) × (rest : List ℕ) × (atoi_from i cs ≡ (n, rest)) × Within rest cs
unfolding atoi_from
atoi_from-Within [] i = (i, [], refl, (omega arith, omega arith))
atoi_from-Within (c ∷ cs) i =
    let (n, rest, e, (l, p)) = atoi_from-Within cs ((i * 10 + c - 48) % 2 ^ 32) in
    elim (Bool-cases (is_digit c)) [
      | inl q ↦ (n, rest, rw (atoi_from, q, e) refl, (omega arith, ground arith))
      | inr q ↦ (i, c ∷ cs, rw (atoi_from, q) refl, (omega arith, omega arith))
    ]

skip_atoi-Within :
    (cs : List ℕ) → (n : ℕ) × (rest : List ℕ) × (skip_atoi cs ≡ (n, rest)) × Within rest cs
unfolding skip_atoi
skip_atoi-Within cs = atoi_from-Within cs 0

pub read_width-Within :
    (flags : ℕ) (cs args : List ℕ)
    → 0 < length args
    → (f : ℕ) × (w : Option ℕ) × (rest : List ℕ) × (left : List ℕ) × (read_width flags cs args
        ≡ some (f, w, rest, left))
      × Within rest cs
      × (length args ≤ length left + star rest)
unfolding read_width
read_width-Within flags cs [] h = absurd (omega arith)
read_width-Within flags [] (a ∷ args) h =
    (flags, none, [], a ∷ args, refl, (omega arith, omega arith), omega arith)
read_width-Within flags (c ∷ cs) (a ∷ args) h = elim (Bool-cases (is_digit c)) [
  | inl q ↦
      let (n, rest, e, wi) = skip_atoi-Within (c ∷ cs) in
      (flags, some n, rest, a ∷ args, rw (read_width, q, e) refl, wi, omega arith)
  | inr q ↦ elim (Bool-cases (c == 42)) [
    | inl s ↦ elim (Bool-cases (leb (2 ^ 31) a)) [
      | inl m ↦ (
        bit_or flags 16,
        some (sub32 0 a),
        c ∷ cs,
        args,
        rw (read_width, q, s, m) refl,
        (omega arith, omega arith),
        rw s (omega arith),
      )
      | inr m ↦ (
        flags,
        some a,
        c ∷ cs,
        args,
        rw (read_width, q, s, m) refl,
        (omega arith, omega arith),
        rw s (omega arith),
      )
    ]
    | inr s ↦ (
      flags,
      none,
      c ∷ cs,
      a ∷ args,
      rw (read_width, q, s) refl,
      (omega arith, omega arith),
      omega arith,
    )
  ]
]

read_digits-Within :
    (cs args : List ℕ)
    → 0 < length args
    → (p : Option ℕ) × (rest : List ℕ) × (left : List ℕ) × (read_digits cs args
        ≡ some (p, rest, left))
      × Within rest cs
      × (length args ≤ length left + star rest)
read_digits-Within cs [] h = absurd (omega arith)
read_digits-Within [] (a ∷ args) h =
    (some 0, [], a ∷ args, refl, (omega arith, omega arith), omega arith)
read_digits-Within (c ∷ cs) (a ∷ args) h = elim (Bool-cases (is_digit c)) [
  | inl q ↦
      let (n, rest, e, wi) = skip_atoi-Within (c ∷ cs) in
      (some (if leb (2 ^ 31) n then 0 else n), rest, a ∷ args, rw (q, e) refl, wi, omega arith)
  | inr q ↦ elim (Bool-cases (c == 42)) [
    | inl s ↦ (
      some (if leb (2 ^ 31) a then 0 else a),
      c ∷ cs,
      args,
      rw (q, s) refl,
      (omega arith, omega arith),
      rw s (omega arith),
    )
    | inr s ↦ (some 0, c ∷ cs, a ∷ args, rw (q, s) refl, (omega arith, omega arith), omega arith)
  ]
]

pub read_precision-Within :
    (cs args : List ℕ)
    → 0 < length args + star cs
    → (p : Option ℕ) × (rest : List ℕ) × (left : List ℕ) × (read_precision cs args
        ≡ some (p, rest, left))
      × Within rest cs
      × (length args + star cs ≤ length left + star rest)
unfolding read_precision
read_precision-Within [] args h = (none, [], args, refl, (omega arith, omega arith), omega arith)
read_precision-Within (c ∷ cs) args h = elim (Bool-cases (c == 46)) [
  | inl q ↦
      let z : star (c ∷ cs) ≡ 0 = ground arith in
      let (p, rest, left, e, (l, n), k) = read_digits-Within cs args (omega (arith, z, h)) in
      (p, rest, left, rw (read_precision, q) e, (omega arith, ground arith), omega (arith, z, k))
  | inr q ↦
      (none, c ∷ cs, args, rw (read_precision, q) refl, (omega arith, omega arith), omega arith)
]

pub skip_qualifier-Within :
    (cs : List ℕ) → Within (skip_qualifier cs) cs × (star cs ≤ star (skip_qualifier cs))
unfolding skip_qualifier
skip_qualifier-Within [] = ((omega arith, omega arith), omega arith)
skip_qualifier-Within (c ∷ cs) = elim (Bool-cases ((c == 104) || (c == 108) || (c == 76))) [
  | inl q ↦
      let z : star (c ∷ cs) ≡ 0 = ground arith in
      rw (skip_qualifier, q) ((omega arith, ground arith), ground arith)
  | inr q ↦ rw (skip_qualifier, q) ((omega arith, omega arith), omega arith)
]
