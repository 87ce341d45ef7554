-- ===== src/Slob/Alloc.antt =====
-- mm/slob.c: `kmalloc`. Which block it takes, and that the heap stays tiled.
use hurlex_ii.Base.{
  ℕ, zero, suc, ◌+◌, ◌-◌, ◌^◌, ◌≤◌, ◌<◌, ◌≡◌, ◌≢◌, inl, inr, refl, sym, true, false, List, [], ◌∷◌,
  ◌++◌, arith, ◌==◌, ltb, ltb→lt, update, if◌then◌else◌, add32, sub32, Bool-cases, length,
}
use hurlex_ii.Links.Ring.{has, first_or, Right, has-append, ne_of_has}
use hurlex_ii.Links.Ops.{list_add_after-IsRing}
use hurlex_ii.Slob.{
  Heap, slob_head, header, slob_min_part, u31, split_chunk, fits, Scan, found, exhausted,
  find_block,
}
use mathlib.Core.Path.{ap, subst}
use mathlib.Core.Bool.{false≢true}
use hurlex_ii.Slob.Tiles.{Tiles, IsHeap, Tiles-split, Tiles-join, Tiles-within, Tiles-frame}

-- The first block of a list that is free and longer than `len`.
abbrev pub first_fit : Heap → ℕ → List ℕ → Scan
first_fit s len [] = exhausted
first_fit s len (b ∷ bs) = if fits s len b then found b else first_fit s len bs

pub find_block-first_fit :
    (s : Heap) (len fuel : ℕ) (vs : List ℕ)
    → Right s.links vs slob_head
    → has slob_head vs ≡ false
    → length vs < fuel
    → find_block fuel (first_or vs slob_head) len s ≡ first_fit s len vs
unfolding find_block
find_block-first_fit s len zero vs r o f = absurd (omega arith)
find_block-first_fit s len (suc fuel) [] r o f = ground arith
find_block-first_fit s len (suc fuel) (v ∷ vs) r o f =
    ground (arith, r.0.0, find_block-first_fit s len fuel vs r.1)

pub record Found (s : Heap) (len b : ℕ) (bs : List ℕ) : Type 0 where
  pub before : List ℕ
  pub after : List ℕ
  pub split : bs ≡ before ++ (b ∷ after)
  pub good : fits s len b ≡ true
  pub first : (v : ℕ) → has v before ≡ true → fits s len v ≡ false

Found-cons :
    (s : Heap) (len b x : ℕ) (bs : List ℕ)
    → fits s len x ≡ false
    → Found s len b bs
    → Found s len b (x ∷ bs)
Found-cons s len b x bs n f = record {
  before = x ∷ f.before;
  after = f.after;
  split = ap (λ l. x ∷ l) f.split;
  good = f.good;
  first = λ v i. elim (Bool-cases (v == x)) [
    | inl e ↦ let q : v ≡ x = ground arith in rw q n
    | inr e ↦ f.first v (ground arith)
  ];
}

pub first_fit-Found :
    (s : Heap) (len b : ℕ) (bs : List ℕ) → first_fit s len bs ≡ found b → Found s len b bs
first_fit-Found s len b [] e = cc
first_fit-Found s len b (x ∷ bs) e = elim (Bool-cases (fits s len x)) [
  | inl y ↦
      let q : x ≡ b = ground arith in
      record {
        before = [];
        after = bs;
        split = ap (λ k. k ∷ bs) q;
        good = rw q at y;
        first = λ v (i : false ≡ true). absurd (false≢true i);
      }
  | inr n ↦ Found-cons s len b x bs n (first_fit-Found s len b bs (rw n at e))
]

-- `first_fit` gives up only where no block is free and long enough.
pub first_fit-none :
    (s : Heap) (len : ℕ) (bs : List ℕ)
    → first_fit s len bs ≡ exhausted
    → (v : ℕ) → has v bs ≡ true
    → fits s len v ≡ false
first_fit-none s len [] e v i = cc
first_fit-none s len (x ∷ bs) e v i = elim (Bool-cases (fits s len x)) [
  | inl y ↦ ground arith
  | inr n ↦ elim (Bool-cases (v == x)) [
    | inl q ↦ let q' : v ≡ x = ground arith in rw q' n
    | inr q ↦ first_fit-none s len bs (rw n at e) v (ground arith)
  ]
]

pub fits-lt : (s : Heap) (len b : ℕ) → fits s len b ≡ true → (s.used b ≡ false) × (len < s.len b)
fits-lt s len b h = ground arith

-- The blocks after `split_chunk`.
abbrev pub after_split : Heap → (len : ℕ) → List ℕ → ℕ → List ℕ → List ℕ
after_split s len us b vs =
    if ltb (header + slob_min_part) (sub32 (s.len b) len)
    then us ++ (b ∷ add32 b (header + len) ∷ vs)
    else us ++ (b ∷ vs)

module _ (s : Heap) (lo hi len b : ℕ) (us vs : List ℕ) (inv : IsHeap s lo hi (us ++ (b ∷ vs)))
    (good : fits s len b ≡ true)
    (room : ltb (header + slob_min_part) (sub32 (s.len b) len) ≡ true) where
  abbrev pub fresh : ℕ
  fresh = add32 b (header + len)

  bounds :
      (lo ≤ b)
      × (b + header + s.len b ≤ hi)
      × (header + slob_min_part + len < s.len b)
      × (fresh ≡ b + header + len)
      × (s.len b < 2 ^ 31)
  bounds =
      let t =
        Tiles-within s.len lo hi b (us ++ (b ∷ vs)) inv.tiles
          (ground (arith, has-append b us (b ∷ vs))) in
      omega (arith, t, fits-lt s len b good, ltb→lt _ _ room)

  outer : Tiles s.len lo us b × Tiles s.len (b + header + s.len b) vs hi
  outer = Tiles-split s.len lo hi us b vs inv.tiles

  not_before : (v : ℕ) → b ≤ v → has v us ≡ false
  not_before v h = elim (Bool-cases (has v us)) [
    | inl e ↦ absurd (omega (arith, Tiles-within s.len lo b v us outer.0 e))
    | inr e ↦ e
  ]

  not_after : (v : ℕ) → v < b + header + s.len b → has v vs ≡ false
  not_after v h = elim (Bool-cases (has v vs)) [
    | inl e ↦ absurd (omega (arith, Tiles-within s.len (b + header + s.len b) hi v vs outer.1 e))
    | inr e ↦ e
  ]

  fresh-not-mem : has fresh (slob_head ∷ (us ++ (b ∷ vs))) ≡ false
  fresh-not-mem =
      ground (arith, bounds, has-append fresh us (b ∷ vs), not_before fresh, not_after fresh)

  abbrev carved_len : ℕ → ℕ
  carved_len = update (update s.len fresh (u31 (sub32 (sub32 (s.len b) len) header))) b (u31 len)

  carved_at : (carved_len b ≡ len) × (carved_len fresh ≡ s.len b - len - header)
  carved_at = (ground (arith, bounds), ground (arith, bounds))

  carved-Tiles : Tiles carved_len lo (us ++ (b ∷ fresh ∷ vs)) hi
  carved-Tiles =
      Tiles-join carved_len lo b hi us (b ∷ fresh ∷ vs)
        (Tiles-frame s.len carved_len lo b us outer.0
          (λ v i. ground (arith, Tiles-within s.len lo b v us outer.0 i, bounds)))
        (refl, (omega (arith, carved_at, bounds), tail))
    where
      tail : Tiles carved_len (b + header + carved_len b + header + carved_len fresh) vs hi
      tail =
          let e : b + header + carved_len b + header + carved_len fresh ≡ b + header + s.len b =
            omega (arith, carved_at, bounds) in
          subst (λ k. Tiles carved_len k vs hi) (sym e)
            (Tiles-frame s.len carved_len (b + header + s.len b) hi vs outer.1 (λ v i.
              ground (arith, Tiles-within s.len (b + header + s.len b) hi v vs outer.1 i, bounds)))

  pub split_chunk-carved :
      IsHeap (split_chunk b len s) lo hi (us ++ (b ∷ fresh ∷ vs))
      × ((split_chunk b len s).used b ≡ true)
      × ((split_chunk b len s).used fresh ≡ false)
      × ((split_chunk b len s).len b ≡ len)
  unfolding split_chunk
  split_chunk-carved = rw room (
    record {
      ring = list_add_after-IsRing s.links fresh b slob_head us vs inv.ring fresh-not-mem;
      tiles = carved-Tiles;
      not_null = inv.not_null;
      fits_word = inv.fits_word;
      fits_field = inv.fits_field;
    },
    ground arith,
    ground (arith, bounds),
    ground (arith, bounds),
  )

  -- No other block of the list changes.
  pub split_chunk-others :
      (v : ℕ)
      → has v (us ++ (b ∷ vs)) ≡ true
      → v ≢ b
      → ((split_chunk b len s).used v ≡ s.used v) × ((split_chunk b len s).len v ≡ s.len v)
  unfolding split_chunk
  split_chunk-others v i ne =
      let o : has fresh (us ++ (b ∷ vs)) ≡ false = ground (arith, fresh-not-mem) in
      let q = ne_of_has v fresh (us ++ (b ∷ vs)) i o in rw room (ground arith, ground arith)
