-- ===== src/Strings/Copies.antt =====
-- lib/string.c: the functions that copy, and what they leave alone.
use hurlex_ii.Base.{
  ℕ, zero, suc, ◌+◌, ◌-◌, ◌≤◌, ◌<◌, ◌≡◌, ◌≢◌, ◌⊎◌, refl, ap, sym, subst, ◌∙◌, List, [], ◌∷◌, ◌++◌,
  length, some, arith, Bool-cases, inl, inr, ◌==◌, ltb, if◌then◌else◌, update,
}
use hurlex_ii.Strings.{
  Memory, memcpy, memset, copy_text, terminate, strcpy, copy_rounds, strncpy, append_text, strcat,
}
use hurlex_ii.Strings.Texts.{IsText, find_null-IsText}

-- memcpy copies the `len` bytes at `src` to `dest`, unless `dest` lies inside the source behind its
-- start, and changes no other byte.
pub memcpy_lem :
    (dest src len : ℕ) (m : Memory) (i : ℕ)
    → (dest ≤ src) ⊎ (src + len ≤ dest)
    → memcpy dest src len m i
      ≡ (if ltb i dest then m i else if ltb i (dest + len) then m (i - dest + src) else m i)
unfolding memcpy
memcpy_lem dest src zero m i h = ground arith
memcpy_lem dest src (suc len) m i h =
    let o : (dest + 1 ≤ src + 1) ⊎ (src + 1 + len ≤ dest + 1) = elim h [
      | inl p ↦ inl (omega arith)
      | inr p ↦ inr (omega arith)
    ] in
    let ih = memcpy_lem (dest + 1) (src + 1) len (update m dest (m src)) i o in
    elim (Bool-cases (ltb dest i)) [
      | inl l ↦
          let e : i - (dest + 1) + (src + 1) ≡ i - dest + src = ground arith in
          elim (Bool-cases (ltb i (dest + suc len))) [
            | inl b ↦
                let ne : i - dest + src ≢ dest = elim h [
                  | inl p ↦ ground arith
                  | inr p ↦ ground arith
                ] in
                ground (arith, ih, e, ap m e, ne)
            | inr b ↦ ground (arith, ih)
          ]
      | inr g ↦
          let e : i ≡ dest → i - dest + src ≡ src = λ q. omega (arith, q) in ground (arith, ih, e)
    ]

-- memset fills the `len` bytes from `dest` on and changes no other.
pub memset_lem :
    (dest val len : ℕ) (m : Memory) (i : ℕ)
    → memset dest val len m i
      ≡ (if ltb i dest then m i else if ltb i (dest + len) then val else m i)
unfolding memset
memset_lem dest val zero m i = ground arith
memset_lem dest val (suc len) m i =
    ground (arith, memset_lem (dest + 1) val len (update m dest val) i)

-- A text that does not reach into the copy is there after the copy's first byte has been written.
IsText-update :
    (a p v : ℕ) (cs : List ℕ) (m : Memory)
    → IsText m a cs
    → (p < a) ⊎ (a + length cs < p)
    → IsText (update m p v) a cs
IsText-update a p v [] m t h = ground arith
IsText-update a p v (c ∷ cs) m t h =
    let o : (p < a + 1) ⊎ (a + 1 + length cs < p) = elim h [
      | inl l ↦ inl (omega arith)
      | inr g ↦ inr (omega arith)
    ] in
    (ground arith, t.1, IsText-update (a + 1) p v cs m t.2 o)

IsText-end : (a : ℕ) (cs : List ℕ) (m : Memory) → IsText m a cs → m (a + length cs) ≡ 0
IsText-end a [] m t = ground arith
IsText-end a (c ∷ cs) m t =
    let e : a + suc (length cs) ≡ a + 1 + length cs = omega arith in
    rw e (IsText-end (a + 1) cs m t.2)

-- What a copy of the text `cs` to `dest` left: the text stands there, and no byte outside of it and
-- its null byte has changed.
pub record Copied (m m' : Memory) (dest : ℕ) (cs : List ℕ) : Type 0 where
  pub copied : IsText m' dest cs
  pub others : (i : ℕ) → (i < dest) ⊎ (dest + length cs < i) → m' i ≡ m i

-- The text at `src` is read before it is written over.
abbrev pub Safe : (dest src : ℕ) → List ℕ → Type 0
Safe dest src cs = (dest < src) ⊎ (src + length cs < dest)

abbrev CopiesText : (fuel dest src : ℕ) → List ℕ → Memory → Type 0
CopiesText fuel dest src cs m =
    (m' : Memory) × (copy_text fuel dest src m ≡ some (dest + length cs, src + length cs, m'))
    × IsText (update m' (dest + length cs) 0) dest cs
    × ((i : ℕ) → (i < dest) ⊎ (dest + length cs ≤ i) → m' i ≡ m i)

copy_text-CopiesText :
    (fuel dest src : ℕ) (cs : List ℕ) (m : Memory)
    → IsText m src cs
    → Safe dest src cs
    → length cs < fuel
    → CopiesText fuel dest src cs m
unfolding copy_text
copy_text-CopiesText zero dest src cs m t o h = absurd (omega arith)
copy_text-CopiesText (suc fuel) dest src [] m t o h = (m, ground arith, ground arith, λ i q. refl)
copy_text-CopiesText (suc fuel) dest src (c ∷ cs) m t o h =
    let o' : Safe (dest + 1) (src + 1) cs = elim o [
      | inl l ↦ inl (omega arith)
      | inr g ↦ inr (omega arith)
    ] in
    let u : (dest < src + 1) ⊎ (src + 1 + length cs < dest) = elim o [
      | inl l ↦ inl (omega arith)
      | inr g ↦ inr (omega arith)
    ] in
    let (m', e, w, f) =
      copy_text-CopiesText fuel (dest + 1) (src + 1) cs (update m dest (m src))
        (IsText-update (src + 1) dest (m src) cs m t.2 u) o' (omega arith) in
    let a : dest + suc (length cs) ≡ dest + 1 + length cs = omega arith in
    let b : src + suc (length cs) ≡ src + 1 + length cs = omega arith in
    (
      m',
      ground (arith, e),
      (
        ground (arith, f dest (inl (omega arith))),
        t.1,
        subst (λ k. IsText (update m' k 0) (dest + 1) cs) (sym a) w,
      ),
      λ i q. elim q [
        | inl l ↦ ground (arith, f i (inl (omega arith)))
        | inr g ↦ ground (arith, f i (inr (omega arith)))
      ],
    )

-- Given fuel for its bytes and the null byte strcpy copies a text, unless the copy starts behind the
-- start of the text and inside of it, and writes no byte outside of the copy.
pub strcpy-Copied :
    (fuel dest src : ℕ) (cs : List ℕ) (m : Memory)
    → IsText m src cs
    → Safe dest src cs
    → length cs < fuel
    → (m' : Memory) × (strcpy fuel dest src m ≡ some m') × Copied m m' dest cs
unfolding strcpy
strcpy-Copied fuel dest src cs m t o h =
    let (m', e, w, f) = copy_text-CopiesText fuel dest src cs m t o h in
    (
      update m' (dest + length cs) 0,
      ground (arith, e),
      record {
        copied = w;
        others = λ i q. elim q [
          | inl l ↦ ground (arith, f i (inl (omega arith)))
          | inr g ↦ ground (arith, f i (inr (omega arith)))
        ];
      },
    )

-- The loop of strcat writes the null byte before it tests it.
append_text-copy_text :
    (fuel cp src : ℕ) (m : Memory) → append_text fuel cp src m ≡ terminate (copy_text fuel cp src m)
unfolding append_text copy_text
append_text-copy_text zero cp src m = refl
append_text-copy_text (suc fuel) cp src m = elim (Bool-cases (m src == 0)) [
  | inl e ↦ let z : m src ≡ 0 = ground arith in rw z refl
  | inr n ↦ rw n (append_text-copy_text fuel (cp + 1) (src + 1) (update m cp (m src)))
]

-- The rounds of strncpy after the first find the null byte and copy nothing.
rounds_at_null :
    (fuel dest src len : ℕ) (m : Memory)
    → m src ≡ 0
    → copy_rounds (suc fuel) dest src len m ≡ some (dest, src, m)
unfolding copy_rounds copy_text
rounds_at_null fuel dest src zero m z = refl
rounds_at_null fuel dest src (suc len) m z = ground (arith, z, rounds_at_null fuel dest src len m z)

-- When `dest` lies below the text or behind its null byte, and given fuel for the bytes of the text
-- and the null byte, strncpy copies, for every length but 0, the whole text with its null byte, as
-- strcpy does, also where that is longer than the length.
pub strncpy-Copied :
    (fuel dest src len : ℕ) (cs : List ℕ) (m : Memory)
    → IsText m src cs
    → Safe dest src cs
    → length cs < fuel
    → 0 < len
    → (m' : Memory) × (strncpy fuel dest src len m ≡ some m')
      × (strcpy fuel dest src m ≡ some m')
      × Copied m m' dest cs
unfolding strncpy copy_rounds strcpy
strncpy-Copied zero dest src len cs m t o h p = absurd (omega arith)
strncpy-Copied (suc fuel) dest src zero cs m t o h p = absurd (omega arith)
strncpy-Copied (suc fuel) dest src (suc len) cs m t o h p =
    let (m', e, w, f) = copy_text-CopiesText (suc fuel) dest src cs m t o h in
    let z : m' (src + length cs) ≡ 0 =
      elim o [
        | inl l ↦ f (src + length cs) (inr (omega arith))
        | inr g ↦ f (src + length cs) (inl (omega arith))
      ]
      ∙ IsText-end src cs m t in
    let (m2, e2, c) = strcpy-Copied (suc fuel) dest src cs m t o h in
    let r = rounds_at_null fuel (dest + length cs) (src + length cs) len m' z in
    (m2, ground (arith, e, r, e2), e2, c)

-- What two texts one behind the other make.
IsText-append :
    (a : ℕ) (ds cs : List ℕ) (m m' : Memory)
    → IsText m a ds
    → ((i : ℕ) → i < a + length ds → m' i ≡ m i)
    → IsText m' (a + length ds) cs
    → IsText m' a (ds ++ cs)
IsText-append a [] cs m m' t e u = subst (λ k. IsText m' k cs) (omega arith) u
IsText-append a (d ∷ ds) cs m m' t e u =
    let z : a + suc (length ds) ≡ a + 1 + length ds = omega arith in
    let u' : IsText m' (a + 1 + length ds) cs = rw (← z) u in
    (
      e a (omega arith) ∙ t.0,
      t.1,
      IsText-append (a + 1) ds cs m m' t.2 (λ i l. e i (omega arith)) u',
    )

-- Given fuel for both texts strcat leaves the text `ds ++ cs` where `ds` was, if the text `cs` stands
-- outside of it and of the bytes that it grows by, and changes no byte but the new ones.
pub strcat-Copied :
    (fuel dest src : ℕ) (ds cs : List ℕ) (m : Memory)
    → IsText m dest ds
    → IsText m src cs
    → Safe (dest + length ds) src cs
    → length ds < fuel
    → length cs < fuel
    → (m' : Memory) × (strcat fuel dest src m ≡ some m')
      × IsText m' dest (ds ++ cs)
      × ((i : ℕ) → (i < dest + length ds) ⊎ (dest + length ds + length cs < i) → m' i ≡ m i)
unfolding strcat strcpy
strcat-Copied fuel dest src ds cs m t u o h k =
    let (m', e, c) = strcpy-Copied fuel (dest + length ds) src cs m u o k in
    (
      m',
      ground (
        arith,
        find_null-IsText fuel dest ds m t h,
        append_text-copy_text fuel (dest + length ds) src m,
        e,
      ),
      IsText-append dest ds cs m m' t (λ i l. c.others i (inl l)) c.copied,
      c.others,
    )
