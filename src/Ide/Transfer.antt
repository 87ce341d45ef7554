-- ===== src/Ide/Transfer.antt =====
-- driver/ide.c: reading sectors, from the disk to memory.
use Prim.Native.Nat.{min}
use hurlex_ii.Base.{
  ℕ, zero, suc, ◌+◌, ◌-◌, ◌*◌, ◌≤◌, ◌<◌, ◌≡◌, ◌⊎◌, refl, ap, subst, sym, ◌∙◌, true, false, [], ◌∷◌,
  ◌++◌, arith, Bool-cases, inl, inr, ltb, leb, ltb→lt, ltb_false→le, if◌then◌else◌, update, ℤ, pos,
  negsuc,
}
use hurlex_ii.Ports.{ins}
use hurlex_ii.Registry.{is_zero}
use hurlex_ii.Ide.{Ide, Outcome, returned, insl, read_sectors, iobase}
use hurlex_ii.Ide.Wait.{
  has_failed, ready, first_ready, after_ready, good, ready-after_ready, good-after_ready,
  after_wait-ready,
}
use hurlex_ii.Ide.Command.{latest, latest-append, Silent}

-- `n` double words have gone from the disk to memory at `dst`, and nothing else has changed there.
pub record Read (s s' : Ide) (dst n : ℕ) : Type 0 where
  pub filled : (i : ℕ) → i < n → s'.memory (dst + 4 * i) ≡ s.words (s.taken + i)
  pub others : (a : ℕ) → (a < dst) ⊎ (dst + 4 * n ≤ a) → s'.memory a ≡ s.memory a
  pub moved : s'.taken ≡ s.taken + n
  pub disk : s'.words ≡ s.words

Read-none :
    (s s' : Ide) (dst : ℕ)
    → s'.memory ≡ s.memory
    → s'.taken ≡ s.taken
    → s'.words ≡ s.words
    → Read s s' dst 0
Read-none s s' dst m t w = record {
  filled = λ i h. absurd (omega arith);
  others = λ a h. ap (λ (f : ℕ → ℕ). f a) m;
  moved = omega (arith, t);
  disk = w;
}

Read-append :
    (s s1 s' : Ide) (dst n k : ℕ)
    → Read s s1 dst n
    → Read s1 s' (dst + 4 * n) k
    → Read s s' dst (n + k)
Read-append s s1 s' dst n k r q = record {
  filled = λ i h. elim (Bool-cases (ltb i n)) [
    | inl l ↦ q.others (dst + 4 * i) (inl (omega (arith, ltb→lt i n l))) ∙ r.filled i (ltb→lt i n l)
    | inr g ↦
        let le : n ≤ i = ltb_false→le i n g in
        let e : dst + 4 * i ≡ dst + 4 * n + 4 * (i - n) = omega arith in
        let t : s1.taken + (i - n) ≡ s.taken + i = omega (arith, r.moved) in
        ap s'.memory e
        ∙ q.filled (i - n) (omega arith)
        ∙ ap s1.words t
        ∙ ap (λ (w : ℕ → ℕ). w (s.taken + i)) r.disk
  ];
  others = λ a h. elim h [
    | inl l ↦ q.others a (inl (omega arith)) ∙ r.others a (inl l)
    | inr g ↦ q.others a (inr (omega arith)) ∙ r.others a (inr (omega arith))
  ];
  moved = omega (arith, r.moved, q.moved);
  disk = q.disk ∙ r.disk;
}

Read-one :
    (s : Ide) (dst : ℕ)
    → Read s
        (record s { memory = update s.memory dst (s.words s.taken); taken = s.taken + 1 })
        dst
        1
Read-one s dst = record {
  filled = λ i h.
      let z : i ≡ 0 = omega arith in
      subst (λ k. update s.memory dst (s.words s.taken) (dst + 4 * k) ≡ s.words (s.taken + k))
        (sym z) (ground arith);
  others = λ a h. elim h [ inl l ↦ ground arith | inr g ↦ ground arith ];
  moved = refl;
  disk = refl;
}

pub insl-Read : (dst cnt : ℕ) (s : Ide) → Read s (insl dst cnt s) dst cnt
unfolding insl
insl-Read dst zero s = Read-none s s dst refl refl refl
insl-Read dst (suc cnt) s =
    let s1 : Ide = record s {
      memory = update s.memory dst (s.words s.taken);
      taken = s.taken + 1;
    } in
    let e : 1 + cnt ≡ suc cnt = omega arith in
    subst (Read s (insl (dst + 4) cnt s1) dst) e (
      Read-append s s1 (insl (dst + 4) cnt s1) dst 1 cnt (Read-one s dst)
        (insl-Read (dst + 4) cnt s1))

insl-status : (dst cnt : ℕ) (s : Ide) → (insl dst cnt s).status ≡ s.status
unfolding insl
insl-status dst zero s = refl
insl-status dst (suc cnt) s =
    insl-status (dst + 4) cnt
      (record s { memory = update s.memory dst (s.words s.taken); taken = s.taken + 1 })

pub insl-trace : (dst cnt : ℕ) (s : Ide) → (insl dst cnt s).trace ≡ s.trace
unfolding insl
insl-trace dst zero s = refl
insl-trace dst (suc cnt) s =
    insl-trace (dst + 4) cnt
      (record s { memory = update s.memory dst (s.words s.taken); taken = s.taken + 1 })

-- How a transfer of `n` sectors ends, of which the disk gives `k` before it reports a fault.
abbrev pub result : (n k : ℕ) → ℤ
result n k = if leb n k then pos 0 else negsuc 0

-- What the loop does after the wait of a round.
abbrev read_next : (n dst : ℕ) → ℤ → Ide → Outcome
read_next n dst ret s =
    if is_zero ret
    then read_sectors n (dst + 512)
        (insl dst 128 (record s { trace = s.trace ++ (ins iobase dst 128 ∷ []) }))
    else returned ret s

-- With as many ready status bytes as sectors the loop ends.
pub read_sectors-Read :
    (n dst : ℕ) (s : Ide)
    → n ≤ ready s.status
    → (s' : Ide) × (read_sectors n dst s ≡ returned (result n (good s.status)) s')
      × Read s s' dst (128 * min n (good s.status))
      × Silent s s'
unfolding read_sectors
read_sectors-Read zero dst s h =
    let z : 128 * min 0 (good s.status) ≡ 0 = omega arith in
    (s, ground arith, rw z (Read-none s s dst refl refl refl), λ p d. refl)
read_sectors-Read (suc n) dst s h =
    let nz : 0 < ready s.status = omega arith in
    let s1 : Ide = record s { status = after_ready s.status } in
    let s2 : Ide = record s1 { trace = s1.trace ++ (ins iobase dst 128 ∷ []) } in
    let w = after_wait-ready true s (read_next n dst) nz in
    let g = good-after_ready s.status nz in
    elim (Bool-cases (has_failed (first_ready s.status))) [
      | inl f ↦
          let z : good s.status ≡ 0 = rw f at g in
          (
            s1,
            w ∙ (let b : leb (suc n) 0 ≡ false = ground arith in rw (f, z, b) refl),
            subst (Read s s1 dst) (omega (arith, z)) (Read-none s s1 dst refl refl refl),
            λ p d. refl,
          )
      | inr o ↦
          let p : good s.status ≡ suc (good (after_ready s.status)) = rw o at g in
          let st : (insl dst 128 s2).status ≡ after_ready s.status = insl-status dst 128 s2 in
          let q = insl-Read dst 128 s2 in
          let first : Read s (insl dst 128 s2) dst 128 = record {
            filled = q.filled;
            others = q.others;
            moved = q.moved;
            disk = q.disk;
          } in
          let (s', e, r, sil) =
            read_sectors-Read n (dst + 512) (insl dst 128 s2)
              (rw st (omega (arith, ready-after_ready s.status nz))) in
          (
            s',
            w ∙ ground (arith, o, e, st, p),
            subst (Read s s' dst) (omega (arith, p, ap good st)) (
                Read-append s (insl dst 128 s2) s' dst 128
                  (128 * min n (good (insl dst 128 s2).status)) first r),
            λ q d.
                sil q d
                ∙ ap (λ t. latest q t d) (insl-trace dst 128 s2)
                ∙ latest-append q s1.trace (ins iobase dst 128 ∷ []) d,
          )
    ]
