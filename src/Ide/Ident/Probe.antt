-- ===== src/Ide/Ident/Probe.antt =====
-- driver/ide.c: how ide_init ends, for a disk that answers.
use hurlex_ii.Base.{
  [], ◌++◌, ◌+◌, ◌*◌, ap, ℕ, ◌<◌, ◌≡◌, ◌≢◌, ◌⊎◌, refl, ◌∙◌, true, false, List, ◌∷◌, arith,
  Bool-cases, inl, inr, ◌==◌, if◌then◌else◌, has_bit, ℤ, pos, negsuc,
}
use hurlex_ii.Registry.{is_zero}
use hurlex_ii.Ide.Wait.{
  has_failed, ready, first_ready, after_ready, ready-after_ready, after_wait-ready,
}
use hurlex_ii.Ide.{Ide, Outcome, returned, after_wait, insl, iobase}
use hurlex_ii.Ports.{ins}
use hurlex_ii.Ide.Transfer.{Read, insl-Read}
use hurlex_ii.Ide.Ident.{
  Described-ext, described-ext, trim, copy_pairs, keep_block, described, ident_block, put,
  keep_ident, check_device, ide_init, Described, trim-Described,
}

-- The status bytes that are left when ide_init looks for a disk.
abbrev pub probed : Ide → List ℕ
probed s = after_ready (after_ready (after_ready s.status))

-- The disk as it is then, with the selection and the command written.
abbrev probing : Ide → Ide
probing s =
    let s1 : Ide = record s { status = after_ready s.status } in
    let s2 : Ide = record (put 6 0xE0 s1) { status = after_ready s1.status } in
    record (put 7 0xEC s2) { status = after_ready s2.status }

ide_init-check_device :
    (buffer : ℕ) (s : Ide)
    → 2 < ready s.status
    → ide_init buffer s ≡ check_device buffer (probing s)
unfolding ide_init
ide_init-check_device buffer s h =
    let a = ready-after_ready s.status (omega arith) in
    let b = ready-after_ready (after_ready s.status) (omega (arith, a)) in
    let s1 : Ide = record s { status = after_ready s.status } in
    let s2 : Ide = record (put 6 0xE0 s1) { status = after_ready s1.status } in
    let k3 : ℤ → Ide → Outcome = λ r t. check_device buffer t in
    let k2 : ℤ → Ide → Outcome = λ r t. after_wait false (put 7 0xEC t) k3 in
    let k1 : ℤ → Ide → Outcome = λ r t. after_wait false (put 6 0xE0 t) k2 in
    after_wait-ready false s k1 (omega arith)
    ∙ after_wait-ready false (put 6 0xE0 s1) k2 (omega (arith, a))
    ∙ after_wait-ready false (put 7 0xEC s2) k3 (omega (arith, a, b))

check_device_lem :
    (buffer : ℕ) (t : Ide) (r : ℕ) (rest : List ℕ)
    → t.status ≡ r ∷ rest
    → 0 < ready rest
    → check_device buffer t ≡ (
        if r == 0
        then returned (negsuc 0) (record t { status = rest })
        else if has_failed (first_ready rest)
        then returned (negsuc 0) (record t { status = after_ready rest })
        else returned (pos 0) (keep_ident buffer (record t { status = after_ready rest })))
unfolding check_device
check_device_lem buffer t r rest p q =
    let k : ℤ → Ide → Outcome = λ ret s2.
      if is_zero ret then returned (pos 0) (keep_ident buffer s2) else returned (negsuc 0) s2 in
    let w = after_wait-ready true (record t { status = rest }) k q in ground (arith, p, w)

-- What is known of the disk, memory and the disk's data are as they were.
pub record IsKept (s s' : Ide) : Type 0 where
  pub valid : s'.valid ≡ s.valid
  pub sets : s'.sets ≡ s.sets
  pub size : s'.size ≡ s.size
  pub desc : s'.desc ≡ s.desc
  pub memory : s'.memory ≡ s.memory
  pub taken : s'.taken ≡ s.taken

-- The disk is known by the block that it sends next, which has been read to `buffer`.
pub record IsKnown (s s' : Ide) (buffer : ℕ) : Type 0 where
  pub valid : s'.valid ≡ 1
  pub sets : s'.sets ≡ ident_block s 41
  pub size :
      s'.size ≡ (if has_bit 26 (ident_block s 41) then ident_block s 50 else ident_block s 30)
  pub text : Described 40 s'.desc (described (ident_block s))
  pub read : Read s s' buffer 128

keep_block-IsKnown :
    (buffer : ℕ) (s s1 : Ide)
    → Read s s1 buffer 128
    → IsKnown s (keep_block (λ i. s1.memory (buffer + 4 * i)) s1) buffer
keep_block-IsKnown buffer s s1 q =
    let block : ℕ → ℕ = λ i. s1.memory (buffer + 4 * i) in
    let a : block 41 ≡ ident_block s 41 = q.filled 41 (omega arith) in
    let b : block 50 ≡ ident_block s 50 = q.filled 50 (omega arith) in
    let c : block 30 ≡ ident_block s 30 = q.filled 30 (omega arith) in
    record {
      valid = refl;
      sets = a;
      size = rw (a, b, c) refl;
      text =
          Described-ext 40 (trim 40 (copy_pairs block 20 s1.desc)) (described block)
            (described (ident_block s)) (described-ext block (ident_block s) (λ j h. q.filled j h))
            (trim-Described 20 block s1.desc);
      read = record { filled = q.filled; others = q.others; moved = q.moved; disk = q.disk };
    }

keep_ident-IsKnown :
    (buffer : ℕ) (s t : Ide)
    → t.memory ≡ s.memory
    → t.words ≡ s.words
    → t.taken ≡ s.taken
    → IsKnown s (keep_ident buffer t) buffer
unfolding keep_ident
keep_ident-IsKnown buffer s t m w k =
    let t1 : Ide = record t { trace = t.trace ++ (ins iobase buffer 128 ∷ []) } in
    let q = insl-Read buffer 128 t1 in
    keep_block-IsKnown buffer s (insl buffer 128 t1) (record {
      filled = λ i h. q.filled i h ∙ (rw (w, k) refl);
      others = λ a h. q.others a h ∙ ap (λ (g : ℕ → ℕ). g a) m;
      moved = omega (arith, q.moved, k);
      disk = q.disk ∙ w;
    })

-- When the disk has got ready for the selection and the command, and then for the answer, ide_init
-- ends: if the status is 0 or the disk reports a fault it returns -1, and what is known of the disk,
-- memory and the disk's data stay; otherwise it returns 0, the block of 128 double words that the disk
-- sends is read to the buffer on the stack and nothing else there changes, the disk is valid, its
-- command sets are the double word 41 of the block, its size is the double word 50 if bit 26 of them
-- is set and the double word 30 if not, and its description is that of the block with the bytes of
-- each pair swapped and the spaces at the end dropped.
pub ide_init-Described :
    (buffer : ℕ) (s : Ide) (r : ℕ) (rest : List ℕ)
    → 2 < ready s.status
    → probed s ≡ r ∷ rest
    → 0 < ready rest
    → (((r ≡ 0) ⊎ (has_failed (first_ready rest) ≡ true))
        × ((s' : Ide) × (ide_init buffer s ≡ returned (negsuc 0) s') × IsKept s s'))
      ⊎ ((r ≢ 0)
          × (has_failed (first_ready rest) ≡ false)
          × ((s' : Ide) × (ide_init buffer s ≡ returned (pos 0) s') × IsKnown s s' buffer))
ide_init-Described buffer s r rest h p q =
    let t = probing s in
    let e = ide_init-check_device buffer s h ∙ check_device_lem buffer t r rest p q in
    let absent : Ide = record t { status = rest } in
    let failed : Ide = record t { status = after_ready rest } in
    elim (Bool-cases (r == 0)) [
      | inl z ↦ inl (
        inl (ground arith),
        (
          absent,
          e ∙ rw z refl,
          record {
            valid = refl;
            sets = refl;
            size = refl;
            desc = refl;
            memory = refl;
            taken = refl;
          },
        ),
      )
      | inr nz ↦ elim (Bool-cases (has_failed (first_ready rest))) [
        | inl f ↦ inl (
          inr f,
          (
            failed,
            e ∙ rw (nz, f) refl,
            record {
              valid = refl;
              sets = refl;
              size = refl;
              desc = refl;
              memory = refl;
              taken = refl;
            },
          ),
        )
        | inr f ↦ inr (
          ground arith,
          f,
          (
            keep_ident buffer failed,
            e ∙ rw (nz, f) refl,
            keep_ident-IsKnown buffer s failed refl refl refl,
          ),
        )
      ]
    ]
