-- ===== src/Ide/Ident.antt =====
-- driver/ide.c: ide_init, which asks the disk what it is, and the description that it keeps.
pub mod Probe
use hurlex_ii.Base.{
  ℕ, zero, suc, ◌+◌, ◌-◌, ◌*◌, ◌/◌, ◌%◌, ◌^◌, ◌≤◌, ◌<◌, ◌≡◌, ◌≢◌, ◌⊎◌, refl, ◌∙◌, Bool, true, false,
  not, ◌&&◌, ◌||◌, List, [], ◌∷◌, ◌++◌, arith, ap, ltb→lt, Bool-cases, inl, inr, ◌==◌, ltb, leb,
  if◌then◌else◌, update, has_bit, ℤ, pos, negsuc,
}
use hurlex_ii.Ports.{ins, outb}
use hurlex_ii.Registry.{is_zero}
use hurlex_ii.Ide.Wait.{
  has_failed, ready, first_ready, after_ready, ready-after_ready, after_wait-ready,
}
use hurlex_ii.Ide.{
  Ide, Outcome, waiting, returned, insl, ide_wait_ready, after_wait, iobase, ide_desc_len,
}

-- Byte `i` of the block that the disk sends about itself, which is read to a buffer on the stack.
abbrev pub ident_byte : (buffer : ℕ → ℕ) → (i : ℕ) → ℕ
ident_byte buffer i = buffer (i / 4) / 256 ^ (i % 4) % 256

-- The loop that copies the first `n` pairs of bytes of the description, which are swapped.
pub copy_pairs : (buffer : ℕ → ℕ) (n : ℕ) → (desc : ℕ → ℕ) → ℕ → ℕ
copy_pairs buffer zero desc = desc
copy_pairs buffer (suc n) desc =
    update (update (copy_pairs buffer n desc) (2 * n) (ident_byte buffer (54 + 2 * n + 1)))
      (2 * n + 1) (ident_byte buffer (54 + 2 * n))

-- The loop that writes null bytes from `i` down, over the spaces at the end.
pub trim : (i : ℕ) → (desc : ℕ → ℕ) → ℕ → ℕ
trim zero desc = update desc 0 0
trim (suc i) desc =
    let rest = trim i (update desc (suc i) 0) in
    if desc i == 32 then rest else update desc (suc i) 0

-- The 128 double words of the block, from what the disk has to send.
abbrev pub ident_block : Ide → ℕ → ℕ
ident_block s i = s.words (s.taken + i)

-- What is kept of the block that stands at `buffer`, on the stack.
abbrev pub keep_block : (block : ℕ → ℕ) → Ide → Ide
keep_block block s = record s {
  valid = 1;
  sets = block 41;
  size = if has_bit 26 (block 41) then block 50 else block 30;
  desc = trim ide_desc_len (copy_pairs block 20 s.desc);
}

-- What follows when the disk is there: the block is read, and then looked at.
pub keep_ident : (buffer : ℕ) → Ide → Ide
keep_ident buffer s =
    let s1 = insl buffer 128 (record s { trace = s.trace ++ (ins iobase buffer 128 ∷ []) }) in
    keep_block (λ i. s1.memory (buffer + 4 * i)) s1

-- The read of the status byte that is tested for 0.
abbrev pub next_status : Ide → (ℕ → Ide → Outcome) → Outcome
next_status s k = elim s.status [ [] ↦ waiting | r ∷ status ↦ k r (record s { status = status }) ]

abbrev pub put : (offset value : ℕ) → Ide → Ide
put offset value s = record s { trace = s.trace ++ (outb (iobase + offset) value ∷ []) }

-- The third step: whether the disk is there, and what it says.
pub check_device : (buffer : ℕ) → Ide → Outcome
check_device buffer s = next_status s λ r s1.
    if r == 0
    then returned (negsuc 0) s1
    else after_wait true s1 λ ret s2.
      if is_zero ret then returned (pos 0) (keep_ident buffer s2) else returned (negsuc 0) s2

pub ide_init : (buffer : ℕ) → Ide → Outcome
ide_init buffer s = after_wait false s λ r1 s1.
    after_wait false (put 6 0xE0 s1)
      λ r2 s2. after_wait false (put 7 0xEC s2) λ r3 s3. check_device buffer s3

-- The 40 bytes of the description, each pair of them in its right order.
abbrev pub described : (buffer : ℕ → ℕ) → (i : ℕ) → ℕ
described buffer i = ident_byte buffer (54 + (if i % 2 == 0 then i + 1 else i - 1))

copy_pairs_lem :
    (buffer : ℕ → ℕ) (n : ℕ) (desc : ℕ → ℕ) (i : ℕ)
    → i < 2 * n
    → copy_pairs buffer n desc i ≡ described buffer i
unfolding copy_pairs
copy_pairs_lem buffer zero desc i h = absurd (omega arith)
copy_pairs_lem buffer (suc n) desc i h = elim (Bool-cases (ltb i (2 * n))) [
  | inl l ↦ ground (arith, copy_pairs_lem buffer n desc i (ltb→lt i (2 * n) l))
  | inr g ↦ elim (Bool-cases (2 * n == i)) [
    | inl e ↦
        let z : 2 * n ≡ i = ground arith in
        let d : (2 * n + 1 == i) ≡ false = ground arith in
        let p : (i % 2 == 0) ≡ true = ground arith in
        let q : 54 + 2 * n + 1 ≡ 54 + (i + 1) = omega (arith, z) in
        rw (d, e, p) (ap (ident_byte buffer) q)
    | inr ne ↦
        let z : 2 * n + 1 ≡ i = ground arith in
        let d : (2 * n + 1 == i) ≡ true = ground arith in
        let p : (i % 2 == 0) ≡ false = ground arith in
        let q : 54 + 2 * n ≡ 54 + (i - 1) = omega (arith, z) in rw (d, p) (ap (ident_byte buffer) q)
  ]
]

-- How many bytes of a description are left when spaces at its end are dropped.
pub trimmed : (n : ℕ) → (desc : ℕ → ℕ) → ℕ
trimmed zero desc = 0
trimmed (suc n) desc = if desc n == 32 then trimmed n desc else suc n

trimmed-update : (n k : ℕ) (desc : ℕ → ℕ) → n ≤ k → trimmed n (update desc k 0) ≡ trimmed n desc
unfolding trimmed
trimmed-update zero k desc h = refl
trimmed-update (suc n) k desc h =
    let ne : (k == n) ≡ false = ground arith in rw (ne, trimmed-update n k desc (omega arith)) refl

pub trimmed-le : (n : ℕ) (desc : ℕ → ℕ) → trimmed n desc ≤ n
unfolding trimmed
trimmed-le zero desc = omega arith
trimmed-le (suc n) desc = ground (arith, trimmed-le n desc)

trim_lem :
    (n : ℕ) (desc : ℕ → ℕ) (i : ℕ)
    → trim n desc i ≡ (if ltb i (trimmed n desc) then desc i else if leb i n then 0 else desc i)
unfolding trim trimmed
trim_lem zero desc i = ground arith
trim_lem (suc n) desc i =
    let t = trimmed-update n (suc n) desc (omega arith) in
    let ih = trim_lem n (update desc (suc n) 0) i in
    let b = trimmed-le n desc in ground (arith, t, ih, b)

trimmed-ext : (n : ℕ) (f g : ℕ → ℕ) → ((i : ℕ) → i < n → f i ≡ g i) → trimmed n f ≡ trimmed n g
unfolding trimmed
trimmed-ext zero f g e = refl
trimmed-ext (suc n) f g e =
    rw (e n (omega arith), trimmed-ext n f g (λ i h. e i (omega arith))) refl

-- A description is the text of `n` bytes that the block has, with null bytes over the spaces at its
-- end and behind it.
pub record Described (n : ℕ) (desc text : ℕ → ℕ) : Type 0 where
  pub kept : (i : ℕ) → i < trimmed n text → desc i ≡ text i
  pub ended : (i : ℕ) → trimmed n text ≤ i → i ≤ n → desc i ≡ 0

pub trim-Described :
    (m : ℕ) (buffer desc : ℕ → ℕ)
    → Described (2 * m) (trim (2 * m) (copy_pairs buffer m desc)) (described buffer)
trim-Described m buffer desc =
    let c = copy_pairs_lem buffer m desc in
    let t = trimmed-ext (2 * m) (copy_pairs buffer m desc) (described buffer) c in
    let b = trimmed-le (2 * m) (described buffer) in
    let v = trim_lem (2 * m) (copy_pairs buffer m desc) in
    record {
      kept = λ i h. ground (arith, v i, t, c i (omega arith));
      ended = λ i h k. ground (arith, v i, t);
    }

-- A description of one text is one of another that has the same `n` bytes.
pub Described-ext :
    (n : ℕ) (desc text other : ℕ → ℕ)
    → ((i : ℕ) → i < n → text i ≡ other i)
    → Described n desc text
    → Described n desc other
Described-ext n desc text other e d =
    let t = trimmed-ext n text other e in
    let b = trimmed-le n other in
    record {
      kept = λ i h. d.kept i (rw t h) ∙ e i (omega arith);
      ended = λ i h k. d.ended i (rw t h) k;
    }

pub described-ext :
    (f g : ℕ → ℕ)
    → ((j : ℕ) → j < 128 → f j ≡ g j)
    → (i : ℕ) → i < 40
    → described f i ≡ described g i
described-ext f g e i h = elim (Bool-cases (i % 2 == 0)) [
  | inl y ↦
      rw y (
        ap (λ (w : ℕ). w / 256 ^ ((54 + (i + 1)) % 4) % 256) (e ((54 + (i + 1)) / 4) (omega arith)))
  | inr n ↦
      rw n (
        ap (λ (w : ℕ). w / 256 ^ ((54 + (i - 1)) % 4) % 256) (e ((54 + (i - 1)) / 4) (omega arith)))
]
