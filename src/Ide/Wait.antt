-- ===== src/Ide/Wait.antt =====
-- driver/ide.c: the wait for the disk, against the list of its status bytes.
use hurlex_ii.Base.{
  ℕ, suc, ◌<◌, ◌≡◌, refl, Bool, false, ◌&&◌, ◌||◌, none, some, List, [], ◌∷◌, arith, Bool-cases,
  inl, inr, ◌==◌, if◌then◌else◌, has_bit, ℤ, pos, negsuc,
}
use hurlex_ii.Ide.{Ide, Outcome, ide_wait_ready, after_wait}

-- The disk reports a fault of its own or of the command.
abbrev pub has_failed : ℕ → Bool
has_failed r = has_bit 5 r || has_bit 0 r

-- How many of the status bytes say that the disk is not busy, the first of them, and what follows.
abbrev pub ready : List ℕ → ℕ
ready [] = 0
ready (r ∷ status) = if has_bit 7 r then ready status else suc (ready status)

abbrev pub first_ready : List ℕ → ℕ
first_ready [] = 0
first_ready (r ∷ status) = if has_bit 7 r then first_ready status else r

abbrev pub after_ready : List ℕ → List ℕ
after_ready [] = []
after_ready (r ∷ status) = if has_bit 7 r then after_ready status else status

-- How many waits succeed before the first that reports a fault.
abbrev pub good : List ℕ → ℕ
good [] = 0
good (r ∷ status) =
    if has_bit 7 r then good status else if has_failed r then 0 else suc (good status)

-- Once the disk has been busy it is waited for: if some status byte says that it is ready, the wait
-- ends there and reports a fault exactly if that byte has one and the caller asks for it; if none
-- does, the wait does not end.
pub ide_wait_ready_lem :
    (check_error : Bool) (status : List ℕ)
    → ide_wait_ready check_error status ≡ (
        if ready status == 0
        then none
        else some (
          (if check_error && has_failed (first_ready status) then negsuc 0 else pos 0),
          after_ready status,
        ))
unfolding ide_wait_ready
ide_wait_ready_lem c [] = refl
ide_wait_ready_lem c (r ∷ status) = elim (Bool-cases (has_bit 7 r)) [
  | inl b ↦ rw b (ide_wait_ready_lem c status)
  | inr n ↦ let p : (suc (ready status) == 0) ≡ false = ground arith in rw (n, p) refl
]

pub ready-after_ready :
    (status : List ℕ) → 0 < ready status → ready status ≡ suc (ready (after_ready status))
ready-after_ready [] h = absurd (omega arith)
ready-after_ready (r ∷ status) h = elim (Bool-cases (has_bit 7 r)) [
  | inl b ↦ rw b (ready-after_ready status (rw b at h))
  | inr n ↦ rw n refl
]

pub good-after_ready :
    (status : List ℕ)
    → 0 < ready status
    → good status ≡ (if has_failed (first_ready status) then 0 else suc (good (after_ready status)))
good-after_ready [] h = absurd (omega arith)
good-after_ready (r ∷ status) h = elim (Bool-cases (has_bit 7 r)) [
  | inl b ↦ rw b (good-after_ready status (rw b at h))
  | inr n ↦ rw n refl
]

-- What runs after a wait for a disk that gets ready.
pub after_wait-ready :
    (c : Bool) (s : Ide) (k : ℤ → Ide → Outcome)
    → 0 < ready s.status
    → after_wait c s k
      ≡ k
          (if c && has_failed (first_ready s.status) then negsuc 0 else pos 0)
          (record s { status = after_ready s.status })
after_wait-ready c s k h =
    let nz : (ready s.status == 0) ≡ false = ground arith in
    let w = ide_wait_ready_lem c s.status in ground (arith, w, nz)
