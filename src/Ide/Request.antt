-- ===== src/Ide/Request.antt =====
-- driver/ide.c: a whole transfer, with its guards, and the requests.
use Prim.Native.Nat.{min}
use hurlex_ii.Base.{
  ℕ, ◌+◌, ◌*◌, ◌%◌, ◌^◌, ◌≤◌, ◌<◌, ◌≡◌, ◌⊎◌, refl, ◌∙◌, true, false, ◌++◌, arith, Bool-cases, inl,
  inr, ltb, ltb→lt, ltb_false→le, negsuc, u32_mod, mul32,
}
use hurlex_ii.Ide.{
  Ide, panicked, returned, command, read_sectors, in_range, ide_read_secs, IoRequest, ide_request,
}
use hurlex_ii.Ide.Command.{Commanded, command_registers, Commanded-Silent}
use hurlex_ii.Ide.Wait.{ready, after_ready, good, ready-after_ready, after_wait-ready}
use hurlex_ii.Ide.Transfer.{Read, result, read_sectors-Read}

-- What the assertions let through.
pub in_range→bounds :
    (secno nsecs : ℕ) (s : Ide)
    → in_range secno nsecs s ≡ true
    → (nsecs ≤ 128) × (secno + nsecs ≤ 2 ^ 28) × (secno < 2 ^ 28)
in_range→bounds secno nsecs s h = (ground arith, ground arith, ground arith)

-- How many of `n` sectors the disk gives before it reports a fault, if it does.
abbrev pub delivered : (n : ℕ) → Ide → ℕ
delivered n s = min n (good (after_ready s.status))

-- If the sectors are in range and the disk gets ready once before the command and once for each
-- sector, ide_read_secs ends: the registers name the first sector and the count and hold the command
-- to read; 512 bytes go to the buffer for each sector up to the first for which the disk reports a
-- fault, and no other memory changes; the result is 0 if there was no fault and -1 otherwise.
pub ide_read_secs-Read :
    (secno dst nsecs : ℕ) (s : Ide)
    → in_range secno nsecs s ≡ true
    → nsecs < ready s.status
    → (s' : Ide) × (ide_read_secs secno dst nsecs s
        ≡ returned (result nsecs (good (after_ready s.status))) s')
      × Read s s' dst (128 * delivered nsecs s)
      × Commanded s'.trace secno nsecs 0x20
unfolding ide_read_secs
ide_read_secs-Read secno dst nsecs s h r =
    let nz : 0 < ready s.status = omega arith in
    let s1 : Ide = record s {
      status = after_ready s.status;
      trace = s.trace ++ command secno nsecs 0x20;
    } in
    let (s', e, q, sil) =
      read_sectors-Read nsecs dst s1 (omega (arith, ready-after_ready s.status nz)) in
    let w =
      after_wait-ready false s
        (λ ret s2.
          read_sectors nsecs dst (record s2 { trace = s2.trace ++ command secno nsecs 0x20 }))
        nz in
    let b = in_range→bounds secno nsecs s h in
    (
      s',
      rw h (w ∙ e),
      record { filled = q.filled; others = q.others; moved = q.moved; disk = q.disk },
      Commanded-Silent s1 s' secno nsecs 0x20 sil
          (command_registers s.trace secno nsecs 0x20 b.2 (omega arith) (omega arith)),
    )

ide_read_secs_panic :
    (secno dst nsecs : ℕ) (s : Ide)
    → in_range secno nsecs s ≡ false
    → ide_read_secs secno dst nsecs s ≡ panicked
unfolding ide_read_secs
ide_read_secs_panic secno dst nsecs s f = rw f refl

-- A valid disk has all of the sectors, and they are not more than a command can ask for.
abbrev pub OnDisk : (secno nsecs : ℕ) → Ide → Type 0
OnDisk secno nsecs s = (nsecs ≤ 128) × (s.valid ≡ 1) × (secno < 2 ^ 28) × (secno + nsecs ≤ 2 ^ 28)

in_range→OnDisk : (secno nsecs : ℕ) (s : Ide) → in_range secno nsecs s ≡ true → OnDisk secno nsecs s
in_range→OnDisk secno nsecs s h =
    let b = in_range→bounds secno nsecs s h in (b.0, ground arith, b.2, b.1)

OnDisk→in_range : (secno nsecs : ℕ) (s : Ide) → OnDisk secno nsecs s → in_range secno nsecs s ≡ true
OnDisk→in_range secno nsecs s (a, v, b, c) =
    let w : (secno + nsecs) % 2 ^ 32 ≡ secno + nsecs = omega arith in ground (arith, a, v, b, c, w)

pub ide_request-Read :
    (req : IoRequest) (s : Ide)
    → req.io_type ≡ 0
    → req.nsecs < ready s.status
    → ((req.bsize < 512 * req.nsecs % u32_mod) × (ide_request req s ≡ returned (negsuc 0) s))
      ⊎ ((512 * req.nsecs % u32_mod ≤ req.bsize)
          × (¬ OnDisk req.secno req.nsecs s)
          × (ide_request req s ≡ panicked))
      ⊎ ((512 * req.nsecs % u32_mod ≤ req.bsize)
          × OnDisk req.secno req.nsecs s
          × ((s' : Ide) × (ide_request req s
                ≡ returned (result req.nsecs (good (after_ready s.status))) s')
              × Read s s' req.buffer (128 * delivered req.nsecs s)
              × Commanded s'.trace req.secno req.nsecs 0x20
              × ((a : ℕ)
                  → (a < req.buffer) ⊎ (req.buffer + req.bsize ≤ a)
                  → s'.memory a ≡ s.memory a)))
unfolding ide_request
ide_request-Read req s t r = elim (Bool-cases (ltb req.bsize (mul32 512 req.nsecs))) [
  | inl l ↦ inl (ltb→lt _ _ l, rw (t, l) refl)
  | inr g ↦
      let le = ltb_false→le req.bsize (mul32 512 req.nsecs) g in
      elim (Bool-cases (in_range req.secno req.nsecs s)) [
        | inl h ↦
            let (s', e, q, c) = ide_read_secs-Read req.secno req.buffer req.nsecs s h r in
            let b = in_range→bounds req.secno req.nsecs s h in
            inr (
              inr (
                le,
                in_range→OnDisk req.secno req.nsecs s h,
                (
                  s',
                  rw (t, g) e,
                  q,
                  c,
                  λ a o. elim o [
                    | inl l ↦ q.others a (inl l)
                    | inr m ↦ q.others a (inr (omega (arith, le, b)))
                  ],
                ),
              ))
        | inr f ↦ inr (
            inl (
              le,
              λ d. (let y = OnDisk→in_range req.secno req.nsecs s d in cc),
              rw (t, g) (ide_read_secs_panic req.secno req.buffer req.nsecs s f),
            ))
      ]
]
