-- ===== src/Format/Total.antt =====
-- kernel/printk.c: `vsprintf` comes to the end of every format.
use Prim.Native.Nat.{bit_or}
use hurlex_ii.Base.{
  ℕ, zero, suc, ◌+◌, ◌≤◌, ◌<◌, ◌≡◌, refl, ◌||◌, Bool, true, false, Option, none, some, List, [],
  ◌∷◌, ◌++◌, arith, ◌∙◌, ◌==◌, length, if◌then◌else◌, Bool-cases, inl, inr,
}
use hurlex_ii.Printk.Layout.{length-number}
use hurlex_ii.Format.{
  read_flags, read_width, read_precision, skip_qualifier, Output, put_number, convert, put, finish,
  directive, behind_width, behind_precision, format_loop, vsprintf,
}
use hurlex_ii.Format.Fields.{
  percents, star, Within, read_flags-Within, read_width-Within, read_precision-Within,
  skip_qualifier-Within,
}

-- A result whose output has `k` arguments left at least.
abbrev Ends : ℕ → Option Output → Type 0
Ends k r = (o : Output) × (r ≡ some o) × (k ≤ length o.args)

either : {A : Type 0} (P : A → Type 0) (b : Bool) {x y : A} → P x → P y → P (if b then x else y)
either P true h k = h
either P false h k = k

put_number-Ends :
    (base flags : ℕ) (width precision : Option ℕ) (a : ℕ) (more : List ℕ) (o : Output)
    → 2 ≤ base
    → base ≤ 36
    → Ends (length more) (put_number base flags width precision (record o { args = a ∷ more }))
put_number-Ends base flags width precision a more o lo hi =
    let (cs, e, l) = length-number a base width precision flags lo hi in
    (record o { text = o.text ++ cs; args = more }, rw (put_number, e) refl, omega arith)

convert-Ends :
    (memory : ℕ → List ℕ) (c flags : ℕ) (width precision : Option ℕ) (a : ℕ) (more : List ℕ)
    (o : Output)
    → Ends (length more) (convert memory c flags width precision (record o { args = a ∷ more }))
unfolding convert
convert-Ends memory c flags width precision a more o =
    let P = Ends (length more) in
    let in_base : (b fl : ℕ) (w : Option ℕ)
        → 2 ≤ b
        → b ≤ 36
        → P (put_number b fl w precision (record o { args = a ∷ more })) =
      λ b fl w lo hi. put_number-Ends b fl w precision a more o lo hi in
    either P (c == 99) (_, refl, omega arith)
      (either P (c == 115) (_, refl, omega arith)
        (either P (c == 111) (in_base 8 flags width (omega arith) (omega arith)) (
          either P (c == 112) (pointer width) (
            either P (c == 120) (in_base 16 (bit_or flags 64) width (omega arith) (omega arith)) (
              either P (c == 88) (in_base 16 flags width (omega arith) (omega arith)) (
                either P ((c == 100) || (c == 105))
                  (in_base 10 (bit_or flags 2) width (omega arith) (omega arith))
                  (either P (c == 117) (in_base 10 flags width (omega arith) (omega arith)) (
                    either P (c == 98) (in_base 2 flags width (omega arith) (omega arith))
                      (either P (c == 110) (_, refl, omega arith) (_, refl, omega arith))))))))))
  where
    pointer :
        (w : Option ℕ)
        → Ends (length more) (elim w [
          | none ↦ put_number 16 (bit_or flags 1) (some 8) precision (record o { args = a ∷ more })
          | some w ↦ put_number 16 flags (some w) precision (record o { args = a ∷ more })
        ])
    pointer none =
        put_number-Ends 16 (bit_or flags 1) (some 8) precision a more o (omega arith) (omega arith)
    pointer (some w) =
        put_number-Ends 16 flags (some w) precision a more o (omega arith) (omega arith)

-- A result that goes on within `cs`, one of `k` arguments used up at most.
abbrev Goes : ℕ → List ℕ → Option (List ℕ × Output) → Type 0
Goes k cs r =
    (rest : List ℕ) × (o : Output) × (r ≡ some (rest, o)) × Within rest cs × (k ≤ length o.args + 1)

convert-star :
    (memory : ℕ → List ℕ) (flags : ℕ) (width precision : Option ℕ) (o : Output)
    → convert memory 42 flags width precision o ≡ some (put (37 ∷ 42 ∷ []) o)
unfolding convert
convert-star memory flags width precision o = refl

finish-Goes :
    (memory : ℕ → List ℕ) (flags : ℕ) (width precision : Option ℕ) (cs args : List ℕ) (o : Output)
    → 0 < length args + star cs
    → Goes
        (length args + star cs)
        cs
        (finish memory flags width precision cs (record o { args = args }))
unfolding finish
finish-Goes memory flags width precision [] args o h =
    ([], _, refl, (omega arith, omega arith), omega arith)
finish-Goes memory flags width precision (c ∷ cs) args o h = elim (Bool-cases (c == 42)) [
  | inl q ↦
      let e : c ≡ 42 = ground arith in
      (
        cs,
        put (37 ∷ 42 ∷ []) (record o { args = args }),
        rw (finish, e, convert-star memory flags width precision (record o { args = args })) refl,
        (omega arith, ground arith),
        rw q (omega arith),
      )
  | inr q ↦ let z : star (c ∷ cs) ≡ 0 = ground arith in converted args z (omega (arith, z, h))
]
  where
    converted :
        (args : List ℕ)
        → star (c ∷ cs) ≡ 0
        → 0 < length args
        → Goes
            (length args + star (c ∷ cs))
            (c ∷ cs)
            (finish memory flags width precision (c ∷ cs) (record o { args = args }))
    converted [] z h = absurd (omega arith)
    converted (a ∷ more) z h =
        let (o1, e, l) = convert-Ends memory c flags width precision a more o in
        (cs, o1, rw (finish, e) refl, (omega arith, ground arith), omega (arith, z, l))

-- The four steps that read a directive come before the conversion.
directive-finish :
    (memory : ℕ → List ℕ) (cs cs1 cs2 cs3 args1 args2 args3 : List ℕ) (f f2 : ℕ) (w p : Option ℕ)
    (o : Output)
    → read_flags cs 0 ≡ (f, cs1)
    → read_width f cs1 args1 ≡ some (f2, w, cs2, args2)
    → read_precision cs2 args2 ≡ some (p, cs3, args3)
    → directive memory cs (record o { args = args1 })
      ≡ finish memory f2 w p (skip_qualifier cs3) (record o { args = args3 })
unfolding directive behind_width behind_precision
directive-finish memory cs cs1 cs2 cs3 args1 args2 args3 f f2 w p o e1 e2 e3 =
    rw (directive, e1, e2, e3) refl

directive-Goes :
    (memory : ℕ → List ℕ) (cs args : List ℕ) (o : Output)
    → 0 < length args
    → Goes (length args) cs (directive memory cs (record o { args = args }))
unfolding directive
directive-Goes memory cs args o h =
    let (f, cs1, e1, (l1, p1)) = read_flags-Within cs 0 in
    let (f2, w, cs2, args2, e2, (l2, p2), k2) = read_width-Within f cs1 args h in
    let (p, cs3, args3, e3, (l3, p3), k3) = read_precision-Within cs2 args2 (omega arith) in
    let ((l4, p4), k4) = skip_qualifier-Within cs3 in
    let (rest, o1, e5, (l5, p5), k5) =
      finish-Goes memory f2 w p (skip_qualifier cs3) args3 o (omega arith) in
    (
      rest,
      o1,
      directive-finish memory cs cs1 cs2 cs3 args args2 args3 f f2 w p o e1 e2 e3 ∙ e5,
      (omega arith, omega arith),
      omega arith,
    )

format_loop-Ends :
    (fuel : ℕ) (memory : ℕ → List ℕ) (cs args : List ℕ) (o : Output)
    → length cs < fuel
    → percents cs ≤ length args
    → (o1 : Output) × (format_loop fuel memory cs (record o { args = args }) ≡ some o1)
      × (length args ≤ length o1.args + percents cs)
unfolding format_loop
format_loop-Ends zero memory cs args o h k = absurd (omega arith)
format_loop-Ends (suc fuel) memory [] args o h k = (_, refl, omega arith)
format_loop-Ends (suc fuel) memory (c ∷ cs) args o h k = elim (Bool-cases (c == 37)) [
  | inl q ↦
      let z : percents (c ∷ cs) ≡ percents cs + 1 = ground arith in
      let (rest, o1, e, (l, p), n) = directive-Goes memory cs args o (omega (arith, z, k)) in
      let (o2, e2, n2) =
        format_loop-Ends fuel memory rest o1.args o1 (omega arith) (omega (arith, z, k)) in
      (o2, rw (format_loop, q, e) e2, omega (arith, z, n2))
  | inr q ↦
      let z : percents (c ∷ cs) ≡ percents cs = ground arith in
      let (o2, e2, n2) =
        format_loop-Ends fuel memory cs args (put (c ∷ []) o) (omega arith) (omega (arith, z, k)) in
      (o2, rw (format_loop, q) e2, omega (arith, z, n2))
]

-- Given an argument for each `%` of the format at least, also for the two of a `%%`, `vsprintf` comes
-- to the end of the format, and has used up at most one argument for each `%`.
pub vsprintf-ends :
    (memory : ℕ → List ℕ) (format args : List ℕ)
    → percents format ≤ length args
    → (o : Output) × (vsprintf memory format args ≡ some o)
      × (length args ≤ length o.args + percents format)
unfolding vsprintf
vsprintf-ends memory format args h =
    format_loop-Ends (suc (length format)) memory format args
      (record { text = []; args = args; stores = [] }) (omega arith) h
