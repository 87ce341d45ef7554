-- ===== src/Format/Text.antt =====
-- kernel/printk.c: what `vsprintf` makes of a format.
use Prim.Native.Nat.{ℕ, zero, suc, ◌^◌, ◌<◌}
use hurlex_ii.Base.{◌≡◌, refl, ap, ◌∙◌, false, some, List, [], ◌∷◌, arith, ◌==◌, leb, length}
use mathlib.Core.List.{append-nil, append_assoc}
use hurlex_ii.Links.Ring.{has}
use hurlex_ii.Format.{
  Output, vsprintf, format_loop, directive, convert, read_flags, read_width, read_precision,
  skip_qualifier, put, behind_width, behind_precision, finish,
}

format_loop-plain :
    (memory : ℕ → List ℕ) (cs : List ℕ) (fuel : ℕ) (o : Output)
    → has 37 cs ≡ false
    → length cs < fuel
    → format_loop fuel memory cs o ≡ some (put cs o)
unfolding format_loop
format_loop-plain memory cs zero o n h = absurd (omega arith)
format_loop-plain memory [] (suc fuel) o n h = rw (append-nil o.text) refl
format_loop-plain memory (c ∷ cs) (suc fuel) o n h =
    let e : (c == 37) ≡ false = ground arith in
    rw (format_loop, e)
      (format_loop-plain memory cs fuel (put (c ∷ []) o) (ground arith) (omega arith)
        ∙ ap (λ t. some (record o { text = t })) (append_assoc o.text (c ∷ []) cs))

-- A format without `%` is copied, and takes no argument.
pub vsprintf-plain :
    (memory : ℕ → List ℕ) (cs args : List ℕ)
    → has 37 cs ≡ false
    → vsprintf memory cs args ≡ some (record { text = cs; args = args; stores = [] })
unfolding vsprintf
vsprintf-plain memory cs args n =
    format_loop-plain memory cs (suc (length cs)) (record { text = []; args = args; stores = [] }) n
      (omega arith)

read_width-star :
    (w : ℕ) (cs args : List ℕ)
    → w < 2 ^ 31
    → read_width 0 (42 ∷ cs) (w ∷ args) ≡ some (0, some w, 42 ∷ cs, args)
unfolding read_width
read_width-star w cs args h =
    let q : leb (2 ^ 31) w ≡ false = ground arith in rw (read_width, q) refl

directive-star :
    (memory : ℕ → List ℕ) (w : ℕ) (cs : List ℕ) (o : Output)
    → w < 2 ^ 31
    → directive memory (42 ∷ cs) (record o { args = w ∷ o.args }) ≡ some (cs, put (37 ∷ 42 ∷ []) o)
unfolding directive read_flags read_precision skip_qualifier convert behind_width behind_precision
    finish
directive-star memory w cs o h = rw (directive, read_width-star w cs o.args h) refl

-- A width given by `*` is not stepped over: for a width that is not negative, `%*d` takes the width,
-- then prints `%*d` itself and leaves the number.
vsprintf_star :
    (memory : ℕ → List ℕ) (w n : ℕ)
    → w < 2 ^ 31
    → vsprintf memory (37 ∷ 42 ∷ 100 ∷ []) (w ∷ n ∷ [])
      ≡ some (record { text = 37 ∷ 42 ∷ 100 ∷ []; args = n ∷ []; stores = [] })
unfolding vsprintf format_loop
vsprintf_star memory w n h =
    rw
      (
        vsprintf,
        format_loop,
        directive-star memory w (100 ∷ []) (record { text = []; args = n ∷ []; stores = [] }) h,
      )
      refl
