-- ===== src/Format/Tests.antt =====
-- kernel/printk.c: the theorems on formats, and a format that is worked out.
use hurlex_ii.Base.{◌≡◌, refl, some, List, [], ◌∷◌, arith, ℕ, ◌+◌, ◌≤◌, length}
use hurlex_ii.Printk.{skip_atoi, atoi_from, number, sign_of, magnitude, special_of, digit_loop}
use hurlex_ii.Format.{
  Output, vsprintf, format_loop, directive, behind_width, read_width, read_flags, behind_precision,
  read_precision, skip_qualifier, finish, convert,
}
use hurlex_ii.Format.Fields.{percents}
use hurlex_ii.Format.Total.{vsprintf-ends}

-- The only string.
abbrev ok : ℕ → List ℕ
ok a = 111 ∷ 107 ∷ []

vsprintf-ends_example :
    (o : Output) × (vsprintf ok (37 ∷ 52 ∷ 115 ∷ 37 ∷ 37 ∷ []) (7 ∷ 8 ∷ 9 ∷ []) ≡ some o)
    × (3 ≤ length o.args + percents (37 ∷ 52 ∷ 115 ∷ 37 ∷ 37 ∷ []))
vsprintf-ends_example =
    vsprintf-ends ok (37 ∷ 52 ∷ 115 ∷ 37 ∷ 37 ∷ []) (7 ∷ 8 ∷ 9 ∷ []) (omega arith)

-- "%04d %s" of 42 and a string is "0042 ok".
vsprintf_test :
    vsprintf ok (37 ∷ 48 ∷ 52 ∷ 100 ∷ 32 ∷ 37 ∷ 115 ∷ []) (42 ∷ 9 ∷ [])
    ≡ some (record { text = 48 ∷ 48 ∷ 52 ∷ 50 ∷ 32 ∷ 111 ∷ 107 ∷ []; args = []; stores = [] })
unfolding vsprintf format_loop directive behind_width read_width read_flags behind_precision
    read_precision skip_qualifier finish convert skip_atoi atoi_from number sign_of magnitude
    special_of digit_loop
vsprintf_test = refl
