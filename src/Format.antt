-- ===== src/Format.antt =====
-- kernel/printk.c: `vsprintf`. The arguments are the list of their words, and a string is found in the
-- memory at its address. What stands in Printk about widths and precisions holds here.
pub mod Text
pub mod Fields
pub mod Total
mod Tests
use Prim.Native.Nat.{bit_or}
use hurlex_ii.Base.{
  ℕ, zero, suc, ◌+◌, ◌-◌, ◌*◌, ◌%◌, ◌^◌, Bool, true, false, not, ◌&&◌, ◌||◌, Option, none, some,
  List, [], ◌∷◌, ◌++◌, ◌==◌, ltb, leb, if◌then◌else◌, has_bit, replicate, length, add32, sub32,
}
use hurlex_ii.Printk.{is_digit, skip_atoi, number, or_zero}

-- What `vsprintf` has written, the arguments that are left, and the words stored for `%n`.
pub record Output : Type 0 where
  pub text : List ℕ
  pub args : List ℕ
  pub stores : List (ℕ × ℕ)

abbrev pub put : List ℕ → Output → Output
put cs o = record o { text = o.text ++ cs }

-- The flag of a character, or 0.
abbrev pub flag_of : ℕ → ℕ
flag_of c =
    if c == 45
    then 16
    else if c == 43
    then 4
    else if c == 32
    then 8
    else if c == 35
    then 32
    else if c == 48
    then 1
    else 0

-- From behind the `%`: the flags, and the format from the first character that is none.
pub read_flags : List ℕ → ℕ → ℕ × List ℕ
read_flags [] flags = (flags, [])
read_flags (c ∷ cs) flags =
    let rest = read_flags cs (bit_or flags (flag_of c)) in
    if flag_of c == 0 then (flags, c ∷ cs) else rest

-- The flags, the width and the rest of the format, and the arguments that are left. A `*` is not
-- stepped over.
pub read_width : (flags : ℕ) (format args : List ℕ) → Option (ℕ × Option ℕ × List ℕ × List ℕ)
read_width flags [] args = some (flags, none, [], args)
read_width flags (c ∷ cs) args =
    if is_digit c
    then (let (w, rest) = skip_atoi (c ∷ cs) in some (flags, some w, rest, args))
    else if c == 42
    then elim args [
      | [] ↦ none
      | w ∷ more ↦ some (
          if leb (2 ^ 31) w
          then (bit_or flags 16, some (sub32 0 w), c ∷ cs, more)
          else (flags, some w, c ∷ cs, more))
    ]
    else some (flags, none, c ∷ cs, args)

-- The same behind the point; a negative precision is 0.
abbrev pub read_digits : (format args : List ℕ) → Option (Option ℕ × List ℕ × List ℕ)
read_digits [] args = some (some 0, [], args)
read_digits (c ∷ cs) args =
    if is_digit c
    then (let (p, rest) = skip_atoi (c ∷ cs) in
        some (some (if leb (2 ^ 31) p then 0 else p), rest, args))
    else if c == 42
    then elim args [
      | [] ↦ none
      | p ∷ more ↦ some (some (if leb (2 ^ 31) p then 0 else p), c ∷ cs, more)
    ]
    else some (some 0, c ∷ cs, args)

pub read_precision : (format args : List ℕ) → Option (Option ℕ × List ℕ × List ℕ)
read_precision [] args = some (none, [], args)
read_precision (c ∷ cs) args = if c == 46 then read_digits cs args else some (none, c ∷ cs, args)

-- One `h`, `l` or `L` is stepped over.
pub skip_qualifier : List ℕ → List ℕ
skip_qualifier [] = []
skip_qualifier (c ∷ cs) = if (c == 104) || (c == 108) || (c == 76) then cs else c ∷ cs

abbrev pub take_first : ℕ → List ℕ → List ℕ
take_first zero cs = []
take_first (suc n) [] = []
take_first (suc n) (c ∷ cs) = c ∷ take_first n cs

-- `cs` in a field, at its left or at its right end.
abbrev pub in_field : (left : Bool) (width : ℕ) → List ℕ → List ℕ
in_field left width cs =
    let pad = replicate (width - length cs) 32 in if left then cs ++ pad else pad ++ cs

-- The number cases: `base` and the flags that the case adds.
abbrev pub put_number : (base flags : ℕ) (width precision : Option ℕ) (o : Output) → Option Output
put_number base flags width precision o = elim o.args [
  | [] ↦ none
  | n ∷ more ↦ elim (number n base width precision flags) [
    | none ↦ none
    | some cs ↦ some (record o { text = o.text ++ cs; args = more })
  ]
]

-- The conversion of the character `c`.
pub convert :
    (memory : ℕ → List ℕ) (c flags : ℕ) (width precision : Option ℕ) (o : Output) → Option Output
convert memory c flags width precision o =
    if c == 99
    then elim o.args [
      | [] ↦ none
      | a ∷ more ↦ some (record o {
        text = o.text ++ in_field (has_bit 4 flags) (or_zero width) (a % 2 ^ 8 ∷ []);
        args = more;
      })
    ]
    else if c == 115
    then elim o.args [
      | [] ↦ none
      | a ∷ more ↦
          let s : List ℕ = elim precision [ none ↦ memory a | some p ↦ take_first p (memory a) ] in
          some (record o {
            text = o.text ++ in_field (has_bit 4 flags) (or_zero width) s;
            args = more;
          })
    ]
    else if c == 111
    then put_number 8 flags width precision o
    else if c == 112
    then elim width [
      | none ↦ put_number 16 (bit_or flags 1) (some 8) precision o
      | some w ↦ put_number 16 flags (some w) precision o
    ]
    else if c == 120
    then put_number 16 (bit_or flags 64) width precision o
    else if c == 88
    then put_number 16 flags width precision o
    else if (c == 100) || (c == 105)
    then put_number 10 (bit_or flags 2) width precision o
    else if c == 117
    then put_number 10 flags width precision o
    else if c == 98
    then put_number 2 flags width precision o
    else if c == 110
    then elim o.args [
      | [] ↦ none
      | a ∷ more ↦ some (record o { stores = (a, length o.text) ∷ o.stores; args = more })
    ]
    else some (put (if c == 37 then 37 ∷ [] else 37 ∷ c ∷ []) o)

-- The conversion and the rest of the format behind it. A format that ends here gives a `%`.
pub finish :
    (memory : ℕ → List ℕ) (flags : ℕ) (width precision : Option ℕ) (format : List ℕ)
    → Output
    → Option (List ℕ × Output)
finish memory flags width precision [] o = some ([], put (37 ∷ []) o)
finish memory flags width precision (c ∷ rest) o = elim (convert memory c flags width precision o) [
  | none ↦ none
  | some o1 ↦ some (rest, o1)
]

pub behind_precision :
    (memory : ℕ → List ℕ) (flags : ℕ) (width : Option ℕ)
    → Option (Option ℕ × List ℕ × List ℕ)
    → Output
    → Option (List ℕ × Output)
behind_precision memory flags width none o = none
behind_precision memory flags width (some (precision, format, args)) o =
    finish memory flags width precision (skip_qualifier format) (record o { args = args })

pub behind_width :
    (memory : ℕ → List ℕ)
    → Option (ℕ × Option ℕ × List ℕ × List ℕ)
    → Output
    → Option (List ℕ × Output)
behind_width memory none o = none
behind_width memory (some (flags, width, format, args)) o =
    behind_precision memory flags width (read_precision format args) o

-- From behind a `%`: the rest of the format and the output.
pub directive : (memory : ℕ → List ℕ) (format : List ℕ) → Output → Option (List ℕ × Output)
directive memory format o =
    let (flags, format1) = read_flags format 0 in
    behind_width memory (read_width flags format1 o.args) o

-- The loop of `vsprintf`: none if an argument is missing, or the fuel is not enough; a round uses up
-- a character of the format at least.
pub format_loop : (fuel : ℕ) (memory : ℕ → List ℕ) (format : List ℕ) → Output → Option Output
format_loop zero memory format o = none
format_loop (suc fuel) memory [] o = some o
format_loop (suc fuel) memory (c ∷ cs) o =
    let plain = format_loop fuel memory cs (put (c ∷ []) o) in
    elim (c == 37) [
      | false ↦ plain
      | true ↦ elim (directive memory cs o) [
        | none ↦ none
        | some (rest, o1) ↦ format_loop fuel memory rest o1
      ]
    ]

pub vsprintf : (memory : ℕ → List ℕ) (format args : List ℕ) → Option Output
unfolding format_loop
vsprintf memory format args =
    format_loop (suc (length format)) memory format (record { text = []; args = args; stores = [] })
