-- ===== src/Keyboard/Keys.antt =====
-- driver/kboard.c: the control keys, which toggle when they go down.
use Prim.Native.Nat.{ℕ, zero, suc, ◌+◌, ◌-◌, ◌<◌}
use hurlex_ii.Base.{
  ◌≡◌, refl, ◌≢◌, true, false, arith, get_or, not, leb, ap, ◌∙◌, subst, sym, some, if◌then◌else◌,
  Bool-cases, has_bit, set_bit, clear_bit, inl, inr, has_bit-set_bit, has_bit-clear_bit,
  has_bit-set_bit_ne, has_bit-clear_bit_ne,
}
use hurlex_ii.Keyboard.{
  Keymap, Kboard, us_control_map, press_key, release_key, keyboard_handler, set_controls,
}

abbrev pub controls : Kboard → ℕ
controls s = s.curr_layout.controls

press_key-index :
    (layout : Keymap) (i : ℕ)
    → layout.control_map ≡ us_control_map
    → i < 8
    → press_key 8 0 (get_or us_control_map i 0) layout
      ≡ some (
          if has_bit i (layout.controls)
          then clear_bit i (layout.controls)
          else set_bit i (layout.controls))
unfolding press_key
press_key-index layout zero e h = rw e refl
press_key-index layout (suc zero) e h = rw e refl
press_key-index layout (suc (suc zero)) e h = rw e refl
press_key-index layout (suc (suc (suc zero))) e h = rw e refl
press_key-index layout (suc (suc (suc (suc zero)))) e h = rw e refl
press_key-index layout (suc (suc (suc (suc (suc zero))))) e h = rw e refl
press_key-index layout (suc (suc (suc (suc (suc (suc zero)))))) e h = rw e refl
press_key-index layout (suc (suc (suc (suc (suc (suc (suc zero))))))) e h = rw e refl
press_key-index layout (suc (suc (suc (suc (suc (suc (suc (suc i)))))))) e h = absurd (omega arith)

release_key-index :
    (layout : Keymap) (i : ℕ)
    → layout.control_map ≡ us_control_map
    → i < 5
    → release_key 5 0 (get_or us_control_map i 0) layout ≡ clear_bit i (layout.controls)
unfolding release_key
release_key-index layout zero e h = rw e refl
release_key-index layout (suc zero) e h = rw e refl
release_key-index layout (suc (suc zero)) e h = rw e refl
release_key-index layout (suc (suc (suc zero))) e h = rw e refl
release_key-index layout (suc (suc (suc (suc zero)))) e h = rw e refl
release_key-index layout (suc (suc (suc (suc (suc i))))) e h = absurd (omega arith)

small : (i : ℕ) → get_or us_control_map i 0 < 0x80
small zero = omega arith
small (suc zero) = omega arith
small (suc (suc zero)) = omega arith
small (suc (suc (suc zero))) = omega arith
small (suc (suc (suc (suc zero)))) = omega arith
small (suc (suc (suc (suc (suc zero))))) = omega arith
small (suc (suc (suc (suc (suc (suc zero)))))) = omega arith
small (suc (suc (suc (suc (suc (suc (suc zero))))))) = omega arith
small (suc (suc (suc (suc (suc (suc (suc (suc i)))))))) = omega arith

handler_press :
    (code bits : ℕ) (s : Kboard)
    → code < 0x80
    → press_key 8 0 code s.curr_layout ≡ some bits
    → keyboard_handler code s ≡ set_controls bits s
unfolding keyboard_handler
handler_press code bits s h e = let q : leb 0x80 code ≡ false = ground arith in rw (q, e) refl

handler_release :
    (code : ℕ) (s : Kboard)
    → keyboard_handler (code + 0x80) s ≡ set_controls (release_key 5 0 code s.curr_layout) s
unfolding keyboard_handler
handler_release code s =
    let q : leb 0x80 (code + 0x80) ≡ true = ground arith in
    let e : code + 0x80 - 0x80 ≡ code = omega arith in rw (q, e) refl

toggle_flips :
    (i w : ℕ) → has_bit i (if has_bit i w then clear_bit i w else set_bit i w) ≡ not (has_bit i w)
toggle_flips i w = elim (Bool-cases (has_bit i w)) [
  | inl y ↦
      subst (λ b. has_bit i (if b then clear_bit i w else set_bit i w) ≡ not b) (sym y)
        (has_bit-clear_bit i w)
  | inr n ↦
      subst (λ b. has_bit i (if b then clear_bit i w else set_bit i w) ≡ not b) (sym n)
        (has_bit-set_bit i w)
]

toggle_keeps :
    (i j w : ℕ)
    → i ≢ j
    → has_bit j (if has_bit i w then clear_bit i w else set_bit i w) ≡ has_bit j w
toggle_keeps i j w ne = elim (Bool-cases (has_bit i w)) [
  | inl y ↦
      subst (λ b. has_bit j (if b then clear_bit i w else set_bit i w) ≡ has_bit j w) (sym y)
        (has_bit-clear_bit_ne i j w ne)
  | inr n ↦
      subst (λ b. has_bit j (if b then clear_bit i w else set_bit i w) ≡ has_bit j w) (sym n)
        (has_bit-set_bit_ne i j w ne)
]

-- When the key of control bit `i` goes down, that bit changes, no other control bit does, and
-- nothing else of the keyboard's state changes.
pub keyboard_handler-press :
    (i j : ℕ) (s : Kboard)
    → s.curr_layout.control_map ≡ us_control_map
    → i < 8
    → i ≢ j
    → let s1 = keyboard_handler (get_or us_control_map i 0) s in
      (has_bit i (controls s1) ≡ not (has_bit i (controls s)))
      × (has_bit j (controls s1) ≡ has_bit j (controls s))
      × (s1 ≡ set_controls (controls s1) s)
keyboard_handler-press i j s e h ne =
    let w = controls s in
    let q =
      handler_press (get_or us_control_map i 0) (if has_bit i w then clear_bit i w else set_bit i w)
        s (small i) (press_key-index s.curr_layout i e h) in
    rw q (toggle_flips i w, toggle_keeps i j w ne, refl)

-- When the key of one of the first five control bits goes up, that bit is clear, no other control
-- bit changes, and nothing else of the keyboard's state changes.
pub keyboard_handler-release :
    (i j : ℕ) (s : Kboard)
    → s.curr_layout.control_map ≡ us_control_map
    → i < 5
    → i ≢ j
    → let s1 = keyboard_handler (get_or us_control_map i 0 + 0x80) s in
      (has_bit i (controls s1) ≡ false)
      × (has_bit j (controls s1) ≡ has_bit j (controls s))
      × (s1 ≡ set_controls (controls s1) s)
keyboard_handler-release i j s e h ne =
    let w = controls s in
    let q : keyboard_handler (get_or us_control_map i 0 + 0x80) s ≡ set_controls (clear_bit i w) s =
      handler_release (get_or us_control_map i 0) s
      ∙ ap (λ b. set_controls b s) (release_key-index s.curr_layout i e h) in
    rw q (has_bit-clear_bit i w, has_bit-clear_bit_ne i j w ne, refl)
