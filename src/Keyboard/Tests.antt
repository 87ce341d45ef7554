-- ===== src/Keyboard/Tests.antt =====
-- driver/kboard.c: the theorems on a keyboard that holds a few characters.
use Prim.Native.Nat.{ℕ}
use hurlex_ii.Base.{
  ◌≡◌, refl, true, not, ◌∷◌, arith, get_or, set, replicate, length-replicate, length-set, ◌∙◌,
  has_bit,
}
use hurlex_ii.Keyboard.{Kboard, us_control_map, us_keymap, set_controls, keyboard_handler, kb_read}
use hurlex_ii.Keyboard.Queue.{IsQueue, contents, take_chars, kb_read-contents}
use hurlex_ii.Keyboard.Keys.{controls, keyboard_handler-press}

-- A queue that goes round the end of the buffer: 'a', then 'b'.
abbrev typed : Kboard
typed = record {
  is_valid = true;
  curr_layout = us_keymap;
  kbuffer = set (97 ∷ replicate 1023 0) 1023 98;
  kfront = 1023;
  krear = 1;
}

typed-IsQueue : IsQueue typed
typed-IsQueue = record {
  room = length-set {A = ℕ} (97 ∷ replicate 1023 0) 1023 98 ∙ length-replicate {A = ℕ} 1024 0;
  front = omega arith;
  rear = omega arith;
}

kb_read-contents_example :
    let (out, s1) = kb_read 5 typed in
    IsQueue s1 × ((out, contents s1) ≡ take_chars 5 (contents typed))
kb_read-contents_example = kb_read-contents 5 typed typed-IsQueue

-- Left shift goes down, and up again.
keyboard_handler-press_example :
    let s1 = keyboard_handler (get_or us_control_map 3 0) typed in
    (has_bit 3 (controls s1) ≡ not (has_bit 3 (controls typed)))
    × (has_bit 5 (controls s1) ≡ has_bit 5 (controls typed))
    × (s1 ≡ set_controls (controls s1) typed)
keyboard_handler-press_example = keyboard_handler-press 3 5 typed refl (omega arith) (omega arith)
