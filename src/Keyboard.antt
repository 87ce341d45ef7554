-- ===== src/Keyboard.antt =====
-- driver/kboard.c: the keyboard's tables, its control keys and its input queue.
pub mod Queue
pub mod Keys
mod Tests
use hurlex_ii.Base.{
  ℕ, zero, suc, ◌+◌, ◌-◌, ◌*◌, ◌/◌, ◌%◌, ◌^◌, Bool, true, false, not, ◌&&◌, ◌||◌, Option, none,
  some, List, [], ◌∷◌, ◌==◌, leb, ltb, if◌then◌else◌, get_or, set, replicate, has_bit, set_bit,
  clear_bit, ℤ, pos, negsuc,
}

-- What a key sends; a code past the end of the table sends 0.
abbrev pub us_scancodes : List ℕ
us_scancodes =
    0 ∷ 27 ∷ 49 ∷ 50 ∷ 51 ∷ 52 ∷ 53 ∷ 54 ∷ 55 ∷ 56 ∷ 57 ∷ 48 ∷ 45 ∷ 61 ∷ 8 ∷ 9 ∷ 113 ∷ 119 ∷ 101
    ∷ 114 ∷ 116 ∷ 121 ∷ 117 ∷ 105 ∷ 111 ∷ 112 ∷ 91 ∷ 93 ∷ 10 ∷ 0 ∷ 97 ∷ 115 ∷ 100 ∷ 102 ∷ 103 ∷ 104
    ∷ 106 ∷ 107 ∷ 108 ∷ 59 ∷ 39 ∷ 96 ∷ 0 ∷ 92 ∷ 122 ∷ 120 ∷ 99 ∷ 118 ∷ 98 ∷ 110 ∷ 109 ∷ 44 ∷ 46 ∷ 47
    ∷ 0 ∷ 42 ∷ 0 ∷ 32 ∷ 0 ∷ 0 ∷ 0 ∷ 0 ∷ 0 ∷ 0 ∷ 0 ∷ 0 ∷ 0 ∷ 0 ∷ 0 ∷ 0 ∷ 0 ∷ 0 ∷ 72 ∷ 0 ∷ 45 ∷ 0 ∷ 0
    ∷ 0 ∷ 43 ∷ 0 ∷ 80 ∷ 0 ∷ 0 ∷ 0 ∷ 0 ∷ 0 ∷ 0 ∷ 0 ∷ 0 ∷ 0 ∷ []

-- The same with caps lock.
abbrev pub us_capslock_scancodes : List ℕ
us_capslock_scancodes =
    0 ∷ 27 ∷ 49 ∷ 50 ∷ 51 ∷ 52 ∷ 53 ∷ 54 ∷ 55 ∷ 56 ∷ 57 ∷ 48 ∷ 45 ∷ 61 ∷ 8 ∷ 9 ∷ 81 ∷ 87 ∷ 69 ∷ 82
    ∷ 84 ∷ 89 ∷ 85 ∷ 73 ∷ 79 ∷ 80 ∷ 123 ∷ 125 ∷ 10 ∷ 0 ∷ 65 ∷ 83 ∷ 68 ∷ 70 ∷ 71 ∷ 72 ∷ 74 ∷ 75 ∷ 76
    ∷ 59 ∷ 39 ∷ 96 ∷ 0 ∷ 124 ∷ 90 ∷ 88 ∷ 67 ∷ 86 ∷ 66 ∷ 78 ∷ 77 ∷ 44 ∷ 46 ∷ 47 ∷ 0 ∷ 42 ∷ 0 ∷ 32 ∷ 0
    ∷ 0 ∷ 0 ∷ 0 ∷ 0 ∷ 0 ∷ 0 ∷ 0 ∷ 0 ∷ 0 ∷ 0 ∷ 0 ∷ 0 ∷ 0 ∷ 0 ∷ 0 ∷ 45 ∷ 0 ∷ 0 ∷ 0 ∷ 43 ∷ 0 ∷ 0 ∷ 0
    ∷ 0 ∷ 0 ∷ 0 ∷ 0 ∷ 0 ∷ 0 ∷ 0 ∷ 0 ∷ []

-- The same with shift held.
abbrev pub us_shift_scancodes : List ℕ
us_shift_scancodes =
    0 ∷ 27 ∷ 33 ∷ 64 ∷ 35 ∷ 36 ∷ 37 ∷ 94 ∷ 38 ∷ 42 ∷ 40 ∷ 41 ∷ 95 ∷ 43 ∷ 8 ∷ 9 ∷ 81 ∷ 87 ∷ 69 ∷ 82
    ∷ 84 ∷ 89 ∷ 85 ∷ 73 ∷ 79 ∷ 80 ∷ 123 ∷ 125 ∷ 10 ∷ 0 ∷ 65 ∷ 83 ∷ 68 ∷ 70 ∷ 71 ∷ 72 ∷ 74 ∷ 75 ∷ 76
    ∷ 58 ∷ 34 ∷ 126 ∷ 0 ∷ 124 ∷ 90 ∷ 88 ∷ 67 ∷ 86 ∷ 66 ∷ 78 ∷ 77 ∷ 60 ∷ 62 ∷ 63 ∷ 0 ∷ 42 ∷ 0 ∷ 32
    ∷ 0 ∷ 0 ∷ 0 ∷ 0 ∷ 0 ∷ 0 ∷ 0 ∷ 0 ∷ 0 ∷ 0 ∷ 0 ∷ 0 ∷ 0 ∷ 0 ∷ 0 ∷ 0 ∷ 45 ∷ 0 ∷ 0 ∷ 0 ∷ 43 ∷ 0 ∷ 0
    ∷ 0 ∷ 0 ∷ 0 ∷ 0 ∷ 0 ∷ 0 ∷ 0 ∷ 0 ∷ 0 ∷ []

-- The keys of the eight control bits, from bit 0 on.
abbrev pub us_control_map : List ℕ
us_control_map = 29 ∷ 56 ∷ 0 ∷ 42 ∷ 54 ∷ 58 ∷ 70 ∷ 69 ∷ []

-- `controls` is the byte of the control bits.
pub record Keymap : Type 0 where
  pub scancodes : List ℕ
  pub capslock_scancodes : List ℕ
  pub shift_scancodes : List ℕ
  pub control_map : List ℕ
  pub controls : ℕ

abbrev pub us_keymap : Keymap
us_keymap = record {
  scancodes = us_scancodes;
  capslock_scancodes = us_capslock_scancodes;
  shift_scancodes = us_shift_scancodes;
  control_map = us_control_map;
  controls = 0;
}

abbrev pub kbuffer_len : ℕ
kbuffer_len = 1024

-- `curr_layout` points at the one keymap there is, and stands for what it points at.
pub record Kboard : Type 0 where
  pub is_valid : Bool
  pub curr_layout : Keymap
  pub kbuffer : List ℕ
  pub kfront : ℕ
  pub krear : ℕ

-- The interrupt handler is registered besides.
pub kb_init : Kboard → ℤ × Kboard
kb_init s = (pos 0, record s { curr_layout = us_keymap; is_valid = true })

pub kb_device_valid : Kboard → Bool
kb_device_valid s = s.is_valid

pub kb_getchar : Kboard → ℕ × Kboard
kb_getchar s =
    if not (s.kfront == s.krear)
    then (get_or s.kbuffer s.kfront 0, record s { kfront = (s.kfront + 1) % kbuffer_len })
    else (0, s)

-- The bytes written to the buffer, whose number is the result.
pub kb_read : (len : ℕ) → Kboard → List ℕ × Kboard
kb_read zero s = ([], s)
kb_read (suc len) s =
    let (ch, s1) = kb_getchar s in
    let (rest, s2) = kb_read len s1 in if ch == 0 then ([], s1) else (ch ∷ rest, s2)

pub kb_write : ℤ
kb_write = negsuc 0

pub kb_ioctl : (op flag : ℕ) → ℤ
kb_ioctl op flag = if not (op == 0) && not (flag == 0) then negsuc 0 else pos 0

-- The last lines of `keyboard_handler`: a full queue drops the character.
pub enqueue : ℕ → Kboard → Kboard
enqueue ch s =
    let next = (s.krear + 1) % kbuffer_len in
    if s.kfront == next then s else record s { kbuffer = set s.kbuffer s.krear ch; krear = next }

-- The loop of a key that goes up, over `rounds` control keys from `i` on.
pub release_key : (rounds i code : ℕ) → Keymap → ℕ
release_key zero i code layout = layout.controls
release_key (suc rounds) i code layout =
    let rest = release_key rounds (i + 1) code layout in
    if get_or layout.control_map i 0 == code then clear_bit i layout.controls else rest

-- The loop of a key that goes down; `none` if it is no control key.
pub press_key : (rounds i code : ℕ) → Keymap → Option ℕ
press_key zero i code layout = none
press_key (suc rounds) i code layout =
    let rest = press_key rounds (i + 1) code layout in
    let bits = layout.controls in
    if get_or layout.control_map i 0 == code
    then some (if has_bit i bits then clear_bit i bits else set_bit i bits)
    else rest

-- Bit 0 is Ctrl, 3 and 4 are the shifts, 5 is caps lock.
pub key_table : Keymap → List ℕ
key_table layout =
    let bits = layout.controls in
    let shifted =
      if (has_bit 3 bits || has_bit 4 bits) && not (has_bit 0 bits)
      then layout.shift_scancodes
      else layout.scancodes in
    if has_bit 5 bits && not (has_bit 0 bits) then layout.capslock_scancodes else shifted

abbrev pub set_controls : ℕ → Kboard → Kboard
set_controls bits s = record s { curr_layout = record (s.curr_layout) { controls = bits } }

-- `scancode` is the byte read from port 0x60.
pub keyboard_handler : (scancode : ℕ) → Kboard → Kboard
keyboard_handler scancode s =
    let layout = s.curr_layout in
    if leb 0x80 scancode
    then set_controls (release_key 5 0 (scancode - 0x80) layout) s
    else elim (press_key 8 0 scancode layout) [
      | some bits ↦ set_controls bits s
      | none ↦ enqueue (get_or (key_table layout) scancode 0) s
    ]
