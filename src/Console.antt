-- ===== src/Console.antt =====
-- arch/i386/driver/console.c: the text console over its buffer of 128 lines of 80 cells. The cells of
-- the buffer and of the VGA memory are functions of an index, and characters are signed bytes: `putc`
-- takes one from 0 to 255, which is below ' ' as a signed byte from 128 on.
pub mod Bounds
pub mod Scroll
mod Tests
use hurlex_ii.Base.{
  ℕ, zero, suc, ◌+◌, ◌-◌, ◌*◌, ◌/◌, ◌%◌, ◌^◌, Bool, true, false, not, ◌&&◌, List, [], ◌∷◌, ◌==◌,
  leb, ltb, if◌then◌else◌, update,
}

abbrev pub con_width : ℕ
con_width = 80

abbrev pub con_high : ℕ
con_high = 25

abbrev pub buff_width : ℕ
buff_width = 80

abbrev pub buff_high : ℕ
buff_high = 128

pub record Console : Type 0 where
  pub video_memory : ℕ → ℕ
  pub cursor_x : ℕ
  pub cursor_y : ℕ
  pub video_buffer : ℕ → ℕ
  pub buffer_x : ℕ
  pub buffer_y : ℕ
  pub current_line : ℕ
  -- The position last sent to the cursor registers.
  pub sent : ℕ

-- `c | (back << 4 | fore & 0x0F) << 8` for colours below 16.
abbrev pub cell : (c back fore : ℕ) → ℕ
cell c back fore = c + 0x100 * (back * 16 % 0x100 + fore % 16)

-- A space, white on black.
abbrev pub blank : ℕ
blank = 0x0F20

-- `for (i = first; i < first + count; i++) a[i] = value`.
pub fill : (count first value : ℕ) → (ℕ → ℕ) → ℕ → ℕ
fill zero first value a = a
fill (suc count) first value a = fill count (first + 1) value (update a first value)

pub move_cursor : Console → Console
move_cursor s = record s { sent = (s.cursor_y * con_width + s.cursor_x) % 2 ^ 16 }

pub console_clear : Console → Console
unfolding move_cursor
console_clear s =
    let s1 = move_cursor (record s {
      video_memory = fill (con_width * con_high) 0 blank s.video_memory;
      cursor_x = 0;
      cursor_y = 0;
    }) in
    record s1 {
      video_buffer = fill (buff_width * buff_high) 0 blank s1.video_buffer;
      buffer_x = 0;
      buffer_y = 0;
      current_line = 0;
    }

-- The loop that copies `count` cells from `i` on from the line below.
pub copy_up : (count i : ℕ) → (ℕ → ℕ) → ℕ → ℕ
copy_up zero i a = a
copy_up (suc count) i a = copy_up count (i + 1) (update a i (a (i + buff_width)))

pub scroll_buffer : Console → Console
scroll_buffer s =
    if s.buffer_y == buff_high - 1
    then (let moved = copy_up ((buff_high - 1) * buff_width) 0 s.video_buffer in
        record s {
          video_buffer = fill buff_width ((buff_high - 1) * buff_width) blank moved;
          buffer_y = s.buffer_y - 1;
        })
    else s

-- What `console_putc_color` does with the character, before it looks at the end of the line.
pub put_char : (c back fore : ℕ) → Console → Console
put_char c back fore s =
    if (c == 0x08) && not (s.buffer_x == 0)
    then record s { buffer_x = s.buffer_x - 1 }
    else if c == 0x09
    then record s { buffer_x = (s.buffer_x + 8) / 8 * 8 }
    else if c == 13
    then record s { buffer_x = 0 }
    else if c == 10
    then record s { buffer_x = 0; buffer_y = s.buffer_y + 1 }
    else if leb 32 c && ltb c 128
    then record s {
      video_buffer =
          update s.video_buffer (s.buffer_y * buff_width + s.buffer_x) (cell c back fore);
      buffer_x = s.buffer_x + 1;
    }
    else s

pub end_line : Console → Console
end_line s =
    if s.buffer_x == buff_width then record s { buffer_x = 0; buffer_y = s.buffer_y + 1 } else s

pub console_putc_color : (c back fore : ℕ) → Console → Console
console_putc_color c back fore s = scroll_buffer (end_line (put_char c back fore s))

-- The loop of `_flush_console` over `count` cells of the buffer from `j` on.
pub show_cells : (count i j : ℕ) → (buffer memory : ℕ → ℕ) → ℕ → ℕ
show_cells zero i j buffer memory = memory
show_cells (suc count) i j buffer memory =
    show_cells count (i + 1) (j + 1) buffer (update memory i (buffer j))

-- The number of cells that the first loop of `_flush_console` writes.
abbrev pub shown : Console → ℕ
shown s = (s.buffer_y + 1) * con_width - s.current_line * con_width

-- `_flush_console`.
pub flush_console : Console → Console
unfolding move_cursor
flush_console s =
    let memory =
      show_cells (shown s) 0 (s.current_line * con_width) s.video_buffer s.video_memory in
    move_cursor (record s {
      video_memory = fill (con_width * con_high - shown s) (shown s) blank memory;
      cursor_x = s.buffer_x;
      cursor_y = (s.buffer_y + 1 + 2 ^ 16 - s.current_line - 1) % 2 ^ 16;
    })

-- `_flush_console_current`.
pub flush_console_current : Console → Console
flush_console_current s =
    if leb (con_high - 1) s.buffer_y
    then flush_console (record s { current_line = s.buffer_y + 1 - con_high })
    else flush_console (record s { current_line = 0 })

pub put_chars : (back fore : ℕ) → List ℕ → Console → Console
put_chars back fore [] s = s
put_chars back fore (c ∷ cs) s = put_chars back fore cs (console_putc_color c back fore s)

-- `cs` is the text up to its null byte; `rc_black` is 0 and `rc_white` is 15.
pub console_write : (cs : List ℕ) → Console → Console
console_write cs s = flush_console_current (put_chars 0 15 cs s)

pub console_write_color : (cs : List ℕ) (back fore : ℕ) → Console → Console
console_write_color cs back fore s = flush_console_current (put_chars back fore cs s)

-- "Hello, Hurlex II kernel!" and two line feeds, black and green.
abbrev pub hello : List ℕ
hello =
    72 ∷ 101 ∷ 108 ∷ 108 ∷ 111 ∷ 44 ∷ 32 ∷ 72 ∷ 117 ∷ 114 ∷ 108 ∷ 101 ∷ 120 ∷ 32 ∷ 73 ∷ 73 ∷ 32
    ∷ 107 ∷ 101 ∷ 114 ∷ 110 ∷ 101 ∷ 108 ∷ 33 ∷ 10 ∷ 10 ∷ []

pub console_init : Console → Console
unfolding console_clear console_write_color
console_init s = console_write_color hello 0 2 (console_clear s)

pub console_view_up : (offset : ℕ) → Console → Console
console_view_up offset s = flush_console (
    if leb offset s.current_line
    then record s { current_line = s.current_line - offset }
    else record s { current_line = 0 })

pub console_view_down : (offset : ℕ) → Console → Console
console_view_down offset s = flush_console (
    if ltb (s.current_line + offset) s.buffer_y
    then record s { current_line = s.current_line + offset }
    else record s { current_line = s.buffer_y })
