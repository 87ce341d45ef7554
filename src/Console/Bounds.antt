-- ===== src/Console/Bounds.antt =====
-- arch/i386/driver/console.c: the output position, and which cells an output touches.
use Prim.Native.Nat.{ℕ, ◌+◌, ◌-◌, ◌*◌, ◌<◌, ◌≤◌}
use hurlex_ii.Base.{
  ◌≡◌, refl, ap, subst, ◌∙◌, false, arith, ◌==◌, leb, ltb, if◌then◌else◌, Bool-cases, inl, inr,
  List, [], ◌∷◌,
}
use hurlex_ii.Console.{
  copy_up, blank, Console, shown, put_char, end_line, scroll_buffer, console_putc_color,
  console_write_color, put_chars, flush_console, flush_console_current, console_view_up,
  console_view_down, move_cursor,
}
use hurlex_ii.Console.Scroll.{flush_console_lem, copy_up-out, fill-out}

pub record IsConsole (s : Console) : Type 0 where
  pub column : s.buffer_x < 80
  pub line : s.buffer_y < 127
  pub shows : s.current_line ≤ s.buffer_y

-- Between the steps of `console_putc_color` the position may stand at the end of a line.
record IsNear (s : Console) : Type 0 where
  pub column : s.buffer_x ≤ 80
  pub line : s.buffer_y ≤ 127
  pub last : s.buffer_y ≡ 127 → s.buffer_x ≡ 0
  pub top : s.current_line < 127
  pub shows : s.current_line ≤ s.buffer_y

put_char-IsNear : (c back fore : ℕ) (s : Console) → IsConsole s → IsNear (put_char c back fore s)
unfolding put_char
put_char-IsNear c back fore s v = ground (arith, v.column, v.line, v.shows)

settle-IsConsole : (s : Console) → IsNear s → IsConsole (scroll_buffer (end_line s))
unfolding end_line scroll_buffer
settle-IsConsole s v = ground (arith, v.column, v.line, v.last, v.top, v.shows)

pub console_putc_color-IsConsole :
    (c back fore : ℕ) (s : Console) → IsConsole s → IsConsole (console_putc_color c back fore s)
unfolding console_putc_color
console_putc_color-IsConsole c back fore s v =
    settle-IsConsole (put_char c back fore s) (put_char-IsNear c back fore s v)

put_char-out :
    (c back fore : ℕ) (s : Console) (k : ℕ)
    → IsConsole s
    → 128 * 80 ≤ k
    → (put_char c back fore s).video_buffer k ≡ s.video_buffer k
unfolding put_char
put_char-out c back fore s k v h = ground (arith, v.column, v.line)

end_line-out : (s : Console) (k : ℕ) → (end_line s).video_buffer k ≡ s.video_buffer k
unfolding end_line
end_line-out s k = ground arith

scroll_buffer-out :
    (s : Console) (k : ℕ) → 128 * 80 ≤ k → (scroll_buffer s).video_buffer k ≡ s.video_buffer k
unfolding scroll_buffer
scroll_buffer-out s k h = elim (Bool-cases (s.buffer_y == 127)) [
  | inl y ↦ rw y (
      fill-out 80 10160 0x0F20 (copy_up 10160 0 s.video_buffer) k (inr (omega arith))
      ∙ copy_up-out 10160 0 s.video_buffer k (inr (omega arith)))
  | inr n ↦ rw n refl
]

console_putc_color-out :
    (c back fore : ℕ) (s : Console) (k : ℕ)
    → IsConsole s
    → 128 * 80 ≤ k
    → (console_putc_color c back fore s).video_buffer k ≡ s.video_buffer k
unfolding console_putc_color
console_putc_color-out c back fore s k v h =
    scroll_buffer-out (end_line (put_char c back fore s)) k h
    ∙ (end_line-out (put_char c back fore s) k ∙ put_char-out c back fore s k v h)

put_chars-IsConsole :
    (cs : List ℕ) (back fore : ℕ) (s : Console) → IsConsole s → IsConsole (put_chars back fore cs s)
unfolding put_chars
put_chars-IsConsole [] back fore s v = v
put_chars-IsConsole (c ∷ cs) back fore s v =
    put_chars-IsConsole cs back fore (console_putc_color c back fore s)
      (console_putc_color-IsConsole c back fore s v)

put_chars-out :
    (cs : List ℕ) (back fore : ℕ) (s : Console) (k : ℕ)
    → IsConsole s
    → 128 * 80 ≤ k
    → (put_chars back fore cs s).video_buffer k ≡ s.video_buffer k
unfolding put_chars
put_chars-out [] back fore s k v h = refl
put_chars-out (c ∷ cs) back fore s k v h =
    put_chars-out cs back fore (console_putc_color c back fore s) k
      (console_putc_color-IsConsole c back fore s v) h
    ∙ console_putc_color-out c back fore s k v h

console_putc_color-memory :
    (c back fore : ℕ) (s : Console)
    → (console_putc_color c back fore s).video_memory ≡ s.video_memory
unfolding console_putc_color put_char end_line scroll_buffer
console_putc_color-memory c back fore s = ground arith

put_chars-memory :
    (cs : List ℕ) (back fore : ℕ) (s : Console)
    → (put_chars back fore cs s).video_memory ≡ s.video_memory
unfolding put_chars
put_chars-memory [] back fore s = refl
put_chars-memory (c ∷ cs) back fore s =
    put_chars-memory cs back fore (console_putc_color c back fore s)
    ∙ console_putc_color-memory c back fore s

-- The view follows the output: the line being written is on the screen.
abbrev pub Follows : Console → Type 0
Follows s = (s.current_line ≤ s.buffer_y) × (s.buffer_y < s.current_line + 25)

flush_current-IsConsole :
    (s : Console)
    → IsConsole s
    → let s1 = flush_console_current s in
      IsConsole s1 × (Follows s1 × (s1.sent ≡ (s1.buffer_y - s1.current_line) * 80 + s1.buffer_x))
unfolding flush_console_current flush_console move_cursor
flush_current-IsConsole s v = elim (Bool-cases (leb 24 s.buffer_y)) [
  | inl y ↦
      let le : 24 ≤ s.buffer_y = ground arith in
      rw y (
        record { column = v.column; line = v.line; shows = omega (arith, v.line) },
        ((omega arith, omega arith), omega (arith, v.line, v.column)),
      )
  | inr n ↦
      let lt : s.buffer_y < 24 = ground arith in
      rw n (
        record { column = v.column; line = v.line; shows = omega (arith, v.line) },
        ((omega arith, omega arith), omega (arith, v.line, v.column)),
      )
]

flush_current-buffer :
    (s : Console) (k : ℕ) → (flush_console_current s).video_buffer k ≡ s.video_buffer k
unfolding flush_console_current flush_console
flush_current-buffer s k = ground arith

flush_past :
    (s : Console) (k : ℕ)
    → shown s ≤ k
    → 25 * 80 ≤ k
    → (flush_console s).video_memory k ≡ s.video_memory k
flush_past s k l h =
    let n : ltb k (shown s) ≡ false = ground arith in
    let o : ltb k 2000 ≡ false = ground arith in
    subst
      (λ b. (flush_console s).video_memory k ≡ (
        if b
        then s.video_buffer (s.current_line * 80 + k)
        else if ltb k 2000
        then blank
        else s.video_memory k))
      n (flush_console_lem s k)
    ∙ rw o refl

flush_current-out :
    (s : Console) (k : ℕ)
    → 25 * 80 ≤ k
    → (flush_console_current s).video_memory k ≡ s.video_memory k
unfolding flush_console_current
flush_current-out s k h = elim (Bool-cases (leb 24 s.buffer_y)) [
  | inl y ↦
      let le : 24 ≤ s.buffer_y = ground arith in
      rw y (flush_past (record s { current_line = s.buffer_y + 1 - 25 }) k (omega arith) h)
  | inr n ↦
      let lt : s.buffer_y < 24 = ground arith in
      rw n (flush_past (record s { current_line = 0 }) k (omega arith) h)
]

-- Whatever is printed on a well-formed console, the output position stays in the buffer, the line
-- being written stays on the screen with the cursor on it, and no cell outside of the buffer and
-- none outside of the screen changes.
pub console_write_color-IsConsole :
    (cs : List ℕ) (back fore : ℕ) (s : Console)
    → IsConsole s
    → let s1 = console_write_color cs back fore s in
      IsConsole s1
      × (Follows s1 × (s1.sent ≡ (s1.buffer_y - s1.current_line) * 80 + s1.buffer_x))
      × ((k : ℕ) → 128 * 80 ≤ k → s1.video_buffer k ≡ s.video_buffer k)
      × ((k : ℕ) → 25 * 80 ≤ k → s1.video_memory k ≡ s.video_memory k)
unfolding console_write_color
console_write_color-IsConsole cs back fore s v =
    let t = put_chars back fore cs s in
    let (v1, f) = flush_current-IsConsole t (put_chars-IsConsole cs back fore s v) in
    (
      v1,
      f,
      (λ k h. flush_current-buffer t k ∙ put_chars-out cs back fore s k v h),
      λ k h. flush_current-out t k h ∙ ap (λ m. m k) (put_chars-memory cs back fore s),
    )

-- Scrolling the view up or down keeps the console well formed: the first line shown stays at or
-- above the line being written, whatever the offset.
pub console_view-IsConsole :
    (offset : ℕ) (s : Console)
    → IsConsole s
    → IsConsole (console_view_up offset s) × IsConsole (console_view_down offset s)
unfolding console_view_up console_view_down flush_console
console_view-IsConsole offset s v =
    (ground (arith, v.column, v.line, v.shows), ground (arith, v.column, v.line, v.shows))
