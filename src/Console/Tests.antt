-- ===== src/Console/Tests.antt =====
-- arch/i386/driver/console.c: the theorems on a console that is at the end of its buffer.
use Prim.Native.Nat.{ℕ, ◌+◌, ◌-◌, ◌*◌, ◌≤◌}
use hurlex_ii.Base.{◌≡◌, arith, [], ◌∷◌, ltb, if◌then◌else◌}
use hurlex_ii.Console.{Console, blank, flush_console, console_write_color}
use hurlex_ii.Console.Scroll.{flush_console_lem}
use hurlex_ii.Console.Bounds.{IsConsole, Follows, console_write_color-IsConsole}

abbrev console_at : ℕ → Console
console_at line = record {
  video_memory = λ i. blank;
  cursor_x = 0;
  cursor_y = 0;
  video_buffer = λ i. i;
  buffer_x = 79;
  buffer_y = line;
  current_line = 100;
  sent = 0;
}

line126-IsConsole : IsConsole (console_at 126)
line126-IsConsole = record { column = omega arith; line = omega arith; shows = omega arith }

-- "a\n" at the last place of the last line.
console_write_color-IsConsole_example :
    let s1 = console_write_color (97 ∷ 10 ∷ []) 0 15 (console_at 126) in
    IsConsole s1
    × (Follows s1 × (s1.sent ≡ (s1.buffer_y - s1.current_line) * 80 + s1.buffer_x))
    × ((k : ℕ) → 128 * 80 ≤ k → s1.video_buffer k ≡ k)
    × ((k : ℕ) → 25 * 80 ≤ k → s1.video_memory k ≡ blank)
console_write_color-IsConsole_example =
    console_write_color-IsConsole (97 ∷ 10 ∷ []) 0 15 (console_at 126) line126-IsConsole

flush_console_lem_example :
    (flush_console (console_at 120)).video_memory 5
    ≡ (if ltb 5 (20 * 80 + 79) then 100 * 80 + 5 else if ltb 5 2000 then blank else blank)
flush_console_lem_example = flush_console_lem (console_at 120) 5
