-- ===== src/Console/Scroll.antt =====
-- arch/i386/driver/console.c: the loops over cells, cell by cell.
use Prim.Native.Nat.{ℕ, zero, suc, ◌+◌, ◌-◌, ◌*◌, ◌<◌, ◌≤◌}
use hurlex_ii.Base.{
  ◌≡◌, refl, ◌∙◌, ◌≢◌, true, arith, ◌==◌, ltb, ltb→lt, ltb_false→le, if◌then◌else◌, Bool-cases, inl,
  inr, update, ◌⊎◌, subst,
}
use hurlex_ii.Console.{
  Console, con_width, con_high, buff_width, blank, fill, copy_up, show_cells, shown, scroll_buffer,
  flush_console,
}

update_self : (a : ℕ → ℕ) (i v : ℕ) → update a i v i ≡ v
update_self a i v = ground arith

update_ne : (a : ℕ → ℕ) (i v k : ℕ) → i ≢ k → update a i v k ≡ a k
update_ne a i v k ne = ground arith

pub fill-out :
    (count first value : ℕ) (a : ℕ → ℕ) (k : ℕ)
    → (k < first) ⊎ (first + count ≤ k)
    → fill count first value a k ≡ a k
unfolding fill
fill-out zero first value a k o = refl
fill-out (suc count) first value a k o =
    fill-out count (first + 1) value (update a first value) k (ground arith)
    ∙ update_ne a first value k (ground arith)

fill-in :
    (count first value : ℕ) (a : ℕ → ℕ) (k : ℕ)
    → first ≤ k
    → k < first + count
    → fill count first value a k ≡ value
unfolding fill
fill-in zero first value a k l h = absurd (omega arith)
fill-in (suc count) first value a k l h = elim (Bool-cases (first == k)) [
  | inl y ↦
      let e : first ≡ k = ground arith in
      fill-out count (first + 1) value (update a first value) k (inl (omega arith))
      ∙ subst (λ j. update a first value j ≡ value) e (update_self a first value)
  | inr n ↦
      let ne : first ≢ k = ground arith in
      fill-in count (first + 1) value (update a first value) k (omega arith) (omega arith)
]

show_cells-out :
    (count i j : ℕ) (buffer memory : ℕ → ℕ) (k : ℕ)
    → (k < i) ⊎ (i + count ≤ k)
    → show_cells count i j buffer memory k ≡ memory k
unfolding show_cells
show_cells-out zero i j buffer memory k o = refl
show_cells-out (suc count) i j buffer memory k o =
    show_cells-out count (i + 1) (j + 1) buffer (update memory i (buffer j)) k (ground arith)
    ∙ update_ne memory i (buffer j) k (ground arith)

show_cells-in :
    (count i j : ℕ) (buffer memory : ℕ → ℕ) (k : ℕ)
    → k < count
    → show_cells count i j buffer memory (i + k) ≡ buffer (j + k)
unfolding show_cells
show_cells-in zero i j buffer memory k h = absurd (omega arith)
show_cells-in (suc count) i j buffer memory zero h =
    let e : i + 0 ≡ i = omega arith in
    let f : j + 0 ≡ j = omega arith in
    rw (e, f)
      (show_cells-out count (i + 1) (j + 1) buffer (update memory i (buffer j)) i
          (inl (omega arith))
        ∙ update_self memory i (buffer j))
show_cells-in (suc count) i j buffer memory (suc k) h =
    let e : i + suc k ≡ i + 1 + k = omega arith in
    let f : j + suc k ≡ j + 1 + k = omega arith in
    rw (e, f)
      (show_cells-in count (i + 1) (j + 1) buffer (update memory i (buffer j)) k (omega arith))

show_cells_first :
    (count j : ℕ) (buffer memory : ℕ → ℕ) (k : ℕ)
    → k < count
    → show_cells count 0 j buffer memory k ≡ buffer (j + k)
show_cells_first count j buffer memory k h =
    let e : 0 + k ≡ k = omega arith in
    subst (λ i. show_cells count 0 j buffer memory i ≡ buffer (j + k)) e
      (show_cells-in count 0 j buffer memory k h)

pub copy_up-out :
    (count i : ℕ) (a : ℕ → ℕ) (k : ℕ) → (k < i) ⊎ (i + count ≤ k) → copy_up count i a k ≡ a k
unfolding copy_up
copy_up-out zero i a k o = refl
copy_up-out (suc count) i a k o =
    copy_up-out count (i + 1) (update a i (a (i + buff_width))) k (ground arith)
    ∙ update_ne a i (a (i + buff_width)) k (ground arith)

copy_up-in :
    (count i : ℕ) (a : ℕ → ℕ) (k : ℕ)
    → i ≤ k
    → k < i + count
    → copy_up count i a k ≡ a (k + buff_width)
unfolding copy_up
copy_up-in zero i a k l h = absurd (omega arith)
copy_up-in (suc count) i a k l h = elim (Bool-cases (i == k)) [
  | inl y ↦
      let e : i ≡ k = ground arith in
      copy_up-out count (i + 1) (update a i (a (i + buff_width))) k (inl (omega arith))
      ∙ subst (λ j. update a i (a (i + buff_width)) j ≡ a (j + buff_width)) e
          (update_self a i (a (i + buff_width)))
  | inr n ↦
      let ne : i ≢ k = ground arith in
      copy_up-in count (i + 1) (update a i (a (i + buff_width))) k (omega arith) (omega arith)
      ∙ update_ne a i (a (i + buff_width)) (k + buff_width) (omega arith)
]

-- When the output has reached the last line of the buffer, every line moves up by one, the last line
-- is blank, the output goes back to the line before it, and cells outside of the buffer stay.
pub scroll_buffer_lem :
    (s : Console) (i : ℕ)
    → s.buffer_y ≡ 127
    → let s1 = scroll_buffer s in
      (s1.buffer_y ≡ 126)
      × (s1.video_buffer i ≡ (
          if ltb i (127 * 80)
          then s.video_buffer (i + 80)
          else if ltb i (128 * 80)
          then blank
          else s.video_buffer i))
unfolding scroll_buffer
scroll_buffer_lem s i e =
    let q : (s.buffer_y == 127) ≡ true = ground arith in
    let moved = copy_up 10160 0 s.video_buffer in
    rw q (
      omega arith,
      elim (Bool-cases (ltb i 10160)) [
        | inl y ↦ rw y (
            fill-out 80 10160 blank moved i (inl (ltb→lt i 10160 y))
            ∙ copy_up-in 10160 0 s.video_buffer i (omega arith) (omega (arith, ltb→lt i 10160 y)))
        | inr n ↦ elim (Bool-cases (ltb i 10240)) [
          | inl y ↦
              rw (n, y)
                (fill-in 80 10160 blank moved i (ltb_false→le i 10160 n)
                  (omega (arith, ltb→lt i 10240 y)))
          | inr o ↦
              let h : 10240 ≤ i = ltb_false→le i 10240 o in
              rw (n, o)
                (fill-out 80 10160 blank moved i (inr (omega arith))
                  ∙ copy_up-out 10160 0 s.video_buffer i (inr (omega arith)))
        ]
      ],
    )

-- After a flush the screen's memory holds the lines of the buffer from the first one shown to the
-- one being written, then blanks to the end of the screen, and is unchanged behind both.
pub flush_console_lem :
    (s : Console) (i : ℕ)
    → (flush_console s).video_memory i ≡ (
        if ltb i (shown s)
        then s.video_buffer (s.current_line * con_width + i)
        else if ltb i (con_width * con_high)
        then blank
        else s.video_memory i)
unfolding flush_console
flush_console_lem s i =
    let n = shown s in
    let j = s.current_line * con_width in
    let memory = show_cells n 0 j s.video_buffer s.video_memory in
    elim (Bool-cases (ltb i n)) [
      | inl y ↦ rw y (
          fill-out (2000 - n) n blank memory i (inl (ltb→lt i n y))
          ∙ show_cells_first n j s.video_buffer s.video_memory i (ltb→lt i n y))
      | inr o ↦ elim (Bool-cases (ltb i 2000)) [
        | inl y ↦
            rw (o, y)
              (fill-in (2000 - n) n blank memory i (ltb_false→le i n o)
                (omega (arith, ltb→lt i 2000 y)))
        | inr m ↦
            let l : n ≤ i = ltb_false→le i n o in
            let h : 2000 ≤ i = ltb_false→le i 2000 m in
            rw (o, m)
              (fill-out (2000 - n) n blank memory i (inr (omega arith))
                ∙ show_cells-out n 0 j s.video_buffer s.video_memory i (inr (omega arith)))
      ]
    ]
