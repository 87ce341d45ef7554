-- ===== src/Keyboard/Queue.antt =====
-- driver/kboard.c: the circular buffer against a bounded queue of characters.
use Prim.Native.Nat.{ℕ, zero, suc, ◌+◌, ◌-◌, ◌%◌, ◌<◌}
use hurlex_ii.Base.{
  ◌≡◌, refl, ap, ◌∙◌, ◌≢◌, true, false, List, [], ◌∷◌, ◌++◌, arith, length, get_or, set, length-set,
  get_or-set_self, get_or-set_ne, ◌==◌, if◌then◌else◌, Bool-cases, inl, inr,
}
use mathlib.Core.Path.{ap₂}
use hurlex_ii.Keyboard.{Kboard, kbuffer_len, kb_getchar, kb_read, enqueue}

-- The characters at `count` places of the buffer from `front` on.
abbrev pub waiting : List ℕ → (front count : ℕ) → List ℕ
waiting buf front zero = []
waiting buf front (suc count) = get_or buf front 0 ∷ waiting buf ((front + 1) % kbuffer_len) count

abbrev pub held : Kboard → ℕ
held s = (s.krear + kbuffer_len - s.kfront) % kbuffer_len

abbrev pub contents : Kboard → List ℕ
contents s = waiting s.kbuffer s.kfront (held s)

pub record IsQueue (s : Kboard) : Type 0 where
  pub room : length s.kbuffer ≡ kbuffer_len
  pub front : s.kfront < kbuffer_len
  pub rear : s.krear < kbuffer_len

pub length-waiting : (buf : List ℕ) (front count : ℕ) → length (waiting buf front count) ≡ count
length-waiting buf front zero = refl
length-waiting buf front (suc count) = ap suc (length-waiting buf ((front + 1) % kbuffer_len) count)

waiting-set :
    (buf : List ℕ) (ch front count rear : ℕ)
    → length buf ≡ kbuffer_len
    → front < kbuffer_len
    → suc count < kbuffer_len
    → rear ≡ (front + count) % kbuffer_len
    → waiting (set buf rear ch) front (suc count) ≡ waiting buf front count ++ (ch ∷ [])
waiting-set buf ch front zero rear hl hf hc e =
    let q : rear ≡ front = omega arith in rw (q, get_or-set_self buf front ch 0 (omega arith)) refl
waiting-set buf ch front (suc count) rear hl hf hc e =
    let ne : rear ≢ front = omega arith in
    ap₂ ◌∷◌ (get_or-set_ne buf rear front ch 0 ne) (
      waiting-set buf ch ((front + 1) % kbuffer_len) count rear hl (omega arith) (omega arith)
        (omega arith))

-- The queue drops a character when it holds 1023, and takes it at the end otherwise.
abbrev pub push : ℕ → List ℕ → List ℕ
push ch q = if length q == 1023 then q else q ++ (ch ∷ [])

-- Storing a typed character in a valid buffer keeps the buffer valid and puts the character at the
-- end of the queue, or drops it when 1023 characters are waiting.
pub enqueue-contents :
    (ch : ℕ) (s : Kboard)
    → IsQueue s
    → IsQueue (enqueue ch s) × (contents (enqueue ch s) ≡ push ch (contents s))
unfolding enqueue
enqueue-contents ch s v = elim (Bool-cases (s.kfront == (s.krear + 1) % kbuffer_len)) [
  | inl y ↦
      let e : s.kfront ≡ (s.krear + 1) % kbuffer_len = ground arith in
      let n : (length (contents s) == 1023) ≡ true =
        rw (length-waiting s.kbuffer s.kfront (held s)) (ground (arith, v.rear, v.front)) in
      rw (y, n) (v, refl)
  | inr y ↦
      let ne : s.kfront ≢ (s.krear + 1) % kbuffer_len = ground arith in
      let n : (length (contents s) == 1023) ≡ false =
        rw (length-waiting s.kbuffer s.kfront (held s)) (ground (arith, v.rear, v.front)) in
      let r : ((s.krear + 1) % kbuffer_len + kbuffer_len - s.kfront) % kbuffer_len ≡ suc (held s) =
        omega (arith, v.rear, v.front) in
      rw (y, n, r)
        (
          record {
            room = length-set s.kbuffer s.krear ch ∙ v.room;
            front = v.front;
            rear = omega arith;
          },
          waiting-set s.kbuffer ch s.kfront (held s) s.krear v.room v.front
              (omega (arith, ne, v.rear, v.front)) (omega (arith, v.rear, v.front)),
        )
]

-- What `kb_read` takes from the queue: characters up to a zero, which is lost.
abbrev pub take_chars : ℕ → List ℕ → List ℕ × List ℕ
take_chars zero q = ([], q)
take_chars (suc len) [] = ([], [])
take_chars (suc len) (ch ∷ q) =
    let (taken, rest) = take_chars len q in if ch == 0 then ([], q) else (ch ∷ taken, rest)

abbrev pub pop : List ℕ → ℕ × List ℕ
pop [] = (0, [])
pop (ch ∷ q) = (ch, q)

kb_getchar-contents :
    (s : Kboard)
    → IsQueue s
    → let (ch, s1) = kb_getchar s in IsQueue s1 × ((ch, contents s1) ≡ pop (contents s))
unfolding kb_getchar
kb_getchar-contents s v = elim (Bool-cases (s.kfront == s.krear)) [
  | inl y ↦ let h : held s ≡ 0 = ground (arith, v.rear, v.front) in rw (y, h) (v, refl)
  | inr n ↦
      let ne : s.kfront ≢ s.krear = ground arith in
      let h : held s ≡ suc ((s.krear + kbuffer_len - (s.kfront + 1) % kbuffer_len) % kbuffer_len) =
        omega (arith, ne, v.rear, v.front) in
      rw (n, h) (record { room = v.room; front = omega arith; rear = v.rear }, refl)
]

take_chars-pop :
    (len : ℕ) (q : List ℕ)
    → take_chars (suc len) q ≡ (
        let (ch, rest) = pop q in
        let (taken, left) = take_chars len rest in
        if ch == 0 then ([], rest) else (ch ∷ taken, left))
take_chars-pop len [] = refl
take_chars-pop len (ch ∷ q) = refl

-- On a valid buffer `kb_read` returns at most `len` characters from the front of the queue, up to
-- the first zero, which it drops, and leaves a valid buffer that holds the rest.
pub kb_read-contents :
    (len : ℕ) (s : Kboard)
    → IsQueue s
    → let (out, s1) = kb_read len s in
      IsQueue s1 × ((out, contents s1) ≡ take_chars len (contents s))
unfolding kb_read
kb_read-contents zero s v = (v, refl)
kb_read-contents (suc len) s v =
    let (ch, s1) = kb_getchar s in
    let (v1, e) = kb_getchar-contents s v in
    let (v2, e2) = kb_read-contents len s1 v1 in
    rw (take_chars-pop len (contents s), ← e, ← e2)
      (elim (Bool-cases (ch == 0)) [ inl y ↦ rw y (v1, refl) | inr n ↦ rw n (v2, refl) ])
