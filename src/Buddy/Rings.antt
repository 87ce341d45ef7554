-- ===== src/Buddy/Rings.antt =====
-- mm/buddy_mm.c: the eleven free lists in one store of links.
use hurlex_ii.Base.{
  ℕ, ◌≤◌, ◌<◌, ◌≡◌, ◌≢◌, true, false, List, [], ◌∷◌, arith, ◌==◌, Bool-cases, inl, inr, update, sym,
  subst, ◌⊎◌,
}
use hurlex_ii.Links.{Links, list_add, list_add_between, list_del, list_del_between}
use hurlex_ii.Links.Ring.{IsRing, has, first_or, has-append, ne_of_has, first_link}
use hurlex_ii.Links.Ops.{list_add-IsRing, list_del-IsRing}
use hurlex_ii.Links.Splice.{frame-Chain}

-- The list of each order, its head at the order; no node is on two lists.
pub record IsRings (h : Links) (free : ℕ → List ℕ) : Type 0 where
  pub ring : (o : ℕ) → o < 11 → IsRing h o (free o)
  pub behind : (o v : ℕ) → o < 11 → has v (free o) ≡ true → 11 ≤ v
  pub apart : (o p v : ℕ) → o < 11 → p < 11 → o ≢ p → has v (free o) ≡ true → has v (free p) ≡ false

outside :
    (h : Links) (free : ℕ → List ℕ) (o p v : ℕ)
    → IsRings h free
    → o < 11
    → p < 11
    → o ≢ p
    → has v (p ∷ free p) ≡ true
    → has v (o ∷ free o) ≡ false
outside h free o p v r a b ne i = elim (Bool-cases (v == p)) [
  | inl y ↦
      let e : v ≡ p = ground arith in
      elim (Bool-cases (has v (free o))) [
        | inl k ↦ let big = r.behind o v a k in absurd (omega arith)
        | inr k ↦ ground arith
      ]
  | inr n ↦
      let k : has v (free p) ≡ true = ground arith in
      let big = r.behind p v b k in ground (arith, r.apart p o v b a (λ e. ne (sym e)) k)
]

-- A ring stays when the links of its nodes stay.
frame-IsRing :
    (h g : Links) (a : ℕ) (xs : List ℕ)
    → ((v : ℕ) → has v (a ∷ xs) ≡ true → (g.next v ≡ h.next v) × (g.prev v ≡ h.prev v))
    → IsRing h a xs
    → IsRing g a xs
frame-IsRing h g a xs same r = record {
  path =
      frame-Chain h g a a xs (λ v i. (same v i).0)
        (λ v i. (same v (ground (arith, has-append v xs (a ∷ [])))).1) r.path;
  distinct = r.distinct;
}

has-first : (a : ℕ) (xs : List ℕ) → has (first_or xs a) (a ∷ xs) ≡ true
has-first a [] = ground arith
has-first a (x ∷ xs) = ground arith

next_out :
    (h : Links) (o v : ℕ) (xs : List ℕ) → IsRing h o xs → has v (o ∷ xs) ≡ false → v ≢ h.next o
next_out h o v xs r out e =
    let f = (first_link h o o xs r.path).0 in
    ne_of_has (h.next o) v (o ∷ xs) (subst (λ w. has w (o ∷ xs) ≡ true) (sym f) (has-first o xs))
      out (sym e)

-- `list_add` changes the links of its node and of the ring only.
list_add-frame :
    (h : Links) (e o v : ℕ) (xs : List ℕ)
    → IsRing h o xs
    → v ≢ e
    → has v (o ∷ xs) ≡ false
    → ((list_add e o h).next v ≡ h.next v) × ((list_add e o h).prev v ≡ h.prev v)
unfolding list_add list_add_between
list_add-frame h e o v xs r ne out =
    let n = next_out h o v xs r out in
    let m : v ≢ o = ground arith in (ground (arith, ne, m), ground (arith, n, ne))

list_del-frame :
    (h : Links) (e o v : ℕ) (xs : List ℕ)
    → IsRing h o (e ∷ xs)
    → has v (o ∷ e ∷ xs) ≡ false
    → ((list_del e h).next v ≡ h.next v) × ((list_del e h).prev v ≡ h.prev v)
unfolding list_del list_del_between
list_del-frame h e o v xs r out =
    let a = r.path.0.1 in
    let b = (first_link h e o xs r.path.1).0 in
    let n : v ≢ first_or xs o =
      λ e. ne_of_has (first_or xs o) v (o ∷ xs) (has-first o xs) (ground arith) (sym e) in
    let m : v ≢ o = ground arith in (ground (arith, a, m), ground (arith, b, n))

-- What is on a list to which a node has been pushed.
pub pushed :
    (free : ℕ → List ℕ) (e o p v : ℕ)
    → has v (update free o (e ∷ free o) p) ≡ true
    → ((v ≡ e) × (o ≡ p)) ⊎ (has v (free p) ≡ true)
pushed free e o p v i = elim (Bool-cases (o == p)) [
  | inl y ↦
      let z : o ≡ p = ground arith in
      let k : has v (e ∷ free o) ≡ true = rw y at i in
      elim (Bool-cases (v == e)) [
        | inl q ↦ inl (ground arith, z)
        | inr q ↦ inr (rw (← z) (ground arith))
      ]
  | inr n ↦ inr (rw n at i)
]

-- A node from nowhere goes to the front of a list.
pub push-IsRings :
    (h : Links) (free : ℕ → List ℕ) (e o : ℕ)
    → IsRings h free
    → o < 11
    → 11 ≤ e
    → ((p : ℕ) → p < 11 → has e (free p) ≡ false)
    → IsRings (list_add e o h) (update free o (e ∷ free o))
push-IsRings h free e o r a big fresh = record { ring = ring; behind = behind; apart = apart }
  where
    fresh_ne : (p v : ℕ) → p < 11 → has v (p ∷ free p) ≡ true → v ≢ e
    fresh_ne p v b i = ne_of_has v e (p ∷ free p) i (ground (arith, fresh p b))

    ring : (p : ℕ) → p < 11 → IsRing (list_add e o h) p (update free o (e ∷ free o) p)
    ring p b = elim (Bool-cases (o == p)) [
      | inl y ↦
          let i : o ≡ p = ground arith in
          rw y (
            subst (λ w. IsRing (list_add e o h) w (e ∷ free o)) i
              (list_add-IsRing h e o (free o) (r.ring o a) (ground (arith, fresh o a))))
      | inr n ↦ rw n (
          frame-IsRing h (list_add e o h) p (free p)
            (λ v i.
              list_add-frame h e o v (free o) (r.ring o a) (fresh_ne p v b i)
                (outside h free o p v r a b (ground arith) i))
            (r.ring p b))
    ]

    behind : (p v : ℕ) → p < 11 → has v (update free o (e ∷ free o) p) ≡ true → 11 ≤ v
    behind p v b i = elim (pushed free e o p v i) [
      | inl (x, y) ↦ omega arith
      | inr k ↦ r.behind p v b k
    ]

    apart :
        (p q v : ℕ)
        → p < 11
        → q < 11
        → p ≢ q
        → has v (update free o (e ∷ free o) p) ≡ true
        → has v (update free o (e ∷ free o) q) ≡ false
    apart p q v b c ne i = elim (pushed free e o p v i) [
      | inl (x, y) ↦ let n : (o == q) ≡ false = ground arith in rw (n, x) (fresh q c)
      | inr k ↦
          let l = r.apart p q v b c ne k in
          let m = fresh_ne p v b (ground arith) in
          elim (Bool-cases (o == q)) [
            | inl y ↦
                let z : o ≡ q = ground arith in
                let w : (v == e) ≡ false = ground arith in rw (y, z, w) l
            | inr n ↦ rw n l
          ]
    ]

-- What is on a list whose first node has been popped.
pub popped :
    (free : ℕ → List ℕ) (e o p v : ℕ) (rest : List ℕ)
    → free o ≡ e ∷ rest
    → has v (update free o rest p) ≡ true
    → has v (free p) ≡ true
popped free e o p v rest f i = elim (Bool-cases (o == p)) [
  | inl y ↦
      let z : o ≡ p = ground arith in
      let k : has v rest ≡ true = rw y at i in
      subst (λ q. has v (free q) ≡ true) z (rw f (ground arith))
  | inr n ↦ (rw n at i)
]

-- The first node of a list is taken off.
pub pop-IsRings :
    (h : Links) (free : ℕ → List ℕ) (e o : ℕ) (rest : List ℕ)
    → IsRings h free
    → o < 11
    → free o ≡ e ∷ rest
    → IsRings (list_del e h) (update free o rest)
pop-IsRings h free e o rest r a f = record {
  ring = ring;
  behind = λ p v b i. r.behind p v b (popped free e o p v rest f i);
  apart = λ p q v b c ne i. apart q v c (r.apart p q v b c ne (popped free e o p v rest f i));
}
  where
    whole : IsRing h o (e ∷ rest)
    whole = subst (IsRing h o) f (r.ring o a)

    ring : (p : ℕ) → p < 11 → IsRing (list_del e h) p (update free o rest p)
    ring p b = elim (Bool-cases (o == p)) [
      | inl y ↦
          let i : o ≡ p = ground arith in
          rw y (subst (λ w. IsRing (list_del e h) w rest) i (list_del-IsRing h e o [] rest whole))
      | inr n ↦ rw n (
          frame-IsRing h (list_del e h) p (free p)
            (λ v i. list_del-frame h e o v rest whole (
              subst (λ xs. has v (o ∷ xs) ≡ false) f (outside h free o p v r a b (ground arith) i)))
            (r.ring p b))
    ]

    apart : (q v : ℕ) → q < 11 → has v (free q) ≡ false → has v (update free o rest q) ≡ false
    apart q v c k = elim (Bool-cases (has v (update free o rest q))) [
      | inl y ↦ let m = popped free e o q v rest f y in cc
      | inr n ↦ n
    ]
