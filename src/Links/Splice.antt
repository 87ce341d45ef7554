-- ===== src/Links/Splice.antt =====
-- include/lib/list.h: joining two lists, and cutting one.
use mathlib.Core.List.{append-nil}
use hurlex_ii.Base.{
  ℕ, inl, inr, Bool-cases, ◌≡◌, ◌≢◌, refl, true, false, List, [], ◌∷◌, ◌++◌, arith,
}
use hurlex_ii.Links.{
  Links, list_empty, list_splice_between, list_splice_init, list_splice_tail_init, init_list_head,
}
use hurlex_ii.Links.Ring.{
  has, Distinct, last_or, first_or, Linked, Chain, Left, Right, IsRing, Left-of, Right-of,
  Left-append, Right-append, connect, frame-Left, frame-Right, has-append, ne_of_has,
  Distinct-apart, Distinct-append, has-last_or, has-first_or, ne_first, ne_last, parts, first_link,
  last_link,
}

-- No node of the one ring, heads included, is in the other.
abbrev pub NoShare : ℕ → List ℕ → ℕ → List ℕ → Type 0
NoShare a xs b ys = (v : ℕ) → has v (a ∷ xs) ≡ true → has v (b ∷ ys) ≡ false

module _ (h : Links) (list head x : ℕ) (xs us vs : List ℕ) (ring : IsRing h head (us ++ vs))
    (other : IsRing h list (x ∷ xs)) (apart : NoShare list (x ∷ xs) head (us ++ vs)) where
  abbrev joined : Links
  joined = list_splice_between list (last_or head us) (first_or vs head) h

  mine : (v w : ℕ) → has v (head ∷ us) ≡ true → has w (x ∷ xs) ≡ true → v ≢ w
  mine v w i j = ne_of_has v w (head ∷ us) i (ground (arith, apart w, has-append w us vs))

  theirs : (v w : ℕ) → has v (vs ++ (head ∷ [])) ≡ true → has w (x ∷ xs) ≡ true → v ≢ w
  theirs v w i j =
      ne_of_has v w (vs ++ (head ∷ [])) i
        (ground (arith, apart w, has-append w us vs, has-append w vs (head ∷ [])))

  splice_ends : (h.next list ≡ x) × (h.prev list ≡ last_or x xs)
  splice_ends = (
    (first_link h list list (x ∷ xs) other.path).0,
    (last_link h list list (x ∷ xs) other.path).1,
  )

  splice-Left : Left joined head us
  unfolding list_splice_between
  splice-Left =
      frame-Left h joined head us (parts head us vs ring.distinct).0
        (λ v i ne. ground (arith, splice_ends, mine v (last_or x xs) i (has-last_or x xs)))
        (λ v i. ground (arith, splice_ends, mine v x, ne_first head us vs ring.distinct v i))
        (Left-append h head us vs (Left-of h head head (us ++ vs) ring.path))

  splice_mid : Left joined x xs
  unfolding list_splice_between
  splice_mid =
      frame-Left h joined x xs other.distinct.1
        (λ v i ne. ground (arith, splice_ends, mine (last_or head us) v (has-last_or head us) i))
        (λ v i. ground (
          arith,
          splice_ends,
          other.distinct.1.0,
          ne_of_has v x xs i other.distinct.1.0,
          theirs (first_or vs head) v (has-first_or vs head),
        ))
        (Left-of h x list xs other.path.1)

  splice-Right : Right joined vs head
  unfolding list_splice_between
  splice-Right =
      frame-Right h joined vs head (parts head us vs ring.distinct).1
        (parts head us vs ring.distinct).2
        (λ v i. ground (
          arith,
          splice_ends,
          ne_last head us vs ring.distinct v i,
          theirs v (last_or x xs) (ground (arith, has-append v vs (head ∷ []))) (has-last_or x xs),
        ))
        (λ v i ne. ground (arith, splice_ends, theirs v x i))
        (Right-append h head us vs (Right-of h head head (us ++ vs) ring.path))

  splice_edges : Linked joined (last_or head us) x × Linked joined (last_or x xs) (first_or vs head)
  unfolding list_splice_between
  splice_edges = (
    (
      ground (
        arith,
        splice_ends,
        mine (last_or head us) (last_or x xs) (has-last_or head us) (has-last_or x xs),
      ),
      ground (arith, splice_ends, theirs (first_or vs head) x (has-first_or vs head)),
    ),
    (ground (arith, splice_ends), ground (arith, splice_ends)),
  )

  splice-IsRing : IsRing joined head (us ++ (x ∷ (xs ++ vs)))
  splice-IsRing =
      let mid = connect joined x head xs vs splice_mid splice_edges.1 splice-Right in
      record {
        path =
            connect joined head head us (x ∷ (xs ++ vs)) splice-Left splice_edges.0
              (first_link joined x head (xs ++ vs) mid, Right-of joined x head (xs ++ vs) mid);
        distinct = splice_distinct;
      }
    where
      outside : (v : ℕ) → has v (head ∷ us) ≡ true → has v (x ∷ (xs ++ vs)) ≡ false
      outside v i = elim (Bool-cases (has v (x ∷ xs))) [
        | inl e ↦ absurd (mine v v i e refl)
        | inr e ↦
            ground (arith, has-append v xs vs, Distinct-apart v (head ∷ us) vs ring.distinct i)
      ]

      inside : (v : ℕ) → has v (x ∷ xs) ≡ true → has v vs ≡ false
      inside v i = ground (arith, apart v, has-append v us vs)

      splice_distinct : Distinct ((head ∷ us) ++ (x ∷ (xs ++ vs)))
      splice_distinct =
          Distinct-append (head ∷ us) (x ∷ (xs ++ vs)) (parts head us vs ring.distinct).0
            (Distinct-append (x ∷ xs) vs other.distinct.1 (parts head us vs ring.distinct).1 inside)
            outside

pub frame-Chain :
    (h g : Links) (a b : ℕ) (xs : List ℕ)
    → ((v : ℕ) → has v (a ∷ xs) ≡ true → g.next v ≡ h.next v)
    → ((v : ℕ) → has v (xs ++ (b ∷ [])) ≡ true → g.prev v ≡ h.prev v)
    → Chain h a xs b
    → Chain g a xs b
frame-Chain h g a b [] n p c = (ground (arith, n a), ground (arith, p b))
frame-Chain h g a b (x ∷ xs) n p c = (
  (ground (arith, n a), ground (arith, p x)),
  frame-Chain h g x b xs (λ v i. n v (ground arith)) (λ v i. p v (ground arith)) c.1,
)

-- A head outside a ring is emptied, and the ring stays.
init-IsRing :
    (h : Links) (list head : ℕ) (xs : List ℕ)
    → IsRing h head xs
    → has list (head ∷ xs) ≡ false
    → IsRing (init_list_head list h) head xs × IsRing (init_list_head list h) list []
unfolding init_list_head
init-IsRing h list head xs r o = (
  record {
    path =
        frame-Chain h (init_list_head list h) head head xs
          (λ v i. ground (arith, ne_of_has v list (head ∷ xs) i o))
          (λ v i.
            ground (arith, ne_of_has v list (xs ++ (head ∷ [])) i, has-append list xs (head ∷ [])))
          r.path;
    distinct = r.distinct;
  },
  record { path = (ground arith, ground arith); distinct = (refl, tt) },
)

-- `list_empty` tells whether a ring holds no node.
pub list_empty-nil : (h : Links) (head : ℕ) → IsRing h head [] → list_empty head h ≡ true
unfolding list_empty
list_empty-nil h head r = ground (arith, r.path.0)

pub list_empty-cons :
    (h : Links) (head x : ℕ) (xs : List ℕ) → IsRing h head (x ∷ xs) → list_empty head h ≡ false
unfolding list_empty
list_empty-cons h head x xs r = ground (arith, r.path.0.0, r.distinct.0)

-- `list_splice_init` moves all nodes of one list to the front of another, and empties the first.
pub list_splice_init-IsRing :
    (h : Links) (list head : ℕ) (xs ys : List ℕ)
    → IsRing h list xs
    → IsRing h head ys
    → NoShare list xs head ys
    → IsRing (list_splice_init list head h) head (xs ++ ys)
      × IsRing (list_splice_init list head h) list []
unfolding list_splice_init
list_splice_init-IsRing h list head [] ys other ring apart =
    rw (list_empty-nil h list other) (ring, other)
list_splice_init-IsRing h list head (x ∷ xs) ys other ring apart =
    rw (list_empty-cons h list x xs other, (first_link h head head ys ring.path).0)
      (init-IsRing _ list head (x ∷ (xs ++ ys))
        (splice-IsRing h list head x xs [] ys ring other apart)
        (ground (arith, apart list, has-append list xs ys, other.distinct.0)))

-- `list_splice_tail_init` moves them to the end.
pub list_splice_tail_init-IsRing :
    (h : Links) (list head : ℕ) (xs ys : List ℕ)
    → IsRing h list xs
    → IsRing h head ys
    → NoShare list xs head ys
    → IsRing (list_splice_tail_init list head h) head (ys ++ xs)
      × IsRing (list_splice_tail_init list head h) list []
unfolding list_splice_tail_init
list_splice_tail_init-IsRing h list head [] ys other ring apart =
    rw (list_empty-nil h list other) (rw (append-nil ys) ring, other)
list_splice_tail_init-IsRing h list head (x ∷ xs) ys other ring apart =
    rw (list_empty-cons h list x xs other, (last_link h head head ys ring.path).1)
      (init-IsRing _ list head (ys ++ (x ∷ xs))
        (rw (append-nil xs) at (
          splice-IsRing h list head x xs ys [] (rw (append-nil ys) ring) other
            (rw (append-nil ys) apart)))
        (ground (arith, apart list, has-append list ys (x ∷ xs), other.distinct.0)))
