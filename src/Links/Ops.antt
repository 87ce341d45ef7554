-- ===== src/Links/Ops.antt =====
-- include/lib/list.h: what the list operations do to the rings of a store.
use hurlex_ii.Base.{ℕ, ◌≡◌, refl, false, List, [], ◌∷◌, ◌++◌, arith}
use mathlib.Core.List.{append-nil, append_assoc}
use hurlex_ii.Links.{Links, list_add_between, list_add, list_add_before, list_add_tail, list_del}
use hurlex_ii.Links.{list_del_between}
use hurlex_ii.Links.Ring.{
  has, last_or, first_or, IsRing, Left-of, Right-of, Left-append, Right-append, connect, frame-Left,
  frame-Right, has-append, has-last_or, has-first_or, ne_first, ne_last, ne_fresh_left,
  ne_fresh_right, parts, Distinct-insert, Distinct-remove, first_link, last_link, split,
}

-- A fresh node between the two parts of a ring.
module _ (h : Links) (new head : ℕ) (us vs : List ℕ) where
  abbrev grown : Links
  grown = list_add_between new (last_or head us) (first_or vs head) h

  insert-IsRing :
      IsRing h head (us ++ vs)
      → has new (head ∷ (us ++ vs)) ≡ false
      → IsRing grown head (us ++ (new ∷ vs))
  unfolding list_add_between
  insert-IsRing r o =
      let (dl, dr, ov) = parts head us vs r.distinct in
      record {
        path =
            connect grown head head us (new ∷ vs)
              (frame-Left h grown head us dl
                (λ v i ne. ground (arith, ne_fresh_left head us vs r.distinct v new o i))
                (λ v i. ground (
                  arith,
                  ne_first head us vs r.distinct v i,
                  ne_fresh_left head us vs r.distinct v new o,
                ))
                (Left-append h head us vs (Left-of h head head (us ++ vs) r.path)))
              (ground arith)
              (
                (
                  ground (
                    arith,
                    ne_fresh_left head us vs r.distinct (last_or head us) new o,
                    has-last_or head us,
                  ),
                  ground (
                    arith,
                    ne_fresh_right head us vs r.distinct (first_or vs head) new o,
                    has-first_or vs head,
                  ),
                ),
                frame-Right h grown vs head dr ov
                    (λ v i. ground (
                      arith,
                      ne_last head us vs r.distinct v i,
                      ne_fresh_right head us vs r.distinct v new o,
                      has-append v vs (head ∷ []),
                    ))
                    (λ v i ne. ground (arith, ne_fresh_right head us vs r.distinct v new o i))
                    (Right-append h head us vs (Right-of h head head (us ++ vs) r.path)),
              );
        distinct = Distinct-insert new (head ∷ us) vs r.distinct o;
      }

-- A node taken out from between the two parts of a ring.
module _ (h : Links) (e head : ℕ) (us vs : List ℕ) where
  abbrev shrunk : Links
  shrunk = list_del_between (last_or head us) (first_or vs head) h

  delete-IsRing : IsRing h head (us ++ (e ∷ vs)) → IsRing shrunk head (us ++ vs)
  unfolding list_del_between
  delete-IsRing r =
      let d = Distinct-remove e (head ∷ us) vs r.distinct in
      let (dl, dr, ov) = parts head us vs d in
      record {
        path =
            connect shrunk head head us vs
              (frame-Left h shrunk head us dl (λ v i ne. ground arith)
                (λ v i. ground (arith, ne_first head us vs d v i))
                (Left-append h head us (e ∷ vs) (Left-of h head head (us ++ (e ∷ vs)) r.path)))
              (ground arith)
              (frame-Right h shrunk vs head dr ov (λ v i. ground (arith, ne_last head us vs d v i))
                (λ v i ne. ground arith)
                (Right-append h head us (e ∷ vs) (Right-of h head head (us ++ (e ∷ vs)) r.path)).1);
        distinct = d;
      }

-- `list_add` puts a fresh node in front.
pub list_add-IsRing :
    (h : Links) (new head : ℕ) (xs : List ℕ)
    → IsRing h head xs
    → has new (head ∷ xs) ≡ false
    → IsRing (list_add new head h) head (new ∷ xs)
unfolding list_add
list_add-IsRing h new head xs r o =
    rw (first_link h head head xs r.path).0 (insert-IsRing h new head [] xs r o)

-- `list_add_before` puts a fresh node before a given one, and at the end if that is the head.
pub list_add_before-IsRing :
    (h : Links) (new e head : ℕ) (us vs : List ℕ)
    → IsRing h head (us ++ (e ∷ vs))
    → has new (head ∷ (us ++ (e ∷ vs))) ≡ false
    → IsRing (list_add_before new e h) head (us ++ (new ∷ e ∷ vs))
unfolding list_add_before
list_add_before-IsRing h new e head us vs r o =
    rw (last_link h head e us (split h head e head us vs r.path).0).1
      (insert-IsRing h new head us (e ∷ vs) r o)

pub list_add_tail-IsRing :
    (h : Links) (new head : ℕ) (xs : List ℕ)
    → IsRing h head xs
    → has new (head ∷ xs) ≡ false
    → IsRing (list_add_tail new head h) head (xs ++ (new ∷ []))
unfolding list_add_tail
list_add_tail-IsRing h new head xs r o =
    rw (last_link h head head xs r.path).1
      (insert-IsRing h new head xs [] (rw (append-nil xs) r) (rw (append-nil xs) o))

-- `list_add_before` with the head puts the fresh node at the end.
pub list_add_before_head-IsRing :
    (h : Links) (new head : ℕ) (xs : List ℕ)
    → IsRing h head xs
    → has new (head ∷ xs) ≡ false
    → IsRing (list_add_before new head h) head (xs ++ (new ∷ []))
unfolding list_add_before list_add_tail
list_add_before_head-IsRing h new head xs r o = list_add_tail-IsRing h new head xs r o

-- `list_del` takes out its entry, wherever it stands.
pub list_del-IsRing :
    (h : Links) (e head : ℕ) (us vs : List ℕ)
    → IsRing h head (us ++ (e ∷ vs))
    → IsRing (list_del e h) head (us ++ vs)
unfolding list_del
list_del-IsRing h e head us vs r =
    let (p, q) = split h head e head us vs r.path in
    rw ((last_link h head e us p).1, (first_link h e head vs q).0) (delete-IsRing h e head us vs r)

pub last_or-snoc : (a e : ℕ) (us : List ℕ) → last_or a (us ++ (e ∷ [])) ≡ e
last_or-snoc a e [] = refl
last_or-snoc a e (u ∷ us) = last_or-snoc u e us

-- `list_add` with a node of the ring for its head puts the fresh node behind that node.
pub list_add_after-IsRing :
    (h : Links) (new e head : ℕ) (us vs : List ℕ)
    → IsRing h head (us ++ (e ∷ vs))
    → has new (head ∷ (us ++ (e ∷ vs))) ≡ false
    → IsRing (list_add new e h) head (us ++ (e ∷ new ∷ vs))
unfolding list_add
list_add_after-IsRing h new e head us vs r o =
    let q = append_assoc us (e ∷ []) vs in
    let i = insert-IsRing h new head (us ++ (e ∷ [])) vs (rw q r) (rw q o) in
    rw ((first_link h e head vs (split h head e head us vs r.path).1).0)
      (rw (last_or-snoc head e us, append_assoc us (e ∷ []) (new ∷ vs)) at i)

-- A deleted entry keeps its own pointers.
pub next-list_del : (h : Links) (e : ℕ) → (list_del e h).next e ≡ h.next e
unfolding list_del list_del_between
next-list_del h e = ground arith
