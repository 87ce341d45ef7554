-- ===== src/Links/Ring.antt =====
-- include/lib/list.h: what it is for the links of a store to form a list, and how chains of links
-- are cut and joined.
use hurlex_ii.Base.{
  ℕ, inl, inr, Bool-cases, ◌≡◌, ◌≢◌, ◌⊎◌, ◌∙◌, refl, Bool, true, false, ◌||◌, List, [], ◌∷◌, ◌++◌,
  arith, ◌==◌,
}
use hurlex_ii.Links.{Links}

abbrev pub has : ℕ → List ℕ → Bool
has v [] = false
has v (x ∷ xs) = (v == x) || has v xs

abbrev pub Distinct : List ℕ → Type 0
Distinct [] = Unit
Distinct (x ∷ xs) = (has x xs ≡ false) × Distinct xs

abbrev pub Apart : List ℕ → List ℕ → Type 0
Apart [] ys = Unit
Apart (x ∷ xs) ys = (has x ys ≡ false) × Apart xs ys

abbrev pub last_or : ℕ → List ℕ → ℕ
last_or a [] = a
last_or a (x ∷ xs) = last_or x xs

abbrev pub first_or : List ℕ → ℕ → ℕ
first_or [] b = b
first_or (x ∷ xs) b = x

-- `x` and `y` are neighbours, in both directions.
abbrev pub Linked : Links → ℕ → ℕ → Type 0
Linked h x y = (h.next x ≡ y) × (h.prev y ≡ x)

-- From `a` the links lead through `xs` to `b`.
abbrev pub Chain : Links → ℕ → List ℕ → ℕ → Type 0
Chain h a [] b = Linked h a b
Chain h a (x ∷ xs) b = Linked h a x × Chain h x xs b

-- The part of a path within `a ∷ xs`, and the part within `xs` and `b`.
abbrev pub Left : Links → ℕ → List ℕ → Type 0
Left h a [] = Unit
Left h a (x ∷ xs) = Linked h a x × Left h x xs

abbrev pub Right : Links → List ℕ → ℕ → Type 0
Right h [] b = Unit
Right h (x ∷ xs) b = Linked h x (first_or xs b) × Right h xs b

-- The list headed by `head` holds the nodes `xs`, in this order, each once.
pub record IsRing (h : Links) (head : ℕ) (xs : List ℕ) : Type 0 where
  pub path : Chain h head xs head
  pub distinct : Distinct (head ∷ xs)

module _ (h : Links) where
  pub Left-of : (a b : ℕ) (xs : List ℕ) → Chain h a xs b → Left h a xs
  Left-of a b [] p = tt
  Left-of a b (x ∷ xs) p = (p.0, Left-of x b xs p.1)

  pub first_link : (a b : ℕ) (xs : List ℕ) → Chain h a xs b → Linked h a (first_or xs b)
  first_link a b [] p = p
  first_link a b (x ∷ xs) p = p.0

  pub last_link : (a b : ℕ) (xs : List ℕ) → Chain h a xs b → Linked h (last_or a xs) b
  last_link a b [] p = p
  last_link a b (x ∷ xs) p = last_link x b xs p.1

  pub Right-of : (a b : ℕ) (xs : List ℕ) → Chain h a xs b → Right h xs b
  Right-of a b [] p = tt
  Right-of a b (x ∷ xs) p = (first_link x b xs p.1, Right-of x b xs p.1)

  pub path_of_Right :
      (a b : ℕ) (vs : List ℕ) → Linked h a (first_or vs b) → Right h vs b → Chain h a vs b
  path_of_Right a b [] l r = l
  path_of_Right a b (v ∷ vs) l r = (l, path_of_Right v b vs r.0 r.1)

  -- Two parts and the edge between them make a path.
  pub connect :
      (a b : ℕ) (us vs : List ℕ)
      → Left h a us
      → Linked h (last_or a us) (first_or vs b)
      → Right h vs b
      → Chain h a (us ++ vs) b
  connect a b [] vs p l r = path_of_Right a b vs l r
  connect a b (u ∷ us) vs p l r = (p.0, connect u b us vs p.1 l r)

  -- A path is cut at one of its nodes.
  pub split :
      (a e b : ℕ) (us vs : List ℕ) → Chain h a (us ++ (e ∷ vs)) b → Chain h a us e × Chain h e vs b
  split a e b [] vs p = p
  split a e b (u ∷ us) vs p = let q = split u e b us vs p.1 in ((p.0, q.0), q.1)

pub has-last_or : (a : ℕ) (xs : List ℕ) → has (last_or a xs) (a ∷ xs) ≡ true
has-last_or a [] = ground arith
has-last_or a (x ∷ xs) = ground (arith, has-last_or x xs)

pub has-first_or : (xs : List ℕ) (b : ℕ) → has (first_or xs b) (xs ++ (b ∷ [])) ≡ true
has-first_or [] b = ground arith
has-first_or (x ∷ xs) b = ground arith

module _ (h : Links) where
  pub Left-append : (a : ℕ) (us vs : List ℕ) → Left h a (us ++ vs) → Left h a us
  Left-append a [] vs l = tt
  Left-append a (u ∷ us) vs l = (l.0, Left-append u us vs l.1)

  pub Right-append : (b : ℕ) (us vs : List ℕ) → Right h (us ++ vs) b → Right h vs b
  Right-append b [] vs r = r
  Right-append b (u ∷ us) vs r = Right-append b us vs r.1

pub has-append : (v : ℕ) (xs ys : List ℕ) → has v (xs ++ ys) ≡ (has v xs || has v ys)
has-append v [] ys = refl
has-append v (x ∷ xs) ys = ground (arith, has-append v xs ys)

pub first_or-ne :
    (v : ℕ) (vs : List ℕ) (b : ℕ) → has v vs ≡ false → has b (v ∷ vs) ≡ false → first_or vs b ≢ v
first_or-ne v [] b d o = ground arith
first_or-ne v (x ∷ vs) b d o = ground arith

module _ (h g : Links) where
  pub frame-Left :
      (a : ℕ) (us : List ℕ)
      → Distinct (a ∷ us)
      → ((v : ℕ) → has v (a ∷ us) ≡ true → v ≢ last_or a us → g.next v ≡ h.next v)
      → ((v : ℕ) → has v us ≡ true → g.prev v ≡ h.prev v)
      → Left h a us
      → Left g a us
  frame-Left a [] d n p l = tt
  frame-Left a (u ∷ us) d n p l = (
    (ground (arith, n a, has-last_or u us), ground (arith, p u)),
    frame-Left u us d.1 (λ v i e. n v (ground arith) e) (λ v i. p v (ground arith)) l.1,
  )

  pub frame-Right :
      (vs : List ℕ) (b : ℕ)
      → Distinct vs
      → has b vs ≡ false
      → ((v : ℕ) → has v vs ≡ true → g.next v ≡ h.next v)
      → ((v : ℕ) → has v (vs ++ (b ∷ [])) ≡ true → v ≢ first_or vs b → g.prev v ≡ h.prev v)
      → Right h vs b
      → Right g vs b
  frame-Right [] b d o n p r = tt
  frame-Right (v ∷ vs) b d o n p r = (
    (
      ground (arith, n v),
      p (first_or vs b) (ground (arith, has-first_or vs b)) (first_or-ne v vs b d.0 o) ∙ r.0.1,
    ),
    frame-Right vs b d.1 (ground arith) (λ w i. n w (ground arith))
        (λ w i e. p w (ground arith) (ground (arith, has-append w vs (b ∷ [])))) r.1,
  )

pub ne_of_has : (v w : ℕ) (xs : List ℕ) → has v xs ≡ true → has w xs ≡ false → v ≢ w
ne_of_has v w [] i o = cc
ne_of_has v w (x ∷ xs) i o = ground (arith, ne_of_has v w xs)

pub Distinct-left : (us vs : List ℕ) → Distinct (us ++ vs) → Distinct us
Distinct-left [] vs d = tt
Distinct-left (u ∷ us) vs d = (ground (arith, d.0, has-append u us vs), Distinct-left us vs d.1)

pub Distinct-right : (us vs : List ℕ) → Distinct (us ++ vs) → Distinct vs
Distinct-right [] vs d = d
Distinct-right (u ∷ us) vs d = Distinct-right us vs d.1

-- No node of the one part is in the other.
pub Distinct-apart :
    (v : ℕ) (us vs : List ℕ) → Distinct (us ++ vs) → has v us ≡ true → has v vs ≡ false
Distinct-apart v [] vs d i = cc
Distinct-apart v (u ∷ us) vs d i = elim (Bool-cases (has v us)) [
  | inl e ↦ Distinct-apart v us vs d.1 e
  | inr e ↦ let q : v ≡ u = ground arith in rw q (ground (arith, d.0, has-append u us vs))
]

pub Distinct-append :
    (us vs : List ℕ)
    → Distinct us
    → Distinct vs
    → ((v : ℕ) → has v us ≡ true → has v vs ≡ false)
    → Distinct (us ++ vs)
Distinct-append [] vs d e a = e
Distinct-append (u ∷ us) vs d e a = (
  ground (arith, d.0, has-append u us vs, a u),
  Distinct-append us vs d.1 e (λ v i. a v (ground arith)),
)

-- In a ring cut in two, the ends of the parts stand in one part only.
module _ (head : ℕ) (us vs : List ℕ) (d : Distinct (head ∷ (us ++ vs))) where
  pub ne_first : (v : ℕ) → has v us ≡ true → v ≢ first_or vs head
  ne_first v i = ne_of_has v (first_or vs head) us i (elim (first_or-cases vs) [
    | inl e ↦ rw e (ground (arith, d.0, has-append head us vs))
    | inr e ↦ Distinct-apart' (first_or vs head) e
  ])
    where
      first_or-cases :
          (xs : List ℕ) → (first_or xs head ≡ head) ⊎ (has (first_or xs head) xs ≡ true)
      first_or-cases [] = inl refl
      first_or-cases (x ∷ xs) = inr (ground arith)

      Distinct-apart' : (w : ℕ) → has w vs ≡ true → has w us ≡ false
      Distinct-apart' w i = elim (Bool-cases (has w us)) [
        | inl e ↦ ground (arith, Distinct-apart w us vs d.1 e)
        | inr e ↦ e
      ]

  pub ne_last : (v : ℕ) → has v vs ≡ true → v ≢ last_or head us
  ne_last v i = ne_of_has v (last_or head us) vs i (
      ground (
        arith,
        d.0,
        has-last_or head us,
        Distinct-apart (last_or head us) us vs d.1,
        has-append (last_or head us) us vs,
      ))

  pub ne_fresh_left :
      (v w : ℕ) → has w (head ∷ (us ++ vs)) ≡ false → has v (head ∷ us) ≡ true → v ≢ w
  ne_fresh_left v w o i = ne_of_has v w (head ∷ us) i (ground (arith, has-append w us vs))

  pub ne_fresh_right :
      (v w : ℕ) → has w (head ∷ (us ++ vs)) ≡ false → has v (vs ++ (head ∷ [])) ≡ true → v ≢ w
  ne_fresh_right v w o i =
      ne_of_has v w (vs ++ (head ∷ [])) i
        (ground (arith, has-append w us vs, has-append w vs (head ∷ [])))

  pub parts : Distinct (head ∷ us) × Distinct vs × (has head vs ≡ false)
  parts = (
    (ground (arith, has-append head us vs), Distinct-left us vs d.1),
    Distinct-right us vs d.1,
    ground (arith, has-append head us vs),
  )

pub Distinct-insert :
    (w : ℕ) (us vs : List ℕ)
    → Distinct (us ++ vs)
    → has w (us ++ vs) ≡ false
    → Distinct (us ++ (w ∷ vs))
Distinct-insert w [] vs d o = (o, d)
Distinct-insert w (u ∷ us) vs d o = (
  ground (arith, d.0, has-append u us (w ∷ vs), has-append u us vs),
  Distinct-insert w us vs d.1 (ground arith),
)

pub Distinct-remove : (w : ℕ) (us vs : List ℕ) → Distinct (us ++ (w ∷ vs)) → Distinct (us ++ vs)
Distinct-remove w [] vs d = d.1
Distinct-remove w (u ∷ us) vs d =
    (ground (arith, d.0, has-append u us (w ∷ vs), has-append u us vs), Distinct-remove w us vs d.1)
