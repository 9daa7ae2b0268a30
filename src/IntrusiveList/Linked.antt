-- ===== src/IntrusiveList/Linked.antt =====
-- What a list of clib/list.h stands for: the nodes in order, linked both ways round the head.
use chenghualearning.Common.{
  ◌≡◌, refl, ap, Bool, true, false, ◌||◌, some, List, [], ◌∷◌, ◌++◌, arith, ◌==◌,
}
use chenghualearning.IntrusiveList.{Ptr, Store}

abbrev pub has : Ptr → List Ptr → Bool
has a [] = false
has a (x ∷ xs) = (a == x) || has a xs

abbrev pub Distinct : List Ptr → Type 0
Distinct [] = Unit {0}
Distinct (x ∷ xs) = (has x xs ≡ false) × Distinct xs

-- `b` comes right after `a`.
abbrev pub Next : Store → Ptr → Ptr → Type 0
Next s a b = (s.next a ≡ some b) × (s.prev b ≡ some a)

-- From `a` the links lead through `xs` to `b`, and back.
abbrev pub Linked : Store → Ptr → List Ptr → Ptr → Type 0
Linked s a [] b = Next s a b
Linked s a (x ∷ xs) b = Next s a x × Linked s x xs b

pub record IsRing (s : Store) (head : Ptr) (xs : List Ptr) : Type 0 where
  pub linked : Linked s head xs head
  pub distinct : Distinct (head ∷ xs)

-- Links survive a change that spares `next` of all but the last and `prev` of all but the first.
pub Linked-frame :
    (s s' : Store) (a : Ptr) (xs : List Ptr) (b : Ptr)
    → ((p : Ptr) → has p (a ∷ xs) ≡ true → s'.next p ≡ s.next p)
    → ((p : Ptr) → has p (b ∷ xs) ≡ true → s'.prev p ≡ s.prev p)
    → Linked s a xs b
    → Linked s' a xs b
Linked-frame s s' a [] b nexts prevs l = ground (arith, nexts a, prevs b)
Linked-frame s s' a (x ∷ xs) b nexts prevs (here, l) = (
  ground (arith, nexts a, prevs x),
  Linked-frame s s' x xs b (λ p h. nexts p (ground arith)) (λ p h. prevs p (ground arith)) l,
)

pub Linked-append :
    (s : Store) (a : Ptr) (xs : List Ptr) (y : Ptr) (ys : List Ptr) (b : Ptr)
    → Linked s a xs y
    → Linked s y ys b
    → Linked s a (xs ++ y ∷ ys) b
Linked-append s a [] y ys b l m = (l, m)
Linked-append s a (x ∷ xs) y ys b (here, l) m = (here, Linked-append s x xs y ys b l m)

pub Linked-split :
    (s : Store) (a : Ptr) (xs : List Ptr) (y : Ptr) (ys : List Ptr) (b : Ptr)
    → Linked s a (xs ++ y ∷ ys) b
    → Linked s a xs y × Linked s y ys b
Linked-split s a [] y ys b (here, l) = (here, l)
Linked-split s a (x ∷ xs) y ys b (here, l) =
    let (m, n) = Linked-split s x xs y ys b l in ((here, m), n)

abbrev pub last_of : Ptr → List Ptr → Ptr
last_of a [] = a
last_of a (x ∷ xs) = last_of x xs

-- The last node before `b`.
pub Linked-last :
    (s : Store) (a : Ptr) (xs : List Ptr) (b : Ptr) → Linked s a xs b → Next s (last_of a xs) b
Linked-last s a [] b l = l
Linked-last s a (x ∷ xs) b (here, l) = Linked-last s x xs b l

pub has-last_of : (a : Ptr) (xs : List Ptr) → has (last_of a xs) (a ∷ xs) ≡ true
has-last_of a [] = ground arith
has-last_of a (x ∷ xs) = ground (arith, has-last_of x xs)

-- The last link goes to another node.
pub Linked-retarget :
    (s s' : Store) (a : Ptr) (xs : List Ptr) (b c : Ptr)
    → Distinct (a ∷ xs)
    → ((p : Ptr) → has p (a ∷ xs) ≡ true → (p == last_of a xs) ≡ false → s'.next p ≡ s.next p)
    → ((p : Ptr) → has p xs ≡ true → s'.prev p ≡ s.prev p)
    → Next s' (last_of a xs) c
    → Linked s a xs b
    → Linked s' a xs c
Linked-retarget s s' a [] b c d nexts prevs new l = new
Linked-retarget s s' a (x ∷ xs) b c (out, d) nexts prevs new (here, l) = (
  ground (arith, nexts a, prevs x, has-last_of x xs),
  Linked-retarget s s' x xs b c d (λ p h. nexts p (ground arith)) (λ p h. prevs p (ground arith))
      new l,
)

abbrev pub first_of : List Ptr → Ptr → Ptr
first_of [] b = b
first_of (x ∷ xs) b = x

-- The first node after `a`.
pub Linked-first :
    (s : Store) (a : Ptr) (xs : List Ptr) (b : Ptr) → Linked s a xs b → Next s a (first_of xs b)
Linked-first s a [] b l = l
Linked-first s a (x ∷ xs) b (here, l) = here

pub has-append : (a : Ptr) (xs ys : List Ptr) → has a (xs ++ ys) ≡ has a xs || has a ys
has-append a [] ys = refl
has-append a (x ∷ xs) ys = ground (arith, has-append a xs ys)

-- A node not in the list may stand anywhere in it.
pub Distinct-insert :
    (xs : List Ptr) (a : Ptr) (ys : List Ptr)
    → Distinct (xs ++ ys)
    → has a (xs ++ ys) ≡ false
    → Distinct (xs ++ a ∷ ys)
Distinct-insert [] a ys d out = (out, d)
Distinct-insert (x ∷ xs) a ys (apart, d) out = (
  ground (arith, has-append x xs ys, has-append x xs (a ∷ ys)),
  Distinct-insert xs a ys d (ground arith),
)

pub Distinct-remove :
    (xs : List Ptr) (a : Ptr) (ys : List Ptr)
    → Distinct (xs ++ a ∷ ys)
    → Distinct (xs ++ ys) × (has a (xs ++ ys) ≡ false)
Distinct-remove [] a ys (out, d) = (d, out)
Distinct-remove (x ∷ xs) a ys (apart, d) =
    let (d', out) = Distinct-remove xs a ys d in
    (
      (ground (arith, has-append x xs ys, has-append x xs (a ∷ ys)), d'),
      ground (arith, has-append x xs (a ∷ ys)),
    )

pub Distinct-left : (xs ys : List Ptr) → Distinct (xs ++ ys) → Distinct xs
Distinct-left [] ys d = tt
Distinct-left (x ∷ xs) ys (apart, d) = (ground (arith, has-append x xs ys), Distinct-left xs ys d)

pub append_nil : (xs : List Ptr) → xs ++ [] ≡ xs
append_nil [] = refl
append_nil (x ∷ xs) = ap (λ ys. x ∷ ys) (append_nil xs)

pub Distinct-right : (xs ys : List Ptr) → Distinct (xs ++ ys) → Distinct ys
Distinct-right [] ys d = d
Distinct-right (x ∷ xs) ys (apart, d) = Distinct-right xs ys d

pub Distinct-apart :
    (xs ys : List Ptr) (p : Ptr) → Distinct (xs ++ ys) → has p xs ≡ true → has p ys ≡ false
Distinct-apart [] ys p d h = ground (arith, h)
Distinct-apart (x ∷ xs) ys p (apart, d) h =
    ground (arith, Distinct-apart xs ys p d, has-append x xs ys)

pub has-first_of : (xs : List Ptr) (b : Ptr) → has (first_of xs b) (b ∷ xs) ≡ true
has-first_of [] b = ground arith
has-first_of (x ∷ xs) b = ground arith
