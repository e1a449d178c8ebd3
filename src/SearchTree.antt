-- ===== src/SearchTree.antt =====
-- The search trees of the C library's <search.h>, which the program keeps its records in. A call
-- descends by the comparison with its key alone, so what it finds depends on nothing else. The
-- C library also rebalances its trees; the order of the elements is the same.
pub mod Lookup
pub mod All
pub mod Members
pub mod Order
pub mod One
pub mod Walk
use cidl.Base.{Option, none, some, List, [], ◌∷◌, ◌++◌, Ordering}

pub data Tree (A : Type 0) : Type 0 where
  empty : Tree A
  node : Tree A → A → Tree A → Tree A

-- The first argument compares the key with an element.
module _ {A : Type 0} where
  unfoldable pub tfind : (A → Ordering) → Tree A → Option A
  tfind cmp empty = none
  tfind cmp (node l a r) = elim (cmp a) [
    | Ordering.lt ↦ tfind cmp l
    | Ordering.eq ↦ some a
    | Ordering.gt ↦ tfind cmp r
  ]

  -- An element that compares equal is kept, and nothing is inserted.
  unfoldable pub tsearch : (A → Ordering) → A → Tree A → Tree A
  tsearch cmp x empty = node empty x empty
  tsearch cmp x (node l a r) = elim (cmp a) [
    | Ordering.lt ↦ node (tsearch cmp x l) a r
    | Ordering.eq ↦ node l a r
    | Ordering.gt ↦ node l a (tsearch cmp x r)
  ]

  -- A write to the element through the pointer that `tfind` returns.
  unfoldable pub modify : (A → Ordering) → (A → A) → Tree A → Tree A
  modify cmp f empty = empty
  modify cmp f (node l a r) = elim (cmp a) [
    | Ordering.lt ↦ node (modify cmp f l) a r
    | Ordering.eq ↦ node l (f a) r
    | Ordering.gt ↦ node l a (modify cmp f r)
  ]

  -- The least element of a tree that has the root `a`, and the rest.
  unfoldable pub least : Tree A → A → A
  least empty a = a
  least (node l b r) a = least l b

  unfoldable pub without_least : Tree A → A → Tree A → Tree A
  without_least empty a r = r
  without_least (node l b r') a r = node (without_least l b r') a r

  unfoldable pub join : Tree A → Tree A → Tree A
  unfolding least without_least
  join l empty = l
  join l (node r₁ b r₂) = node l (least r₁ b) (without_least r₁ b r₂)

  unfoldable pub tdelete : (A → Ordering) → Tree A → Tree A
  unfolding join
  tdelete cmp empty = empty
  tdelete cmp (node l a r) = elim (cmp a) [
    | Ordering.lt ↦ node (tdelete cmp l) a r
    | Ordering.eq ↦ join l r
    | Ordering.gt ↦ node l a (tdelete cmp r)
  ]

  -- The elements in the order in which `twalk` visits them as `postorder` or `leaf`.
  unfoldable pub elements : Tree A → List A
  elements empty = []
  elements (node l a r) = elements l ++ a ∷ elements r
