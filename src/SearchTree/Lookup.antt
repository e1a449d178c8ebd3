-- ===== src/SearchTree/Lookup.antt =====
-- What a search finds after an insertion or a write. No order of the tree is needed.
use cidl.Base.{refl, ℕ, ◌≡◌, Option, none, some, arith, ◌==◌, if◌then◌else◌, compare, Ordering}
use mathlib.Core.Option
use cidl.SearchTree.{Tree, empty, node, tfind, tsearch, modify, tdelete}

abbrev pub or_else : {A : Type 0} → Option A → A → Option A
or_else none x = some x
or_else (some a) x = some a

module _ {A : Type 0} (key : A → ℕ) where
  abbrev pub by : ℕ → A → Prim.Native.Nat.Ordering
  by k a = compare k (key a)

  pub tfind-tsearch :
      (k j : ℕ) (x : A) (t : Tree A)
      → key x ≡ k
      → tfind (by j) (tsearch (by k) x t)
        ≡ (if k == j then or_else (tfind (by j) t) x else tfind (by j) t)
  unfolding tfind tsearch
  tfind-tsearch k j x empty e = ground arith
  tfind-tsearch k j x (node l a r) e =
      ground (arith, tfind-tsearch k j x l e, tfind-tsearch k j x r e)

  pub tfind-modify :
      (k j : ℕ) (f : A → A) (t : Tree A)
      → ((a : A) → key (f a) ≡ key a)
      → tfind (by j) (modify (by k) f t)
        ≡ (if k == j then Option.map f (tfind (by j) t) else tfind (by j) t)
  unfolding tfind modify
  tfind-modify k j f empty e = ground arith
  tfind-modify k j f (node l a r) e =
      ground (arith, e a, tfind-modify k j f l e, tfind-modify k j f r e)

  -- What a search finds has the key that it was looked for by.
  pub key-tfind : (k : ℕ) (t : Tree A) (a : A) → tfind (by k) t ≡ some a → key a ≡ k
  unfolding tfind
  key-tfind k empty a e = ground arith
  key-tfind k (node l b r) a e = ground (arith, key-tfind k l a, key-tfind k r a)

-- A deletion that finds nothing changes nothing.
pub tdelete-absent :
    {A : Type 0} (cmp : A → Ordering) (t : Tree A) → tfind cmp t ≡ none → tdelete cmp t ≡ t
unfolding tfind tdelete
tdelete-absent cmp empty e = refl
tdelete-absent cmp (node l a r) e = ground (arith, e, tdelete-absent cmp l, tdelete-absent cmp r)

-- What a search finds compares equal.
pub equal-tfind :
    {A : Type 0} (cmp : A → Ordering) (t : Tree A) (a : A)
    → tfind cmp t ≡ some a
    → cmp a ≡ Ordering.eq
unfolding tfind
equal-tfind cmp empty a e = absurd (ground (arith, e))
equal-tfind cmp (node l b r) a e = ground (arith, e, equal-tfind cmp l a, equal-tfind cmp r a)
