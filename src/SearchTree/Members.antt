-- ===== src/SearchTree/Members.antt =====
-- The elements of a search tree and their number.
use cidl.Base.{ℕ, ◌+◌, ◌≡◌, ◌≢◌, refl, ap, ◌∙◌, ◌⊎◌, inl, inr, some, arith, Ordering}
use cidl.SearchTree.{Tree, empty, node, tfind, tsearch, least, without_least, join, tdelete}
use cidl.SearchTree.All.{All, All-weaken}

module _ {A : Type 0} where
  unfoldable pub size : Tree A → ℕ
  size empty = 0
  size (node l a r) = size l + 1 + size r

  size-without_least :
      (l : Tree A) (a : A) (r : Tree A) → size (without_least l a r) ≡ size l + size r
  unfolding size without_least
  size-without_least empty a r = omega arith
  size-without_least (node l b r') a r = omega (arith, size-without_least l b r')

  size-join : (l r : Tree A) → size (join l r) ≡ size l + size r
  unfolding size join
  size-join l empty = omega arith
  size-join l (node r₁ b r₂) = omega (arith, size-without_least r₁ b r₂)

  -- A deletion that finds an element takes one off.
  pub size-tdelete :
      (cmp : A → Ordering) (t : Tree A) (a : A)
      → tfind cmp t ≡ some a
      → size (tdelete cmp t) + 1 ≡ size t
  unfolding size tfind tdelete
  size-tdelete cmp empty a e = absurd (ground (arith, e))
  size-tdelete cmp (node l b r) a e =
      ground (arith, e, size-tdelete cmp l a, size-tdelete cmp r a, size-join l r)

  abbrev pub In : A → Tree A → Type 0
  In x empty = ⊥
  In x (node l a r) = In x l ⊎ ((x ≡ a) ⊎ In x r)

  In-least :
      (l : Tree A) (a : A) (r : Tree A) (x : A)
      → In x (node l a r)
      → (x ≡ least l a) ⊎ In x (without_least l a r)
  unfolding least without_least
  In-least empty a r x (inl h) = elim h [ ]
  In-least empty a r x (inr (inl e)) = inl e
  In-least empty a r x (inr (inr h)) = inr h
  In-least (node l b r') a r x (inl h) = elim (In-least l b r' x h) [
    | inl e ↦ inl e
    | inr k ↦ inr (inl k)
  ]
  In-least (node l b r') a r x (inr h) = inr (inr h)

  In-join : (l r : Tree A) (x : A) → In x l ⊎ In x r → In x (join l r)
  unfolding join
  In-join l empty x (inl h) = h
  In-join l empty x (inr h) = elim h [ ]
  In-join l (node r₁ b r₂) x (inl h) = inl h
  In-join l (node r₁ b r₂) x (inr h) = inr (In-least r₁ b r₂ x h)

  In-left :
      (l l' r : Tree A) (a x : A) → (In x l → In x l') → In x (node l a r) → In x (node l' a r)
  In-left l l' r a x f (inl k) = inl (f k)
  In-left l l' r a x f (inr k) = inr k

  In-right :
      (l r r' : Tree A) (a x : A) → (In x r → In x r') → In x (node l a r) → In x (node l a r')
  In-right l r r' a x f (inl k) = inl k
  In-right l r r' a x f (inr (inl e)) = inr (inl e)
  In-right l r r' a x f (inr (inr k)) = inr (inr (f k))

  -- An element that does not compare equal is not deleted.
  pub In-tdelete :
      (cmp : A → Ordering) (t : Tree A) (x : A)
      → In x t
      → cmp x ≢ Ordering.eq
      → In x (tdelete cmp t)
  unfolding tdelete
  In-tdelete cmp empty x h ne = elim h [ ]
  In-tdelete cmp (node l a r) x h ne =
      (elim (cmp a)
          as (λ o.
            cmp a ≡ o
            → In x (elim o [
              | Ordering.lt ↦ node (tdelete cmp l) a r
              | Ordering.eq ↦ join l r
              | Ordering.gt ↦ node l a (tdelete cmp r)
            ])) [
              | Ordering.lt ↦ λ e. In-left l _ r a x (λ k. In-tdelete cmp l x k ne) h
              | Ordering.eq ↦ λ e. In-join l r x (other e h)
              | Ordering.gt ↦ λ e. In-right l r _ a x (λ k. In-tdelete cmp r x k ne) h
            ])
        refl
    where
      other : cmp a ≡ Ordering.eq → In x (node l a r) → In x l ⊎ In x r
      other e (inl k) = inl k
      other e (inr (inl same)) = absurd (ne (ap cmp same ∙ e))
      other e (inr (inr k)) = inr k

  pub In-tsearch : (cmp : A → Ordering) (t : Tree A) (y x : A) → In x t → In x (tsearch cmp y t)
  unfolding tsearch
  In-tsearch cmp empty y x h = elim h [ ]
  In-tsearch cmp (node l a r) y x h =
      elim (cmp a)
        as (λ o. In x (elim o [
          | Ordering.lt ↦ node (tsearch cmp y l) a r
          | Ordering.eq ↦ node l a r
          | Ordering.gt ↦ node l a (tsearch cmp y r)
        ])) [
          | Ordering.lt ↦ In-left l _ r a x (λ k. In-tsearch cmp l y x k) h
          | Ordering.eq ↦ h
          | Ordering.gt ↦ In-right l r _ a x (λ k. In-tsearch cmp r y x k) h
        ]

-- Every element is one.
pub All-In : {A : Type 0} (t : Tree A) → All (λ x. In x t) t
All-In empty = tt
All-In (node l a r) = (
  All-weaken (λ x. In x l) (λ x. In x (node l a r)) l (λ x h. inl h) (All-In l),
  inr (inl refl),
  All-weaken (λ x. In x r) (λ x. In x (node l a r)) r (λ x h. inr (inr h)) (All-In r),
)

pub All-both :
    {A : Type 0} (P Q : A → Type 0) (t : Tree A) → All P t → All Q t → All (λ x. P x × Q x) t
All-both P Q empty h k = tt
All-both P Q (node l a r) h k = (All-both P Q l h.0 k.0, (h.1, k.1), All-both P Q r h.2 k.2)
