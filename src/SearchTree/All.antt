-- ===== src/SearchTree/All.antt =====
-- A property of all elements of a search tree.
use cidl.Base.{refl, ◌≡◌, ◌≢◌, subst, none, some, arith, Ordering}
use cidl.SearchTree.{Tree, empty, node, tfind, tsearch, modify, least, without_least, join, tdelete}

module _ {A : Type 0} (P : A → Type 0) where
  abbrev pub All : Tree A → Type 0
  All empty = Unit {0}
  All (node l a r) = All l × P a × All r

  pub All-tfind : (cmp : A → Ordering) (t : Tree A) (a : A) → All t → tfind cmp t ≡ some a → P a
  unfolding tfind
  All-tfind cmp empty a h e = absurd (ground (arith, e))
  All-tfind cmp (node l b r) a h e =
      (elim (cmp b)
          as (λ o.
            (elim o [
              | Ordering.lt ↦ tfind cmp l
              | Ordering.eq ↦ some b
              | Ordering.gt ↦ tfind cmp r
            ])
              ≡ some a
            → P a) [
              | Ordering.lt ↦ λ q. All-tfind cmp l a h.0 q
              | Ordering.eq ↦ λ q. subst P (some_inj q) h.1
              | Ordering.gt ↦ λ q. All-tfind cmp r a h.2 q
            ])
        e
    where
      some_inj : {x y : A} → some x ≡ some y → x ≡ y
      some_inj q = ground (arith, q)

  pub All-tsearch : (cmp : A → Ordering) (x : A) (t : Tree A) → All t → P x → All (tsearch cmp x t)
  unfolding tsearch
  All-tsearch cmp x empty h p = (tt, p, tt)
  All-tsearch cmp x (node l a r) h p =
      elim (cmp a)
        as (λ o. All (elim o [
          | Ordering.lt ↦ node (tsearch cmp x l) a r
          | Ordering.eq ↦ node l a r
          | Ordering.gt ↦ node l a (tsearch cmp x r)
        ])) [
          | Ordering.lt ↦ (All-tsearch cmp x l h.0 p, h.1, h.2)
          | Ordering.eq ↦ h
          | Ordering.gt ↦ (h.0, h.1, All-tsearch cmp x r h.2 p)
        ]

  pub All-modify :
      (cmp : A → Ordering) (f : A → A) (t : Tree A)
      → ((a : A) → P a → P (f a))
      → All t
      → All (modify cmp f t)
  unfolding modify
  All-modify cmp f empty k h = tt
  All-modify cmp f (node l a r) k h =
      elim (cmp a)
        as (λ o. All (elim o [
          | Ordering.lt ↦ node (modify cmp f l) a r
          | Ordering.eq ↦ node l (f a) r
          | Ordering.gt ↦ node l a (modify cmp f r)
        ])) [
          | Ordering.lt ↦ (All-modify cmp f l k h.0, h.1, h.2)
          | Ordering.eq ↦ (h.0, k a h.1, h.2)
          | Ordering.gt ↦ (h.0, h.1, All-modify cmp f r k h.2)
        ]

  pub least-All : (t : Tree A) (a : A) → All t → P a → P (least t a)
  unfolding least
  least-All empty a h p = p
  least-All (node l b r) a h p = least-All l b h.0 h.1

  pub without_least-All :
      (t : Tree A) (a : A) (r : Tree A) → All t → P a → All r → All (without_least t a r)
  unfolding without_least
  without_least-All empty a r h p k = k
  without_least-All (node l b r') a r h p k = (without_least-All l b r' h.0 h.1 h.2, p, k)

  join-All : (l r : Tree A) → All l → All r → All (join l r)
  unfolding join
  join-All l empty h k = h
  join-All l (node r₁ b r₂) h k = (h, least-All r₁ b k.0 k.1, without_least-All r₁ b r₂ k.0 k.1 k.2)

  pub All-tdelete : (cmp : A → Ordering) (t : Tree A) → All t → All (tdelete cmp t)
  unfolding tdelete
  All-tdelete cmp empty h = tt
  All-tdelete cmp (node l a r) h =
      elim (cmp a)
        as (λ o. All (elim o [
          | Ordering.lt ↦ node (tdelete cmp l) a r
          | Ordering.eq ↦ join l r
          | Ordering.gt ↦ node l a (tdelete cmp r)
        ])) [
          | Ordering.lt ↦ (All-tdelete cmp l h.0, h.1, h.2)
          | Ordering.eq ↦ join-All l r h.0 h.2
          | Ordering.gt ↦ (h.0, h.1, All-tdelete cmp r h.2)
        ]

pub All-weaken :
    {A : Type 0} (P Q : A → Type 0) (t : Tree A) → ((a : A) → P a → Q a) → All P t → All Q t
All-weaken P Q empty k h = tt
All-weaken P Q (node l a r) k h = (All-weaken P Q l k h.0, k a h.1, All-weaken P Q r k h.2)

-- Two comparisons that agree on the elements find the same.
pub tfind-agree :
    {A : Type 0} (cmp cmp' : A → Ordering) (t : Tree A)
    → All (λ a. cmp a ≡ cmp' a) t
    → tfind cmp t ≡ tfind cmp' t
unfolding tfind
tfind-agree cmp cmp' empty h = refl
tfind-agree cmp cmp' (node l a r) h =
    ground (arith, h.1, tfind-agree cmp cmp' l h.0, tfind-agree cmp cmp' r h.2)

-- A search for which no element compares equal finds none.
pub none-tfind :
    {A : Type 0} (cmp : A → Ordering) (t : Tree A)
    → All (λ a. cmp a ≢ Ordering.eq) t
    → tfind cmp t ≡ none
unfolding tfind
none-tfind cmp empty h = refl
none-tfind cmp (node l a r) h =
    (elim (cmp a)
        as (λ o.
          cmp a ≡ o
          → (elim o [
            | Ordering.lt ↦ tfind cmp l
            | Ordering.eq ↦ some a
            | Ordering.gt ↦ tfind cmp r
          ])
            ≡ none) [
              | Ordering.lt ↦ λ e. none-tfind cmp l h.0
              | Ordering.eq ↦ λ e. absurd (h.1 e)
              | Ordering.gt ↦ λ e. none-tfind cmp r h.2
            ])
      refl
