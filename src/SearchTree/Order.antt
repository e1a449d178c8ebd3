-- ===== src/SearchTree/Order.antt =====
-- Search trees in the order of a key, and what a search finds after an insertion or a deletion.
use cidl.Base.{ℕ, ◌<◌, ◌≤◌, ◌≡◌, refl, none, some, arith, Ordering, ◌==◌, if◌then◌else◌}
use cidl.SearchTree.{Tree, empty, node, tfind, tsearch, least, without_least, join, tdelete}
use cidl.SearchTree.All.{All, All-weaken, All-tsearch, All-tdelete, least-All, without_least-All}
use cidl.SearchTree.Lookup.{by}
use cidl.SearchTree.Members.{All-both}

module _ {A : Type 0} (key : A → ℕ) where
  abbrev pub Below : ℕ → A → Type 0
  Below k a = key a < k

  abbrev pub Above : ℕ → A → Type 0
  Above k a = k < key a

  -- The keys are distinct, and in the tree's order.
  abbrev pub IsOrdered : Tree A → Type 0
  IsOrdered empty = Unit {0}
  IsOrdered (node l a r) = IsOrdered l × All (Below (key a)) l × All (Above (key a)) r × IsOrdered r

  pub tsearch-IsOrdered :
      (k : ℕ) (x : A) (t : Tree A) → key x ≡ k → IsOrdered t → IsOrdered (tsearch (by key k) x t)
  unfolding tsearch
  tsearch-IsOrdered k x empty e h = (tt, tt, tt, tt)
  tsearch-IsOrdered k x (node l a r) e h =
      (elim (by key k a)
          as (λ o.
            by key k a ≡ o
            → IsOrdered (elim o [
              | Ordering.lt ↦ node (tsearch (by key k) x l) a r
              | Ordering.eq ↦ node l a r
              | Ordering.gt ↦ node l a (tsearch (by key k) x r)
            ])) [
              | Ordering.lt ↦ λ q. (
                tsearch-IsOrdered k x l e h.0,
                All-tsearch (Below (key a)) (by key k) x l h.1 (ground (arith, q, e)),
                h.2,
                h.3,
              )
              | Ordering.eq ↦ λ q. h
              | Ordering.gt ↦ λ q. (
                h.0,
                h.1,
                All-tsearch (Above (key a)) (by key k) x r h.2 (ground (arith, q, e)),
                tsearch-IsOrdered k x r e h.3,
              )
            ])
        refl

  -- A search for a key that all elements are above, or below.
  none_from : (j k : ℕ) (t : Tree A) → All (Above k) t → j ≤ k → tfind (by key j) t ≡ none
  unfolding tfind
  none_from j k empty h le = refl
  none_from j k (node l a r) h le = ground (arith, h.1, none_from j k l h.0 le)

  none_to : (j k : ℕ) (t : Tree A) → All (Below k) t → k ≤ j → tfind (by key j) t ≡ none
  unfolding tfind
  none_to j k empty h le = refl
  none_to j k (node l a r) h le = ground (arith, h.1, none_to j k r h.2 le)

  -- The least element is before the others, and after what is before them all.
  least-le :
      (l : Tree A) (a : A) (r : Tree A)
      → IsOrdered (node l a r)
      → All (Above (key (least l a))) (without_least l a r) × IsOrdered (without_least l a r)
  unfolding least without_least
  least-le empty a r h = (h.2, h.3)
  least-le (node l b r') a r h =
      let (above, rest) = least-le l b r' h.0 in
      let low : key (least l b) < key a = least-All (Below (key a)) l b h.1.0 h.1.1 in
      (
        (
          above,
          low,
          All-weaken (Above (key a)) (Above (key (least l b))) r (λ x k. omega (arith, k, low)) h.2,
        ),
        (rest, without_least-All (Below (key a)) l b r' h.1.0 h.1.1 h.1.2, h.2, h.3),
      )

  join-IsOrdered : (l : Tree A) (a : A) (r : Tree A) → IsOrdered (node l a r) → IsOrdered (join l r)
  unfolding join
  join-IsOrdered l a empty h = h.0
  join-IsOrdered l a (node r₁ b r₂) h =
      let (above, rest) = least-le r₁ b r₂ h.3 in
      let up : key a < key (least r₁ b) = least-All (Above (key a)) r₁ b h.2.0 h.2.1 in
      (
        h.0,
        All-weaken (Below (key a)) (Below (key (least r₁ b))) l (λ x k. omega (arith, k, up)) h.1,
        above,
        rest,
      )

  -- A search in the tree without its least element.
  tfind-without_least :
      (j : ℕ) (l : Tree A) (a : A) (r : Tree A)
      → IsOrdered (node l a r)
      → tfind (by key j) (without_least l a r)
        ≡ (if key (least l a) == j then none else tfind (by key j) (node l a r))
  unfolding tfind least without_least
  tfind-without_least j empty a r h = ground (arith, none_from j (key a) r h.2)
  tfind-without_least j (node l b r') a r h =
      ground (arith, tfind-without_least j l b r' h.0, least-All (Below (key a)) l b h.1.0 h.1.1)

  tfind-least :
      (j : ℕ) (l : Tree A) (a : A) (r : Tree A)
      → IsOrdered (node l a r)
      → j ≤ key (least l a)
      → tfind (by key j) (node l a r) ≡ (if key (least l a) == j then some (least l a) else none)
  unfolding tfind least
  tfind-least j empty a r h le = ground arith
  tfind-least j (node l b r') a r h le =
      ground (arith, tfind-least j l b r' h.0 le, least-All (Below (key a)) l b h.1.0 h.1.1)

  tfind-join :
      (j : ℕ) (l : Tree A) (a : A) (r : Tree A)
      → IsOrdered (node l a r)
      → tfind (by key j) (join l r) ≡ (if key a == j then none else tfind (by key j) (node l a r))
  unfolding tfind join
  tfind-join j l a empty h = ground (arith, none_to j (key a) l h.1)
  tfind-join j l a (node r₁ b r₂) h = ground (
    arith,
    none_to j (key a) l h.1,
    none_from j (key a) (node r₁ b r₂) h.2,
    least-All (Above (key a)) r₁ b h.2.0 h.2.1,
    tfind-without_least j r₁ b r₂ h.3,
    tfind-least j r₁ b r₂ h.3,
  )

  -- A deletion keeps the order, and a search finds the same but for the key that was deleted.
  pub tdelete-IsOrdered : (k : ℕ) (t : Tree A) → IsOrdered t → IsOrdered (tdelete (by key k) t)
  unfolding tdelete
  tdelete-IsOrdered k empty h = tt
  tdelete-IsOrdered k (node l a r) h =
      elim (by key k a)
        as (λ o. IsOrdered (elim o [
          | Ordering.lt ↦ node (tdelete (by key k) l) a r
          | Ordering.eq ↦ join l r
          | Ordering.gt ↦ node l a (tdelete (by key k) r)
        ])) [
          | Ordering.lt ↦
              (tdelete-IsOrdered k l h.0, All-tdelete (Below (key a)) (by key k) l h.1, h.2, h.3)
          | Ordering.eq ↦ join-IsOrdered l a r h
          | Ordering.gt ↦
              (h.0, h.1, All-tdelete (Above (key a)) (by key k) r h.2, tdelete-IsOrdered k r h.3)
        ]

  pub tfind-tdelete :
      (k j : ℕ) (t : Tree A)
      → IsOrdered t
      → tfind (by key j) (tdelete (by key k) t) ≡ (if k == j then none else tfind (by key j) t)
  unfolding tfind tdelete
  tfind-tdelete k j empty h = ground arith
  tfind-tdelete k j (node l a r) h = ground (
    arith,
    tfind-tdelete k j l h.0,
    tfind-tdelete k j r h.3,
    tfind-join j l a r h,
    none_to j (key a) l h.1,
    none_from j (key a) r h.2,
  )

-- The order depends on the keys of the elements alone.
pub IsOrdered-agree :
    {A : Type 0} (key key' : A → ℕ) (t : Tree A)
    → All (λ a. key' a ≡ key a) t
    → IsOrdered key t
    → IsOrdered key' t
IsOrdered-agree key key' empty e h = tt
IsOrdered-agree key key' (node l a r) e h = (
  IsOrdered-agree key key' l e.0 h.0,
  moved (λ x. key x < key a) (λ x. key' x < key' a) l e.0 h.1
      (λ x same lt. omega (arith, same, lt, e.1)),
  moved (λ x. key a < key x) (λ x. key' a < key' x) r e.2 h.2
      (λ x same lt. omega (arith, same, lt, e.1)),
  IsOrdered-agree key key' r e.2 h.3,
)
  where
    moved :
        (P Q : _ → Type 0) (u : Tree _)
        → All (λ x. key' x ≡ key x) u
        → All P u
        → ((x : _) → key' x ≡ key x → P x → Q x)
        → All Q u
    moved P Q u same h k =
        All-weaken (λ x. (key' x ≡ key x) × P x) Q u (λ x w. k x w.0 w.1)
          (All-both (λ x. key' x ≡ key x) P u same h)
