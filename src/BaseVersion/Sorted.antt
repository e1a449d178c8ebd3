-- ===== src/BaseVersion/Sorted.antt =====
-- Trees of ranges in order.
use cidl.Base.{◌≤◌, ◌<◌, ◌≡◌, refl, ◌⊎◌, inl, inr, some, none, arith, Ordering}
use cidl.Addr.{Ptr}
use cidl.SearchTree.{Tree, empty, node, tfind, tsearch, least, without_least, join, tdelete}
use cidl.SearchTree.All.{All, All-weaken, All-tsearch, All-tdelete, least-All, without_least-All}
use cidl.SearchTree.Members.{In}
use cidl.BaseVersion.{MemRec, rec_compare, overlap_rec}

abbrev pub EndsBefore : Ptr → MemRec → Type 0
EndsBefore p r = r.tail_memory ≤ p

abbrev pub StartsFrom : Ptr → MemRec → Type 0
StartsFrom p r = p ≤ r.start_memory

-- No range is empty, and each ends before the next one starts.
abbrev pub IsSorted : Tree MemRec → Type 0
IsSorted empty = Unit {0}
IsSorted (node l a r) =
    IsSorted l
    × All (EndsBefore a.start_memory) l
    × (a.start_memory < a.tail_memory)
    × All (StartsFrom a.tail_memory) r
    × IsSorted r

abbrev pub Disjoint : MemRec → MemRec → Type 0
Disjoint a b = (a.tail_memory ≤ b.start_memory) ⊎ (b.tail_memory ≤ a.start_memory)

-- The least range of a tree ends where that of its root does at the latest.
least-le :
    (l : Tree MemRec) (a : MemRec) (r : Tree MemRec)
    → IsSorted (node l a r)
    → ((least l a).start_memory < (least l a).tail_memory)
      × ((least l a).tail_memory ≤ a.tail_memory)
unfolding least
least-le empty a r h = (h.2, omega arith)
least-le (node l b r') a r h =
    let (full, le) = least-le l b r' h.0 in (full, omega (arith, le, h.1.1, h.2))

-- The others come after it, in order.
without_least-IsSorted :
    (l : Tree MemRec) (a : MemRec) (r : Tree MemRec)
    → IsSorted (node l a r)
    → All (StartsFrom (least l a).tail_memory) (without_least l a r)
      × IsSorted (without_least l a r)
unfolding least without_least
without_least-IsSorted empty a r h = (h.3, h.4)
without_least-IsSorted (node l b r') a r h =
    let (from, rest) = without_least-IsSorted l b r' h.0 in
    let (full, le) = least-le l b r' h.0 in
    (
      (
        from,
        omega (arith, le, h.1.1),
        All-weaken (StartsFrom a.tail_memory) (StartsFrom (least l b).tail_memory) r
            (λ x k. omega (arith, k, le, h.1.1, h.2)) h.3,
      ),
      (rest, without_least-All (EndsBefore a.start_memory) l b r' h.1.0 h.1.1 h.1.2, h.2, h.3, h.4),
    )

join-IsSorted :
    (l : Tree MemRec) (a : MemRec) (r : Tree MemRec) → IsSorted (node l a r) → IsSorted (join l r)
unfolding join
join-IsSorted l a empty h = h.0
join-IsSorted l a (node r₁ b r₂) h =
    let (from, rest) = without_least-IsSorted r₁ b r₂ h.4 in
    let (full, le) = least-le r₁ b r₂ h.4 in
    let after = least-All (StartsFrom a.tail_memory) r₁ b h.3.0 h.3.1 in
    (
      h.0,
      All-weaken (EndsBefore a.start_memory) (EndsBefore (least r₁ b).start_memory) l
          (λ x k. omega (arith, k, after, h.2)) h.1,
      full,
      from,
      rest,
    )

-- A deletion keeps the order, whatever it looks for.
pub tdelete-IsSorted :
    (cmp : MemRec → Ordering) (t : Tree MemRec) → IsSorted t → IsSorted (tdelete cmp t)
unfolding tdelete
tdelete-IsSorted cmp empty h = tt
tdelete-IsSorted cmp (node l a r) h =
    elim (cmp a)
      as (λ o. IsSorted (elim o [
        | Ordering.lt ↦ node (tdelete cmp l) a r
        | Ordering.eq ↦ join l r
        | Ordering.gt ↦ node l a (tdelete cmp r)
      ])) [
        | Ordering.lt ↦ (
          tdelete-IsSorted cmp l h.0,
          All-tdelete (EndsBefore a.start_memory) cmp l h.1,
          h.2,
          h.3,
          h.4,
        )
        | Ordering.eq ↦ join-IsSorted l a r h
        | Ordering.gt ↦ (
          h.0,
          h.1,
          h.2,
          All-tdelete (StartsFrom a.tail_memory) cmp r h.3,
          tdelete-IsSorted cmp r h.4,
        )
      ]

-- If no range of a tree in order compares equal to a range by `overlapRec`, none overlaps it.
pub none_overlaps :
    (k : MemRec) (t : Tree MemRec)
    → k.start_memory < k.tail_memory
    → IsSorted t
    → tfind (overlap_rec k) t ≡ none
    → All (Disjoint k) t
unfolding tfind
none_overlaps k empty full h e = tt
none_overlaps k (node l a r) full h e =
    (elim (overlap_rec k a)
        as (λ o.
          overlap_rec k a ≡ o
          → (elim o [
            | Ordering.lt ↦ tfind (overlap_rec k) l
            | Ordering.eq ↦ some a
            | Ordering.gt ↦ tfind (overlap_rec k) r
          ])
            ≡ none
          → All (Disjoint k) (node l a r)) [
            | Ordering.lt ↦ λ o f.
                let before : k.tail_memory ≤ a.start_memory = ground (arith, o) in
                (
                  none_overlaps k l full h.0 f,
                  inl before,
                  All-weaken (StartsFrom a.tail_memory) (Disjoint k) r
                      (λ x le. inl (omega (arith, le, h.2))) h.3,
                )
            | Ordering.eq ↦ λ o f. absurd (ground (arith, f))
            | Ordering.gt ↦ λ o f.
                let after : a.tail_memory ≤ k.start_memory = ground (arith, o) in
                (
                  All-weaken (EndsBefore a.start_memory) (Disjoint k) l
                      (λ x le. inr (omega (arith, le, h.2))) h.1,
                  inr after,
                  none_overlaps k r full h.4 f,
                )
          ])
      refl e

abbrev pub IsPlaced : MemRec → Tree MemRec → Type 0
IsPlaced k t = IsSorted t × In k t

-- A range that overlaps none is inserted at its place.
pub tsearch-IsPlaced :
    (k : MemRec) (t : Tree MemRec)
    → k.start_memory < k.tail_memory
    → IsSorted t
    → All (Disjoint k) t
    → IsPlaced k (tsearch (rec_compare k) k t)
unfolding tsearch
tsearch-IsPlaced k empty full h d = ((tt, tt, full, tt, tt), inr (inl refl))
tsearch-IsPlaced k (node l a r) full h d =
    (elim (rec_compare k a)
        as (λ o.
          rec_compare k a ≡ o
          → IsPlaced k (elim o [
            | Ordering.lt ↦ node (tsearch (rec_compare k) k l) a r
            | Ordering.eq ↦ node l a r
            | Ordering.gt ↦ node l a (tsearch (rec_compare k) k r)
          ])) [
            | Ordering.lt ↦ λ o.
                let (sorted, there) = tsearch-IsPlaced k l full h.0 d.0 in
                let before : k.tail_memory ≤ a.start_memory = ground (arith, o, d.1, h.2) in
                (
                  (
                    sorted,
                    All-tsearch (EndsBefore a.start_memory) (rec_compare k) k l h.1 before,
                    h.2,
                    h.3,
                    h.4,
                  ),
                  inl there,
                )
            | Ordering.eq ↦ λ o. absurd (ground (arith, o, d.1, h.2))
            | Ordering.gt ↦ λ o.
                let (sorted, there) = tsearch-IsPlaced k r full h.4 d.2 in
                let after : a.tail_memory ≤ k.start_memory = ground (arith, o, d.1, h.2) in
                (
                  (
                    h.0,
                    h.1,
                    h.2,
                    All-tsearch (StartsFrom a.tail_memory) (rec_compare k) k r h.3 after,
                    sorted,
                  ),
                  inr (inr there),
                )
          ])
      refl
