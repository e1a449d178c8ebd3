-- ===== src/BaseVersion/Insert.antt =====
-- `deleteRec` and `insertRec` of the build with BASE_VERSION.
use cidl.Base.{
  ℕ, zero, suc, ◌+◌, ◌*◌, ◌≤◌, ◌<◌, ◌≡◌, ◌≢◌, refl, ap, ◌⊎◌, inl, inr, none, arith, ok,
  Option-cases, Ordering, null, word64, add64, sub64,
}
use cidl.Pool.{Arena}
use cidl.SearchTree.{Tree, empty, node, tfind, tsearch, tdelete}
use cidl.SearchTree.All.{All, All-weaken, All-tsearch, All-tdelete}
use cidl.SearchTree.Members.{In, size, size-tdelete, In-tdelete, In-tsearch, All-In, All-both}
use cidl.BaseVersion.{
  MemRec, Ranges, rec_compare, overlap_rec, range_of, low_memory, max_file_offset, mem_rec_bytes,
  allocate_mem_rec_arr, withdraw_mem_rec_arr, delete_overlaps, delete_rec, insert_rec,
}
use cidl.BaseVersion.Sorted.{IsSorted, Disjoint, tdelete-IsSorted, none_overlaps, tsearch-IsPlaced}

pub In-full : (t : Tree MemRec) (x : MemRec) → IsSorted t → In x t → x.start_memory < x.tail_memory
In-full empty x h i = elim i [ ]
In-full (node l a r) x h (inl i) = In-full l x h.0 i
In-full (node l a r) x h (inr (inl e)) =
    omega (arith, h.2, ap (λ (y : MemRec). y.start_memory) e, ap (λ (y : MemRec). y.tail_memory) e)
In-full (node l a r) x h (inr (inr i)) = In-full r x h.4 i

-- A range that does not overlap another does not compare equal to it.
differs :
    (k x : MemRec)
    → k.start_memory < k.tail_memory
    → x.start_memory < x.tail_memory
    → Disjoint k x
    → overlap_rec k x ≢ Ordering.eq
differs k x full full' (inl before) e = ground (arith, e)
differs k x full full' (inr after) e = ground (arith, e)

-- The loop has deleted all that overlaps `k`, and nothing else.
record Cleared (k : MemRec) (P : MemRec → Type 0) (s t : Ranges) : Type 0 where
  absent : tfind (overlap_rec k) t.tree ≡ none
  sorted : IsSorted t.tree
  only : All P t.tree
  keeps : (x : MemRec) → In x s.tree → overlap_rec k x ≢ Ordering.eq → In x t.tree

module _ (k : MemRec) (P : MemRec → Type 0) where
  untouched :
      (s : Ranges)
      → IsSorted s.tree
      → All P s.tree
      → tfind (overlap_rec k) s.tree ≡ none
      → Cleared k P s s
  untouched s sorted only e = record {
    absent = e;
    sorted = sorted;
    only = only;
    keeps = λ x i ne. i;
  }

  delete_overlaps-Cleared :
      (fuel : ℕ) (s : Ranges)
      → IsSorted s.tree
      → All P s.tree
      → size s.tree ≤ fuel
      → (t : Ranges) × (delete_overlaps fuel k s ≡ ok (tt, t)) × Cleared k P s t
  unfolding delete_overlaps
  delete_overlaps-Cleared zero s sorted only enough =
      elim (Option-cases (tfind (overlap_rec k) s.tree)) [
        | inl e ↦ (s, ground (arith, e), untouched s sorted only e)
        | inr (a, e) ↦ absurd (omega (arith, size-tdelete (overlap_rec k) s.tree a e))
      ]
  delete_overlaps-Cleared (suc fuel) s sorted only enough =
      elim (Option-cases (tfind (overlap_rec k) s.tree)) [
        | inl e ↦ (s, ground (arith, e), untouched s sorted only e)
        | inr (a, e) ↦
            let s₁ : Ranges = record s { tree = tdelete (overlap_rec k) s.tree } in
            let (t, run, c) =
              delete_overlaps-Cleared fuel s₁ (tdelete-IsSorted (overlap_rec k) s.tree sorted)
                (All-tdelete P (overlap_rec k) s.tree only)
                (omega (arith, size-tdelete (overlap_rec k) s.tree a e)) in
            (
              t,
              ground (arith, e, run),
              record {
                absent = c.absent;
                sorted = c.sorted;
                only = c.only;
                keeps = λ x i ne. c.keeps x (In-tdelete (overlap_rec k) s.tree x i ne) ne;
              },
            )
      ]

-- A range is in the tree, without any other that it overlaps; the others of `s` that it does not
-- overlap are there too, and nothing else.
pub record Replaces (k : MemRec) (s t : Ranges) : Type 0 where
  pub sorted : IsSorted t.tree
  pub there : In k t.tree
  pub keeps : (x : MemRec) → In x s.tree → Disjoint k x → In x t.tree
  pub only : All (λ x. (x ≡ k) ⊎ (In x s.tree × Disjoint k x)) t.tree

module _ (k : MemRec) (s t : Ranges) (full : k.start_memory < k.tail_memory)
    (sorted : IsSorted s.tree) (c : Cleared k (λ x. In x s.tree) s t) where
  none_left : All (Disjoint k) t.tree
  none_left = none_overlaps k t.tree full c.sorted c.absent

  inserted-Replaces :
      (a : Arena) → Replaces k s (record { tree = tsearch (rec_compare k) k t.tree; arena = a })
  inserted-Replaces a =
      let placed = tsearch-IsPlaced k t.tree full c.sorted none_left in
      record {
        sorted = placed.0;
        there = placed.1;
        keeps = λ x i d.
            In-tsearch (rec_compare k) t.tree k x
              (c.keeps x i (differs k x full (In-full s.tree x sorted i) d));
        only =
            All-tsearch (λ x. (x ≡ k) ⊎ (In x s.tree × Disjoint k x)) (rec_compare k) k t.tree
              (All-weaken (λ x. In x s.tree × Disjoint k x)
                (λ x. (x ≡ k) ⊎ (In x s.tree × Disjoint k x)) t.tree (λ x h. inr h)
                (All-both (λ x. In x s.tree) (Disjoint k) t.tree c.only none_left))
              (inl refl);
      }

-- With a tree of ranges in order, room in the heap, and arguments that pass the assertions, `insertRec`
-- returns. Its range is in the tree, which is in order again; of the others exactly those are left that
-- do not overlap it.
pub insert_rec-Replaces :
    (file_offset dest file_name length : ℕ) (s : Ranges)
    → IsSorted s.tree
    → 0 < s.arena.next
    → s.arena.next + 2 * mem_rec_bytes ≤ s.arena.limit
    → low_memory < dest
    → 0 < length
    → dest + length < word64
    → file_offset < max_file_offset
    → file_name ≢ null
    → (t : Ranges) × (insert_rec file_offset dest file_name length s ≡ ok (tt, t))
      × Replaces (range_of file_offset dest length file_name) s t
unfolding insert_rec delete_rec allocate_mem_rec_arr withdraw_mem_rec_arr
insert_rec-Replaces file_offset dest file_name length s sorted used room low some_bytes top small
      named =
    let key = range_of 0 dest length null in
    let k = range_of file_offset dest length file_name in
    let tail : add64 dest length ≡ dest + length = omega arith in
    let a₂ : Arena = record {
      next = s.arena.next + mem_rec_bytes + mem_rec_bytes;
      limit = s.arena.limit;
      total_alloc_size = add64 (add64 s.arena.total_alloc_size mem_rec_bytes) mem_rec_bytes;
    } in
    let s₂ : Ranges = record s { arena = a₂ } in
    let (t, run, c) =
      delete_overlaps-Cleared key (λ x. In x s.tree) (size s.tree) s₂ sorted (All-In s.tree)
        (omega arith) in
    let freed : Arena = record (t.arena) {
      total_alloc_size = sub64 t.arena.total_alloc_size mem_rec_bytes;
    } in
    (
      record { tree = tsearch (rec_compare k) k t.tree; arena = freed },
      ground (arith, run, tail),
      inserted-Replaces k s t (omega arith) sorted
          (record { absent = c.absent; sorted = c.sorted; only = c.only; keeps = c.keeps }) freed,
    )
