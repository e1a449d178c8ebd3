-- ===== src/BaseVersion/Copies.antt =====
-- `ts_memcpy_traced` of the build with BASE_VERSION.
use cidl.Base.{
  Option, Result, and_then, ℕ, zero, suc, ◌+◌, ◌-◌, ◌*◌, ◌≤◌, ◌<◌, ◌≡◌, ◌≢◌, refl, ap, ◌∙◌, ◌⊎◌,
  inl, inr, some, none, arith, ok, Ordering, null, word64, add64, sub64, ltb, if◌then◌else◌,
}
use cidl.SearchTree.{Tree, empty, node, tfind, tdelete, join}
use cidl.SearchTree.All.{All-weaken, none-tfind}
use cidl.SearchTree.Members.{In}
use cidl.Files.{memcpy}
use cidl.BaseVersion.{
  MemRec, Ranges, BaseState, overlap_rec_beg_bigger, range_of, low_memory, max_file_offset,
  mem_rec_bytes, insert_rec, allocate_mem_rec_arr, withdraw_mem_rec_arr, copy_ranges,
  ts_memcpy_traced,
}
use cidl.BaseVersion.Sorted.{Disjoint}
use cidl.BaseVersion.Insert.{Replaces, insert_rec-Replaces}

module _ (dest src n : ℕ) (s : BaseState) (b : MemRec) (one : s.ranges.tree ≡ node empty b empty)
    (starts : src ≤ b.start_memory) (full : b.start_memory < b.tail_memory)
    (ends : b.tail_memory ≤ src + n) (above : src + n < dest)
    (top : dest + (b.start_memory - src) + (b.tail_memory - src) < word64) (low : low_memory < dest)
    (small : b.file_offset < max_file_offset) (named : b.file_name ≢ null)
    (used : 0 < s.ranges.arena.next)
    (room : s.ranges.arena.next + 3 * mem_rec_bytes ≤ s.ranges.arena.limit) where
  -- The range that is recorded at the destination.
  abbrev new_range : MemRec
  new_range =
      range_of b.file_offset (dest + (b.start_memory - src)) (b.tail_memory - src) b.file_name

  abbrev key : MemRec
  key = range_of 0 src n null

  abbrev allocated : Ranges
  allocated = record {
    tree = empty;
    arena = record {
      next = s.ranges.arena.next + mem_rec_bytes;
      limit = s.ranges.arena.limit;
      total_alloc_size = add64 s.ranges.arena.total_alloc_size mem_rec_bytes;
    };
  }

  inserted :
      (t : Ranges) × (insert_rec b.file_offset
          (dest + (b.start_memory - src))
          b.file_name
          (b.tail_memory - src)
          allocated
        ≡ ok (tt, t))
      × Replaces new_range allocated t
  inserted =
      insert_rec-Replaces b.file_offset (dest + (b.start_memory - src)) b.file_name
        (b.tail_memory - src) allocated tt (omega (arith, used)) (omega (arith, room))
        (omega (arith, low)) (omega (arith, full, starts)) (omega (arith, top)) small named

  not_source : (x : MemRec) → x ≡ new_range → overlap_rec_beg_bigger key x ≢ Ordering.eq
  not_source x e q = ground (arith, ap (λ (y : MemRec). y.start_memory) e, q)

  -- The search of the next round.
  nothing_left :
      (t : Ranges)
      → Replaces new_range allocated t
      → tfind (overlap_rec_beg_bigger key) t.tree ≡ none
  nothing_left t w = none-tfind (overlap_rec_beg_bigger key) t.tree (
      All-weaken (λ x. (x ≡ new_range) ⊎ (In x empty × Disjoint new_range x))
        (λ x. overlap_rec_beg_bigger key x ≢ Ordering.eq) t.tree only_new w.only)
    where
      only_new :
          (x : MemRec)
          → (x ≡ new_range) ⊎ (In x empty × Disjoint new_range x)
          → overlap_rec_beg_bigger key x ≢ Ordering.eq
      only_new x (inl e) = not_source x e
      only_new x (inr h) = elim (h.0) [ ]

  abbrev freed : Ranges → Ranges
  freed t = record t {
    arena = record (t.arena) { total_alloc_size = sub64 t.arena.total_alloc_size mem_rec_bytes };
  }

  ends_after :
      (fuel : ℕ) (t : Ranges)
      → tfind (overlap_rec_beg_bigger key) t.tree ≡ none
      → copy_ranges dest src (add64 src n) fuel key t ≡ ok (tt, t)
  unfolding copy_ranges
  ends_after zero t e = ground (arith, e)
  ends_after (suc fuel) t e = ground (arith, e)

  equal : overlap_rec_beg_bigger key b ≡ Ordering.eq
  equal = ground arith

  found : tfind (overlap_rec_beg_bigger key) (node empty b empty) ≡ some b
  unfolding tfind
  found = ground (arith, equal)

  gone : tdelete (overlap_rec_beg_bigger key) (node empty b empty) ≡ empty
  unfolding tdelete join
  gone = ground (arith, equal)

  -- The first round inserts the range with a length that is counted from the source's start.
  abbrev after_insert : (fuel : ℕ) → Ranges → Result (Unit {0} × Ranges)
  after_insert fuel t =
      and_then (withdraw_mem_rec_arr t) (λ _ u. copy_ranges dest src (add64 src n) fuel key u)

  abbrev inserting : (at length : ℕ) → Tree MemRec → Result (Unit {0} × Ranges)
  inserting at length tree =
      insert_rec b.file_offset at b.file_name length (record allocated { tree = tree })

  abbrev by_search : (fuel : ℕ) → Option MemRec → Result (Unit {0} × Ranges)
  by_search fuel none = ok (tt, record allocated { tree = node empty b empty })
  by_search fuel (some c) =
      and_then
        (insert_rec c.file_offset (add64 dest (sub64 c.start_memory src)) c.file_name
          (sub64 (if ltb c.tail_memory (add64 src n) then c.tail_memory else add64 src n) src)
          (record allocated { tree = tdelete (overlap_rec_beg_bigger key) (node empty b empty) }))
        (λ _ t. after_insert fuel t)

  copy_ranges-run :
      (fuel : ℕ) (t : Ranges)
      → insert_rec b.file_offset
          (dest + (b.start_memory - src))
          b.file_name
          (b.tail_memory - src)
          allocated
        ≡ ok (tt, t)
      → tfind (overlap_rec_beg_bigger key) t.tree ≡ none
      → copy_ranges dest src
          (add64 src n)
          (suc fuel)
          key
          (record allocated { tree = node empty b empty })
        ≡ ok (tt, freed t)
  unfolding copy_ranges withdraw_mem_rec_arr
  copy_ranges-run fuel t run none_left =
      let at : add64 dest (sub64 b.start_memory src) ≡ dest + (b.start_memory - src) =
        omega arith in
      let long : sub64 (if ltb b.tail_memory (add64 src n) then b.tail_memory else add64 src n) src
          ≡ b.tail_memory - src =
        ground arith in
      let at₁ = dest + (b.start_memory - src) in
      let long₀ =
        sub64 (if ltb b.tail_memory (add64 src n) then b.tail_memory else add64 src n) src in
      let tree₀ = tdelete (overlap_rec_beg_bigger key) (node empty b empty) in
      ap (by_search fuel) found
      ∙ ap (λ r. and_then r (λ _ u. after_insert fuel u))
          (ap (λ a. inserting a long₀ tree₀) at
            ∙ ap (λ l. inserting at₁ l tree₀) long
            ∙ ap (inserting at₁ (b.tail_memory - src)) gone
            ∙ run)
      ∙ ends_after fuel (freed t) none_left

  taken :
      allocate_mem_rec_arr s.ranges
      ≡ ok (s.ranges.arena.next, record allocated { tree = node empty b empty })
  unfolding allocate_mem_rec_arr
  taken = ground (arith, one)

  -- A range in the source is recorded at the destination with a length that is counted from the start
  -- of the source instead of its own: if the tree holds one range, inside the source, and the
  -- destination lies above the source, then `ts_memcpy_traced` returns the destination, and the tree
  -- has the range from where its bytes are copied to, but behind their end it goes on for as many
  -- bytes as lie before the range in the source. One round of fuel is enough.
  pub ts_memcpy_traced-too_long :
      (fuel : ℕ)
      → (t : BaseState) × (ts_memcpy_traced (suc fuel) dest src n s ≡ ok (dest, t))
        × (t.bytes ≡ memcpy dest src n s.bytes)
        × (r : MemRec) × In r t.ranges.tree
        × (r.start_memory ≡ dest + (b.start_memory - src))
        × (r.tail_memory ≡ dest + (b.tail_memory - src) + (b.start_memory - src))
  unfolding ts_memcpy_traced withdraw_mem_rec_arr
  ts_memcpy_traced-too_long fuel =
      let (t, run, w) = inserted in
      let copied = copy_ranges-run fuel t run (nothing_left t w) in
      (
        record s { ranges = freed (freed t); bytes = memcpy dest src n s.bytes },
        ground (arith, taken, copied),
        refl,
        new_range,
        w.there,
        refl,
        omega (arith, top, full, starts),
      )
