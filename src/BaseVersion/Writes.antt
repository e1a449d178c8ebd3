-- ===== src/BaseVersion/Writes.antt =====
-- `do_ts_write` of the build with BASE_VERSION.
use cidl.Base.{
  ℕ, zero, suc, ◌+◌, ◌-◌, ◌<◌, ◌≡◌, refl, subst, sym, false, arith, Ends, ◌==◌, Ends-and_then,
  Ends-assert, Ends-zoom, Option-cases, Bool-cases, inl, inr, Ordering, null, word64, add64, assert,
  leb, Run, zoom,
}
use cidl.Addr.{Ptr}
use cidl.Pool.{malloc}
use cidl.SearchTree.{Tree, tfind}
use cidl.SearchTree.All.{All, All-tfind}
use cidl.SearchTree.Lookup.{equal-tfind}
use cidl.State.{Files}
use cidl.Write.{Progress}
use cidl.BaseVersion.{
  MemRec, Ranges, BaseState, mem_rec_bytes, overlap_rec_beg_bigger, range_of, is_range, assert_rec,
  cmp_write, compare_ranges, do_ts_write, allocate_mem_rec_arr, withdraw_mem_rec_arr, on_ranges,
}

abbrev Any : Progress → Type 0
Any p = Unit {0}

-- A range that is not empty and ends before the last address.
abbrev pub IsProper : MemRec → Type 0
IsProper r = (r.start_memory < r.tail_memory) × (r.tail_memory + 1 < word64)

-- The next round starts behind this one.
later :
    (k b : MemRec)
    → overlap_rec_beg_bigger k b ≡ Ordering.eq
    → IsProper b
    → k.start_memory < add64 b.tail_memory 1
later k b e proper = ground (arith, e, proper.0, proper.1)

-- Fewer bytes are left.
fewer_left :
    (tail start start' fuel : ℕ)
    → start < start'
    → leb tail start' ≡ false
    → tail - start < suc fuel
    → tail - start' < fuel
fewer_left tail start start' fuel up more enough = ground arith

module _ (files : Files) (bytes : Ptr → ℕ) (tree : Tree MemRec) (tail : Ptr) where
  compare_ranges-Ends :
      (fuel : ℕ) (k : MemRec) (p : Progress)
      → All IsProper tree
      → k.tail_memory - k.start_memory < fuel
      → Ends Any (compare_ranges files bytes tree tail fuel k p)
  unfolding compare_ranges
  compare_ranges-Ends zero k p proper enough = absurd (omega arith)
  compare_ranges-Ends (suc fuel) k p proper enough =
      elim (Option-cases (tfind (overlap_rec_beg_bigger k) tree)) [
        | inl e ↦ rw (Ends, e) tt
        | inr (b, e) ↦
            let k' : MemRec = record k { start_memory = add64 b.tail_memory 1 } in
            let p' = (cmp_write files bytes tree tail b p).1 in
            let up =
              later k b (equal-tfind (overlap_rec_beg_bigger k) tree b e)
                (All-tfind IsProper (overlap_rec_beg_bigger k) tree b proper e) in
            rw (Ends, e)
              (elim (Bool-cases (leb k'.tail_memory k'.start_memory)) [
                | inl last ↦ rw (Ends, last) tt
                | inr more ↦
                    rw (Ends, more)
                      (Ends-and_then Any Any (assert (is_range k') p') _
                        (Ends-assert Any (is_range k') p' tt)
                        (λ _ p₁ _.
                          Ends-and_then Any Any (assert_rec b p₁) _ (Ends-assert Any _ p₁ tt)
                            (λ _ p₂ _. compare_ranges-Ends fuel k' p₂ proper (
                              fewer_left k.tail_memory k.start_memory k'.start_memory fuel up more
                                enough))))
              ])
      ]

abbrev SameTree : Tree MemRec → Ranges → Type 0
SameTree tree t = t.tree ≡ tree

abbrev pub Unwritten : BaseState → BaseState → Type 0
Unwritten s t = (t.ranges.tree ≡ s.ranges.tree) × (t.bytes ≡ s.bytes)

allocated-SameTree : (s : Ranges) → Ends (SameTree s.tree) (allocate_mem_rec_arr s)
unfolding allocate_mem_rec_arr
allocated-SameTree s =
    let (ret, a) = malloc mem_rec_bytes s.arena in
    elim (Bool-cases (ret == null)) [ inl e ↦ rw (Ends, e) tt | inr e ↦ rw (Ends, e) refl ]

-- If every range of the tree is not empty and ends before the last address, then `do_ts_write` ends:
-- the fuel that it is given, one more than the bytes of the buffer, is enough. It may end the process by
-- an assertion; if it returns, the tree and the memory are as they were.
pub do_ts_write-Ends :
    (buf length : ℕ) (tail : Ptr) (s : BaseState)
    → All IsProper s.ranges.tree
    → buf + length < word64
    → Ends (Unwritten s) (do_ts_write buf length tail s)
unfolding do_ts_write withdraw_mem_rec_arr
do_ts_write-Ends buf length tail s proper top =
    Ends-and_then (Unwritten s) (Unwritten s) (on_ranges allocate_mem_rec_arr s) _
      (Ends-zoom (SameTree s.ranges.tree) (Unwritten s) (λ t. t.ranges)
        (λ t r. record t { ranges = r }) allocate_mem_rec_arr s (allocated-SameTree s.ranges)
        (λ r same. (same, refl)))
      (λ _ s₁ same.
        Ends-and_then (Unwritten s) (Unwritten s)
          (zoom (λ (t : BaseState). progress_of t) with_stats (comparison s₁) s₁) _
          (Ends-zoom Any (Unwritten s) (λ (t : BaseState). progress_of t) with_stats (comparison s₁)
            s₁
            (compare_ranges-Ends s₁.files s₁.bytes s₁.ranges.tree tail (suc length)
              (range_of 0 buf length null) (progress_of s₁)
              (subst (All IsProper) (sym same.0) proper) (omega arith))
            (λ p _. same))
          (λ _ s₂ same'. same'))
  where
    progress_of : BaseState → Progress
    progress_of t = record { stats = t.stats; diff_pos = null }

    with_stats : BaseState → Progress → BaseState
    with_stats t p = record t { stats = p.stats }

    comparison : BaseState → Run Progress (Unit {0})
    comparison t =
        compare_ranges t.files t.bytes t.ranges.tree tail (suc length) (range_of 0 buf length null)
