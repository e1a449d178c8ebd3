-- ===== src/StreamWrite.antt =====
-- `ts_fwrite` of awn.c, which has its own copy of the comparison loops: `diffPos` starts at 0, a page is
-- skipped by its first address, the records before the buffer are skipped, and the loop ends at a record
-- behind it.
pub mod Bounds
use cidl.Base.{
  ℕ, zero, suc, ◌+◌, ◌-◌, ◌*◌, ◌%◌, Bool, true, false, List, [], ◌∷◌, ltb, if◌then◌else◌, Option,
  none, some, word64, add64, min_int,
}
use cidl.Addr.{Ptr, page_size, get_addr, addr2page_num}
use cidl.Rec.{RecBlockEntry, RecTreeNode, find_node}
use cidl.Rec.View.{count_in}
use cidl.State.{State}
use cidl.Write.{Progress, cmp_write, rec_addr, to_tail_len, add_not_found}

module _ (s : State) (start : ℕ) (buf tail : Ptr) where
  -- `while (getAddr(start, mrp->pageOffset) < buf && i<idx) { mrp++; i++; }`, by the records left.
  unfoldable pub skip_before : (left : ℕ) → Ptr → (i : ℕ) → ℕ
  skip_before zero arr i = i
  skip_before (suc left) arr i = elim (ltb (rec_addr start (s.recs.store arr i)) buf) [
    | true ↦ skip_before left arr (i + 1)
    | false ↦ i
  ]

  -- `for(; i<idx; mrp++,i++)`, with its `continue` and its `break`.
  unfoldable pub stream_recs : (left : ℕ) → Ptr → (i : ℕ) → Progress → Progress
  stream_recs zero arr i p = p
  stream_recs (suc left) arr i p = elim (ltb (rec_addr start (s.recs.store arr i)) p.diff_pos) [
    | true ↦ stream_recs left arr (i + 1) p
    | false ↦ elim (ltb tail (rec_addr start (s.recs.store arr i))) [
      | true ↦ p
      | false ↦
          stream_recs left arr (i + 1)
            (cmp_write s (rec_addr start (s.recs.store arr i)) (s.recs.store arr i) tail p).1
    ]
  ]

  unfoldable pub stream_block : RecTreeNode → RecBlockEntry → Progress → Progress
  stream_block n e p =
      let idx = count_in n e in
      let i = skip_before idx e.rec_arr 0 in stream_recs (idx - i) e.rec_arr i p

  unfoldable pub stream_blocks : RecTreeNode → List RecBlockEntry → Progress → Progress
  stream_blocks n [] p = p
  stream_blocks n (e ∷ es) p = stream_block n e (stream_blocks n es p)

module _ (s : State) (buf length tail : ℕ) where
  unfoldable pub stream_page : (start : ℕ) → Progress → Progress
  stream_page start p =
      if ltb (get_addr start 0) p.diff_pos then p else on_node (find_node start s.recs)
    where
      on_node : Option RecTreeNode → Progress
      on_node none = add_not_found (min_int page_size (to_tail_len buf length start)) p
      on_node (some n) = stream_blocks s start buf tail n n.list_head p

  unfoldable pub stream_pages : (left start : ℕ) → Progress → Progress
  stream_pages zero start p = p
  stream_pages (suc left) start p = stream_pages left (start + 1) (stream_page start p)

-- `ts_fwrite` of `n` items of `size` bytes. `fwrite` returns `written` and leaves the memory as in
-- `bytes`, before the comparison.
unfoldable pub ts_fwrite : (buf size n written : ℕ) → (bytes : Ptr → ℕ) → State → ℕ × State
ts_fwrite buf size n written bytes before =
    let s : State = record before { bytes = bytes } in
    let length = size * n % word64 in
    let tail = add64 buf length in
    let start = addr2page_num buf in
    let counted = record (s.stats) { ts_write_size = add64 s.stats.ts_write_size length } in
    (
      written,
      record s {
        stats =
            (stream_pages s buf length tail (addr2page_num tail + 1 - start) start
              (record { stats = counted; diff_pos = 0 })).stats;
      },
    )
