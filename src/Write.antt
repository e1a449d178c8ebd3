-- ===== src/Write.antt =====
-- The comparison of written data with the files that it came from: `memcmp_avx2_asm` (its C text),
-- `cmpWrite`, `do_ts_write`, `ts_write` and `ts_pwrite` of awn.c.
pub mod Compare
pub mod Fold
pub mod Bounds
pub mod NotFound
use cidl.Base.{
  ℕ, zero, suc, ◌+◌, ◌-◌, ◌%◌, ◌≤◌, Bool, true, false, List, [], ◌∷◌, ltb, leb, ◌==◌, if◌then◌else◌,
  Option, none, some, word64, add64, sub64, to_int, sign_extend, sign_extend16, min_int,
}
use cidl.Addr.{Ptr, page_size, get_addr, addr2page_num}
use cidl.SearchTree.{tfind}
use cidl.Rec.{MemRec, RecBlockEntry, RecTreeNode, find_node}
use cidl.Rec.View.{count_in}
use cidl.State.{State, Stats, FileMapTreeNode, file_map_name_tree_ins_del_compare}

-- `memcmp_avx2_asm`, by the bytes left: `none` if it returns 0, and otherwise the address that it
-- stores in `*firstDiffPos`. The sign of the result is not used by its callers.
unfoldable pub memcmp_avx2_asm : (Ptr → ℕ) → (n : ℕ) → (s1 s2 : Ptr) → Option Ptr
memcmp_avx2_asm bytes zero c1 c2 = none
memcmp_avx2_asm bytes (suc n) c1 c2 = elim (bytes c1 == bytes c2) [
  | true ↦ memcmp_avx2_asm bytes n (c1 + 1) (c2 + 1)
  | false ↦ some c1
]

-- The variables of the loops that outlive a round.
pub record Progress : Type 0 where
  pub stats : Stats
  pub diff_pos : Ptr

-- `addLen` and the effect of one comparison that was made.
abbrev pub compared : (buf_cmp_start tail : ℕ) → Option Ptr → Progress → ℕ × Progress
compared buf_cmp_start tail result p =
    let add_len = add_len_of result in
    (
      add_len,
      record {
        stats = record p.stats {
          ts_metadata_item = add64 p.stats.ts_metadata_item 1;
          ts_write_same_size = add64 p.stats.ts_write_same_size add_len;
        };
        diff_pos = diff_pos_of result;
      },
    )
  where
    add_len_of : Option Ptr → ℕ
    add_len_of none = sub64 tail buf_cmp_start
    add_len_of (some d) = sub64 (if ltb tail d then tail else d) buf_cmp_start

    diff_pos_of : Option Ptr → Ptr
    diff_pos_of none = tail
    diff_pos_of (some d) = d

-- `fmTarNode->start+mrp->fileOffset-fmTarNode->offset`
abbrev pub file_cmp_start_of : FileMapTreeNode → MemRec → Ptr
file_cmp_start_of fm r = sub64 (add64 fm.start r.file_offset) fm.offset

-- `cmpWrite`, with the result that it returns. The file is looked for by the name in the record.
unfoldable pub cmp_write :
    State → (buf_cmp_start : ℕ) → MemRec → (tail : ℕ) → Progress → ℕ × Progress
cmp_write s buf_cmp_start mrp tail p = on_file found
  where
    found : Option Ptr
    found = tfind (file_map_name_tree_ins_del_compare s.files.nodes mrp.file_name) s.files.name_tree

    on_file : Option Ptr → ℕ × Progress
    on_file none = (word64 - 1, p)
    on_file (some fm) =
        if leb (s.files.nodes fm).offset mrp.file_offset
        then compared buf_cmp_start tail
            (memcmp_avx2_asm s.bytes (sub64 tail buf_cmp_start) buf_cmp_start
              (file_cmp_start_of (s.files.nodes fm) mrp))
            p
        else (0, p)

-- The address of a record in the page `start`.
abbrev pub rec_addr : (start : ℕ) → MemRec → Ptr
rec_addr start r = get_addr start (sign_extend16 r.page_offset)

module _ (s : State) (start : ℕ) (tail : Ptr) where
  -- `while (getAddr(start, mrp->pageOffset) < diffPos && i<idx) { mrp++; i++; }`, by the records
  -- left.
  unfoldable pub skip : (left : ℕ) → Ptr → (i diff_pos : ℕ) → ℕ
  skip zero arr i diff_pos = i
  skip (suc left) arr i diff_pos = elim (ltb (rec_addr start (s.recs.store arr i)) diff_pos) [
    | true ↦ skip left arr (i + 1) diff_pos
    | false ↦ i
  ]

  -- `for(; i<idx; mrp++,i++)`. The second test of the loop's body, `> tail`, has an empty statement.
  unfoldable pub compare_recs : (left : ℕ) → Ptr → (i : ℕ) → Progress → Progress
  compare_recs zero arr i p = p
  compare_recs (suc left) arr i p =
      let mrp = s.recs.store arr i in
      let buf_cmp_start = rec_addr start mrp in
      compare_recs left arr (i + 1)
        (if ltb buf_cmp_start p.diff_pos then p else (cmp_write s buf_cmp_start mrp tail p).1)

  unfoldable pub compare_block : RecTreeNode → RecBlockEntry → Progress → Progress
  compare_block n e p =
      let idx = count_in n e in
      let i = skip idx e.rec_arr 0 p.diff_pos in compare_recs (idx - i) e.rec_arr i p

  -- `while(blockEntry){ … blockEntry = TAILQ_PREV(blockEntry); }` from `TAILQ_LAST`: the entries
  -- behind the first of the list come before it.
  unfoldable pub compare_blocks : RecTreeNode → List RecBlockEntry → Progress → Progress
  compare_blocks n [] p = p
  compare_blocks n (e ∷ es) p = compare_block n e (compare_blocks n es p)

-- `toTailLen`, an `int`.
abbrev pub to_tail_len : (buf length start : ℕ) → ℕ
to_tail_len buf length start = to_int (sub64 length (sub64 (get_addr start 0) buf))

abbrev pub add_not_found : ℕ → Progress → Progress
add_not_found n p = record p {
  stats = record p.stats {
    ts_write_not_found_size = add64 p.stats.ts_write_not_found_size (sign_extend n);
  };
}

module _ (s : State) (buf length tail : ℕ) where
  -- One round of the loop over the pages.
  unfoldable pub compare_page : (start : ℕ) → Progress → Progress
  compare_page start p =
      if ltb (get_addr start 4095) p.diff_pos then p else on_node (find_node start s.recs)
    where
      on_node : Option RecTreeNode → Progress
      on_node none = add_not_found (min_int page_size (to_tail_len buf length start)) p
      on_node (some n) = compare_blocks s start tail n n.list_head p

  -- `for(int i=0; start<=end; start++,i++)`, by the pages left.
  unfoldable pub compare_pages : (left start : ℕ) → Progress → Progress
  compare_pages zero start p = p
  compare_pages (suc left) start p = compare_pages left (start + 1) (compare_page start p)

-- `do_ts_write`
unfoldable pub do_ts_write : (buf length tail start end : ℕ) → State → State
do_ts_write buf length tail start end s = record s {
  stats =
      (compare_pages s buf length tail (end + 1 - start) start
        (record { stats = s.stats; diff_pos = buf })).stats;
}

-- The common end of `ts_write` and `ts_pwrite`: the pages of the buffer are compared.
abbrev pub do_ts_write_buf : (buf length : ℕ) → State → State
do_ts_write_buf buf length s =
    do_ts_write buf length (add64 buf length) (addr2page_num buf) (addr2page_num (add64 buf length))
      s

-- `ts_write`. The system call returns `written` and leaves the memory as in `bytes`: it may change what a
-- shared mapping of the file holds. The comparison comes after it.
unfoldable pub ts_write : (buf length written : ℕ) → (bytes : Ptr → ℕ) → State → ℕ × State
ts_write buf length written bytes s = (
  written,
  do_ts_write_buf buf length (record s {
    bytes = bytes;
    stats = record s.stats {
      ts_write_time = (s.stats.ts_write_time + 1) % 0xffffff;
      ts_write_size = add64 s.stats.ts_write_size length;
    };
  }),
)

-- `ts_pwrite`
unfoldable pub ts_pwrite : (buf length written : ℕ) → (bytes : Ptr → ℕ) → State → ℕ × State
ts_pwrite buf length written bytes s = (
  written,
  do_ts_write_buf buf length (record s {
    bytes = bytes;
    stats = record s.stats { ts_write_size = add64 s.stats.ts_write_size length };
  }),
)
