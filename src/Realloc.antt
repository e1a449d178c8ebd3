-- ===== src/Realloc.antt =====
-- `ts_realloc` and `ts_free` of awn.c: after `realloc` the records of the old block are inserted again
-- at the new one.
pub mod Moved
pub mod OnePage
pub mod Stuck
pub mod Bounded
use cidl.Base.{
  ℕ, zero, suc, ◌+◌, ◌-◌, Bool, true, false, List, [], ◌∷◌, reverse, ltb, leb, ◌==◌, if◌then◌else◌,
  Option, none, some, Run, ok, pure, get, or_exit, out_of_fuel, segfault, and_then, add64, sub64,
  ◌>>◌, ◌>>=◌,
}
use cidl.Addr.{Ptr, addr2page_num}
use cidl.Mem.{mem_rec_per_entry}
use cidl.Rec.{MemRec, RecBlockEntry, RecTreeNode, Recs, find_node, OpenFiles}
use cidl.Rec.Insert.{insert_rec, first_of_list}
use cidl.Write.{rec_addr}
use cidl.State.{State, on_recs}
use cidl.TracedCopy.{prev_of}

-- `TAILQ_LAST` of a queue whose head comes first.
abbrev pub last_of : List RecBlockEntry → Option RecBlockEntry
last_of es = first_of_list (reverse es)

module _ (delete_treenode : Bool) (open_files : OpenFiles) (ptr tail ret : Ptr) where
  -- `for(int i=0; i< uplimit; i++)`, by the records left: those up to `ptr` are passed over, and
  -- the first one from `tail` on ends the loop.
  unfoldable pub move_recs : (start left : ℕ) → Ptr → (i : ℕ) → Run Recs (Unit {0})
  move_recs start zero arr i = pure tt
  move_recs start (suc left) arr i = do
    s ← get
    let r = s.store arr i
    let mem_addr = rec_addr start r
    let rest = move_recs start left arr (i + 1)
    if leb mem_addr ptr
        then rest
        else (if leb tail mem_addr then pure tt else (do
          insert_rec delete_treenode open_files r.file_offset (add64 (sub64 mem_addr ptr) ret)
              r.file_name r.fd
          rest))

  -- `uplimit` of an entry: the counter if it was the entry last modified when the page was entered.
  abbrev pub move_limit : (start : ℕ) → (most_rec_block : Ptr) → RecBlockEntry → Run Recs ℕ
  move_limit start most_rec_block e =
      if e.addr == most_rec_block
      then (do s ← get; n ← or_exit (find_node start s) segfault; pure n.mem_rec_idx)
      else pure mem_rec_per_entry

  -- `do { … } while(blockEntry)`, on fuel. The `continue` of the first test goes to the condition of
  -- the loop with `blockEntry` as it is.
  unfoldable pub move_entries :
      (start fuel : ℕ) → (most_rec_block : Ptr) → Option RecBlockEntry → Run Recs (Unit {0})
  move_entries start fuel most_rec_block none = pure tt
  move_entries start zero most_rec_block (some e) = λ s. out_of_fuel
  move_entries start (suc fuel) most_rec_block (some e) = do
    uplimit ← move_limit start most_rec_block e
    s ← get
    elim (leb tail (rec_addr start (s.store e.rec_arr uplimit))) [
      | true ↦ move_entries start fuel most_rec_block (some e)
      | false ↦ do
        move_recs start uplimit e.rec_arr 0
        s ← get
        move_entries start fuel most_rec_block (prev_of start e.addr s)
    ]

  -- One round of the loop over the pages of the old block.
  unfoldable pub move_page : (start fuel : ℕ) → Run Recs (Unit {0})
  move_page start fuel = do
    s ← get
    elim (find_node start s) [
      | none ↦ pure tt
      | some n ↦ do
        e ← or_exit (last_of n.list_head) segfault
        move_entries start fuel n.rec_mod_entry (some e)
    ]

  -- `for(int i=0; start<=end; start++,i++)`, by the pages left.
  unfoldable pub move_pages : (fuel left start : ℕ) → Run Recs (Unit {0})
  move_pages fuel zero start = pure tt
  move_pages fuel (suc left) start = do move_page start fuel; move_pages fuel left (start + 1)

-- `ts_realloc`, of the build without DEL_REALLOC_ADDR. `ret` is what `realloc` returns and `bytes`
-- the memory after it. The loop over the entries of a page has the given fuel on each page.
unfoldable pub ts_realloc :
    (delete_treenode : Bool) → (fuel : ℕ) → (ptr tail ret : Ptr) → (bytes : Ptr → ℕ) → Run State Ptr
ts_realloc delete_treenode fuel ptr tail ret bytes s =
    and_then
      (on_recs
        (move_pages delete_treenode s.files.open_files ptr tail ret fuel
          (addr2page_num tail + 1 - addr2page_num ptr) (addr2page_num ptr))
        (record s { bytes = bytes }))
      λ _ t. ok (ret, t)

-- `ts_free`, which leaves the records: `free` alone, after which the memory holds `bytes`.
unfoldable pub ts_free : (ptr : Ptr) → (bytes : Ptr → ℕ) → Run State (Unit {0})
ts_free ptr bytes s = ok (tt, record s { bytes = bytes })
