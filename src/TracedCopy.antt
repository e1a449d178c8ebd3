-- ===== src/TracedCopy.antt =====
-- `ts_memcpy_traced` of awn.c, the copy out of memory that is traced: the records of the source's
-- pages are inserted again at the destination.
pub mod Moves
pub mod Bounded
pub mod Copied
pub mod OnePage
use cidl.Base.{
  ℕ, zero, suc, ◌+◌, ◌-◌, ◌*◌, ◌^◌, Bool, true, false, ◌&&◌, List, [], ◌∷◌, reverse, ltb, leb, ◌==◌,
  if◌then◌else◌, Option, none, some, Run, exit, pure, get, modify, or_exit, out_of_fuel, segfault,
  and_then, add64, sub64, ◌>>◌, ◌>>=◌,
}
use cidl.Addr.{Ptr, addr2page_num, addr2page_offset}
use cidl.Mem.{mem_rec_per_entry, mem_rec_size}
use cidl.Rec.{MemRec, RecBlockEntry, RecTreeNode, Recs, Store, find_node, modify_node, OpenFiles}
use cidl.Rec.Insert.{insert_rec}
use cidl.Write.{rec_addr}
use cidl.State.{State, on_recs}
use cidl.Files.{memcpy}

-- `rec[i-1]`. The record before an array is the last one of the array before it in memory.
abbrev pub record_before : Store → Ptr → (i : ℕ) → MemRec
record_before st arr zero =
    st (sub64 arr (mem_rec_size * mem_rec_per_entry)) (mem_rec_per_entry - 1)
record_before st arr (suc i) = st arr i

-- `pageOffset >= destOffset`, of a `short` and an `int` that is not negative.
abbrev pub is_from : (dest_offset : ℕ) → MemRec → Bool
is_from dest_offset r = leb dest_offset r.page_offset && ltb r.page_offset (2 ^ 15)

-- The loop that looks for the entry to start from, from `TAILQ_LAST` on. It returns the entry and
-- `uplimit`.
unfoldable pub seek_entry :
    Store
    → RecTreeNode
    → (src_last_entry : Ptr) → (dest_offset uplimit : ℕ) → List RecBlockEntry
    → Option (RecBlockEntry × ℕ)
seek_entry st n src_last_entry dest_offset uplimit [] = none
seek_entry st n src_last_entry dest_offset uplimit (e ∷ es) =
    let uplimit' = if n.rec_mod_entry == src_last_entry then n.mem_rec_idx else uplimit in
    elim (is_from dest_offset (record_before st e.rec_arr uplimit')) [
      | true ↦ some (e, uplimit')
      | false ↦ seek_entry st n src_last_entry dest_offset uplimit' es
    ]

-- The loop that looks for the record to start from, by the records left.
unfoldable pub seek_rec : Store → Ptr → (dest_offset left idx : ℕ) → Option ℕ
seek_rec st arr dest_offset zero idx = none
seek_rec st arr dest_offset (suc left) idx = elim (is_from dest_offset (st arr idx)) [
  | true ↦ some idx
  | false ↦ seek_rec st arr dest_offset left (idx + 1)
]

-- `TAILQ_PREV(blockEntry)` in a queue whose head comes first. An entry that has left the queue has
-- none before it.
abbrev pub entry_before :
    Ptr → (before : Option RecBlockEntry) → List RecBlockEntry → Option RecBlockEntry
entry_before p before [] = none
entry_before p before (e ∷ es) = if e.addr == p then before else entry_before p (some e) es

abbrev pub prev_of : (page : ℕ) → Ptr → Recs → Option RecBlockEntry
prev_of page p s = elim (find_node page s) [
  | none ↦ none
  | some n ↦ entry_before p none n.list_head
]

-- `srcRes[0]->recModEntry = blockEntry; srcRes[0]->memRecIdx = idx;`
abbrev pub truncate_at : (page : ℕ) → RecBlockEntry → (idx : ℕ) → Recs → Recs
truncate_at page e idx =
    modify_node page (λ n. record n { rec_mod_entry = e.addr; mem_rec_idx = idx })

module _ (delete_treenode : Bool) (open_files : OpenFiles) (dest src : Ptr) where
  -- `for(; idx < uplimit; idx++)`, by the records left.
  unfoldable pub copy_recs : (start left : ℕ) → Ptr → (idx : ℕ) → Run Recs (Unit {0})
  copy_recs start zero arr idx = pure tt
  copy_recs start (suc left) arr idx = do
    s ← get
    let r = s.store arr idx
    let copy_src = rec_addr start r
    insert_rec delete_treenode open_files r.file_offset (add64 dest (sub64 copy_src src))
        r.file_name r.fd
    copy_recs start left arr (idx + 1)

  -- `uplimit` before the records of a later entry are copied.
  abbrev pub uplimit_of : (start : ℕ) → (src_last_entry : Ptr) → (uplimit : ℕ) → Ptr → Run Recs ℕ
  uplimit_of start src_last_entry uplimit p =
      if p == src_last_entry
      then (do s ← get; n ← or_exit (find_node start s) segfault; pure n.mem_rec_idx)
      else pure uplimit

  -- `while(blockEntry)`, on fuel.
  unfoldable pub copy_entries :
      (start fuel : ℕ)
      → (src_last_entry : Ptr) → (uplimit : ℕ) → Option RecBlockEntry
      → Run Recs (Unit {0})
  copy_entries start fuel src_last_entry uplimit none = pure tt
  copy_entries start zero src_last_entry uplimit (some e) = λ s. out_of_fuel
  copy_entries start (suc fuel) src_last_entry uplimit (some e) = do
    uplimit' ← uplimit_of start src_last_entry uplimit e.addr
    copy_recs start uplimit' e.rec_arr 0
    s ← get
    copy_entries start fuel src_last_entry uplimit' (prev_of start e.addr s)

  -- From the record `idx` of the entry on.
  unfoldable pub copy_from :
      (start fuel : ℕ)
      → (src_last_entry : Ptr) → (uplimit idx : ℕ) → RecBlockEntry
      → Run Recs (Unit {0})
  copy_from start fuel src_last_entry uplimit idx e = do
    copy_recs start (uplimit - idx) e.rec_arr idx
    s ← get
    copy_entries start fuel src_last_entry uplimit (prev_of start e.addr s)

  -- The first page, from an entry that was found: the records from `idx` on are cut off.
  unfoldable pub copy_first :
      (start fuel : ℕ) → (src_last_entry : Ptr) → RecBlockEntry × ℕ → Run Recs (Unit {0})
  copy_first start fuel src_last_entry (e, uplimit) = do
    s ← get
    elim (seek_rec s.store e.rec_arr (addr2page_offset src) uplimit 0) [
      | none ↦ copy_from start fuel src_last_entry uplimit uplimit e
      | some idx ↦ do
        modify (truncate_at start e idx)
        copy_from start fuel src_last_entry uplimit idx e
    ]

  -- A page that is traced, by its queue from `TAILQ_LAST` on.
  unfoldable pub copy_node :
      (first start fuel : ℕ) → RecTreeNode → List RecBlockEntry → Run Recs (Unit {0})
  copy_node first start fuel n [] = λ s. exit segfault
  copy_node first start fuel n (e ∷ es) = do
    s ← get
    if start == first
        then (elim (seek_entry s.store n n.rec_mod_entry (addr2page_offset src) mem_rec_per_entry
            (e ∷ es)) [ none ↦ pure tt | some found ↦ copy_first start fuel n.rec_mod_entry found ])
        else copy_from start fuel n.rec_mod_entry n.mem_rec_idx 0 e

  -- One round of the loop over the pages of the source.
  unfoldable pub copy_page : (first start fuel : ℕ) → Run Recs (Unit {0})
  copy_page first start fuel = do
    s ← get
    elim (find_node start s) [
      | none ↦ pure tt
      | some n ↦ copy_node first start fuel n (reverse n.list_head)
    ]

  -- `for(int i=0; start<=end; start++,destStart++,i++)`, by the pages left.
  unfoldable pub copy_pages : (first fuel left start : ℕ) → Run Recs (Unit {0})
  copy_pages first fuel zero start = pure tt
  copy_pages first fuel (suc left) start = do
    copy_page first start fuel
    copy_pages first fuel left (start + 1)

-- `ts_memcpy_traced`. The loop over the entries of a page has the given fuel on each page.
unfoldable pub ts_memcpy_traced :
    (delete_treenode : Bool) → (fuel : ℕ) → (dest src : Ptr) → (n : ℕ) → Run State Ptr
ts_memcpy_traced delete_treenode fuel dest src n = do
  modify (λ s. record s { bytes = memcpy dest src n s.bytes })
  s ← get
  let start = addr2page_num src
  let end = addr2page_num (add64 src n)
  on_recs
      (copy_pages delete_treenode s.files.open_files dest src start fuel (end + 1 - start) start)
  pure dest
