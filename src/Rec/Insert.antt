-- ===== src/Rec/Insert.antt =====
-- `addTreeNode` of tree.c, and `writeRec`, `insertRec` and `ts_isMemTraced` of awn.c.
pub mod State
pub mod Runs
pub mod Append
pub mod Keep
pub mod Inserted
pub mod Refines
pub mod Terminates
pub mod Continues
pub mod Stock
pub mod Stocked
pub mod Dropped
pub mod Restarts
pub mod Default
pub mod Due
use cidl.Base.{
  ℕ, ◌+◌, ◌-◌, ◌*◌, ◌%◌, ◌^◌, Bool, true, false, ◌&&◌, ◌||◌, List, [], ◌∷◌, ltb, leb_short, ◌==◌,
  if◌then◌else◌, Option, none, some, null, Run, ok, exit, pure, get, modify, or_exit, assert,
  assert_failed, fatal, segfault, and_then, word64, sub64, to_short, ◌>>◌, ◌>>=◌,
}
use cidl.Addr.{Ptr, addr2page_num, addr2page_offset, page_num_shift}
use cidl.Mem.{
  mem_rec_per_entry, allocate_rec_tree_node, allocate_tail_head, allocate_rec_block_entry,
  allocate_mem_rec_arr, withdraw_mem_rec_arr, withdraw_rec_block_entry,
}
use cidl.SearchTree.{tfind, modify as modify_tree, tsearch}
use cidl.Rec.{
  MemRec, RecBlockEntry, RecTreeNode, Recs, rec_compare, write_rec_at, on_mem, find_node,
  modify_node, OpenFiles,
}
use cidl.Rec.Reclaim.{rec_tree_node_grabage_reclaim}

abbrev pub new_node : (addr : Ptr) → ℕ → (head ent arr : Ptr) → RecTreeNode
new_node addr page_num head ent arr = record {
  addr = addr;
  page_num = page_num;
  list_addr = head;
  list_head = record { addr = ent; rec_arr = arr } ∷ [];
  rec_mod_entry = ent;
  mem_rec_idx = 0;
}

-- `RECTREENODETHRESHOLD > RECTREENODEPOOLIDX || RECTREENODEPOOLIDX==0`
abbrev pub runs_low : Recs → Bool
runs_low s =
    ltb s.mem.rec_tree_nodes.idx s.mem.rec_tree_node_threshold || s.mem.rec_tree_nodes.idx == 0

-- `addTreeNode`
unfoldable pub add_tree_node : OpenFiles → ℕ → Run Recs RecTreeNode
unfolding tsearch
add_tree_node open_files page_num = do
  s ← get
  if runs_low s then rec_tree_node_grabage_reclaim open_files else pure tt
  tree_node ← on_mem allocate_rec_tree_node
  assert (if tree_node == null then false else true)
  head ← on_mem allocate_tail_head
  ent ← on_mem allocate_rec_block_entry
  arr ← on_mem allocate_mem_rec_arr
  let node = new_node tree_node page_num head ent arr
  modify (λ s. record s { tree = tsearch (rec_compare page_num) node s.tree })
  pure node

-- `findAndAddRecTreeNode`
pub find_and_add_rec_tree_node : OpenFiles → ℕ → Run Recs (Option RecTreeNode)
find_and_add_rec_tree_node open_files page_num = do
  s ← get
  elim (find_node page_num s) [
    | some n ↦ pure (some n)
    | none ↦ do _ ← add_tree_node open_files page_num; s' ← get; pure (find_node page_num s')
  ]

-- `*(lastRec.lastIdx)`
abbrev pub read_last_idx : Run Recs ℕ
read_last_idx = do
  s ← get
  n ← or_exit (find_node s.last_rec.last_idx s) segfault
  pure n.mem_rec_idx

abbrev pub write_last_idx : ℕ → Recs → Recs
write_last_idx i s = modify_node s.last_rec.last_idx (λ n. record n { mem_rec_idx = i }) s

-- `dest-(pageNum<<PAGENUMSHIFT)`, stored in a `short`.
abbrev pub page_offset_of : (dest : Ptr) → (page_num : ℕ) → ℕ
page_offset_of dest page_num = to_short (sub64 dest (page_num * 2 ^ page_num_shift % word64))

-- `writeRec`: the record goes behind the last one, into a new array at the head of the queue if the
-- current one is full.
unfoldable pub write_rec :
    (file_offset : ℕ)
    → (dest : Ptr) → (page_num : ℕ) → (file_name : Ptr) → (fd : ℕ) → Run Recs (Unit {0})
unfolding modify_tree
write_rec file_offset dest page_num file_name fd = do
  idx ← read_last_idx
  s ← get
  let pt = s.last_rec.last_mem_rec
  let value : MemRec = record {
    file_offset = file_offset;
    file_name = file_name;
    page_offset = page_offset_of dest page_num;
    fd = to_short fd;
  }
  if ltb idx mem_rec_per_entry
      then modify
          (λ s. write_last_idx (idx + 1) (record s { store = write_rec_at s.store pt idx value }))
      else do
        assert (elim (find_node page_num s) [ none ↦ false | some _ ↦ true ])
        arr ← on_mem allocate_mem_rec_arr
        ent ← on_mem allocate_rec_block_entry
        modify (
            modify_node page_num (λ n. record n {
              list_head = record { addr = ent; rec_arr = arr } ∷ n.list_head;
              rec_mod_entry = ent;
            }))
        modify (λ s. record s { store = write_rec_at s.store arr 0 value })
        modify (λ s. record s { last_rec = record s.last_rec { last_mem_rec = arr } })
        modify (write_last_idx 1)

-- `TAILQ_FOREACH(ent, head, entries)` of the DELETE_TREENODE build: all entries but the last go
-- back to the pools.
pub drop_all_but_last : List RecBlockEntry → Run Recs (List RecBlockEntry)
drop_all_but_last [] = pure []
drop_all_but_last (e ∷ []) = pure (e ∷ [])
drop_all_but_last (e ∷ e' ∷ es) = do
  on_mem (withdraw_mem_rec_arr e.rec_arr)
  on_mem (withdraw_rec_block_entry e.addr)
  drop_all_but_last (e' ∷ es)

-- `nodePtr->recModEntry->recArr`
abbrev pub arr_of : Ptr → List RecBlockEntry → Option Ptr
arr_of p [] = none
arr_of p (e ∷ es) = if e.addr == p then some e.rec_arr else arr_of p es

-- `lastRec` is set to the current array of a node.
pub set_last_rec : ℕ → RecTreeNode → Run Recs (Unit {0})
set_last_rec page_num n = do
  arr ← or_exit (arr_of n.rec_mod_entry n.list_head) segfault
  modify (λ s. record s {
    last_rec = record { last_page_num = page_num; last_mem_rec = arr; last_idx = page_num };
  })

-- `idx>0 && lastMenRec[idx-1].pageOffset>=addr2PageOffset(dest)`
abbrev pub restarts : Recs → RecTreeNode → Ptr → Bool
restarts s n dest =
    ltb 0 n.mem_rec_idx
    && leb_short (addr2page_offset dest)
        (s.store s.last_rec.last_mem_rec (n.mem_rec_idx - 1)).page_offset

abbrev pub first_of_list : List RecBlockEntry → Option RecBlockEntry
first_of_list [] = none
first_of_list (e ∷ _) = some e

-- The block of the DELETE_TREENODE build: a copy to an address that is not above the last record's
-- empties the node.
pub delete_records : ℕ → RecTreeNode → Run Recs (Unit {0})
unfolding drop_all_but_last
delete_records page_num n = do
  left ← drop_all_but_last n.list_head
  first ← or_exit (first_of_list left) segfault
  modify (modify_node page_num (λ m. record m { list_head = left; rec_mod_entry = first.addr }))
  modify (λ s. record s { last_rec = record s.last_rec { last_mem_rec = first.rec_arr } })
  modify (write_last_idx 0)

-- `insertRec`, of the build with or without DELETE_TREENODE. The parameter `src` of the source is
-- not used there.
unfoldable pub insert_rec :
    (delete_treenode : Bool)
    → OpenFiles
    → (file_offset : ℕ) → (dest : Ptr) → (file_name : Ptr) → (fd : ℕ) → Run Recs (Unit {0})
unfolding set_last_rec delete_records
insert_rec delete_treenode open_files file_offset dest file_name fd = do
  let page_num = addr2page_num dest
  s ← get
  elim (find_node page_num s) [
    | some n ↦ do
      set_last_rec page_num n
      s ← get
      if delete_treenode && restarts s n dest then delete_records page_num n else pure tt
      write_rec file_offset dest page_num file_name fd
    | none ↦ do
      n ← add_tree_node open_files page_num
      set_last_rec page_num n
      idx ← read_last_idx
      if ltb mem_rec_per_entry idx then (λ s. exit fatal) else pure tt
      write_rec file_offset dest page_num file_name fd
  ]

-- `ts_isMemTraced`
unfoldable pub ts_is_mem_traced : Ptr → Recs → Bool
ts_is_mem_traced ptr s = elim (find_node (addr2page_num ptr) s) [ none ↦ false | some _ ↦ true ]
