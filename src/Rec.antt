-- ===== src/Rec.antt =====
-- The record tree of mem.h and tree.h: for each page that holds data copied from a mapped file, a
-- node with a queue of arrays of records, each of which says where in which file the bytes at an
-- offset of the page came from.
pub mod Reclaim
pub mod View
pub mod Owned
pub mod Insert
use cidl.Base.{
  ℕ, ◌-◌, ◌%◌, ◌^◌, ◌≡◌, Bool, ◌&&◌, List, [], ◌∷◌, ltb, leb, ◌==◌, if◌then◌else◌, Option, none,
  some, Ordering, compare, Run, zoom, null,
}
use cidl.Addr.{Ptr}
use cidl.Mem.{Mem}
use cidl.SearchTree.{Tree, tfind, modify}

-- `struct memRec`. The two `short`s are kept as bit patterns.
pub record MemRec : Type 0 where
  pub file_offset : ℕ
  pub file_name : Ptr
  pub page_offset : ℕ
  pub fd : ℕ

-- `struct recBlockEntry`, with the address of the entry itself. `rec_arr` points to an array of
-- `MEMRECPERENTRY` records.
pub record RecBlockEntry : Type 0 where
  pub addr : Ptr
  pub rec_arr : Ptr

-- `struct recTreeNode`, with the address of the node. The tail queue is the list of its entries,
-- its head first, and `list_addr` is the address of the queue's head.
pub record RecTreeNode : Type 0 where
  pub addr : Ptr
  pub page_num : ℕ
  pub list_addr : Ptr
  pub list_head : List RecBlockEntry
  pub rec_mod_entry : Ptr
  pub mem_rec_idx : ℕ

-- `recCompare`, whose key is a node of which it reads the page number alone.
abbrev pub rec_compare : ℕ → RecTreeNode → Ordering
rec_compare page_num b = compare page_num b.page_num

abbrev pub key_of : RecTreeNode → ℕ
key_of n = n.page_num

-- `lastRec`. `last_idx` points to the `memRecIdx` of a node, and is kept as that node's page.
pub record LastRec : Type 0 where
  pub last_page_num : ℕ
  pub last_mem_rec : Ptr
  pub last_idx : ℕ

-- The records that the arrays hold, by the array's address and the index. An index past the end of
-- an array stands for whatever lies behind it.
abbrev pub Store : Type 0
Store = Ptr → ℕ → MemRec

abbrev pub write_rec_at : Store → Ptr → ℕ → MemRec → Store
write_rec_at s arr i v p j = if p == arr && j == i then v else s p j

-- `recTreeRoot` with the records, the pools and the cache of the last access.
pub record Recs : Type 0 where
  pub tree : Tree RecTreeNode
  pub store : Store
  pub mem : Mem
  pub last_rec : LastRec
  pub reclamed_rec_node : ℕ

abbrev pub on_mem : {A : Type 0} → Run Mem A → Run Recs A
on_mem = zoom (λ s. s.mem) (λ s m. record s { mem = m })

abbrev pub find_node : ℕ → Recs → Option RecTreeNode
find_node page s = tfind (rec_compare page) s.tree

abbrev pub modify_node : ℕ → (RecTreeNode → RecTreeNode) → Recs → Recs
modify_node page f s = record s { tree = modify (rec_compare page) f s.tree }

abbrev pub max_file_num : ℕ
max_file_num = 1024

-- `fd%MAX_FILE_NUM` for a `short`, as an index: a negative remainder is none.
abbrev pub file_slot : ℕ → Option ℕ
file_slot fd =
    if ltb fd (2 ^ 15)
    then some (fd % max_file_num)
    else if (2 ^ 16 - fd) % max_file_num == 0
    then some 0
    else none

-- `openFileArray`: the mapping of an open file, or NULL.
abbrev pub OpenFiles : Type 0
OpenFiles = ℕ → Ptr
