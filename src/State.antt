-- ===== src/State.antt =====
-- The state of the whole library: the record tree, the mapped files, the statistics, and the
-- process's memory.
use cidl.Base.{ℕ, Ordering, compare, ltb, ◌&&◌, if◌then◌else◌, Run, zoom}
use cidl.Addr.{Ptr}
use cidl.SearchTree.{Tree}
use cidl.Mem.{Mem}
use cidl.Rec.{Recs, OpenFiles, on_mem}

-- `struct fileMapTreeNode`. A file name is the address of its text, as the code compares it.
pub record FileMapTreeNode : Type 0 where
  pub start : Ptr
  pub tail : Ptr
  pub used_time : ℕ
  pub file_name : Ptr
  pub offset : ℕ
  pub fd : ℕ

-- The nodes by address, `fileMapTreeRoot` and `fileMapNameTreeRoot` as trees of addresses,
-- `openFileArray`, and `FD2PATH`.
pub record Files : Type 0 where
  pub nodes : Ptr → FileMapTreeNode
  pub tree : Tree Ptr
  pub name_tree : Tree Ptr
  pub open_files : OpenFiles
  pub fd2path : ℕ → Ptr

-- The counters of statistics.h that the modelled functions change, and `ts_writeTime`.
pub record Stats : Type 0 where
  pub ts_write_time : ℕ
  pub ts_write_size : ℕ
  pub ts_write_same_size : ℕ
  pub ts_write_not_found_size : ℕ
  pub ts_metadata_item : ℕ

pub record State : Type 0 where
  pub recs : Recs
  pub files : Files
  pub stats : Stats
  pub bytes : Ptr → ℕ

-- `fileMapNameTreeInsDelCompare`, which compares the addresses of the names; its key is a node of
-- which it reads the name alone.
abbrev pub file_map_name_tree_ins_del_compare : (Ptr → FileMapTreeNode) → Ptr → Ptr → Ordering
file_map_name_tree_ins_del_compare nodes file_name b = compare file_name (nodes b).file_name

-- `fileMapTreeInsDelCompare`, by the start of the mapping.
abbrev pub file_map_tree_ins_del_compare : (Ptr → FileMapTreeNode) → Ptr → Ptr → Ordering
file_map_tree_ins_del_compare nodes start b = compare start (nodes b).start

-- `fileMapTreeSearchCompare`, of the range from `start` to `tail` and a mapping.
abbrev pub file_map_tree_search_compare :
    (Ptr → FileMapTreeNode) → (start tail : Ptr) → Ptr → Ordering
file_map_tree_search_compare nodes start tail b =
    if ltb (nodes b).start start && ltb (nodes b).tail start
    then Ordering.gt
    else (if ltb start (nodes b).start && ltb tail (nodes b).start
        then Ordering.lt
        else Ordering.eq)

abbrev pub on_recs : {A : Type 0} → Run Recs A → Run State A
on_recs = zoom (λ s. s.recs) (λ s r. record s { recs = r })

abbrev pub on_pools : {A : Type 0} → Run Mem A → Run State A
on_pools m = on_recs (on_mem m)

abbrev pub on_files : {A : Type 0} → Run Files A → Run State A
on_files = zoom (λ s. s.files) (λ s f. record s { files = f })
