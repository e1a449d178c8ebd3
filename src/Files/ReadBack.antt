-- ===== src/Files/ReadBack.antt =====
-- A buffer that `ts_read` filled from a mapped file and `ts_write` then writes.
use cidl.Base.{ℕ, ◌+◌, ◌-◌, ◌≤◌, ◌<◌, ◌≡◌, ◌≢◌, ◌%◌, true, has, List, some, null, word64}
use cidl.Addr.{Ptr}
use cidl.Pool.Valid.{IsValid}
use cidl.SearchTree.{tfind}
use cidl.SearchTree.All.{All}
use cidl.Rec.{max_file_num}
use cidl.State.{State, FileMapTreeNode, file_map_name_tree_ins_del_compare}
use cidl.Files.{get_path}

-- The file `fd` is open and mapped by the node `fm`, which is found by the path of `fd` and has it as
-- its name; the nodes in the tree of names are in use, and one more is free.
pub record IsReadable (fd : ℕ) (fm : Ptr) (s : State) : Type 0 where
  pub bound : Ptr
  pub lent : List Ptr
  pub pool : IsValid bound lent s.recs.mem.file_map_tree_nodes
  pub free : 0 < s.recs.mem.file_map_tree_nodes.idx
  pub in_use : All (λ q. has q lent ≡ true) s.files.name_tree
  pub found :
      tfind
        (file_map_name_tree_ins_del_compare s.files.nodes (get_path fd s.files))
        s.files.name_tree
      ≡ some fm
  pub named : (s.files.nodes fm).file_name ≡ get_path fd s.files
  pub slot : s.files.open_files (fd % max_file_num) ≡ fm
  pub nonnull : fm ≢ null

-- The position `pos` of the file lies in the mapping.
pub record IsInside (m : FileMapTreeNode) (pos : ℕ) : Type 0 where
  pub lower : m.offset ≤ pos
  pub small : pos < word64
  pub upper : m.start + (pos - m.offset) ≤ m.tail
  pub top : m.tail < word64
