-- ===== src/Files/Copy.antt =====
-- What `ts_memcpy` leaves behind: the bytes in place, and one record of where they came from.
use cidl.Base.{
  Bool, true, ℕ, ◌+◌, ◌≡◌, refl, List, none, some, add64, sub64, ok, arith, fun_ext, ==→eq,
}
use cidl.Addr.{Ptr, addr2page_num}
use cidl.SearchTree.{tfind}
use cidl.Rec.{MemRec, find_node, Recs}
use cidl.Rec.Owned.{IsOwned, HasRoom}
use cidl.Rec.Insert.State.{new_rec}
use cidl.Rec.Insert.Inserted.{IsReady, Inserted}
use cidl.Rec.Insert.Continues.{Continues, insert_rec-appended}
use cidl.State.{
  State, Files, FileMapTreeNode, file_map_tree_search_compare, file_map_name_tree_ins_del_compare,
}
use cidl.Files.{memcpy, set_node, record_copy, ts_memcpy}

-- The use of the mapping `fm` has been counted.
abbrev pub used : Ptr → Files → Files
used fm f = set_node fm (record (f.nodes fm) { used_time = (f.nodes fm).used_time + 1 }) f

-- The record of a copy of the bytes at `src` of the mapping `n` to `dest`.
abbrev pub copy_rec : (dest src : Ptr) → FileMapTreeNode → MemRec
copy_rec dest src n = new_rec (add64 n.offset (sub64 src n.start)) dest n.file_name n.fd

abbrev pub after_copy : (dest src : Ptr) → (n : ℕ) → (fm : Ptr) → Recs → State → State
after_copy dest src n fm t s = record s {
  recs = t;
  files = used fm s.files;
  bytes = memcpy dest src n s.bytes;
}

pub used_node :
    (fm : Ptr) (f : Files)
    → (used fm f).nodes fm ≡ record (f.nodes fm) { used_time = (f.nodes fm).used_time + 1 }
used_node fm f = ground arith

-- Counting a use changes no name, so the tree of names is searched as before.
pub used-by_name :
    (fm : Ptr) (f : Files) (name : Ptr)
    → file_map_name_tree_ins_del_compare (used fm f).nodes name
      ≡ file_map_name_tree_ins_del_compare f.nodes name
used-by_name fm f name = fun_ext λ b. ground (arith, ==→eq b fm)

module _ (delete_treenode : Bool) (dest src n : ℕ) (fm : Ptr) (s : State) {ents arrays : List Ptr}
    (o : IsOwned ents arrays s.recs) (room : HasRoom s.recs)
    (ready : find_node (addr2page_num dest) s.recs ≡ none → IsReady s.recs)
    (found : tfind (file_map_tree_search_compare s.files.nodes src (add64 src n)) s.files.tree
      ≡ some fm)
    (above : delete_treenode ≡ true → Continues dest s.recs) where
  -- `ts_memcpy` from a mapped range returns its destination. It has copied the bytes, counted a use
  -- of the mapping, and appended to the records of the destination's page exactly one, which says
  -- where in the file the bytes are; all other records stay. In the build with DELETE_TREENODE the
  -- copy has to lie above the last record of its page.
  pub ts_memcpy-Inserted :
      (t : Recs) × (ts_memcpy delete_treenode dest src n s
        ≡ ok (dest, after_copy dest src n fm t s))
      × Inserted (addr2page_num dest) (copy_rec dest src (s.files.nodes fm)) s.recs t
  unfolding ts_memcpy record_copy
  ts_memcpy-Inserted =
      let node = s.files.nodes fm in
      let (t, run, w) =
        insert_rec-appended delete_treenode s.files.open_files
          (add64 node.offset (sub64 src node.start)) dest node.file_name node.fd s.recs o room ready
          above in
      (t, rw (found, used_node fm s.files, run) refl, w)

-- `ts_memcpy` of a range that no mapping covers is `memcpy` alone.
pub ts_memcpy-unmapped :
    (delete_treenode : _) (dest src n : ℕ) (s : State)
    → tfind (file_map_tree_search_compare s.files.nodes src (add64 src n)) s.files.tree ≡ none
    → ts_memcpy delete_treenode dest src n s
      ≡ ok (dest, record s { bytes = memcpy dest src n s.bytes })
unfolding ts_memcpy
ts_memcpy-unmapped delete_treenode dest src n s absent = rw absent refl
