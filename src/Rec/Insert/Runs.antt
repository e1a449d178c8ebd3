-- ===== src/Rec/Insert/Runs.antt =====
-- The runs of `insertRec`, of the build without DELETE_TREENODE, by the allocations on the way.
use cidl.Base.{ℕ, ◌*◌, ◌<◌, ◌≡◌, ◌≢◌, false, none, some, arith, ok, refl, null}
use cidl.Addr.{Ptr, addr2page_num}
use cidl.Pool.{Pool, Growing, tests_depot, tests_total, allocate, allocate_growing}
use cidl.Mem.{
  mem_rec_per_entry, mem_rec_size, rec_block_entry_size, tailhead_size, allocate_mem_rec_arr,
  allocate_rec_block_entry, allocate_tail_head, allocate_rec_tree_node,
}
use cidl.Rec.{MemRec, rec_compare, key_of, RecTreeNode, Recs, find_node, OpenFiles}
use cidl.SearchTree.{tfind, tsearch}
use cidl.SearchTree.Lookup.{tfind-tsearch}
use cidl.Rec.Insert.{insert_rec, write_rec, add_tree_node, runs_low, arr_of, new_node}
use cidl.Rec.Insert.State.{new_rec, in_array, in_new_array, in_new_node}

module _ (open_files : OpenFiles) (file_offset : ℕ) (dest : Ptr) (file_name : Ptr) (fd : ℕ) where
  abbrev page : ℕ
  page = addr2page_num dest

  abbrev value : MemRec
  value = new_rec file_offset dest file_name fd

  pub insert_rec-in_array :
      (s : Recs) (n : RecTreeNode) (arr : Ptr)
      → find_node page s ≡ some n
      → arr_of n.rec_mod_entry n.list_head ≡ some arr
      → n.mem_rec_idx < mem_rec_per_entry
      → insert_rec false open_files file_offset dest file_name fd s
        ≡ ok (tt, in_array page value arr n s)
  unfolding insert_rec write_rec
  insert_rec-in_array s n arr found current room = ground arith

  pub insert_rec-in_new_array :
      (s : Recs) (n : RecTreeNode) (cur arr ent : Ptr) (g h : Growing)
      → find_node page s ≡ some n
      → arr_of n.rec_mod_entry n.list_head ≡ some cur
      → n.mem_rec_idx ≡ mem_rec_per_entry
      → allocate_growing tests_depot
          (mem_rec_size * mem_rec_per_entry)
          (record { pool = s.mem.rec_arrs; arena = s.mem.arena })
        ≡ ok (arr, g)
      → allocate_growing tests_depot rec_block_entry_size
          (record { pool = s.mem.rec_block_entries; arena = g.arena })
        ≡ ok (ent, h)
      → insert_rec false open_files file_offset dest file_name fd s
        ≡ ok (tt, in_new_array page value arr ent g h s)
  unfolding insert_rec write_rec allocate_mem_rec_arr allocate_rec_block_entry
  insert_rec-in_new_array s n cur arr ent g h found current full a b = ground arith

  found_new :
      (s : Recs) (addr head ent arr : Ptr)
      → find_node page s ≡ none
      → tfind
          (rec_compare page)
          (tsearch (rec_compare page) (new_node addr page head ent arr) s.tree)
        ≡ some (new_node addr page head ent arr)
  found_new s addr head ent arr absent =
      ground (arith, tfind-tsearch key_of page page (new_node addr page head ent arr) s.tree refl)

  pub insert_rec-in_new_node :
      (s : Recs) (addr head ent arr : Ptr) (nodes : Pool) (f g h : Growing)
      → find_node page s ≡ none
      → runs_low s ≡ false
      → allocate s.mem.rec_tree_nodes ≡ ok (addr, nodes)
      → addr ≢ null
      → allocate_growing tests_total tailhead_size
          (record { pool = s.mem.tail_heads; arena = s.mem.arena })
        ≡ ok (head, f)
      → allocate_growing tests_depot rec_block_entry_size
          (record { pool = s.mem.rec_block_entries; arena = f.arena })
        ≡ ok (ent, g)
      → allocate_growing tests_depot
          (mem_rec_size * mem_rec_per_entry)
          (record { pool = s.mem.rec_arrs; arena = g.arena })
        ≡ ok (arr, h)
      → insert_rec false open_files file_offset dest file_name fd s
        ≡ ok (tt, in_new_node page value addr head ent arr nodes f g h s)
  unfolding insert_rec write_rec add_tree_node allocate_mem_rec_arr allocate_rec_block_entry
      allocate_tail_head allocate_rec_tree_node
  insert_rec-in_new_node s addr head ent arr nodes f g h absent high a nonnull b c d =
      ground (arith, found_new s addr head ent arr absent)
