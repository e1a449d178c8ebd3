-- ===== src/Files/Unmap.antt =====
-- What `ts_munmap` releases.
use cidl.Base.{
  ℕ, ◌≡◌, refl, ◌==◌, true, has, erase, List, none, some, null, ok, ==_self, has-erase_self, ◌%◌,
  if◌then◌else◌, false,
}
use cidl.Addr.{Ptr}
use cidl.Pool.Valid.{IsValid, withdraw-IsValid}
use cidl.Mem.{withdraw_file_map_tree_node}
use cidl.SearchTree.{tfind, tdelete}
use cidl.SearchTree.Lookup.{tdelete-absent}
use cidl.Rec.{max_file_num}
use cidl.State.{State, file_map_tree_ins_del_compare, file_map_name_tree_ins_del_compare}
use cidl.Files.{ts_munmap}

-- The node `fm` has been given back: its descriptor has no mapping, its pool is valid without it, and
-- the trees of mappings hold what deleting by its start leaves of them. All else stays.
pub record Released (bound : Ptr) (lent : List Ptr) (addr fm : Ptr) (s t : State) : Type 0 where
  pub slot : t.files.open_files ((s.files.nodes fm).fd % max_file_num) ≡ null
  pub others :
      (i : ℕ)
      → (i == (s.files.nodes fm).fd % max_file_num) ≡ false
      → t.files.open_files i ≡ s.files.open_files i
  pub pool : IsValid bound (erase fm lent) t.recs.mem.file_map_tree_nodes
  pub tree : t.files.tree ≡ tdelete (file_map_tree_ins_del_compare s.files.nodes addr) s.files.tree
  pub name_tree :
      t.files.name_tree
      ≡ tdelete (file_map_tree_ins_del_compare s.files.nodes addr) s.files.name_tree
  pub nodes_stay : t.files.nodes ≡ s.files.nodes
  pub records_stay : t.recs.tree ≡ s.recs.tree
  pub bytes_stay : t.bytes ≡ s.bytes

-- `ts_munmap` of an address at which a mapping starts whose node is in use, returns what `munmap`
-- returned, also when that failed, and has given the node back. Both trees of mappings have been
-- searched for it by its start, also the one that is ordered by names.
pub ts_munmap-Released :
    (addr : Ptr) (ret : ℕ) (fm : Ptr) (s : State) (bound : Ptr) (lent : List Ptr)
    → IsValid bound lent s.recs.mem.file_map_tree_nodes
    → tfind (file_map_tree_ins_del_compare s.files.nodes addr) s.files.tree ≡ some fm
    → has fm lent ≡ true
    → (t : State) × (ts_munmap addr ret s ≡ ok (ret, t)) × Released bound lent addr fm s t
unfolding ts_munmap withdraw_file_map_tree_node
ts_munmap-Released addr ret fm s bound lent v found in_use =
    let (p, e, w) = withdraw-IsValid v fm in_use in
    (
      record s {
        recs = record (s.recs) { mem = record (s.recs.mem) { file_map_tree_nodes = p } };
        files = record (s.files) {
          open_files =
              λ i. if i == (s.files.nodes fm).fd % max_file_num then null else s.files.open_files i;
          tree = tdelete (file_map_tree_ins_del_compare s.files.nodes addr) s.files.tree;
          name_tree = tdelete (file_map_tree_ins_del_compare s.files.nodes addr) s.files.name_tree;
        };
      },
      rw found (rw e refl),
      record {
        slot = rw (==_self ((s.files.nodes fm).fd % max_file_num));
        others = λ i ne. rw ne;
        pool = w;
        tree = refl;
        name_tree = refl;
        nodes_stay = refl;
        records_stay = refl;
        bytes_stay = refl;
      },
    )

-- If the search by starts misses the mapping in the tree of names, then `ts_munmap` of it leaves that
-- tree as it is, so the search by its name still finds the node, which is free in the pool.
pub ts_munmap-stale :
    (addr : Ptr) (ret : ℕ) (fm : Ptr) (s : State) (bound : Ptr) (lent : List Ptr)
    → IsValid bound lent s.recs.mem.file_map_tree_nodes
    → tfind (file_map_tree_ins_del_compare s.files.nodes addr) s.files.tree ≡ some fm
    → has fm lent ≡ true
    → tfind (file_map_tree_ins_del_compare s.files.nodes addr) s.files.name_tree ≡ none
    → tfind
        (file_map_name_tree_ins_del_compare s.files.nodes (s.files.nodes fm).file_name)
        s.files.name_tree
      ≡ some fm
    → (t : State) × (ts_munmap addr ret s ≡ ok (ret, t))
      × (tfind
            (file_map_name_tree_ins_del_compare t.files.nodes (s.files.nodes fm).file_name)
            t.files.name_tree
          ≡ some fm)
      × IsValid bound (erase fm lent) t.recs.mem.file_map_tree_nodes
      × (has fm (erase fm lent) ≡ false)
ts_munmap-stale addr ret fm s bound lent v found in_use missed named =
    let (t, run, w) = ts_munmap-Released addr ret fm s bound lent v found in_use in
    (
      t,
      run,
      rw (w.nodes_stay, w.name_tree, tdelete-absent _ s.files.name_tree missed) named,
      w.pool,
      has-erase_self fm lent v.lent_distinct,
    )
