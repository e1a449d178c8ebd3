-- ===== src/Files/Close.antt =====
-- What `ts_close` releases when the path of the descriptor is known.
use cidl.Base.{
  ℕ, ◌≡◌, ◌≢◌, refl, ◌==◌, true, has, erase, List, some, null, ok, ==_self, ◌%◌, if◌then◌else◌,
  false, ne→==,
}
use cidl.Addr.{Ptr}
use cidl.Pool.Valid.{IsValid, withdraw-IsValid}
use cidl.Mem.{withdraw_file_map_tree_node}
use cidl.SearchTree.{tfind, tdelete}
use cidl.Rec.{max_file_num}
use cidl.State.{State, file_map_name_tree_ins_del_compare}
use cidl.Files.{ts_close, get_path}

-- The node `fm` of a file with the name `path` has been given back: the slot of its descriptor is
-- cleared, its pool is valid without it, and the trees hold what deleting by the name leaves of them.
pub record Closed (bound : Ptr) (lent : List Ptr) (path fm : Ptr) (s t : State) : Type 0 where
  pub slot : t.files.open_files ((s.files.nodes fm).fd % max_file_num) ≡ null
  pub others :
      (i : ℕ)
      → (i == (s.files.nodes fm).fd % max_file_num) ≡ false
      → t.files.open_files i ≡ s.files.open_files i
  pub pool : IsValid bound (erase fm lent) t.recs.mem.file_map_tree_nodes
  pub tree :
      t.files.tree ≡ tdelete (file_map_name_tree_ins_del_compare s.files.nodes path) s.files.tree
  pub name_tree :
      t.files.name_tree
      ≡ tdelete (file_map_name_tree_ins_del_compare s.files.nodes path) s.files.name_tree
  pub nodes_stay : t.files.nodes ≡ s.files.nodes
  pub records_stay : t.recs.tree ≡ s.recs.tree
  pub bytes_stay : t.bytes ≡ s.bytes

-- `ts_close` of a descriptor with a known path returns what `close` returned, and gives back the node
-- that the search by this path finds in the tree of starts, which is in use; both trees are searched
-- for it by the path, also the one that is ordered by starts.
pub ts_close-Closed :
    (fd result : ℕ) (fm : Ptr) (s : State) (bound : Ptr) (lent : List Ptr)
    → IsValid bound lent s.recs.mem.file_map_tree_nodes
    → get_path fd s.files ≢ null
    → tfind (file_map_name_tree_ins_del_compare s.files.nodes (get_path fd s.files)) s.files.tree
      ≡ some fm
    → has fm lent ≡ true
    → (t : State) × (ts_close fd (some result) s ≡ ok (some result, t))
      × Closed bound lent (get_path fd s.files) fm s t
unfolding ts_close withdraw_file_map_tree_node
ts_close-Closed fd result fm s bound lent v path found in_use =
    let (p, e, w) = withdraw-IsValid v fm in_use in
    (
      record s {
        recs = record (s.recs) { mem = record (s.recs.mem) { file_map_tree_nodes = p } };
        files = record (s.files) {
          open_files =
              λ i. if i == (s.files.nodes fm).fd % max_file_num then null else s.files.open_files i;
          tree =
              tdelete (file_map_name_tree_ins_del_compare s.files.nodes (get_path fd s.files))
                s.files.tree;
          name_tree =
              tdelete (file_map_name_tree_ins_del_compare s.files.nodes (get_path fd s.files))
                s.files.name_tree;
        };
      },
      rw (ne→== (get_path fd s.files) null path, found) (rw e refl),
      record {
        slot = rw (==_self ((s.files.nodes fm).fd % max_file_num));
        others = λ i ne. rw ne;
        pool = w;
        tree = refl;
        name_tree = refl;
        nodes_stay = refl;
        records_stay = refl;
        bytes_stay = refl;
      },
    )
