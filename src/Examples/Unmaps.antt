-- ===== src/Examples/Unmaps.antt =====
-- Two mappings, the second of which has the higher start and the lower name.
use cidl.Base.{◌≡◌, ◌==◌, if◌then◌else◌, refl, false, ok, some, none, arith, [], ◌∷◌, has, erase}
use cidl.Pool.Valid.{IsValid}
use cidl.SearchTree.{empty, node, tfind}
use cidl.State.{
  State, FileMapTreeNode, file_map_tree_ins_del_compare, file_map_name_tree_ins_del_compare,
}
use cidl.Files.{ts_munmap}
use cidl.Files.Unmap.{ts_munmap-stale}
use cidl.Examples.States.{state, mapping}

abbrev second : FileMapTreeNode
second = record mapping { start = 30000; tail = 30100; file_name = 590; fd = 4 }

abbrev two_files : State
two_files = record state {
  recs = record (state.recs) {
    mem = record (state.recs.mem) {
      file_map_tree_nodes = record (state.recs.mem.file_map_tree_nodes) { idx = 0 };
    };
  };
  files = record (state.files) {
    nodes = λ p. if p == 548 then second else mapping;
    tree = node empty 500 (node empty 548 empty);
    name_tree = node (node empty 548 empty) 500 empty;
  };
}

two_files-IsValid : IsValid 10000 (548 ∷ 500 ∷ []) two_files.recs.mem.file_map_tree_nodes
two_files-IsValid = record {
  counted = refl;
  distinct = λ i j h. elim h [ ];
  apart = λ i h. elim h [ ];
  below = λ i h. elim h [ ];
  lent_distinct = (refl, (refl, tt));
  lent_below = (omega arith, (omega arith, tt));
}

by_start :
    tfind (file_map_tree_ins_del_compare two_files.files.nodes 30000) two_files.files.tree
    ≡ some 548
unfolding tfind
by_start = refl

missed :
    tfind (file_map_tree_ins_del_compare two_files.files.nodes 30000) two_files.files.name_tree
    ≡ none
unfolding tfind
missed = refl

named :
    tfind (file_map_name_tree_ins_del_compare two_files.files.nodes 590) two_files.files.name_tree
    ≡ some 548
unfolding tfind
named = refl

ts_munmap-stale_example :
    (t : State) × (ts_munmap 30000 0 two_files ≡ ok (0, t))
    × (tfind (file_map_name_tree_ins_del_compare t.files.nodes 590) t.files.name_tree ≡ some 548)
    × IsValid 10000 (erase 548 (548 ∷ 500 ∷ [])) t.recs.mem.file_map_tree_nodes
    × (has 548 (erase 548 (548 ∷ 500 ∷ [])) ≡ false)
ts_munmap-stale_example =
    ts_munmap-stale 30000 0 548 two_files 10000 (548 ∷ 500 ∷ []) two_files-IsValid by_start refl
      missed named
