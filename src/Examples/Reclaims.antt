-- ===== src/Examples/Reclaims.antt =====
-- The reclamation of the page that has one record, with its file open and with none.
use cidl.Base.{
  ◌+◌, true, ℕ, ◌≡◌, refl, ◌++◌, none, some, ok, arith, null, ◌&&◌, ◌==◌, if◌then◌else◌, [], ◌∷◌,
}
use cidl.Addr.{addr2page_num}
use cidl.SearchTree.{tfind, elements, node, empty}
use cidl.Mem.{Mem}
use cidl.Rec.{RecBlockEntry, RecTreeNode, Recs, OpenFiles, find_node, file_slot}
use cidl.Rec.View.{records, take_recs}
use cidl.Rec.Reclaim.{reclaim_special_rec_tree_node, rec_tree_node_grabage_reclaim}
use cidl.Rec.Reclaim.OneArray.{reclaim_special_rec_tree_node_one_array}
use cidl.Rec.Reclaim.TwoArrays.{reclaim_special_rec_tree_node_two_arrays}
use cidl.Rec.Reclaim.Open.{AreOpen, Reclaimed, rec_tree_node_grabage_reclaim-Reclaimed}
use cidl.Rec.Owned.{IsOwned}
use cidl.Rec.Insert.{insert_rec}
use cidl.Rec.Insert.State.{new_rec}
use cidl.Rec.Insert.Inserted.{Inserted}
use cidl.Rec.Insert.Due.{IsDue, insert_rec-due}
use cidl.Examples.Traced.{recs as used, recs-IsOwned, recs-HasRoom, one_left}
use cidl.Examples.States.{files, page_node, traced, first_rec}

abbrev entry : RecBlockEntry
entry = record { addr = 3024; rec_arr = 4912 }

abbrev closed : OpenFiles
closed = λ i. null

found_page : find_node 2 traced.recs ≡ some page_node
unfolding tfind
found_page = refl

file_of_first : file_slot first_rec.fd ≡ some 3
file_of_first = refl

reclaim_special_rec_tree_node_one_array_example :
    (t : Recs) × (reclaim_special_rec_tree_node closed page_node traced.recs ≡ ok (tt, t))
    × ((q : ℕ)
        → records traced.recs q
          ≡ records t q ++ (if 2 == q && closed 3 == null then first_rec ∷ [] else []))
reclaim_special_rec_tree_node_one_array_example =
    reclaim_special_rec_tree_node_one_array closed 3 entry page_node traced.recs found_page refl
      refl (omega arith) file_of_first

all_open :
    (m : Mem)
    → AreOpen files.open_files (record (traced.recs) { mem = m }) (elements traced.recs.tree)
unfolding elements
all_open m = (
  record {
    found = found_page;
    e = entry;
    queue = refl;
    modified = refl;
    some_rec = omega arith;
    slot = 3;
    file = file_of_first;
    live = refl;
  },
  tt,
)

rec_tree_node_grabage_reclaim-Reclaimed_example :
    (t : Recs) × (rec_tree_node_grabage_reclaim files.open_files traced.recs ≡ ok (tt, t))
    × Reclaimed traced.recs t
rec_tree_node_grabage_reclaim-Reclaimed_example =
    rec_tree_node_grabage_reclaim-Reclaimed files.open_files traced.recs (all_open traced.recs.mem)

-- The same page, with the pools as they are then, and with less free nodes than the threshold.
abbrev low_recs : Recs
low_recs = record used { mem = record (used.mem) { rec_tree_node_threshold = 4 } }

low_recs-IsDue : IsDue low_recs
low_recs-IsDue = record {
  heads = 2016 ∷ [];
  low = refl;
  left = omega arith;
  nonnull = λ e. omega (arith, e);
  head_pool = record {
    valid =
        one_left 2000 2016 low_recs.mem.tail_heads refl refl refl (omega arith) (omega arith)
          (omega arith);
    nonempty = omega arith;
    used = omega arith;
  };
  counted = omega arith;
}

low_recs-IsOwned : IsOwned (3024 ∷ []) (4912 ∷ []) low_recs
low_recs-IsOwned = record {
  entry_pool = recs-IsOwned.entry_pool;
  arr_pool = recs-IsOwned.arr_pool;
  nodes = recs-IsOwned.nodes;
  apart = recs-IsOwned.apart;
  ents_apart = recs-IsOwned.ents_apart;
}

no_page : find_node (addr2page_num 20490) low_recs ≡ none
unfolding tfind addr2page_num
no_page = refl

insert_rec-due_example :
    (t : Recs) × (insert_rec true files.open_files 30 20490 600 3 low_recs ≡ ok (tt, t))
    × Inserted (addr2page_num 20490) (new_rec 30 20490 600 3) low_recs t
insert_rec-due_example =
    insert_rec-due true files.open_files 30 20490 600 3 low_recs low_recs-IsOwned recs-HasRoom
      (all_open low_recs.mem) no_page low_recs-IsDue

-- A page with an older, full array and a newer one with two records, all of the file.
abbrev older_entry : RecBlockEntry
older_entry = record { addr = 3000; rec_arr = 4000 }

abbrev two_node : RecTreeNode
two_node = record page_node { list_head = entry ∷ older_entry ∷ []; mem_rec_idx = 2 }

abbrev two_recs : Recs
two_recs = record (traced.recs) {
  tree = node empty two_node empty;
  store = λ arr i. record first_rec { file_offset = arr + i };
}

found_two : find_node 2 two_recs ≡ some two_node
unfolding tfind
found_two = refl

reclaim_special_rec_tree_node_two_arrays_example :
    (t : Recs) × (reclaim_special_rec_tree_node files.open_files two_node two_recs ≡ ok (tt, t))
    × (records two_recs 2
        ≡ two_recs.store 4000 0 ∷ take_recs two_recs.store 4000 1 37
          ++ take_recs two_recs.store 4912 0 2)
    × (records t 2
        ≡ two_recs.store 4912 0 ∷ take_recs two_recs.store 4000 1 37
          ++ take_recs two_recs.store 4912 0 2)
reclaim_special_rec_tree_node_two_arrays_example =
    reclaim_special_rec_tree_node_two_arrays files.open_files older_entry entry two_node two_recs
      found_two refl refl (λ e. omega (arith, e)) (λ e. omega (arith, e)) (omega arith)
      (omega arith) (3, file_of_first, refl) (3, file_of_first, refl)
