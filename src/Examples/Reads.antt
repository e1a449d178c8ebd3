-- ===== src/Examples/Reads.antt =====
-- A read of the mapped file from its position 10.
use cidl.Rec.Insert.Inserted.{Inserted}
use cidl.State.{State}
use cidl.Examples.States.{state, recs}

-- The node of the mapping is in use.
abbrev one_file : State
one_file = record state {
  recs = record recs {
    mem = record (recs.mem) {
      file_map_tree_nodes = record (recs.mem.file_map_tree_nodes) { idx = 1 };
    };
  };
}
