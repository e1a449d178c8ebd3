-- ===== src/Examples/Mappings.antt =====
-- The mapping of a second file.
use cidl.Base.{ℕ, ◌≡◌, refl, arith, ok, some, none, [], ◌∷◌}
use cidl.SearchTree.{empty, node, tfind}
use cidl.State.{State}
use cidl.Pool.Valid.{IsValid}
use cidl.Files.{ts_mmap, ts_munmap}
use cidl.Files.Forget.{find_start, ts_mmap-ts_munmap}
use cidl.Examples.States.{overwritten, state}
use cidl.Examples.Traced.{one_left}

-- One file is mapped, in the node 500.
abbrev pub one_file : State
one_file = record state {
  recs = record (state.recs) {
    mem = record (state.recs.mem) {
      file_map_tree_nodes = record (state.recs.mem.file_map_tree_nodes) { idx = 1 };
    };
  };
  files = record (state.files) { tree = node empty 500 empty };
}

pub one_file-IsValid : IsValid 10000 (500 ∷ []) one_file.recs.mem.file_map_tree_nodes
one_file-IsValid =
    one_left 100 500 one_file.recs.mem.file_map_tree_nodes refl refl refl (omega arith)
      (omega arith) (omega arith)

unmapped_yet : find_start 40960 one_file.files ≡ none
unfolding tfind
unmapped_yet = refl

ts_mmap-ts_munmap_example :
    (t : State) × (u : State) × (ts_mmap 4096 1 (some 7) 0 40960 (overwritten state.bytes) one_file
      ≡ ok (40960, t))
    × (ts_munmap 40960 0 t ≡ ok (0, u))
    × ((j : ℕ) → find_start j u.files ≡ find_start j one_file.files)
ts_mmap-ts_munmap_example =
    ts_mmap-ts_munmap 4096 1 7 0 40960 0 (overwritten state.bytes) one_file 10000 (500 ∷ [])
      one_file-IsValid (omega arith) refl (λ e. ground (arith, e)) refl (tt, refl, tt)
      (tt, tt, tt, tt) unmapped_yet
