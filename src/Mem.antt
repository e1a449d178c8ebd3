-- ===== src/Mem.antt =====
-- mem.h and mem.c: the pools of the library, their initial state and the functions that take an
-- object out of a pool or give it back.
pub mod Init
pub mod Returns
use cidl.Base.{
  ℕ, ◌+◌, ◌-◌, ◌*◌, ◌/◌, ◌≡◌, Bool, ltb, ◌==◌, if◌then◌else◌, null, Result, ok, exit, Run, pure,
  get, zoom, assert, assert_failed, ◌>>◌, ◌>>=◌, List, [],
}
use cidl.Addr.{Ptr}
use cidl.Pool
use cidl.Pool.{
  Pool, Arena, Growing, tests_depot, tests_total, malloc, count_alloc, pointer_size, allocate,
  withdraw, allocate_growing,
}

-- The pool globals of mem.h and common.h, with the heap that they come from.
pub record Mem : Type 0 where
  pub file_map_tree_nodes : Pool
  pub rec_tree_nodes : Pool
  pub rec_tree_node_threshold : ℕ
  pub tail_heads : Pool
  pub rec_block_entries : Pool
  pub rec_arrs : Pool
  pub arena : Arena

abbrev pub mem_rec_per_entry : ℕ
mem_rec_per_entry = 38

-- `sizeof` of the structs on x86-64.
abbrev pub file_map_tree_node_size : ℕ
file_map_tree_node_size = 48

abbrev pub rec_tree_node_size : ℕ
rec_tree_node_size = 32

abbrev pub tailhead_size : ℕ
tailhead_size = 16

abbrev pub rec_block_entry_size : ℕ
rec_block_entry_size = 24

abbrev pub mem_rec_size : ℕ
mem_rec_size = 24

abbrev pub file_map_tree_node_pool_size : ℕ
file_map_tree_node_pool_size = 2048

-- `n * RECTREENODETHRESHOLDRATIO`, converted to `int`. For an `int` the product by the double 0.6
-- rounds down to this quotient.
abbrev pub threshold_of : ℕ → ℕ
threshold_of n = n * 6 / 10

unfoldable pub allocate_rec_tree_node : Run Mem Ptr
allocate_rec_tree_node =
    zoom (λ m. m.rec_tree_nodes) (λ m p. record m { rec_tree_nodes = p }) allocate

unfoldable pub allocate_file_map_tree_node : Run Mem Ptr
allocate_file_map_tree_node =
    zoom (λ m. m.file_map_tree_nodes) (λ m p. record m { file_map_tree_nodes = p }) allocate

unfoldable pub allocate_tail_head : Run Mem Ptr
allocate_tail_head =
    zoom (λ m. record { pool = m.tail_heads; arena = m.arena })
      (λ m g. record m { tail_heads = g.pool; arena = g.arena })
      (allocate_growing tests_total tailhead_size)

unfoldable pub allocate_rec_block_entry : Run Mem Ptr
allocate_rec_block_entry =
    zoom (λ m. record { pool = m.rec_block_entries; arena = m.arena })
      (λ m g. record m { rec_block_entries = g.pool; arena = g.arena })
      (allocate_growing tests_depot rec_block_entry_size)

unfoldable pub allocate_mem_rec_arr : Run Mem Ptr
allocate_mem_rec_arr =
    zoom (λ m. record { pool = m.rec_arrs; arena = m.arena })
      (λ m g. record m { rec_arrs = g.pool; arena = g.arena })
      (allocate_growing tests_depot (mem_rec_size * mem_rec_per_entry))

unfoldable pub withdraw_rec_tree_node : Ptr → Run Mem (Unit {0})
withdraw_rec_tree_node ptr =
    zoom (λ m. m.rec_tree_nodes) (λ m p. record m { rec_tree_nodes = p }) (withdraw ptr)

unfoldable pub withdraw_file_map_tree_node : Ptr → Run Mem (Unit {0})
withdraw_file_map_tree_node ptr =
    zoom (λ m. m.file_map_tree_nodes) (λ m p. record m { file_map_tree_nodes = p }) (withdraw ptr)

unfoldable pub withdraw_tail_head : Ptr → Run Mem (Unit {0})
withdraw_tail_head ptr =
    zoom (λ m. m.tail_heads) (λ m p. record m { tail_heads = p }) (withdraw ptr)

unfoldable pub withdraw_rec_block_entry : Ptr → Run Mem (Unit {0})
withdraw_rec_block_entry ptr =
    zoom (λ m. m.rec_block_entries) (λ m p. record m { rec_block_entries = p }) (withdraw ptr)

unfoldable pub withdraw_mem_rec_arr : Ptr → Run Mem (Unit {0})
withdraw_mem_rec_arr ptr = zoom (λ m. m.rec_arrs) (λ m p. record m { rec_arrs = p }) (withdraw ptr)

-- `allocSize = n; totalAllocSize += allocSize; p = malloc(allocSize); if(!p) assert(0);`
unfoldable pub alloc_or_exit : ℕ → Run Arena Ptr
alloc_or_exit n a =
    let (p, a') = malloc n (count_alloc n a) in if p == null then exit assert_failed else ok (p, a')

-- A block of `n` objects of `elem` bytes, an array of `pointers` pointers, and the loop that points
-- its first `n` elements at the objects. What the array holds behind them is never read.
unfoldable pub new_pool : (elem n pointers : ℕ) → Run Arena Pool
unfolding alloc_or_exit
new_pool elem n pointers = do
  block ← alloc_or_exit (elem * n)
  _ ← alloc_or_exit (pointer_size * pointers)
  pure (record { slots = λ i. if ltb i n then block + elem * i else null; idx = n; size = n })

unfoldable pub init_memory : Run Arena Mem
init_memory a =
    (do
      files ← new_pool file_map_tree_node_size file_map_tree_node_pool_size 8000
      nodes ← new_pool rec_tree_node_size 8000 8000
      heads ← new_pool tailhead_size 8000 8000
      entries ← new_pool rec_block_entry_size 6000 6000
      arrs ← new_pool (mem_rec_size * mem_rec_per_entry) 6000 6000
      arena ← get
      pure (record {
        file_map_tree_nodes = files;
        rec_tree_nodes = nodes;
        rec_tree_node_threshold = threshold_of 8000;
        tail_heads = heads;
        rec_block_entries = entries;
        rec_arrs = arrs;
        arena = arena;
      }))
      (record a { total_alloc_size = 0 })
