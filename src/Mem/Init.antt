-- ===== src/Mem/Init.antt =====
-- `initMemory` of mem.c: its five pools.
use native.Mathlib.Nat.{eq_of_mul-eq-mul_left, mul-le-mul_left}
use cidl.Base.{
  ℕ, suc, ◌+◌, ◌*◌, ◌<◌, ◌≤◌, ◌≡◌, refl, arith, ltb, if◌then◌else◌, null, ok, [], add64,
}
use cidl.Addr.{Ptr}
use cidl.Pool.{Pool, Arena, pointer_size}
use cidl.Pool.Valid.{IsValid}
use cidl.Mem.{
  Mem, new_pool, init_memory, mem_rec_per_entry, file_map_tree_node_size, rec_tree_node_size,
  tailhead_size, rec_block_entry_size, mem_rec_size, file_map_tree_node_pool_size,
}

abbrev pub filled : (elem n : ℕ) → Ptr → Pool
filled elem n block = record {
  slots = λ i. if ltb i n then block + elem * i else null;
  idx = n;
  size = n;
}

abbrev pub bytes : (elem n pointers : ℕ) → ℕ
bytes elem n pointers = elem * n + pointer_size * pointers

abbrev used : ℕ → ℕ → ℕ → Arena → Arena
used elem n pointers a = record a {
  next = a.next + elem * n + pointer_size * pointers;
  total_alloc_size = add64 (add64 a.total_alloc_size (elem * n)) (pointer_size * pointers);
}

new_pool-ok :
    (elem n pointers : ℕ) (a : Arena)
    → 0 < a.next
    → a.next + bytes elem n pointers ≤ a.limit
    → new_pool elem n pointers a ≡ ok (filled elem n a.next, used elem n pointers a)
unfolding new_pool
new_pool-ok elem n pointers a h room = ground arith

pub filled-IsValid :
    (elem n : ℕ) (block bound : Ptr)
    → 0 < elem
    → block + elem * n ≤ bound
    → IsValid bound [] (filled elem n block)
filled-IsValid elem n block bound he room = record {
  counted = omega arith;
  distinct = λ i j hi hj e. eq_of_mul-eq-mul_left elem he i j (ground arith);
  apart = λ i hi. refl;
  below = λ i hi. ground (arith, mul-le-mul_left {m = suc i} {n = n} elem (omega arith));
  lent_distinct = tt;
  lent_below = tt;
}

-- The bytes that `initMemory` asks for.
abbrev pub init_bytes : ℕ
init_bytes =
    bytes file_map_tree_node_size file_map_tree_node_pool_size 8000
    + bytes rec_tree_node_size 8000 8000
    + bytes tailhead_size 8000 8000
    + bytes rec_block_entry_size 6000 6000
    + bytes (mem_rec_size * mem_rec_per_entry) 6000 6000

-- Every pool is valid with nothing in use, and all objects lie in the heap in use.
pub record IsInitial (m : Mem) : Type 0 where
  pub files : IsValid m.arena.next [] m.file_map_tree_nodes
  pub nodes : IsValid m.arena.next [] m.rec_tree_nodes
  pub heads : IsValid m.arena.next [] m.tail_heads
  pub entries : IsValid m.arena.next [] m.rec_block_entries
  pub arrs : IsValid m.arena.next [] m.rec_arrs
  pub threshold : m.rec_tree_node_threshold ≡ 4800
  pub counted : m.arena.total_alloc_size ≡ init_bytes

-- The arena before each of the five pools.
abbrev arena₁ : Arena → Arena
arena₁ a =
    used file_map_tree_node_size file_map_tree_node_pool_size 8000
      (record a { total_alloc_size = 0 })

abbrev arena₂ : Arena → Arena
arena₂ a = used rec_tree_node_size 8000 8000 (arena₁ a)

abbrev arena₃ : Arena → Arena
arena₃ a = used tailhead_size 8000 8000 (arena₂ a)

abbrev arena₄ : Arena → Arena
arena₄ a = used rec_block_entry_size 6000 6000 (arena₃ a)

abbrev pub initial : Arena → Mem
initial a = record {
  file_map_tree_nodes = filled file_map_tree_node_size file_map_tree_node_pool_size a.next;
  rec_tree_nodes = filled rec_tree_node_size 8000 (arena₁ a).next;
  rec_tree_node_threshold = 4800;
  tail_heads = filled tailhead_size 8000 (arena₂ a).next;
  rec_block_entries = filled rec_block_entry_size 6000 (arena₃ a).next;
  rec_arrs = filled (mem_rec_size * mem_rec_per_entry) 6000 (arena₄ a).next;
  arena = used (mem_rec_size * mem_rec_per_entry) 6000 6000 (arena₄ a);
}

pub init_memory-initial :
    (a : Arena)
    → 0 < a.next
    → a.next + init_bytes ≤ a.limit
    → init_memory a ≡ ok (initial a, (initial a).arena)
unfolding init_memory
init_memory-initial a h room = rw (
  new_pool-ok file_map_tree_node_size file_map_tree_node_pool_size 8000
      (record a { total_alloc_size = 0 }) (omega arith) (omega arith),
  new_pool-ok rec_tree_node_size 8000 8000 (arena₁ a) (omega arith) (omega arith),
  new_pool-ok tailhead_size 8000 8000 (arena₂ a) (omega arith) (omega arith),
  new_pool-ok rec_block_entry_size 6000 6000 (arena₃ a) (omega arith) (omega arith),
  new_pool-ok (mem_rec_size * mem_rec_per_entry) 6000 6000 (arena₄ a) (omega arith) (omega arith),
)

-- With room in the heap `initMemory` returns, every pool is valid with no object in use, the
-- threshold of reclamation is 4800 nodes, and the allocated bytes are counted exactly.
pub init_memory-IsInitial :
    (a : Arena)
    → 0 < a.next
    → a.next + init_bytes ≤ a.limit
    → (m : Mem) × (a' : Arena) × (init_memory a ≡ ok (m, a')) × IsInitial m
init_memory-IsInitial a h room = (
  initial a,
  (initial a).arena,
  init_memory-initial a h room,
  record {
    files = filled-IsValid _ _ _ _ (omega arith) (omega arith);
    nodes = filled-IsValid _ _ _ _ (omega arith) (omega arith);
    heads = filled-IsValid _ _ _ _ (omega arith) (omega arith);
    entries = filled-IsValid _ _ _ _ (omega arith) (omega arith);
    arrs = filled-IsValid _ _ _ _ (omega arith) (omega arith);
    threshold = refl;
    counted = refl;
  },
)
