-- ===== src/Setup.antt =====
-- `init` of awn.c, the constructor of the library. A call of `calloc`, `aligned_alloc` or
-- `getpagesize` takes from the heap of the model or is an argument.
pub mod Started
pub mod ToWrite
use cidl.Base.{
  ℕ, ◌+◌, ◌-◌, ◌*◌, ◌%◌, Bool, true, false, leb, ◌==◌, if◌then◌else◌, null, Result, ok, exit, Run,
  pure, get, modify, zoom, or_exit, assert, fatal, segfault, out_of_fuel, Option, none, some, ◌>>◌,
  ◌>>=◌,
}
use cidl.Addr.{Ptr}
use cidl.Addr.Init.{PageGlobals, init_pages}
use cidl.Pool.{Arena, malloc, pointer_size}
use cidl.Mem.{Mem, init_memory, file_map_tree_node_pool_size}
use cidl.SearchTree.{empty}
use cidl.Rec.{Recs, LastRec}
use cidl.State.{State, Stats, Files, on_files, on_recs}

-- `MMAPCACHESIZE`, `PROMAPPERSIZE`, and `sizeof(struct searchCache)` on x86-64.
abbrev pub mmap_cache_size : ℕ
mmap_cache_size = 20

abbrev pub pro_mapper_size : ℕ
pro_mapper_size = 256

abbrev pub search_cache_size : ℕ
search_cache_size = 40

-- `aligned_alloc(align, n)`: the block starts at the next multiple of `align`.
abbrev pub align_up : (align : ℕ) → Ptr → Ptr
align_up align p = p + (align - p % align) % align

abbrev pub aligned_alloc : (align n : ℕ) → Arena → Ptr × Arena
aligned_alloc align n a =
    let start = align_up align a.next in
    if leb (start + n) a.limit then (start, record a { next = start + n }) else (null, a)

-- The part of the state that is the heap.
abbrev on_arena : {A : Type 0} → Run Arena A → Run State A
on_arena =
    zoom (λ s. s.recs.mem.arena)
      (λ s a. record s { recs = record (s.recs) { mem = record (s.recs.mem) { arena = a } } })

-- The four counters that `init` sets to 0.
abbrev pub reset_stats : State → State
reset_stats s = record s {
  stats = record (s.stats) {
    ts_write_size = 0;
    ts_write_same_size = 0;
    ts_write_not_found_size = 0;
    ts_metadata_item = 0;
  };
}

-- The two caches, which nothing uses, and FD2PATH. If FD2PATH cannot be allocated the model ends at
-- once, and the code at its first access.
unfoldable pub alloc_tables : Run State (Unit {0})
alloc_tables = do
  _ ← on_arena (λ a. ok (malloc (mmap_cache_size * search_cache_size) a))
  _ ← on_arena (λ a. ok (malloc (mmap_cache_size * search_cache_size) a))
  paths ← on_arena (λ a. ok (malloc (file_map_tree_node_pool_size * pointer_size) a))
  if paths == null then (λ s. exit segfault) else pure tt
  on_files (modify (λ f. record f { fd2path = λ i. null }))

abbrev on_init_memory : Run State (Unit {0})
on_init_memory = do mem ← on_arena init_memory; on_recs (modify (λ r. record r { mem = mem }))

-- The trees and `lastRec`.
abbrev pub reset_trees : State → State
reset_trees s = record s {
  recs = record (s.recs) {
    tree = empty;
    last_rec = record { last_page_num = 0; last_mem_rec = null; last_idx = 0 };
  };
  files = record (s.files) { tree = empty; name_tree = empty };
}

-- The page globals, unless the fuel of their loop ran out.
abbrev pub or_out_of_fuel : Option PageGlobals → Run State PageGlobals
or_out_of_fuel none s = out_of_fuel
or_out_of_fuel (some globals) s = ok (globals, s)

-- `init`; `mutex_failed` tells whether `pthread_mutex_init` fails, and `page_size` is what
-- `getpagesize` returns. Without USE_PKEY.
unfoldable pub init : (mutex_failed : Bool) → (fuel page_size : ℕ) → Run State PageGlobals
unfolding alloc_tables
init mutex_failed fuel page_size = do
  if mutex_failed then (λ s. exit fatal) else pure tt
  modify reset_stats
  alloc_tables
  on_files (modify (λ f. record f { open_files = λ i. null }))
  on_init_memory
  globals ← or_out_of_fuel (init_pages fuel page_size)
  pro_mapper ← on_arena (λ a. ok (aligned_alloc page_size (pro_mapper_size * pointer_size) a))
  assert (if pro_mapper == null then false else true)
  modify reset_trees
  pure globals
