-- ===== src/Setup/Started.antt =====
-- What `init` leaves behind.
use native.Mathlib.Nat.{mod-lt, one-le-pow}
use cidl.Base.{
  ℕ, ◌+◌, ◌-◌, ◌*◌, ◌%◌, ◌^◌, ◌<◌, ◌≤◌, ◌≡◌, refl, false, null, ok, arith, word64, ne→==,
}
use cidl.Addr.{Ptr}
use cidl.Addr.Init.{PageGlobals, init_pages-pow}
use cidl.Pool.{Arena, pointer_size}
use cidl.Mem.{Mem}
use cidl.Mem.Init.{initial, init_bytes, init_memory-initial}
use cidl.State.{State}
use cidl.Setup.{
  init, alloc_tables, align_up, aligned_alloc, reset_stats, reset_trees, pro_mapper_size,
}

-- The bytes of the tables that `init` allocates before the pools.
abbrev pub table_bytes : ℕ
table_bytes = 17984

abbrev pub heap_of : State → Arena
heap_of s = s.recs.mem.arena

abbrev with_heap : Arena → State → State
with_heap a s = record s { recs = record (s.recs) { mem = record (s.recs.mem) { arena = a } } }

abbrev tables : State → State
tables s =
    let t = with_heap (record (heap_of s) { next = (heap_of s).next + 800 + 800 + 16384 }) s in
    record t { files = record (t.files) { fd2path = λ i. null } }

alloc_tables-tables :
    (s : State)
    → 0 < (heap_of s).next
    → (heap_of s).next + table_bytes ≤ (heap_of s).limit
    → alloc_tables s ≡ ok (tt, tables s)
unfolding alloc_tables
alloc_tables-tables s h room = ground arith

pub align_up_bound :
    (align : ℕ) (p : Ptr) → 0 < align → (p ≤ align_up align p) × (align_up align p < p + align)
align_up_bound align p h = (omega arith, omega (arith, mod-lt (align - p % align) h))

-- The heap, the pools and the state after `init`.
module _ (k : ℕ) (s : State) where
  abbrev pub pools : Mem
  pools = initial (record (heap_of s) { next = (heap_of s).next + 800 + 800 + 16384 })

  abbrev pub mapper : Ptr
  mapper = align_up (2 ^ k) (pools.arena).next

  abbrev pub heap : Arena
  heap = record (pools.arena) { next = mapper + pro_mapper_size * pointer_size }

  abbrev pub started : State
  started =
      let t = reset_trees (tables (reset_stats s)) in
      record t {
        recs = record (t.recs) { mem = record pools { arena = heap } };
        files = record (t.files) { open_files = λ i. null };
      }

  abbrev pub globals : PageGlobals
  globals = record {
    size = 2 ^ k;
    num_shift = k;
    off_mask = 2 ^ k - 1;
    num_mask = word64 - 1 - (2 ^ k - 1);
  }

  aligned_alloc-heap :
      0 < (heap_of s).next
      → (heap_of s).next + table_bytes + init_bytes + 2 ^ k + 2048 ≤ (heap_of s).limit
      → aligned_alloc (2 ^ k) (pro_mapper_size * pointer_size) pools.arena ≡ (mapper, heap)
  aligned_alloc-heap h room =
      ground (arith, align_up_bound (2 ^ k) (pools.arena).next (one-le-pow k 2 (omega arith)))

  pub init-started :
      (fuel : ℕ)
      → k < fuel
      → 0 < (heap_of s).next
      → (heap_of s).next + table_bytes + init_bytes + 2 ^ k + 2048 ≤ (heap_of s).limit
      → init false fuel (2 ^ k) s ≡ ok (globals, started)
  unfolding init
  init-started fuel enough h room =
      rw
        (
          alloc_tables-tables (reset_stats s) h (omega arith),
          init_memory-initial (record (heap_of s) { next = (heap_of s).next + 800 + 800 + 16384 })
              (omega arith) (omega arith),
          init_pages-pow k fuel enough,
          aligned_alloc-heap h room,
          ne→== mapper null (λ e.
              omega (
                arith,
                e,
                align_up_bound (2 ^ k) (pools.arena).next (one-le-pow k 2 (omega arith)),
              )),
        )
        refl
