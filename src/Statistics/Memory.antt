-- ===== src/Statistics/Memory.antt =====
-- `usedMemory` of `ts_print_statistics`, and the objects in use.
use cidl.Base.{◌+◌, ◌*◌, ◌<◌, ◌≡◌, List, word64, arith, length}
use cidl.Addr.{Ptr}
use cidl.Mem.{Mem}
use cidl.Pool.Valid.{IsValid}
use cidl.Statistics.{used_memory}

-- `usedMemory` counts, for valid pools, 40 bytes for each node in use, 24 for each queue head, 32 for each entry, and
-- 32 for each array, while the sum does not overflow. An array in use takes 912 bytes and a pointer, so
-- the count is 888 bytes short for each.
pub used_memory-lent :
    (m : Mem) (bound : Ptr) (nodes heads ents arrays : List Ptr)
    → IsValid bound nodes m.rec_tree_nodes
    → IsValid bound heads m.tail_heads
    → IsValid bound ents m.rec_block_entries
    → IsValid bound arrays m.rec_arrs
    → 40 * m.rec_tree_nodes.size
        + 24 * m.tail_heads.size
        + 32 * m.rec_block_entries.size
        + 32 * m.rec_arrs.size
      < word64
    → used_memory m + 888 * length arrays
      ≡ 40 * length nodes + 24 * length heads + 32 * length ents + 920 * length arrays
unfolding used_memory
used_memory-lent m bound nodes heads ents arrays v w x y small =
    omega (arith, v.counted, w.counted, x.counted, y.counted, small)
