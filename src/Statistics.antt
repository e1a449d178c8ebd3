-- ===== src/Statistics.antt =====
-- statistics.h and statistics.c: the timers, and the memory and the counters that the library prints. The
-- shares in per cent, which the code prints as floating point numbers, are left out.
pub mod Timers
pub mod Memory
use Prim.Native.String.{String}
use cidl.Base.{
  ℕ, zero, suc, ◌+◌, ◌-◌, ◌*◌, ◌/◌, ◌%◌, ◌==◌, if◌then◌else◌, List, [], ◌∷◌, word64, add64, sub64,
}
use cidl.Pool.{Pool, pointer_size}
use cidl.Mem.{Mem, rec_tree_node_size, tailhead_size, rec_block_entry_size, mem_rec_size}
use cidl.State.{State}

-- `enum instrumentation_vars`
pub data Timer : Type 0 where
  appends_t append_log_entry_t append_log_reinit_t bg_thread_t clear_dr_t clear_mmap_tbl_t
        clf_lock_t close_syscall_t close_t cmp_write_t compare_mem_t copy_appendread_t
        copy_appendwrite_t copy_to_dr_pool_t copy_to_mmap_cache_t copy_overread_t copy_overwrite_t
        dr_mem_queue_t file_map_t file_unmap_t file_mmap_t fsync_t insert_tbl_mmap_t insert_rec_t
        get_dr_mmap_t get_mmap_t give_up_node_t memcmp_asm_t mem_from_file_trace_t
        mem_from_mem_trace_t memcpy_from_mapped_trace_t node_lookup_lock_t nvnode_lock_t open_t
        op_log_entry_t pread_t pwrite_t read_t read_tbl_mmap_t remap_mem_rec_t
        remove_overlapping_entry_t seek_t swap_extents_t tfind_t ts_memcpy_tfind_file_t ts_write_t
        unlink_t write_t :
      Timer

-- The values of the enumerators.
abbrev pub index : Timer → ℕ
index appends_t = 0
index append_log_entry_t = 1
index append_log_reinit_t = 2
index bg_thread_t = 3
index clear_dr_t = 4
index clear_mmap_tbl_t = 5
index clf_lock_t = 6
index close_syscall_t = 7
index close_t = 8
index cmp_write_t = 9
index compare_mem_t = 10
index copy_appendread_t = 11
index copy_appendwrite_t = 12
index copy_to_dr_pool_t = 13
index copy_to_mmap_cache_t = 14
index copy_overread_t = 15
index copy_overwrite_t = 16
index dr_mem_queue_t = 17
index file_map_t = 18
index file_unmap_t = 19
index file_mmap_t = 20
index fsync_t = 21
index insert_tbl_mmap_t = 22
index insert_rec_t = 23
index get_dr_mmap_t = 24
index get_mmap_t = 25
index give_up_node_t = 26
index memcmp_asm_t = 27
index mem_from_file_trace_t = 28
index mem_from_mem_trace_t = 29
index memcpy_from_mapped_trace_t = 30
index node_lookup_lock_t = 31
index nvnode_lock_t = 32
index open_t = 33
index op_log_entry_t = 34
index pread_t = 35
index pwrite_t = 36
index read_t = 37
index read_tbl_mmap_t = 38
index remap_mem_rec_t = 39
index remove_overlapping_entry_t = 40
index seek_t = 41
index swap_extents_t = 42
index tfind_t = 43
index ts_memcpy_tfind_file_t = 44
index ts_write_t = 45
index unlink_t = 46
index write_t = 47

-- `INSTRUMENT_NUM`
abbrev pub instrument_num : ℕ
instrument_num = 48

-- `Instruprint`
abbrev pub instruprint : List String
instruprint =
    "appends_t" ∷ "append_log_entry_t" ∷ "append_log_reinit_t" ∷ "bg_thread_t" ∷ "clear_dr_t"
    ∷ "clear_mmap_tbl_t" ∷ "clf_lock_t" ∷ "close_syscall_t" ∷ "close_t" ∷ "cmp_write_t"
    ∷ "compare_mem_t" ∷ "copy_appendread_t" ∷ "copy_appendwrite_t" ∷ "copy_to_dr_pool_t"
    ∷ "copy_to_mmap_cache_t" ∷ "copy_overread_t" ∷ "copy_overwrite_t" ∷ "dr_mem_queue_t"
    ∷ "fileMap_t" ∷ "fileUnmap_t" ∷ "file_mmap_t" ∷ "fsync_t" ∷ "insert_tbl_mmap_t" ∷ "insert_rec_t"
    ∷ "get_dr_mmap_t" ∷ "get_mmap_t" ∷ "give_up_node_t" ∷ "memcmp_asm_t" ∷ "mem_from_file_trace_t"
    ∷ "mem_from_mem_trace_t" ∷ "memcpy_from_mapped_trace_t" ∷ "node_lookup_lock_t" ∷ "nvnode_lock_t"
    ∷ "open_t" ∷ "op_log_entry_t" ∷ "pread_t" ∷ "pwrite_t" ∷ "read_t" ∷ "read_tbl_mmap_t"
    ∷ "remap_mem_rec_t" ∷ "remove_overlapping_entry_t" ∷ "seek_t" ∷ "swap_extents_t" ∷ "tfind_t"
    ∷ "ts_memcpy_tfind_file_t" ∷ "ts_write_t" ∷ "unlink_t" ∷ "write_t" ∷ []

-- `Instrustats`
abbrev pub Timers : Type 0
Timers = ℕ → ℕ

-- The loop of `INITIALIZE_TIMERS`, by the rounds left.
pub clear : (left i : ℕ) → Timers → Timers
clear zero i t = t
clear (suc left) i t = clear left (i + 1) (λ j. if j == i then 0 else t j)

unfoldable pub initialize_timers : Timers → Timers
unfolding clear
initialize_timers = clear instrument_num 0

-- `struct timespec`
pub record Timespec : Type 0 where
  pub tv_sec : ℕ
  pub tv_nsec : ℕ

-- `END_TIMING`; `end` is what the clock shows. The difference is a signed one, and is added to an
-- unsigned number.
unfoldable pub end_timing : Timer → (start end : Timespec) → Timers → Timers
end_timing name start end t i =
    if i == index name
    then add64 (t i) (
        add64 (sub64 end.tv_sec start.tv_sec * 1000000000 % word64)
          (sub64 end.tv_nsec start.tv_nsec))
    else t i

-- The loop of `PRINT_TIME`: the name and the microseconds of each timer that is not 0.
pub print_from : List String → ℕ → Timers → List (String × ℕ)
print_from [] i t = []
print_from (name ∷ names) i t =
    let rest = print_from names (i + 1) t in if t i == 0 then rest else (name, t i / 1000) ∷ rest

unfoldable pub print_time : Timers → List (String × ℕ)
unfolding print_from
print_time = print_from instruprint 0

-- The bytes of the objects of a pool that are in use, with a pointer for each.
abbrev pub used_by : (elem : ℕ) → Pool → ℕ
used_by elem p = sub64 p.size p.idx * (pointer_size + elem) % word64

-- `usedMemory` of `ts_print_statistics`. An array is counted as one `struct memRec`.
unfoldable pub used_memory : Mem → ℕ
used_memory m =
    add64
      (add64
        (add64 (used_by rec_tree_node_size m.rec_tree_nodes) (used_by tailhead_size m.tail_heads))
        (used_by rec_block_entry_size m.rec_block_entries))
      (used_by mem_rec_size m.rec_arrs)

-- The counters of statistics.h that only `ts_print_statistics` reads.
pub record IoCounters : Type 0 where
  pub num_memcpy_read : ℕ
  pub num_memcpy_write : ℕ
  pub num_mmap : ℕ
  pub memcpy_read_size : ℕ
  pub memcpy_write_size : ℕ

-- `num ? size / num : 0`
abbrev pub average : (size num : ℕ) → ℕ
average size num = if num == 0 then 0 else size / num

-- The whole numbers that `ts_print_statistics` prints, in order.
unfoldable pub ts_print_statistics : IoCounters → State → List ℕ
unfolding used_memory
ts_print_statistics c s =
    c.num_mmap
    ∷ c.num_memcpy_read
    ∷ c.memcpy_read_size
    ∷ average c.memcpy_read_size c.num_memcpy_read
    ∷ c.num_memcpy_write
    ∷ c.memcpy_write_size
    ∷ average c.memcpy_write_size c.num_memcpy_write
    ∷ s.recs.mem.rec_tree_nodes.idx
    ∷ s.recs.mem.tail_heads.idx
    ∷ s.recs.mem.rec_block_entries.idx
    ∷ s.recs.mem.rec_arrs.idx
    ∷ used_memory s.recs.mem
    ∷ s.recs.mem.arena.total_alloc_size
    ∷ s.stats.ts_write_size
    ∷ s.stats.ts_write_same_size
    ∷ s.stats.ts_write_not_found_size
    ∷ s.stats.ts_metadata_item
    ∷ []

-- `fini`, the destructor.
abbrev pub fini : IoCounters → State → Timers → List ℕ × List (String × ℕ)
fini c s t = (ts_print_statistics c s, print_time t)
