-- ===== src/BaseVersion.antt =====
-- The build with BASE_VERSION: the record tree of tree.c and mem.h holds ranges of memory instead of
-- pages, and awn.c has its own `deleteRec`, `insertRec`, `cmpWrite`, `do_ts_write` and
-- `ts_memcpy_traced`.
pub mod Sorted
pub mod Insert
pub mod Writes
pub mod Copies
use cidl.Base.{
  ℕ, zero, suc, ◌+◌, ◌-◌, Bool, true, false, ◌&&◌, ltb, leb, ◌==◌, not, if◌then◌else◌, Option, none,
  some, Ordering, compare, null, word64, add64, sub64, Run, ok, exit, out_of_fuel, pure, get,
  modify, assert, fatal, and_then, zoom, ◌>>◌, ◌>>=◌,
}
use cidl.Addr.{Ptr}
use cidl.Pool.{Arena, malloc, count_alloc}
use cidl.SearchTree.{Tree, tfind, tsearch, tdelete}
use cidl.SearchTree.Members.{size}
use cidl.State.{Files, Stats, file_map_name_tree_ins_del_compare}
use cidl.Files.{memcpy}
use cidl.Write.{Progress, compared}

-- `struct memRec`: the memory from `start_memory` up to `tail_memory` came from the file.
pub record MemRec : Type 0 where
  pub file_offset : ℕ
  pub file_name : Ptr
  pub start_memory : Ptr
  pub tail_memory : Ptr

-- `recTreeRoot`, whose records are kept by value, and the heap that they come from.
pub record Ranges : Type 0 where
  pub tree : Tree MemRec
  pub arena : Arena

abbrev pub rec_compare : MemRec → MemRec → Ordering
rec_compare a b = compare a.start_memory b.start_memory

abbrev pub overlap_rec_beg_bigger : MemRec → MemRec → Ordering
overlap_rec_beg_bigger a b =
    if ltb b.start_memory a.start_memory
    then Ordering.gt
    else (if ltb a.start_memory b.start_memory && ltb a.tail_memory b.start_memory
        then Ordering.lt
        else Ordering.eq)

abbrev pub overlap_rec : MemRec → MemRec → Ordering
overlap_rec a b =
    if ltb b.start_memory a.start_memory && leb b.tail_memory a.start_memory
    then Ordering.gt
    else (if ltb a.start_memory b.start_memory && leb a.tail_memory b.start_memory
        then Ordering.lt
        else Ordering.eq)

-- `sizeof(struct memRec)`
abbrev pub mem_rec_bytes : ℕ
mem_rec_bytes = 32

unfoldable pub allocate_mem_rec_arr : Run Ranges Ptr
allocate_mem_rec_arr s =
    let (ret, a) = malloc mem_rec_bytes s.arena in
    if ret == null then exit fatal else ok (ret, record s { arena = count_alloc mem_rec_bytes a })

unfoldable pub withdraw_mem_rec_arr : Run Ranges (Unit {0})
withdraw_mem_rec_arr s =
    let a = s.arena in
    ok (
      tt,
      record s { arena = record a { total_alloc_size = sub64 a.total_alloc_size mem_rec_bytes } },
    )

-- The least address and the greatest file offset of the assertions.
abbrev pub low_memory : ℕ
low_memory = 343596402010

abbrev pub max_file_offset : ℕ
max_file_offset = 100000000000002

-- `assert(rec->startMemory<rec->tailMemory)` and the next line.
abbrev pub is_range : MemRec → Bool
is_range r =
    ltb r.start_memory r.tail_memory
    && (ltb low_memory r.start_memory && ltb low_memory r.tail_memory)

-- `assertRec`
abbrev pub assert_rec : {S : Type 0} → MemRec → Run S (Unit {0})
assert_rec r =
    assert (is_range r && (ltb r.file_offset max_file_offset && not (r.file_name == null)))

abbrev pub range_of : (file_offset : ℕ) → (start : Ptr) → (length : ℕ) → (file_name : Ptr) → MemRec
range_of file_offset start length file_name = record {
  file_offset = file_offset;
  file_name = file_name;
  start_memory = start;
  tail_memory = add64 start length;
}

-- `while(searchRes)` of `deleteRec`, on fuel.
unfoldable pub delete_overlaps : (fuel : ℕ) → MemRec → Run Ranges (Unit {0})
delete_overlaps zero k s = elim (tfind (overlap_rec k) s.tree) [
  | none ↦ ok (tt, s)
  | some _ ↦ out_of_fuel
]
delete_overlaps (suc fuel) k s = elim (tfind (overlap_rec k) s.tree) [
  | none ↦ ok (tt, s)
  | some _ ↦ delete_overlaps fuel k (record s { tree = tdelete (overlap_rec k) s.tree })
]

-- `deleteRec`. Its parameter `src` is not used. The records that it takes out of the tree are not
-- freed.
unfoldable pub delete_rec : (dest : Ptr) → (length : ℕ) → Run Ranges (Unit {0})
delete_rec dest length = do
  _ ← allocate_mem_rec_arr
  let k = range_of 0 dest length null
  assert (is_range k)
  s ← get
  delete_overlaps (size s.tree) k
  withdraw_mem_rec_arr

-- `insertRec`
unfoldable pub insert_rec :
    (file_offset : ℕ) → (dest : Ptr) → (file_name : Ptr) → (length : ℕ) → Run Ranges (Unit {0})
insert_rec file_offset dest file_name length = do
  _ ← allocate_mem_rec_arr
  delete_rec dest length
  let k = range_of file_offset dest length file_name
  assert_rec k
  modify (λ s. record s { tree = tsearch (rec_compare k) k s.tree })

-- `memcmp_bbb`, by the bytes left, as `memcmp_avx2_asm`.
unfoldable pub memcmp_bbb : (Ptr → ℕ) → (n : ℕ) → (s1 s2 : Ptr) → Option Ptr
memcmp_bbb bytes zero a b = none
memcmp_bbb bytes (suc n) a b = elim (bytes a == bytes b) [
  | true ↦ memcmp_bbb bytes n (a + 1) (b + 1)
  | false ↦ some a
]

module _ (files : Files) (bytes : Ptr → ℕ) (tree : Tree MemRec) (tail : Ptr) where
  -- `cmpWrite`, with the result that it returns.
  unfoldable pub cmp_write : MemRec → Progress → ℕ × Progress
  cmp_write mrp p = on_file found
    where
      found : Option Ptr
      found = tfind (file_map_name_tree_ins_del_compare files.nodes mrp.file_name) files.name_tree

      file_cmp_start : Ptr → Ptr
      file_cmp_start fm =
          sub64 (add64 (files.nodes fm).start mrp.file_offset) (files.nodes fm).offset

      on_file : Option Ptr → ℕ × Progress
      on_file none = (word64 - 1, p)
      on_file (some fm) =
          if leb (files.nodes fm).offset mrp.file_offset
          then compared mrp.start_memory tail
              (memcmp_bbb bytes (sub64 tail mrp.start_memory) mrp.start_memory (file_cmp_start fm))
              p
          else (0, p)

  -- `while(searchRes)` of `do_ts_write`, on fuel.
  unfoldable pub compare_ranges : (fuel : ℕ) → MemRec → Run Progress (Unit {0})
  compare_ranges zero k p = elim (tfind (overlap_rec_beg_bigger k) tree) [
    | none ↦ ok (tt, p)
    | some _ ↦ out_of_fuel
  ]
  compare_ranges (suc fuel) k p = elim (tfind (overlap_rec_beg_bigger k) tree) [
    | none ↦ ok (tt, p)
    | some b ↦
        let k' = record k { start_memory = add64 b.tail_memory 1 } in
        let p' = (cmp_write b p).1 in
        let rest = compare_ranges fuel k' in
        if leb k'.tail_memory k'.start_memory
        then ok (tt, p')
        else (assert (is_range k') >> (assert_rec b >> rest)) p'
  ]

-- The state of the library in this build.
pub record BaseState : Type 0 where
  pub ranges : Ranges
  pub files : Files
  pub stats : Stats
  pub bytes : Ptr → ℕ

abbrev pub on_ranges : {A : Type 0} → Run Ranges A → Run BaseState A
on_ranges = zoom (λ s. s.ranges) (λ s r. record s { ranges = r })

-- `do_ts_write`. Its parameters `start` and `end` are not used.
unfoldable pub do_ts_write : (buf : Ptr) → (length : ℕ) → (tail : Ptr) → Run BaseState (Unit {0})
do_ts_write buf length tail = do
  _ ← on_ranges allocate_mem_rec_arr
  s ← get
  zoom (λ s. record { stats = s.stats; diff_pos = null }) (λ s p. record s { stats = p.stats })
      (compare_ranges s.files s.bytes s.ranges.tree tail (suc length) (range_of 0 buf length null))
  on_ranges withdraw_mem_rec_arr

module _ (dest src end : Ptr) where
  -- `while(searchRes)` of `ts_memcpy_traced`, on fuel.
  unfoldable pub copy_ranges : (fuel : ℕ) → MemRec → Run Ranges (Unit {0})
  copy_ranges zero k s = elim (tfind (overlap_rec_beg_bigger k) s.tree) [
    | none ↦ ok (tt, s)
    | some _ ↦ out_of_fuel
  ]
  copy_ranges (suc fuel) k s = elim (tfind (overlap_rec_beg_bigger k) s.tree) [
    | none ↦ ok (tt, s)
    | some b ↦
        let insert_dest = add64 dest (sub64 b.start_memory src) in
        let copy_len = sub64 (if ltb b.tail_memory end then b.tail_memory else end) src in
        let rest = copy_ranges fuel k in
        (insert_rec b.file_offset insert_dest b.file_name copy_len
            >> (withdraw_mem_rec_arr >> rest))
          (record s { tree = tdelete (overlap_rec_beg_bigger k) s.tree })
  ]

-- `ts_memcpy_traced`
unfoldable pub ts_memcpy_traced : (fuel : ℕ) → (dest src : Ptr) → (n : ℕ) → Run BaseState Ptr
ts_memcpy_traced fuel dest src n = do
  modify (λ s. record s { bytes = memcpy dest src n s.bytes })
  _ ← on_ranges allocate_mem_rec_arr
  on_ranges (copy_ranges dest src (add64 src n) fuel (range_of 0 src n null))
  on_ranges withdraw_mem_rec_arr
  pure dest
