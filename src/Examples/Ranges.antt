-- ===== src/Examples/Ranges.antt =====
-- Ranges of memory in the build with BASE_VERSION: an insertion that replaces one, a write, and a copy.
use cidl.Base.{◌+◌, ◌-◌, ◌≡◌, ok, refl, arith, Ends}
use cidl.SearchTree.{empty, node}
use cidl.SearchTree.Members.{In}
use cidl.Files.{memcpy}
use cidl.BaseVersion.{
  MemRec, Ranges, BaseState, range_of, insert_rec, do_ts_write, ts_memcpy_traced,
}
use cidl.BaseVersion.Insert.{Replaces, insert_rec-Replaces}
use cidl.BaseVersion.Writes.{Unwritten, do_ts_write-Ends}
use cidl.BaseVersion.Copies.{ts_memcpy_traced-too_long}
use cidl.Examples.States.{arena, files, stats}

abbrev old : MemRec
old = record {
  file_offset = 4;
  file_name = 600;
  start_memory = 400000000004;
  tail_memory = 400000000008;
}

abbrev ranges : Ranges
ranges = record { tree = node empty old empty; arena = arena }

abbrev base : BaseState
base = record { ranges = ranges; files = files; stats = stats; bytes = λ a. 1 }

insert_rec-Replaces_example :
    (t : Ranges) × (insert_rec 10 400000000000 600 5 ranges ≡ ok (tt, t))
    × Replaces (range_of 10 400000000000 5 600) ranges t
insert_rec-Replaces_example =
    insert_rec-Replaces 10 400000000000 600 5 ranges (tt, tt, omega arith, tt, tt) (omega arith)
      (omega arith) (omega arith) (omega arith) (omega arith) (omega arith) (λ e. ground (arith, e))

do_ts_write-Ends_example : Ends (Unwritten base) (do_ts_write 400000000000 10 400000000010 base)
do_ts_write-Ends_example =
    do_ts_write-Ends 400000000000 10 400000000010 base (tt, (omega arith, omega arith), tt)
      (omega arith)

ts_memcpy_traced-too_long_example :
    (t : BaseState) × (ts_memcpy_traced 1 500000000000 400000000000 10 base ≡ ok (500000000000, t))
    × (t.bytes ≡ memcpy 500000000000 400000000000 10 base.bytes)
    × (r : MemRec) × In r t.ranges.tree
    × (r.start_memory ≡ 500000000000 + (400000000004 - 400000000000))
    × (r.tail_memory ≡ 500000000000 + (400000000008 - 400000000000) + (400000000004 - 400000000000))
ts_memcpy_traced-too_long_example =
    ts_memcpy_traced-too_long 500000000000 400000000000 10 base old refl (omega arith) (omega arith)
      (omega arith) (omega arith) (omega arith) (omega arith) (omega arith) (λ e. ground (arith, e))
      (omega arith) (omega arith) 0
