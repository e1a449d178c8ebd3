-- ===== src/Examples/Starts.antt =====
-- A program from the start of the library to its first write.
use cidl.Base.{◌≡◌, refl, true, false, some, ok, arith, inr}
use cidl.Addr.{page_size, page_num_shift}
use cidl.State.{State}
use cidl.Write.{ts_write}
use cidl.Files.{memcpy, ts_open, ts_mmap, ts_memcpy}
use cidl.Files.First.{opened}
use cidl.Setup.{init}
use cidl.Setup.Started.{globals}
use cidl.Setup.ToWrite.{init-ts_write}
use cidl.Examples.States.{overwritten, overwritten-Spares, state}

-- A heap of almost a hundred megabytes, below the mapping and the buffer.
abbrev loaded : State
loaded = record state {
  recs = record (state.recs) {
    mem = record (state.recs.mem) {
      arena = record { next = 100000; limit = 100000000; total_alloc_size = 7 };
    };
  };
}

init-ts_write_example :
    (t u v : State) × (init false 13 page_size loaded ≡ ok (globals page_num_shift loaded, t))
    × (ts_open (some 3) 600 true t ≡ ok (some 3, opened 3 600 t))
    × (ts_mmap 4096 1 (some 3) 0 140000000 (overwritten loaded.bytes) (opened 3 600 t)
        ≡ ok (140000000, u))
    × (ts_memcpy true 150000010 140000010 5 u ≡ ok (150000010, v))
    × ((ts_write 150000010 5 5
          (overwritten (memcpy 150000010 140000010 5 (overwritten loaded.bytes)))
          v).1.stats.ts_write_same_size
        ≡ 5)
init-ts_write_example =
    init-ts_write true 13 3 600 4096 1 0 140000000 150000010 140000010 5 5
      (overwritten loaded.bytes)
      (overwritten (memcpy 150000010 140000010 5 (overwritten loaded.bytes))) loaded (omega arith)
      (omega arith) (omega arith) refl (λ e. ground (arith, e)) refl (omega arith) (omega arith)
      (omega arith) (omega arith) (omega arith) (inr (omega arith))
      (overwritten-Spares (memcpy 150000010 140000010 5 (overwritten loaded.bytes)) 5 150000010
        (inr (omega arith)))
      (overwritten-Spares (memcpy 150000010 140000010 5 (overwritten loaded.bytes)) 5 140000010
        (inr (omega arith)))
