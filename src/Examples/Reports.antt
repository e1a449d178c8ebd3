-- ===== src/Examples/Reports.antt =====
-- The listings, the dump and the statistics of small states.
use cidl.Base.{◌+◌, ◌*◌, ◌%◌, ◌≡◌, List, [], ◌∷◌, map, ok, arith, word64}
use cidl.Pool.Valid.{popped-IsValid}
use cidl.Rec.View.{records}
use cidl.Listing.{Line, list_rec_tree_node}
use cidl.Listing.Pages.{split, shown, list_rec_tree_node-records}
use cidl.Dump.{print_mem}
use cidl.Dump.RoundTrip.{read_hex, bytes_from, read_hex-print_mem}
use cidl.Statistics.{initialize_timers, used_memory, cmp_write_t, tfind_t}
use cidl.Statistics.Timers.{IsSpan, Timing, run_timings, total, run_timings-total}
use cidl.Statistics.Memory.{used_memory-lent}
use cidl.Examples.States.{traced}
use cidl.Examples.Traced
use cidl.Mem.Init.{filled-IsValid}

list_rec_tree_node-records_example :
    (lines : List Line) × (list_rec_tree_node 2 traced.recs [] ≡ ok (tt, lines))
    × (split lines ≡ ([], map (shown 2) (records traced.recs 2)))
list_rec_tree_node-records_example = list_rec_tree_node-records 2 traced.recs

read_hex-print_mem_example :
    read_hex (print_mem (λ a. a % 256) 1000 2) ≡ bytes_from (λ a. a % 256) 1000 32
read_hex-print_mem_example = read_hex-print_mem (λ a. a % 256) (λ a. omega arith) 1000 2

abbrev first : Timing
first = record {
  timer = tfind_t;
  start = record { tv_sec = 5; tv_nsec = 999999000 };
  end = record { tv_sec = 6; tv_nsec = 1000 };
}

abbrev second : Timing
second = record first { timer = cmp_write_t }

span : IsSpan first.start first.end
span = record {
  start_nsec = omega arith;
  end_nsec = omega arith;
  forward = omega arith;
  small = omega arith;
}

run_timings-total_example :
    run_timings (first ∷ second ∷ first ∷ []) (initialize_timers (λ i. 7)) 43
    ≡ total 43 (first ∷ second ∷ first ∷ []) % word64
run_timings-total_example =
    run_timings-total (first ∷ second ∷ first ∷ []) (λ i. 7) 43 (omega arith)
      (span, (span, (span, tt)))

used_memory-lent_example :
    used_memory Traced.recs.mem + 888 * 1 ≡ 40 * 1 + 24 * 1 + 32 * 1 + 920 * 1
used_memory-lent_example =
    used_memory-lent Traced.recs.mem 10000 (1096 ∷ []) (2016 ∷ []) (3024 ∷ []) (4912 ∷ [])
      (popped-IsValid (filled-IsValid 32 4 1000 10000 (omega arith) (omega arith)) (omega arith))
      (popped-IsValid (filled-IsValid 16 2 2000 10000 (omega arith) (omega arith)) (omega arith))
      (popped-IsValid (filled-IsValid 24 2 3000 10000 (omega arith) (omega arith)) (omega arith))
      (popped-IsValid (filled-IsValid 912 2 4000 10000 (omega arith) (omega arith)) (omega arith))
      (omega arith)
