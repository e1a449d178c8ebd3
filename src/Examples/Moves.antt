-- ===== src/Examples/Moves.antt =====
-- The one record of a traced page, copied to another page with its bytes, and moved by `realloc`.
use cidl.Base.{ℕ, ◌≡◌, ok, out_of_fuel, true, false, refl, arith, List, [], ◌∷◌, ◌++◌}
use cidl.Addr.{Ptr, addr2page_num, get_addr}
use cidl.SearchTree.{tfind}
use cidl.Rec.{Recs, RecBlockEntry}
use cidl.Rec.View.{records, count_in}
use cidl.Rec.Owned.{IsOwned}
use cidl.Rec.Insert.Stock.{HasStock}
use cidl.State.{State}
use cidl.TracedCopy.Moves.{Away, arrivals}
use cidl.Realloc.{ts_realloc}
use cidl.Realloc.Moved.{block_moves}
use cidl.Realloc.OnePage.{ts_realloc-Moved}
use cidl.Realloc.Stuck.{ts_realloc-stuck}
use cidl.Examples.States.{state, page_node}
use cidl.Examples.Traced.{recs, recs-IsOwned, recs-HasRoom, one_left}

abbrev start : State
start = record state { recs = recs }

abbrev entry : RecBlockEntry
entry = record { addr = 3024; rec_arr = 4912 }

recs-HasStock : HasStock 1 recs
recs-HasStock = record {
  room = recs-HasRoom;
  heads = 2016 ∷ [];
  head_pool = record {
    valid =
        one_left 2000 2016 recs.mem.tail_heads refl refl refl (omega arith) (omega arith)
          (omega arith);
    nonempty = omega arith;
    used = omega arith;
  };
  counted = omega arith;
  high = omega arith;
  nonnull = λ i h e. ground (arith, e);
  heads_left = omega arith;
  ents_left = omega arith;
  arrs_left = omega arith;
}

block-Away : Away 2 (block_moves 8192 9000 12288 2 (records recs 2))
unfolding tfind count_in get_addr addr2page_num
block-Away = ground arith

ts_realloc-Moved_example :
    (t : Recs) × (ts_realloc false 1 8192 9000 12288 (λ a. 1) start
      ≡ ok (12288, record start { recs = t; bytes = λ a. 1 }))
    × ((q : ℕ)
        → records t q
          ≡ records recs q
            ++ arrivals q (
                block_moves 8192 9000 12288
                  (addr2page_num 8192)
                  (records recs (addr2page_num 8192))))
    × (ents : List Ptr) × (arrays : List Ptr) × IsOwned ents arrays t
unfolding addr2page_num tfind get_addr
ts_realloc-Moved_example =
    ts_realloc-Moved 0 8192 9000 12288 (λ a. 1) start page_node entry recs-IsOwned recs-HasStock
      (omega arith) refl refl refl refl block-Away

ts_realloc-stuck_example : ts_realloc true 100 8192 8200 12288 (λ a. 1) start ≡ out_of_fuel
unfolding addr2page_num tfind get_addr count_in
ts_realloc-stuck_example =
    ts_realloc-stuck true 8192 8200 12288 (λ a. 1) start page_node entry (omega arith) refl refl
      refl 100
