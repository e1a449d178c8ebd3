-- ===== src/Examples/Streams.antt =====
-- One item of eight bytes, whose page has a record inside it and one behind its end.
use cidl.Base.{ℕ, ◌+◌, ◌*◌, ◌≤◌, subst, arith}
use cidl.Addr.{addr2page_num, get_addr}
use cidl.SearchTree.{empty, node, tfind}
use cidl.Rec.View.{records, count_in}
use cidl.State.{State}
use cidl.StreamWrite.{ts_fwrite}
use cidl.StreamWrite.Bounds.{NoneBefore, ts_fwrite_bounds}
use cidl.Examples.States.{overwritten, traced, page_node, first_rec}

abbrev two_recs : State
two_recs = record traced {
  recs = record (traced.recs) {
    tree = node empty (record page_node { mem_rec_idx = 2 }) empty;
    store = λ arr i. record first_rec { page_offset = 10 + 40 * i };
  };
}

page_two-NoneBefore : NoneBefore 2 8200 (records two_recs.recs 2)
unfolding tfind get_addr count_in
page_two-NoneBefore = (omega arith, (omega arith, tt))

two_recs-NoneBefore :
    (q : ℕ)
    → addr2page_num 8200 ≤ q
    → q ≤ addr2page_num (8200 + 8 * 1)
    → NoneBefore q 8200 (records two_recs.recs q)
unfolding addr2page_num
two_recs-NoneBefore q h k =
    subst (λ (i : ℕ). NoneBefore i 8200 (records two_recs.recs i)) {x = 2} {y = q} (omega arith)
      page_two-NoneBefore

ts_fwrite_bounds_example :
    let s' = (ts_fwrite 8200 8 1 1 (overwritten two_recs.bytes) two_recs).1 in
    (0 ≤ s'.stats.ts_write_same_size) × (s'.stats.ts_write_same_size ≤ 0 + 8 * 1)
ts_fwrite_bounds_example =
    ts_fwrite_bounds 8200 8 1 1 (overwritten two_recs.bytes) two_recs (omega arith) (omega arith)
      two_recs-NoneBefore
