-- ===== src/Examples/Writes.antt =====
-- Writes of a buffer whose page has one record, and of an untraced one.
use cidl.Base.{
  ℕ, zero, suc, ◌+◌, ◌-◌, ◌^◌, ◌≤◌, ◌<◌, ◌≡◌, refl, false, ◌==◌, if◌then◌else◌, arith, subst,
  word64, add64, sub64,
}
use cidl.Addr.{Ptr, addr2page_num, addr2page_offset, get_addr}
use cidl.SearchTree.{tfind}
use cidl.Rec.View.{records, entries_records, count_in}
use cidl.State.{State}
use cidl.Write.{Progress, cmp_write, compare_blocks, ts_write}
use cidl.Write.Compare.{common, counted, cmp_write-common, cmp_write_beyond}
use cidl.Write.Fold.{compare_all, compare_blocks-all}
use cidl.Write.Bounds.{NoneBehind, ts_write_bounds}
use cidl.Write.NotFound.{ts_write-untraced}
use cidl.Examples.States.{overwritten, state, traced, first_rec, page_node, stats, untraced}

abbrev start : Progress
start = record { stats = stats; diff_pos = 8202 }

cmp_write-common_example : cmp_write traced 8202 first_rec 8207 start ≡ (
  common traced.bytes 5 8202 20010,
  counted (common traced.bytes 5 8202 20010) (8202 + common traced.bytes 5 8202 20010) start,
)
unfolding tfind
cmp_write-common_example =
    cmp_write-common traced first_rec 500 8202 8207 start refl (omega arith) (omega arith)
      (omega arith)

common_differs :
    (bytes : Ptr → ℕ) (n : ℕ) (a b : Ptr) → (bytes a == bytes b) ≡ false → common bytes n a b ≡ 0
common_differs bytes zero a b h = refl
common_differs bytes (suc n) a b h = rw h

zero_before : (c : ℕ) → c ≡ 0 → c < sub64 8207 8210
zero_before c e = omega arith

-- The byte at 8210 differs from the file's.
abbrev changed : State
changed = record traced { bytes = λ a. if a == 8210 then 9 else 1 }

cmp_write_beyond_example : cmp_write changed 8210 first_rec 8207 start ≡ (
  word64 - 3,
  counted (word64 - 3) (8210 + common changed.bytes (sub64 8207 8210) 8210 20010) start,
)
unfolding tfind
cmp_write_beyond_example =
    cmp_write_beyond changed first_rec 500 8210 8207 start refl (omega arith) (omega arith)
      (omega arith) (zero_before _ (common_differs changed.bytes (sub64 8207 8210) 8210 20010 refl))

compare_blocks-all_example :
    compare_blocks traced 2 8207 page_node page_node.list_head start
    ≡ compare_all traced 2 8207
        (entries_records traced.recs.store page_node page_node.list_head)
        start
compare_blocks-all_example = compare_blocks-all traced 2 8207 page_node page_node.list_head start

page_two-NoneBehind : NoneBehind 2 8207 (records traced.recs 2)
unfolding tfind get_addr count_in
page_two-NoneBehind = (omega arith, tt)

traced-NoneBehind :
    (q : ℕ)
    → addr2page_num 8202 ≤ q
    → q ≤ addr2page_num (8202 + 5)
    → NoneBehind q (8202 + 5) (records traced.recs q)
unfolding addr2page_num
traced-NoneBehind q h k =
    subst (λ (i : ℕ). NoneBehind i 8207 (records traced.recs i)) {x = 2} {y = q} (omega arith)
      page_two-NoneBehind

ts_write_bounds_example :
    let s' = (ts_write 8202 5 5 (overwritten traced.bytes) traced).1 in
    (0 ≤ s'.stats.ts_write_same_size) × (s'.stats.ts_write_same_size ≤ 0 + 5)
ts_write_bounds_example =
    ts_write_bounds 8202 5 5 (overwritten traced.bytes) traced (omega arith) (omega arith)
      traced-NoneBehind

short : addr2page_offset 8202 + 5 < 2 ^ 31
unfolding addr2page_offset
short = omega arith

ts_write-untraced_example :
    let s' = (ts_write 8202 5 5 (overwritten state.bytes) state).1 in
    (s'.stats.ts_write_not_found_size ≡ add64 0 (addr2page_offset 8202 + 5))
    × (s'.stats.ts_write_same_size ≡ 0)
    × (s'.stats.ts_write_size ≡ add64 0 5)
ts_write-untraced_example =
    ts_write-untraced 8202 5 5 (overwritten state.bytes) state (omega arith) short
      (λ q h k. untraced q)
