-- ===== src/Calls/Safety.antt =====
-- Moving, and any sequence of calls.
use cidl.Base.{
  ◌+◌, ◌-◌, ℕ, ◌≤◌, ◌≡◌, Bool, List, [], ◌∷◌, some, Run, Keeps, Keeps-and_then, add64, Ends, subst,
  sym, exit, Result, ok, out_of_fuel,
}
use cidl.Addr.{Ptr, addr2page_num}
use cidl.Mem.{mem_rec_per_entry}
use cidl.SearchTree.{empty}
use cidl.SearchTree.All.{All, All-tfind}
use cidl.Rec.{RecTreeNode, rec_compare, find_node, OpenFiles}
use cidl.Rec.Reclaim.Compact.{IsBounded}
use cidl.Rec.Insert.{insert_rec}
use cidl.Rec.Insert.Terminates.{insert_rec-Ends}
use cidl.State.{State, on_recs}
use cidl.Files.{
  ts_mmap, ts_munmap, ts_memcpy, ts_memcpy_with_file, ts_read, ts_open, ts_openat, ts_fopen,
  ts_close, memcpy,
}
use cidl.TracedCopy.{copy_pages, ts_memcpy_traced}
use cidl.TracedCopy.Bounded.{copy_pages-Keeps}
use cidl.Realloc.{move_pages, ts_realloc, ts_free}
use cidl.Realloc.Bounded.{move_pages-Keeps}
use cidl.Write.{ts_write, ts_pwrite, do_ts_write}
use cidl.StreamWrite.{ts_fwrite}
use cidl.Calls.{
  Call, maps, unmaps, copies, copies_with_file, copies_traced, reads, opens, opens_at, opens_stream,
  closes, reallocs, frees, writes, writes_at, writes_stream, stores, discard, run_call, run_calls,
}
use cidl.Calls.Bounded.{
  Bounded, recs-Keeps, ts_mmap-Keeps, ts_munmap-Keeps, ts_memcpy-Keeps, ts_memcpy_with_file-Keeps,
  ts_read-Keeps,
}
use cidl.Calls.Opening.{ts_open-Keeps, ts_openat-Keeps, ts_fopen-Keeps, ts_close-Keeps}

ts_memcpy_traced-Keeps :
    (delete_treenode : Bool) (fuel dest src n : ℕ) (s : State)
    → Bounded s
    → Keeps Bounded (ts_memcpy_traced delete_treenode fuel dest src n s)
unfolding ts_memcpy_traced
ts_memcpy_traced-Keeps delete_treenode fuel dest src n s v =
    let s' : State = record s { bytes = memcpy dest src n s.bytes } in
    let start = addr2page_num src in
    let left = addr2page_num (add64 src n) + 1 - start in
    let pages = copy_pages delete_treenode s.files.open_files dest src start fuel left start in
    Keeps-and_then Bounded Bounded (on_recs pages s') _
      (recs-Keeps pages s' (
        copy_pages-Keeps delete_treenode s.files.open_files dest src start fuel left start s.recs
          v))
      (λ _ t w. w)

ts_realloc-Keeps :
    (delete_treenode : Bool) (fuel ptr tail ret : ℕ) (bytes : Ptr → ℕ) (s : State)
    → Bounded s
    → Keeps Bounded (ts_realloc delete_treenode fuel ptr tail ret bytes s)
unfolding ts_realloc
ts_realloc-Keeps delete_treenode fuel ptr tail ret bytes s v =
    let s' : State = record s { bytes = bytes } in
    let start = addr2page_num ptr in
    let left = addr2page_num tail + 1 - start in
    let pages = move_pages delete_treenode s.files.open_files ptr tail ret fuel left start in
    Keeps-and_then Bounded Bounded (on_recs pages s') _
      (recs-Keeps pages s'
        (move_pages-Keeps delete_treenode s.files.open_files ptr tail ret fuel left start s.recs v))
      (λ _ t w. w)

module _ (delete_treenode : Bool) where
  discarded :
      {A : Type 0} (m : Run State A) (s : State) → Keeps Bounded (m s) → Keeps Bounded (discard m s)
  discarded m s h = Keeps-and_then Bounded Bounded (m s) (λ _ t. ok (tt, t)) h (λ _ t w. w)

  run_call-Keeps : (c : Call) (s : State) → Bounded s → Keeps Bounded (run_call delete_treenode c s)
  unfolding run_call ts_free ts_write ts_pwrite do_ts_write ts_fwrite
  run_call-Keeps (maps len prot file off ret bytes) s v =
      discarded (ts_mmap len prot file off ret bytes) s
        (ts_mmap-Keeps len prot file off ret bytes s v)
  run_call-Keeps (unmaps addr ret) s v =
      discarded (ts_munmap addr ret) s (ts_munmap-Keeps addr ret s v)
  run_call-Keeps (copies dest src n) s v =
      discarded (ts_memcpy delete_treenode dest src n) s
        (ts_memcpy-Keeps delete_treenode dest src n s v)
  run_call-Keeps (copies_with_file dest src n fm) s v =
      discarded (ts_memcpy_with_file delete_treenode dest src n fm) s
        (ts_memcpy_with_file-Keeps delete_treenode dest src n fm s v)
  run_call-Keeps (copies_traced fuel dest src n) s v =
      discarded (ts_memcpy_traced delete_treenode fuel dest src n) s
        (ts_memcpy_traced-Keeps delete_treenode fuel dest src n s v)
  run_call-Keeps (reads fd buf nbytes pos pos') s v =
      discarded (ts_read delete_treenode fd buf nbytes pos pos') s
        (ts_read-Keeps delete_treenode fd buf nbytes pos pos' s v)
  run_call-Keeps (opens result abpath stat_ok) s v =
      discarded (ts_open result abpath stat_ok) s (ts_open-Keeps result abpath stat_ok s v)
  run_call-Keeps (opens_at result path stat_ok) s v =
      discarded (ts_openat result path stat_ok) s (ts_openat-Keeps result path stat_ok s v)
  run_call-Keeps (opens_stream result abpath size) s v =
      discarded (ts_fopen result abpath size) s (ts_fopen-Keeps result abpath size s v)
  run_call-Keeps (closes fd result) s v =
      discarded (ts_close fd result) s (ts_close-Keeps fd result s v)
  run_call-Keeps (reallocs fuel ptr tail ret bytes) s v =
      discarded (ts_realloc delete_treenode fuel ptr tail ret bytes) s
        (ts_realloc-Keeps delete_treenode fuel ptr tail ret bytes s v)
  run_call-Keeps (frees ptr bytes) s v = v
  run_call-Keeps (writes buf length written bytes) s v = v
  run_call-Keeps (writes_at buf length written bytes) s v = v
  run_call-Keeps (writes_stream buf size n written bytes) s v = v
  run_call-Keeps (stores bytes) s v = v

  run_calls-Bounded :
      (cs : List Call) (s : State) → Bounded s → Keeps Bounded (run_calls delete_treenode cs s)
  unfolding run_calls
  run_calls-Bounded [] s v = v
  run_calls-Bounded (c ∷ cs) s v =
      Keeps-and_then Bounded Bounded (run_call delete_treenode c s) _ (run_call-Keeps c s v)
        (λ _ t w. run_calls-Bounded cs t w)

  -- No counter leaves an array, and `insertRec` ends, whatever it is asked to insert.
  pub record IsSafe (s : State) : Type 0 where
    pub counters :
        (page : ℕ) (n : RecTreeNode)
        → find_node page s.recs ≡ some n
        → n.mem_rec_idx ≤ mem_rec_per_entry
    pub inserts :
        (open_files : OpenFiles) (file_offset dest file_name fd : ℕ)
        → Ends IsBounded
            (insert_rec delete_treenode open_files file_offset dest file_name fd s.recs)

  -- After any sequence of calls of the library that starts with no page traced and returns, whatever
  -- the system calls return, and between changes that the program makes to its memory by itself, the
  -- counter of every traced page is within an array, and a further `insertRec` ends, in both builds.
  pub run_calls-IsSafe :
      (cs : List Call) (s : State)
      → s.recs.tree ≡ empty
      → Keeps IsSafe (run_calls delete_treenode cs s)
  run_calls-IsSafe cs s none_yet =
      weaken (run_calls delete_treenode cs s)
        (run_calls-Bounded cs s (subst (All (λ n. n.mem_rec_idx ≤ 38)) (sym none_yet) tt))
    where
      weaken : (r : Result (Unit {0} × State)) → Keeps Bounded r → Keeps IsSafe r
      weaken (ok (_, t)) w = record {
        counters = λ page n found.
            All-tfind (λ m. m.mem_rec_idx ≤ 38) (rec_compare page) t.recs.tree n w found;
        inserts = λ open_files file_offset dest file_name fd.
            insert_rec-Ends delete_treenode open_files file_offset dest file_name fd t.recs w;
      }
      weaken (exit n) w = tt
      weaken out_of_fuel w = tt
