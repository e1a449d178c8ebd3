-- ===== src/Calls.antt =====
-- Sequences of calls of the library, as the program makes them.
pub mod Bounded
pub mod Opening
pub mod Safety
use cidl.Base.{ℕ, Bool, List, [], ◌∷◌, Option, Run, ok, pure, and_then, ◌>>◌}
use cidl.Addr.{Ptr}
use cidl.State.{State}
use cidl.Files.{
  ts_mmap, ts_munmap, ts_memcpy, ts_memcpy_with_file, ts_read, ts_open, ts_openat, ts_fopen,
  ts_close,
}
use cidl.TracedCopy.{ts_memcpy_traced}
use cidl.Realloc.{ts_realloc, ts_free}
use cidl.Write.{ts_write, ts_pwrite}
use cidl.StreamWrite.{ts_fwrite}

-- A call with its arguments and what the system returns to it, or a change that the program makes to
-- its memory by itself.
pub data Call : Type 0 where
  maps : (len prot : ℕ) → (file : Option ℕ) → (off ret : ℕ) → (bytes : Ptr → ℕ) → Call
  unmaps : (addr : Ptr) → (ret : ℕ) → Call
  copies : (dest src : Ptr) → (n : ℕ) → Call
  copies_with_file : (dest src : Ptr) → (n : ℕ) → (fm : Ptr) → Call
  copies_traced : (fuel : ℕ) → (dest src : Ptr) → (n : ℕ) → Call
  reads : (fd : ℕ) → (buf : Ptr) → (nbytes : ℕ) → (pos pos' : Option ℕ) → Call
  opens : (result : Option ℕ) → (abpath : Ptr) → (stat_ok : Bool) → Call
  opens_at : (result : Option ℕ) → (path : Ptr) → (stat_ok : Bool) → Call
  opens_stream : (result : Option ℕ) → (abpath : Ptr) → (size : ℕ → Option ℕ) → Call
  closes : (fd : ℕ) → (result : Option ℕ) → Call
  reallocs : (fuel : ℕ) → (ptr tail ret : Ptr) → (bytes : Ptr → ℕ) → Call
  frees : (ptr : Ptr) → (bytes : Ptr → ℕ) → Call
  writes : (buf length written : ℕ) → (bytes : Ptr → ℕ) → Call
  writes_at : (buf length written : ℕ) → (bytes : Ptr → ℕ) → Call
  writes_stream : (buf size n written : ℕ) → (bytes : Ptr → ℕ) → Call
  stores : (bytes : Ptr → ℕ) → Call

-- The state after a call, without its result.
abbrev pub discard : {A : Type 0} → Run State A → Run State (Unit {0})
discard m s = and_then (m s) λ _ t. ok (tt, t)

module _ (delete_treenode : Bool) where
  unfoldable pub run_call : Call → Run State (Unit {0})
  run_call (maps len prot file off ret bytes) = discard (ts_mmap len prot file off ret bytes)
  run_call (unmaps addr ret) = discard (ts_munmap addr ret)
  run_call (copies dest src n) = discard (ts_memcpy delete_treenode dest src n)
  run_call (copies_with_file dest src n fm) =
      discard (ts_memcpy_with_file delete_treenode dest src n fm)
  run_call (copies_traced fuel dest src n) =
      discard (ts_memcpy_traced delete_treenode fuel dest src n)
  run_call (reads fd buf nbytes pos pos') = discard (ts_read delete_treenode fd buf nbytes pos pos')
  run_call (opens result abpath stat_ok) = discard (ts_open result abpath stat_ok)
  run_call (opens_at result path stat_ok) = discard (ts_openat result path stat_ok)
  run_call (opens_stream result abpath size) = discard (ts_fopen result abpath size)
  run_call (closes fd result) = discard (ts_close fd result)
  run_call (reallocs fuel ptr tail ret bytes) =
      discard (ts_realloc delete_treenode fuel ptr tail ret bytes)
  run_call (frees ptr bytes) = ts_free ptr bytes
  run_call (writes buf length written bytes) = λ s. ok (tt, (ts_write buf length written bytes s).1)
  run_call (writes_at buf length written bytes) =
      λ s. ok (tt, (ts_pwrite buf length written bytes s).1)
  run_call (writes_stream buf size n written bytes) =
      λ s. ok (tt, (ts_fwrite buf size n written bytes s).1)
  run_call (stores bytes) = λ s. ok (tt, record s { bytes = bytes })

  unfoldable pub run_calls : List Call → Run State (Unit {0})
  run_calls [] = pure tt
  run_calls (c ∷ cs) = do run_call c; run_calls cs
