-- ===== src/Examples/Copies.antt =====
-- Five bytes from the mapped file into a buffer on the third page.
use cidl.Base.{◌≡◌, ok, false, refl, arith}
use cidl.SearchTree.{tfind}
use cidl.Addr.{addr2page_num}
use cidl.Rec.{Recs}
use cidl.State.{State}
use cidl.Rec.Insert.Inserted.{Inserted}
use cidl.Files.{ts_memcpy}
use cidl.Files.Copy.{after_copy, copy_rec, ts_memcpy-Inserted}
use cidl.Files.WriteBack.{IsMapped}
use cidl.Examples.States.{state, mapping, recs, recs-IsOwned, recs-HasRoom, recs-IsReady}

source-IsMapped : IsMapped 20010 5 500 state
unfolding tfind
source-IsMapped = record {
  by_range = refl;
  by_name = refl;
  starts = omega arith;
  address = omega arith;
  position = omega arith;
}

ts_memcpy-Inserted_example :
    (t : Recs) × (ts_memcpy false 8202 20010 5 state
      ≡ ok (8202, after_copy 8202 20010 5 500 t state))
    × Inserted (addr2page_num 8202) (copy_rec 8202 20010 mapping) recs t
ts_memcpy-Inserted_example =
    ts_memcpy-Inserted false 8202 20010 5 500 state recs-IsOwned recs-HasRoom (λ e. recs-IsReady)
      source-IsMapped.by_range (λ e. absurd (ground (arith, e)))
