-- ===== src/Examples/Records.antt =====
-- A first record on an untraced page, one that restarts the records of a page, and a reclamation.
use cidl.Base.{◌≡◌, ok, true, false, Ends, arith}
use cidl.Addr.{addr2page_num}
use cidl.Rec.{Recs}
use cidl.Rec.Reclaim.{reclaim_special_rec_tree_node}
use cidl.Rec.Reclaim.Compact.{IsBounded}
use cidl.Rec.Reclaim.Terminates.{reclaim_special_rec_tree_node-Ends}
use cidl.Rec.Insert.{insert_rec}
use cidl.Rec.Insert.State.{new_rec}
use cidl.Rec.Insert.Inserted.{Inserted}
use cidl.Rec.Insert.Refines.{insert_rec-Inserted}
use cidl.Rec.Insert.Terminates.{insert_rec-Ends}
use cidl.Examples.States.{page_node, recs, traced, files, recs-IsOwned, recs-HasRoom, recs-IsReady}

insert_rec-Inserted_example :
    (t : Recs) × (insert_rec false files.open_files 10 8202 600 3 recs ≡ ok (tt, t))
    × Inserted (addr2page_num 8202) (new_rec 10 8202 600 3) recs t
insert_rec-Inserted_example =
    insert_rec-Inserted files.open_files 10 8202 600 3 recs recs-IsOwned recs-HasRoom
      (λ e. recs-IsReady)

traced-IsBounded : IsBounded traced.recs
traced-IsBounded = (tt, omega arith, tt)

insert_rec-Ends_example :
    Ends IsBounded (insert_rec true files.open_files 10 8202 600 3 traced.recs)
insert_rec-Ends_example =
    insert_rec-Ends true files.open_files 10 8202 600 3 traced.recs traced-IsBounded

reclaim_special_rec_tree_node-Ends_example :
    Ends IsBounded (reclaim_special_rec_tree_node files.open_files page_node traced.recs)
reclaim_special_rec_tree_node-Ends_example =
    reclaim_special_rec_tree_node-Ends files.open_files page_node traced.recs (omega arith)
      traced-IsBounded
