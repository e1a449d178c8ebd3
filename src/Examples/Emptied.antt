-- ===== src/Examples/Emptied.antt =====
-- A copy below the last record of a page with two arrays.
use cidl.Base.{leb_short, ℕ, ◌<◌, ◌≡◌, refl, sym, subst, true, [], ◌∷◌, some, none, ok, arith, ◌∙◌}
use cidl.Addr.{addr2page_num, addr2page_offset}
use cidl.Pool.{Pool}
use cidl.Pool.Valid.{IsValid}
use cidl.SearchTree.{empty, node, tfind}
use cidl.Rec.{Recs, RecTreeNode, find_node}
use cidl.Rec.Owned.{IsOwned, IsNode, HasRoom}
use cidl.Rec.Insert.{insert_rec}
use cidl.Rec.Insert.State.{new_rec}
use cidl.Rec.Insert.Inserted.{IsReady}
use cidl.Rec.Insert.Restarts.{Restarted, insert_rec-Restarted}
use cidl.Rec.Insert.Default.{falls_back, Placed, insert_rec-Placed}
use cidl.Examples.States.{page_node, files}
use cidl.Examples.Traced

-- The older array is full, and the newer has one record.
abbrev two_arrays : RecTreeNode
two_arrays = record page_node {
  list_head = record { addr = 3000; rec_arr = 4000 } ∷ record { addr = 3024; rec_arr = 4912 } ∷ [];
  rec_mod_entry = 3000;
}

abbrev recs : Recs
recs = record Traced.recs {
  tree = node empty two_arrays empty;
  mem = record (Traced.recs.mem) {
    rec_block_entries = record (Traced.recs.mem.rec_block_entries) { idx = 0 };
    rec_arrs = record (Traced.recs.mem.rec_arrs) { idx = 0 };
  };
}

found_page : (q : ℕ) (n : RecTreeNode) → find_node q recs ≡ some n → (q ≡ 2) × (two_arrays ≡ n)
unfolding tfind
found_page q n e = ground (arith, e)

all_used :
    (a b : ℕ) (p : Pool) → p.idx ≡ 0 → p.size ≡ 2 → a < b → b < 10000 → IsValid 10000 (a ∷ b ∷ []) p
all_used a b p idx size lt below = record {
  counted = omega arith;
  distinct = λ i j hi hj e. absurd (omega arith);
  apart = λ i hi. absurd (omega arith);
  below = λ i hi. absurd (omega arith);
  lent_distinct = (ground arith, (refl, tt));
  lent_below = (omega arith, (below, tt));
}

recs-IsNode : IsNode (3000 ∷ 3024 ∷ []) (4000 ∷ 4912 ∷ []) two_arrays
recs-IsNode = record {
  first = record { addr = 3000; rec_arr = 4000 };
  older = record { addr = 3024; rec_arr = 4912 } ∷ [];
  queue = refl;
  modified = refl;
  counter = omega arith;
  ents_distinct = (refl, (refl, tt));
  arrs_distinct = (refl, (refl, tt));
  ents_used = (refl, (refl, tt));
  arrs_used = (refl, (refl, tt));
}

recs-IsOwned : IsOwned (3000 ∷ 3024 ∷ []) (4000 ∷ 4912 ∷ []) recs
recs-IsOwned = record {
  entry_pool = record {
    valid = all_used 3000 3024 recs.mem.rec_block_entries refl refl (omega arith) (omega arith);
    nonempty = omega arith;
    used = omega arith;
  };
  arr_pool = record {
    valid = all_used 4000 4912 recs.mem.rec_arrs refl refl (omega arith) (omega arith);
    nonempty = omega arith;
    used = omega arith;
  };
  nodes = λ q n e.
      subst (IsNode (3000 ∷ 3024 ∷ []) (4000 ∷ 4912 ∷ [])) (found_page q n e).1 recs-IsNode;
  apart = λ p q n m e f ne. absurd (ne ((found_page p n e).0 ∙ sym (found_page q m f).0));
  ents_apart = λ p q n m e f ne. absurd (ne ((found_page p n e).0 ∙ sym (found_page q m f).0));
}

recs-HasRoom : HasRoom recs
recs-HasRoom = omega arith

traced_page : find_node (addr2page_num 8198) recs ≡ none → IsReady recs
unfolding addr2page_num tfind
traced_page e = absurd (ground (arith, e))

-- The copy to the offset 6 of the page falls back behind the record at the offset 10.
back : falls_back 8198 recs ≡ true
unfolding addr2page_num addr2page_offset tfind
back = refl

insert_rec-Placed_example :
    (t : Recs) × (insert_rec true files.open_files 40 8198 600 3 recs ≡ ok (tt, t))
    × Placed 8198 (new_rec 40 8198 600 3) recs t
insert_rec-Placed_example =
    insert_rec-Placed files.open_files 40 8198 600 3 recs recs-IsOwned recs-HasRoom traced_page

found : find_node (addr2page_num 8198) recs ≡ some two_arrays
unfolding addr2page_num tfind
found = refl

behind : leb_short (addr2page_offset 8198) (recs.store 4000 0).page_offset ≡ true
unfolding addr2page_offset
behind = refl

insert_rec-Restarted_example :
    (t : Recs) × (insert_rec true files.open_files 40 8198 600 3 recs ≡ ok (tt, t))
    × Restarted (addr2page_num 8198) (new_rec 40 8198 600 3) (3024 ∷ []) (4912 ∷ []) recs t
insert_rec-Restarted_example =
    insert_rec-Restarted files.open_files 40 8198 600 3 recs two_arrays
      (record { addr = 3000; rec_arr = 4000 }) (record { addr = 3024; rec_arr = 4912 } ∷ []) found
      refl recs-IsOwned behind
