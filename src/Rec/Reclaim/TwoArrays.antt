-- ===== src/Rec/Reclaim/TwoArrays.antt =====
-- What the reclamation does to a page whose records are in two arrays.
use cidl.Base.{
  length, ℕ, zero, suc, ◌+◌, ◌-◌, ◌≤◌, ◌<◌, ◌≡◌, ◌≢◌, refl, ap, sym, ◌∙◌, List, [], ◌∷◌, ◌++◌, some,
  ok, arith, ne→==, ==_self,
}
use cidl.Addr.{Ptr}
use cidl.Mem.{mem_rec_per_entry}
use cidl.SearchTree.Lookup.{tfind-modify}
use cidl.Rec.{
  MemRec, RecBlockEntry, RecTreeNode, Recs, Store, key_of, OpenFiles, find_node, modify_node,
}
use cidl.Rec.View.{records, records_of, take_recs, count_in, count_in_current}
use cidl.Rec.Reclaim.{
  compact_loop, compact_fuel, compact, drop_until, reclaim_list, reclaim_special_rec_tree_node,
}
use cidl.Rec.Reclaim.TwoLoop.{old_cursor, IsLive, old-stays, new-copies}

-- Records that agree from an index on.
take_recs-agree :
    (st st' : Store) (arr : Ptr) (i k : ℕ)
    → ((j : ℕ) → i ≤ j → st arr j ≡ st' arr j)
    → take_recs st arr i k ≡ take_recs st' arr i k
take_recs-agree st st' arr i zero h = refl
take_recs-agree st st' arr i (suc k) h =
    ground
      (arith, h i (omega arith), take_recs-agree st st' arr (i + 1) k (λ j le. h j (omega arith)))

module _ (open_files : OpenFiles) (old new : RecBlockEntry) (n : RecTreeNode) (s : Recs)
    (found : find_node n.page_num s ≡ some n) (queue : n.list_head ≡ new ∷ old ∷ [])
    (modified : n.rec_mod_entry ≡ new.addr) where
  abbrev two : RecTreeNode → RecTreeNode
  two k = record k { list_head = new ∷ old ∷ [] }

  reclaim-two :
      (t : Recs)
      → compact_loop open_files n.page_num
          (compact_fuel n)
          (some (old_cursor old new 0))
          (some (old_cursor old new 0))
          s
        ≡ ok (tt, t)
      → t.tree ≡ s.tree
      → reclaim_special_rec_tree_node open_files n s ≡ ok (tt, modify_node n.page_num two t)
  unfolding compact drop_until reclaim_special_rec_tree_node reclaim_list
  reclaim-two t run tree =
      let found' : find_node n.page_num t ≡ some n =
        ap (λ r. find_node n.page_num (record s { tree = r })) tree ∙ found in
      ground (arith, queue, modified, run, found')

  -- The records behind the oldest.
  abbrev rest : List MemRec
  rest =
      take_recs s.store old.rec_arr 1 (mem_rec_per_entry - 1)
      ++ take_recs s.store new.rec_arr 0 n.mem_rec_idx

  records-two :
      (st : Store)
      → old.addr ≢ new.addr
      → records_of st (some (two n))
        ≡ st old.rec_arr 0 ∷ take_recs st old.rec_arr 1 (mem_rec_per_entry - 1)
          ++ take_recs st new.rec_arr 0 n.mem_rec_idx
  unfolding count_in
  records-two st ne =
      let older : count_in (two n) old ≡ mem_rec_per_entry = ground (arith, modified, ne) in
      rw (older, count_in_current (two n) new modified) refl

  -- The reclamation of a page whose records are in two arrays, with the files of the first record of
  -- both open: it returns, but the oldest record of the page is lost; the first record of the newer
  -- array takes its place and stays where it was, too. All other records of the page stay.
  pub reclaim_special_rec_tree_node_two_arrays :
      old.addr ≢ new.addr
      → old.rec_arr ≢ new.rec_arr
      → 0 < n.mem_rec_idx
      → n.mem_rec_idx ≤ mem_rec_per_entry
      → IsLive open_files s.store old.rec_arr
      → IsLive open_files s.store new.rec_arr
      → (t : Recs) × (reclaim_special_rec_tree_node open_files n s ≡ ok (tt, t))
        × (records s n.page_num ≡ s.store old.rec_arr 0 ∷ rest)
        × (records t n.page_num ≡ s.store new.rec_arr 0 ∷ rest)
  reclaim_special_rec_tree_node_two_arrays ne_addr ne_arr some_rec full live_old live_new =
      let page = n.page_num in
      let m = n.mem_rec_idx in
      let len : length n.list_head ≡ 2 = ap length queue in
      let (t, run, tree, store) =
        new-copies open_files page old new m (0 + compact_fuel n - mem_rec_per_entry) 0 n s ne_arr
          live_new found refl some_rec full (omega (arith, len)) in
      let after : find_node page (modify_node page two t) ≡ some (two n) = ground (
        arith,
        tfind-modify key_of page page two t.tree (λ a. refl),
        ap (λ r. find_node page (record s { tree = r })) tree,
        found,
      ) in
      let oldest : t.store old.rec_arr 0 ≡ s.store new.rec_arr 0 =
        store old.rec_arr 0 ∙ rw (==_self old.rec_arr) refl in
      let olds = take_recs-agree t.store s.store old.rec_arr 1 (mem_rec_per_entry - 1) (λ j le.
        store old.rec_arr j ∙ rw (==_self old.rec_arr, ne→== j 0 (λ e. omega (arith, le))) refl) in
      let news = take_recs-agree t.store s.store new.rec_arr 0 m (λ j le.
        store new.rec_arr j ∙ rw (ne→== new.rec_arr old.rec_arr (λ e. ne_arr (sym e))) refl) in
      (
        modify_node page two t,
        reclaim-two t
            (old-stays open_files page old new m (compact_fuel n) 0 n s live_old found refl
                (omega arith) (omega (arith, len))
              ∙ run)
            tree,
        ap (records_of s.store) found
            ∙ ap (λ l. records_of s.store (some (record n { list_head = l }))) queue
            ∙ records-two s.store ne_addr,
        ap (records_of t.store) after
            ∙ records-two t.store ne_addr
            ∙ ap
                (λ (r : MemRec).
                  r ∷ take_recs t.store old.rec_arr 1 (mem_rec_per_entry - 1)
                  ++ take_recs t.store new.rec_arr 0 m)
                oldest
            ∙ ap (λ l. s.store new.rec_arr 0 ∷ l ++ take_recs t.store new.rec_arr 0 m) olds
            ∙ ap
                (λ l.
                  s.store new.rec_arr 0 ∷ take_recs s.store old.rec_arr 1 (mem_rec_per_entry - 1)
                  ++ l)
                news,
      )
