-- ===== src/Rec/Insert/Due.antt =====
-- The first record of a page while a reclamation is due, with the files of all pages open.
use cidl.Base.{ℕ, ◌-◌, ◌<◌, ◌≡◌, ◌≢◌, ◌∙◌, sym, ap, subst, Bool, true, List, none, null, ok, arith}
use cidl.Addr.{Ptr, addr2page_num}
use cidl.Pool.Grow.{IsValidGrowing, total_after}
use cidl.Mem.{Mem, tailhead_size, threshold_of}
use cidl.SearchTree.{elements}
use cidl.Rec.{Recs, OpenFiles, find_node}
use cidl.Rec.View.{records, records_of}
use cidl.Rec.Owned.{IsOwned, HasRoom}
use cidl.Rec.Reclaim.{rec_tree_node_grabage_reclaim}
use cidl.Rec.Reclaim.Open.{AreOpen, Reclaimed, rec_tree_node_grabage_reclaim-Reclaimed}
use cidl.Rec.Insert.{insert_rec, add_tree_node, runs_low}
use cidl.Rec.Insert.State.{new_rec}
use cidl.Rec.Insert.Inserted.{IsReady, Inserted}
use cidl.Rec.Insert.Continues.{insert_rec-appended}

-- What a new node needs when the nodes run low: a reclamation is due, a node is left, the next one is
-- not NULL, and the pool of queue heads is valid.
pub record IsDue (s : Recs) : Type 0 where
  pub heads : List Ptr
  pub low : runs_low s ≡ true
  pub left : 0 < s.mem.rec_tree_nodes.idx
  pub nonnull : s.mem.rec_tree_nodes.slots (s.mem.rec_tree_nodes.idx - 1) ≢ null
  pub head_pool : IsValidGrowing heads (record { pool = s.mem.tail_heads; arena = s.mem.arena })
  pub counted :
      0 < total_after tailhead_size (record { pool = s.mem.tail_heads; arena = s.mem.arena })

module _ (open_files : OpenFiles) (s s' : Recs) (w : Reclaimed s s') where
  abbrev reclaimed_mem : Mem
  reclaimed_mem = record (s.mem) { rec_tree_node_threshold = threshold_of s.mem.rec_tree_nodes.idx }

  -- What holds of the pools before holds after, since the threshold alone differs.
  by_mem : (P : Mem → Type 0) → P reclaimed_mem → P s'.mem
  by_mem P = subst P (sym w.mem)

  -- After the reclamation none is due.
  Reclaimed-IsReady : IsDue s → IsReady s'
  Reclaimed-IsReady d = record {
    heads = d.heads;
    high = ground (arith, w.mem, d.left);
    nonnull = by_mem (λ m. m.rec_tree_nodes.slots (m.rec_tree_nodes.idx - 1) ≢ null) d.nonnull;
    head_pool =
        by_mem (λ m. IsValidGrowing d.heads (record { pool = m.tail_heads; arena = m.arena }))
          d.head_pool;
    counted =
        by_mem
          (λ m. 0 < total_after tailhead_size (record { pool = m.tail_heads; arena = m.arena }))
          d.counted;
  }

  Reclaimed-IsOwned : {ents arrays : List Ptr} → IsOwned ents arrays s → IsOwned ents arrays s'
  Reclaimed-IsOwned {ents} {arrays} o = record {
    entry_pool =
        by_mem (λ m. IsValidGrowing ents (record { pool = m.rec_block_entries; arena = m.arena }))
          o.entry_pool;
    arr_pool =
        by_mem (λ m. IsValidGrowing arrays (record { pool = m.rec_arrs; arena = m.arena }))
          o.arr_pool;
    nodes = λ q n e. o.nodes q n (sym (w.nodes q) ∙ e);
    apart = λ p q n m e f. o.apart p q n m (sym (w.nodes p) ∙ e) (sym (w.nodes q) ∙ f);
    ents_apart = λ p q n m e f. o.ents_apart p q n m (sym (w.nodes p) ∙ e) (sym (w.nodes q) ∙ f);
  }

  Reclaimed-HasRoom : HasRoom s → HasRoom s'
  Reclaimed-HasRoom h = by_mem (λ m. HasRoom (record s { mem = m })) h

  Reclaimed-records : (q : ℕ) → records s' q ≡ records s q
  Reclaimed-records q =
      ap (records_of s'.store) (w.nodes q) ∙ ap (λ st. records_of st (find_node q s)) w.store

  insert_rec-reclaims :
      (delete_treenode : Bool) (file_offset : ℕ) (dest : Ptr) (file_name : Ptr) (fd : ℕ)
      → find_node (addr2page_num dest) s ≡ none
      → IsDue s
      → rec_tree_node_grabage_reclaim open_files s ≡ ok (tt, s')
      → insert_rec delete_treenode open_files file_offset dest file_name fd s
        ≡ insert_rec delete_treenode open_files file_offset dest file_name fd s'
  unfolding insert_rec add_tree_node
  insert_rec-reclaims delete_treenode file_offset dest file_name fd absent d run =
      ground (arith, absent, d.low, run, w.nodes (addr2page_num dest), (Reclaimed-IsReady d).high)

-- While the tree owns its entries and arrays, the heap has room, and every page has its records in one
-- array whose first is of an open file, `insertRec` of either build also appends the first record of a
-- page when the nodes run low: it reclaims first, which keeps all records, and returns as long as a
-- node is left.
pub insert_rec-due :
    (delete_treenode : Bool) (open_files : OpenFiles) (file_offset : ℕ) (dest : Ptr)
    (file_name : Ptr) (fd : ℕ) (s : Recs) {ents arrays : List Ptr}
    → IsOwned ents arrays s
    → HasRoom s
    → AreOpen open_files s (elements s.tree)
    → find_node (addr2page_num dest) s ≡ none
    → IsDue s
    → (t : Recs) × (insert_rec delete_treenode open_files file_offset dest file_name fd s
        ≡ ok (tt, t))
      × Inserted (addr2page_num dest) (new_rec file_offset dest file_name fd) s t
insert_rec-due delete_treenode open_files file_offset dest file_name fd s o room live absent d =
    let (s', run, w) = rec_tree_node_grabage_reclaim-Reclaimed open_files s live in
    let absent' : find_node (addr2page_num dest) s' ≡ none =
      w.nodes (addr2page_num dest) ∙ absent in
    let (t, run', v) =
      insert_rec-appended delete_treenode open_files file_offset dest file_name fd s'
        (Reclaimed-IsOwned open_files s s' w o) (Reclaimed-HasRoom open_files s s' w room)
        (λ e. Reclaimed-IsReady open_files s s' w d)
        (λ e n arr found. absurd (ground (arith, found, absent'))) in
    (
      t,
      insert_rec-reclaims open_files s s' w delete_treenode file_offset dest file_name fd absent d
            run
          ∙ run',
      record {
        appends = λ q. ground (arith, v.appends q, Reclaimed-records open_files s s' w q);
        ents = v.ents;
        arrays = v.arrays;
        owned = v.owned;
      },
    )
