-- ===== src/Rec/Reclaim/Open.antt =====
-- The reclamation while the files of all pages are open.
use cidl.Base.{
  ℕ, ◌<◌, ◌≡◌, refl, ap, sym, ◌∙◌, subst, false, ◌==◌, List, [], ◌∷◌, some, null, ok, arith,
  Bool-cases, inl, inr, ==→eq,
}
use cidl.Mem.{Mem, threshold_of}
use cidl.SearchTree.{elements}
use cidl.Rec.{RecBlockEntry, RecTreeNode, Recs, OpenFiles, find_node, modify_node, file_slot}
use cidl.Rec.Reclaim.{
  reclaim_visited, reclaim_special_rec_tree_node, rec_tree_node_grabage_reclaim, compact_fuel,
}
use cidl.SearchTree.Walk.{each}
use cidl.Rec.Reclaim.Walks.{walk-visits}
use cidl.Rec.Reclaim.OneLoop.{open-stays}
use cidl.Rec.Reclaim.OneArray.{compact-one, reclaim-compact, one-find}

-- The node is the one of its page, with its records in one array, and the file of the first is open.
pub record IsOpen (open_files : OpenFiles) (s : Recs) (n : RecTreeNode) : Type 0 where
  pub found : find_node n.page_num s ≡ some n
  pub e : RecBlockEntry
  pub queue : n.list_head ≡ e ∷ []
  pub modified : n.rec_mod_entry ≡ e.addr
  pub some_rec : 0 < n.mem_rec_idx
  pub slot : ℕ
  pub file : file_slot (s.store e.rec_arr 0).fd ≡ some slot
  pub live : (open_files slot == null) ≡ false

abbrev pub AreOpen : OpenFiles → Recs → List RecTreeNode → Type 0
AreOpen open_files s [] = Unit {0}
AreOpen open_files s (n ∷ ns) = IsOpen open_files s n × AreOpen open_files s ns

-- The same nodes are found, with the same records, and nothing has been taken or given back.
pub record IsSame (s t : Recs) : Type 0 where
  pub nodes : (q : ℕ) → find_node q t ≡ find_node q s
  pub store : t.store ≡ s.store
  pub mem : t.mem ≡ s.mem

IsOpen-same :
    (open_files : OpenFiles) (s t : Recs) (n : RecTreeNode)
    → IsSame s t
    → IsOpen open_files s n
    → IsOpen open_files t n
IsOpen-same open_files s t n same h = record {
  found = same.nodes n.page_num ∙ h.found;
  e = h.e;
  queue = h.queue;
  modified = h.modified;
  some_rec = h.some_rec;
  slot = h.slot;
  file = ap (λ st. file_slot (st h.e.rec_arr 0).fd) same.store ∙ h.file;
  live = h.live;
}

AreOpen-same :
    (open_files : OpenFiles) (s t : Recs) (ns : List RecTreeNode)
    → IsSame s t
    → AreOpen open_files s ns
    → AreOpen open_files t ns
AreOpen-same open_files s t [] same h = tt
AreOpen-same open_files s t (n ∷ ns) same h =
    (IsOpen-same open_files s t n same h.0, AreOpen-same open_files s t ns same h.1)

reclaim_special-IsSame :
    (open_files : OpenFiles) (s : Recs) (n : RecTreeNode)
    → IsOpen open_files s n
    → (t : Recs) × (reclaim_special_rec_tree_node open_files n s ≡ ok (tt, t)) × IsSame s t
reclaim_special-IsSame open_files s n h =
    let one : RecTreeNode → RecTreeNode = λ (k : RecTreeNode). record k { list_head = h.e ∷ [] } in
    (
      modify_node n.page_num one s,
      reclaim-compact open_files h.slot h.e n s h.found h.queue h.some_rec
          ∙ compact-one open_files h.slot h.e n s h.found h.queue s n
              (open-stays open_files n.page_num h.slot h.e n.mem_rec_idx (compact_fuel n) 0 n s
                h.file h.live h.found h.some_rec (omega arith))
              h.found h.modified h.queue,
      record {
        nodes = λ q.
            one-find open_files h.slot h.e n s h.found h.queue s q
            ∙ elim (Bool-cases (n.page_num == q)) [
              | inr other ↦ rw other refl
              | inl same ↦
                  let at : find_node q s ≡ some n =
                    subst (λ (k : ℕ). find_node k s ≡ some n) (==→eq _ _ same) h.found in
                  rw (same, at) (ap (λ l. some (record n { list_head = l })) (sym h.queue))
            ];
        store = refl;
        mem = refl;
      },
    )

reclaim_visited-IsSame :
    (open_files : OpenFiles) (s : Recs) (n : RecTreeNode)
    → IsOpen open_files s n
    → (t : Recs) × (reclaim_visited open_files n s ≡ ok (tt, t)) × IsSame s t
unfolding reclaim_visited
reclaim_visited-IsSame open_files s n h =
    let (t, run, same) = reclaim_special-IsSame open_files s n h in
    (t, ground (arith, h.found, run, same.nodes n.page_num), same)

each-IsSame :
    (open_files : OpenFiles) (ns : List RecTreeNode) (s : Recs)
    → AreOpen open_files s ns
    → (t : Recs) × (each (reclaim_visited open_files) ns s ≡ ok (tt, t)) × IsSame s t
each-IsSame open_files [] s h = (s, refl, record { nodes = λ q. refl; store = refl; mem = refl })
each-IsSame open_files (n ∷ ns) s h =
    let (t, run, same) = reclaim_visited-IsSame open_files s n h.0 in
    let (u, run', same') = each-IsSame open_files ns t (AreOpen-same open_files s t ns same h.1) in
    (
      u,
      rw run run',
      record {
        nodes = λ q. same'.nodes q ∙ same.nodes q;
        store = same'.store ∙ same.store;
        mem = same'.mem ∙ same.mem;
      },
    )

-- After the reclamation: the nodes and the records are as before, the pools too, and the threshold has
-- been set anew.
pub record Reclaimed (s t : Recs) : Type 0 where
  pub nodes : (q : ℕ) → find_node q t ≡ find_node q s
  pub store : t.store ≡ s.store
  pub mem :
      t.mem ≡ record (s.mem) { rec_tree_node_threshold = threshold_of s.mem.rec_tree_nodes.idx }

-- `recTreeNodeGrabageReclaim`, while every page has its records in one array, with at least one, whose
-- first is of an open file, returns and keeps all nodes, all records and the pools; it lowers the
-- threshold to its share of the free nodes.
pub rec_tree_node_grabage_reclaim-Reclaimed :
    (open_files : OpenFiles) (s : Recs)
    → AreOpen open_files s (elements s.tree)
    → (t : Recs) × (rec_tree_node_grabage_reclaim open_files s ≡ ok (tt, t)) × Reclaimed s t
unfolding rec_tree_node_grabage_reclaim
rec_tree_node_grabage_reclaim-Reclaimed open_files s h =
    let s' : Recs = record s { reclamed_rec_node = 0 } in
    let (t, run, same) = each-IsSame open_files (elements s.tree) s' (
      AreOpen-same open_files s s' (elements s.tree)
        (record { nodes = λ q. refl; store = refl; mem = refl }) h) in
    (
      record t {
        mem = record (t.mem) { rec_tree_node_threshold = threshold_of t.mem.rec_tree_nodes.idx };
      },
      rw (walk-visits open_files s.tree, run) refl,
      record {
        nodes = same.nodes;
        store = same.store;
        mem =
            ap
              (λ (m : Mem). record m {
                rec_tree_node_threshold = threshold_of m.rec_tree_nodes.idx;
              })
              same.mem;
      },
    )
