-- ===== src/Rec/Reclaim/Terminates.antt =====
-- The end of the functions of tree.c that reclaim record nodes.
use cidl.Base.{
  subst, Option-cases, ◌||◌, suc, ◌+◌, ◌≤◌, ◌≡◌, ap, ◌==◌, List, [], ◌∷◌, reverse, length, arith,
  Run, segfault, null, sym, ◌∙◌, length-reverse, Ends, Ends-run_if, Ends-and_then, Ends-or_exit,
  or_exit, ◌>>=◌, List-cases, inl, inr,
}
use cidl.Addr.{Ptr}
use cidl.Mem.{
  Mem, withdraw_mem_rec_arr, withdraw_rec_block_entry, withdraw_tail_head, withdraw_rec_tree_node,
}
use cidl.Mem.Returns.{
  Returns, withdraw_mem_rec_arr-Returns, withdraw_rec_block_entry-Returns,
  withdraw_tail_head-Returns, withdraw_rec_tree_node-Returns,
}
use cidl.SearchTree.{elements}
use cidl.SearchTree.Walk.{walk, each, is_empty}
use cidl.SearchTree.All.{All-tdelete, All-tfind}
use cidl.Rec.{RecBlockEntry, RecTreeNode, Recs, rec_compare, find_node, OpenFiles, on_mem}
use cidl.Rec.Reclaim.{
  last_cursor, compact_fuel, compact_loop, compact, drop_until, delete_node, reclaim_list,
  reclaim_special_rec_tree_node, reclaim_visited, reclaim_rec_tree_node, has_node,
  rec_tree_node_grabage_reclaim,
}
use cidl.Rec.Reclaim.Walks.{walk-visits}
use cidl.Rec.Reclaim.Compact.{
  IsBounded, IsCursor, rounds, compact_loop-Ends, max_of-lt, modified-IsBounded,
}

abbrev Any : {S : Type 0} → S → Type 0
Any s = Unit {0}

-- What a pool does leaves the tree as it is.
pub on_mem-Ends :
    {A B : Type 0} (m : Run Mem A) (k : A → Run Recs B) (s : Recs)
    → IsBounded s
    → Returns m s.mem
    → ((a : A) (t : Recs) → IsBounded t → Ends IsBounded (k a t))
    → Ends IsBounded ((on_mem m >>= k) s)
on_mem-Ends m k s v r h =
    Ends-and_then IsBounded IsBounded (on_mem m s) k
      (Ends-and_then Any IsBounded (m s.mem) _ r (λ a t _. v)) h

drop_until-Ends :
    (keep : Ptr) (es : List RecBlockEntry) (s : Recs)
    → IsBounded s
    → Ends IsBounded (drop_until keep es s)
unfolding drop_until
drop_until-Ends keep [] s v = Ends-run_if IsBounded (keep == null) _ _ s v tt
drop_until-Ends keep (e ∷ es) s v = Ends-run_if IsBounded (e.addr == keep) _ _ s v (
    on_mem-Ends (withdraw_mem_rec_arr e.rec_arr) _ s v
      (withdraw_mem_rec_arr-Returns s.mem e.rec_arr)
      (λ _ s₁ v₁.
        on_mem-Ends (withdraw_rec_block_entry e.addr) _ s₁ v₁
          (withdraw_rec_block_entry-Returns s₁.mem e.addr)
          (λ _ s₂ v₂. drop_until-Ends keep es s₂ v₂)))

start-IsCursor :
    (n : RecTreeNode)
    → n.mem_rec_idx ≤ 38
    → (let c = last_cursor n.mem_rec_idx (reverse n.list_head) in
        IsCursor c × (rounds c ≤ compact_fuel n))
start-IsCursor n h = elim (List-cases (reverse n.list_head)) [
  | inl q ↦ rw q (tt, omega arith)
  | inr (e, es, q) ↦
      let k : suc (length es) ≡ length n.list_head =
        sym (ap length q) ∙ length-reverse n.list_head in
      rw q (
        (omega arith, max_of-lt es n.mem_rec_idx h),
        omega (arith, max_of-lt es n.mem_rec_idx h, k),
      )
]

compact-Ends :
    (open_files : OpenFiles) (n : RecTreeNode) (s : Recs)
    → n.mem_rec_idx ≤ 38
    → IsBounded s
    → Ends IsBounded (compact open_files n s)
unfolding compact
compact-Ends open_files n s h v =
    let start = last_cursor n.mem_rec_idx (reverse n.list_head) in
    let (w, fuel) = start-IsCursor n h in
    Ends-and_then IsBounded IsBounded
      (compact_loop open_files n.page_num (compact_fuel n) start start s) _
      (compact_loop-Ends open_files n.page_num (compact_fuel n) start start s v w w fuel)
      (λ _ s₁ v₁.
        Ends-and_then IsBounded IsBounded (or_exit (find_node n.page_num s₁) segfault s₁) _
          (Ends-or_exit IsBounded (find_node n.page_num s₁) segfault s₁ v₁)
          (λ m s₂ v₂.
            Ends-and_then IsBounded IsBounded (drop_until m.rec_mod_entry m.list_head s₂) _
              (drop_until-Ends m.rec_mod_entry m.list_head s₂ v₂)
              (λ left s₃ v₃.
                modified-IsBounded n.page_num (λ m. record m { list_head = left }) s₃ (λ m h. h)
                  v₃)))

delete_node-Ends :
    (n : RecTreeNode) (e : RecBlockEntry) (s : Recs)
    → IsBounded s
    → Ends IsBounded (delete_node n e s)
unfolding delete_node
delete_node-Ends n e s v =
    on_mem-Ends (withdraw_mem_rec_arr e.rec_arr) _
      (record s { reclamed_rec_node = s.reclamed_rec_node + 1 }) v
      (withdraw_mem_rec_arr-Returns s.mem e.rec_arr)
      (λ _ s₁ v₁.
        on_mem-Ends (withdraw_rec_block_entry e.addr) _ s₁ v₁
          (withdraw_rec_block_entry-Returns s₁.mem e.addr)
          (λ _ s₂ v₂.
            on_mem-Ends (withdraw_tail_head n.list_addr) _ s₂ v₂
              (withdraw_tail_head-Returns s₂.mem n.list_addr)
              (λ _ s₃ v₃.
                on_mem-Ends (withdraw_rec_tree_node n.addr) _ s₃ v₃
                  (withdraw_rec_tree_node-Returns s₃.mem n.addr)
                  (λ _ s₄ v₄.
                    All-tdelete (λ m. m.mem_rec_idx ≤ 38) (rec_compare n.page_num) s₄.tree v₄))))

reclaim_list-Ends :
    (open_files : OpenFiles) (n : RecTreeNode) (es : List RecBlockEntry) (s : Recs)
    → n.mem_rec_idx ≤ 38
    → IsBounded s
    → Ends IsBounded (reclaim_list open_files n es s)
unfolding reclaim_list
reclaim_list-Ends open_files n [] s h v = tt
reclaim_list-Ends open_files n (e ∷ []) s h v =
    Ends-run_if IsBounded (n.mem_rec_idx == 0) (delete_node n e) (compact open_files n) s
      (delete_node-Ends n e s v) (compact-Ends open_files n s h v)
reclaim_list-Ends open_files n (e ∷ e' ∷ es) s h v = compact-Ends open_files n s h v

-- The reclamation of one node whose counter is not above the length of an array, while no node's is,
-- ends, whichever files are open: the compaction of its records never runs out of its fuel, 38 rounds
-- for each entry of the queue and one for each record of the counter. No counter is above that length
-- afterwards. It may still end the process.
pub reclaim_special_rec_tree_node-Ends :
    (open_files : OpenFiles) (n : RecTreeNode) (s : Recs)
    → n.mem_rec_idx ≤ 38
    → IsBounded s
    → Ends IsBounded (reclaim_special_rec_tree_node open_files n s)
unfolding reclaim_special_rec_tree_node
reclaim_special_rec_tree_node-Ends open_files n s h v =
    reclaim_list-Ends open_files n n.list_head s h v

reclaim_visited-Ends :
    (open_files : OpenFiles) (n : RecTreeNode) (s : Recs)
    → IsBounded s
    → Ends IsBounded (reclaim_visited open_files n s)
unfolding reclaim_visited
reclaim_visited-Ends open_files n s v = elim (Option-cases (find_node n.page_num s)) [
  | inl gone ↦ rw gone tt
  | inr (live, found) ↦ rw found (
      Ends-and_then IsBounded IsBounded (reclaim_special_rec_tree_node open_files live s) _
        (reclaim_special_rec_tree_node-Ends open_files live s
          (All-tfind (λ m. m.mem_rec_idx ≤ 38) (rec_compare n.page_num) s.tree live v found) v)
        (λ _ t w. Ends-run_if IsBounded (has_node n.page_num t || is_empty t.tree) _ _ t w tt))
]

each-Ends :
    (open_files : OpenFiles) (ns : List RecTreeNode) (s : Recs)
    → IsBounded s
    → Ends IsBounded (each (reclaim_visited open_files) ns s)
each-Ends open_files [] s v = v
each-Ends open_files (n ∷ ns) s v =
    Ends-and_then IsBounded IsBounded (reclaim_visited open_files n s) _
      (reclaim_visited-Ends open_files n s v) (λ _ t w. each-Ends open_files ns t w)

-- If no node's counter is above the length of an array, then the reclamation of all nodes ends, and no
-- counter is above that length afterwards. It may still end the process.
pub rec_tree_node_grabage_reclaim-Ends :
    (open_files : OpenFiles) (s : Recs)
    → IsBounded s
    → Ends IsBounded (rec_tree_node_grabage_reclaim open_files s)
unfolding rec_tree_node_grabage_reclaim
rec_tree_node_grabage_reclaim-Ends open_files s v =
    let s' : Recs = record s { reclamed_rec_node = 0 } in
    Ends-and_then IsBounded IsBounded (walk (reclaim_rec_tree_node open_files) s.tree 0 s') _
      (subst (λ m. Ends IsBounded (m s')) (sym (walk-visits open_files s.tree))
        (each-Ends open_files (elements s.tree) s' v))
      (λ _ t w. w)
