-- ===== src/Rec/Insert/Terminates.antt =====
-- The end of `addTreeNode`, `writeRec` and `insertRec`, in both builds.
use cidl.Base.{
  ℕ, ◌+◌, ◌≤◌, Bool, true, false, ◌&&◌, List, [], ◌∷◌, none, some, arith, ltb, ◌==◌, if◌then◌else◌,
  null, segfault, fatal, or_exit, assert, exit, pure, Ends, Ends-and_then, Ends-or_exit,
  Ends-assert, Ends-run_if, Bool-cases, Option-cases, inl, inr, ltb→lt,
}
use cidl.Addr.{Ptr, addr2page_num}
use cidl.Mem.{
  mem_rec_per_entry, allocate_rec_tree_node, allocate_tail_head, allocate_rec_block_entry,
  allocate_mem_rec_arr, withdraw_mem_rec_arr, withdraw_rec_block_entry,
}
use cidl.Mem.Returns.{
  allocate_rec_tree_node-Returns, allocate_tail_head-Returns, allocate_rec_block_entry-Returns,
  allocate_mem_rec_arr-Returns, withdraw_mem_rec_arr-Returns, withdraw_rec_block_entry-Returns,
}
use cidl.SearchTree.All.{All-tsearch}
use cidl.Rec.{RecBlockEntry, RecTreeNode, Recs, rec_compare, find_node, modify_node, OpenFiles}
use cidl.Rec.Reclaim.{rec_tree_node_grabage_reclaim}
use cidl.Rec.Reclaim.Compact.{IsBounded, modified-IsBounded}
use cidl.Rec.Reclaim.Terminates.{on_mem-Ends, rec_tree_node_grabage_reclaim-Ends}
use cidl.Rec.Insert.{
  new_node, runs_low, add_tree_node, find_and_add_rec_tree_node, read_last_idx, write_last_idx,
  write_rec, drop_all_but_last, set_last_rec, arr_of, restarts, delete_records, insert_rec,
  first_of_list,
}

add_tree_node-Ends :
    (open_files : OpenFiles) (page : ℕ) (s : Recs)
    → IsBounded s
    → Ends IsBounded (add_tree_node open_files page s)
unfolding add_tree_node
add_tree_node-Ends open_files page s v =
    Ends-and_then IsBounded IsBounded
      ((if runs_low s then rec_tree_node_grabage_reclaim open_files else pure tt) s) _
      (Ends-run_if IsBounded (runs_low s) (rec_tree_node_grabage_reclaim open_files) (pure tt) s
        (rec_tree_node_grabage_reclaim-Ends open_files s v) v)
      (λ _ s₁ v₁.
        on_mem-Ends allocate_rec_tree_node _ s₁ v₁ (allocate_rec_tree_node-Returns s₁.mem)
          (λ addr s₂ v₂.
            Ends-and_then IsBounded IsBounded (assert (if addr == null then false else true) s₂) _
              (Ends-assert IsBounded (if addr == null then false else true) s₂ v₂)
              (λ _ s₃ v₃.
                on_mem-Ends allocate_tail_head _ s₃ v₃ (allocate_tail_head-Returns s₃.mem)
                  (λ head s₄ v₄.
                    on_mem-Ends allocate_rec_block_entry _ s₄ v₄
                      (allocate_rec_block_entry-Returns s₄.mem)
                      (λ ent s₅ v₅.
                        on_mem-Ends allocate_mem_rec_arr _ s₅ v₅
                          (allocate_mem_rec_arr-Returns s₅.mem)
                          (λ arr s₆ v₆.
                            All-tsearch (λ n. n.mem_rec_idx ≤ 38) (rec_compare page)
                              (new_node addr page head ent arr) s₆.tree v₆ (omega arith)))))))

set_last_rec-Ends :
    (page : ℕ) (n : RecTreeNode) (s : Recs) → IsBounded s → Ends IsBounded (set_last_rec page n s)
unfolding set_last_rec
set_last_rec-Ends page n s v =
    Ends-and_then IsBounded IsBounded (or_exit (arr_of n.rec_mod_entry n.list_head) segfault s) _
      (Ends-or_exit IsBounded (arr_of n.rec_mod_entry n.list_head) segfault s v) (λ _ t w. w)

write_last_idx-IsBounded :
    (i : ℕ) (s : Recs) → i ≤ 38 → IsBounded s → IsBounded (write_last_idx i s)
write_last_idx-IsBounded i s h v =
    modified-IsBounded s.last_rec.last_idx (λ n. record n { mem_rec_idx = i }) s (λ n _. h) v

read_last_idx-Ends : (s : Recs) → IsBounded s → Ends IsBounded (read_last_idx s)
read_last_idx-Ends s v =
    Ends-and_then IsBounded IsBounded (or_exit (find_node s.last_rec.last_idx s) segfault s) _
      (Ends-or_exit IsBounded (find_node s.last_rec.last_idx s) segfault s v) (λ _ t w. w)

drop_all_but_last-Ends :
    (es : List RecBlockEntry) (s : Recs) → IsBounded s → Ends IsBounded (drop_all_but_last es s)
unfolding drop_all_but_last
drop_all_but_last-Ends [] s v = v
drop_all_but_last-Ends (e ∷ []) s v = v
drop_all_but_last-Ends (e ∷ e' ∷ es) s v =
    on_mem-Ends (withdraw_mem_rec_arr e.rec_arr) _ s v
      (withdraw_mem_rec_arr-Returns s.mem e.rec_arr)
      (λ _ s₁ v₁.
        on_mem-Ends (withdraw_rec_block_entry e.addr) _ s₁ v₁
          (withdraw_rec_block_entry-Returns s₁.mem e.addr)
          (λ _ s₂ v₂. drop_all_but_last-Ends (e' ∷ es) s₂ v₂))

write_rec-Ends :
    (file_offset : ℕ) (dest : Ptr) (page : ℕ) (file_name : Ptr) (fd : ℕ) (s : Recs)
    → IsBounded s
    → Ends IsBounded (write_rec file_offset dest page file_name fd s)
unfolding write_rec
write_rec-Ends file_offset dest page file_name fd s v =
    Ends-and_then IsBounded IsBounded (read_last_idx s) _ (read_last_idx-Ends s v) (λ idx s₁ v₁.
      elim (Bool-cases (ltb idx 38)) [
        | inl small ↦ rw small (
            modified-IsBounded s₁.last_rec.last_idx (λ n. record n { mem_rec_idx = idx + 1 }) s₁
              (λ n _. omega (arith, ltb→lt idx 38 small)) v₁)
        | inr full ↦ rw full (
            Ends-and_then IsBounded IsBounded (assert (has_node page s₁) s₁) _
              (Ends-assert IsBounded (has_node page s₁) s₁ v₁)
              (λ _ s₂ v₂.
                on_mem-Ends allocate_mem_rec_arr _ s₂ v₂ (allocate_mem_rec_arr-Returns s₂.mem)
                  (λ arr s₃ v₃.
                    on_mem-Ends allocate_rec_block_entry _ s₃ v₃
                      (allocate_rec_block_entry-Returns s₃.mem)
                      (λ ent s₄ v₄.
                        modified-IsBounded s₄.last_rec.last_idx (λ n. record n { mem_rec_idx = 1 })
                          (modify_node page
                            (λ n. record n {
                              list_head = record { addr = ent; rec_arr = arr } ∷ n.list_head;
                              rec_mod_entry = ent;
                            })
                            s₄)
                          (λ n _. omega arith) (modified-IsBounded page _ s₄ (λ n h. h) v₄)))))
      ])
  where
    has_node : ℕ → Recs → Bool
    has_node page s = elim (find_node page s) [ none ↦ false | some _ ↦ true ]

delete_records-Ends :
    (page : ℕ) (n : RecTreeNode) (s : Recs) → IsBounded s → Ends IsBounded (delete_records page n s)
unfolding delete_records
delete_records-Ends page n s v =
    Ends-and_then IsBounded IsBounded (drop_all_but_last n.list_head s) _
      (drop_all_but_last-Ends n.list_head s v)
      (λ left s₁ v₁.
        Ends-and_then IsBounded IsBounded (or_exit (first_of_list left) segfault s₁) _
          (Ends-or_exit IsBounded (first_of_list left) segfault s₁ v₁)
          (λ first s₂ v₂.
            modified-IsBounded s₂.last_rec.last_idx (λ m. record m { mem_rec_idx = 0 })
              (modify_node page (λ m. record m { list_head = left; rec_mod_entry = first.addr }) s₂)
              (λ m _. omega arith) (modified-IsBounded page _ s₂ (λ m h. h) v₂)))

-- If no node's counter is above the length of an array, then `insertRec`, of either build and from
-- whatever state of the pools, ends: it never runs out of fuel, and if it returns, no counter is above
-- that length.
pub insert_rec-Ends :
    (delete_treenode : Bool) (open_files : OpenFiles) (file_offset : ℕ) (dest : Ptr)
    (file_name : Ptr) (fd : ℕ) (s : Recs)
    → IsBounded s
    → Ends IsBounded (insert_rec delete_treenode open_files file_offset dest file_name fd s)
unfolding insert_rec
insert_rec-Ends delete_treenode open_files file_offset dest file_name fd s v =
    let page = addr2page_num dest in
    elim (Option-cases (find_node page s)) [
      | inr (n, found) ↦
          rw (Ends, found)
            (Ends-and_then IsBounded IsBounded (set_last_rec page n s) _
              (set_last_rec-Ends page n s v)
              (λ _ s₁ v₁.
                Ends-and_then IsBounded IsBounded
                  ((if delete_treenode && restarts s₁ n dest
                      then delete_records page n
                      else pure tt)
                    s₁)
                  _
                  (Ends-run_if IsBounded (delete_treenode && restarts s₁ n dest)
                    (delete_records page n) (pure tt) s₁ (delete_records-Ends page n s₁ v₁) v₁)
                  (λ _ s₂ v₂. write_rec-Ends file_offset dest page file_name fd s₂ v₂)))
      | inl absent ↦
          rw (Ends, absent)
            (Ends-and_then IsBounded IsBounded (add_tree_node open_files page s) _
              (add_tree_node-Ends open_files page s v)
              (λ n s₁ v₁.
                Ends-and_then IsBounded IsBounded (set_last_rec page n s₁) _
                  (set_last_rec-Ends page n s₁ v₁)
                  (λ _ s₂ v₂.
                    Ends-and_then IsBounded IsBounded (read_last_idx s₂) _
                      (read_last_idx-Ends s₂ v₂)
                      (λ idx s₃ v₃.
                        Ends-and_then IsBounded IsBounded
                          ((if ltb mem_rec_per_entry idx then (λ s. exit fatal) else pure tt) s₃) _
                          (Ends-run_if IsBounded (ltb mem_rec_per_entry idx) (λ s. exit fatal)
                            (pure tt) s₃ tt v₃)
                          (λ _ s₄ v₄. write_rec-Ends file_offset dest page file_name fd s₄ v₄)))))
    ]

-- `findAndAddRecTreeNode` ends, too.
pub find_and_add_rec_tree_node-Ends :
    (open_files : OpenFiles) (page : ℕ) (s : Recs)
    → IsBounded s
    → Ends IsBounded (find_and_add_rec_tree_node open_files page s)
unfolding find_and_add_rec_tree_node
find_and_add_rec_tree_node-Ends open_files page s v = elim (Option-cases (find_node page s)) [
  | inl absent ↦
      rw (Ends, absent)
        (Ends-and_then IsBounded IsBounded (add_tree_node open_files page s) _
          (add_tree_node-Ends open_files page s v) (λ _ t w. w))
  | inr (n, found) ↦ rw (Ends, found) v
]
