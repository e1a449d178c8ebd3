-- ===== src/Realloc/Stuck.antt =====
-- The `continue` of the loop over the entries in `ts_realloc`.
use cidl.Base.{
  ℕ, zero, suc, ◌+◌, ◌-◌, ◌≤◌, ◌≡◌, refl, ap, ◌∙◌, Bool, true, false, some, leb, ok, out_of_fuel,
  Run, and_then, ◌>>=◌, arith,
}
use cidl.Addr.{Ptr, addr2page_num}
use cidl.Rec.{RecBlockEntry, RecTreeNode, Recs, find_node}
use cidl.Rec.View.{count_in}
use cidl.Write.{rec_addr}
use cidl.State.{State}
use cidl.TracedCopy.{prev_of}
use cidl.Realloc.{move_limit, move_recs, move_entries, move_page, move_pages, ts_realloc, last_of}

module _ (delete_treenode : Bool) (ptr tail ret : Ptr) (bytes : Ptr → ℕ) (s : State)
    (node : RecTreeNode) (e : RecBlockEntry) where
  abbrev page : ℕ
  page = addr2page_num ptr

  limit_at_end :
      find_node page s.recs ≡ some node
      → move_limit delete_treenode s.files.open_files ptr tail ret page node.rec_mod_entry e s.recs
        ≡ ok (count_in node e, s.recs)
  unfolding count_in
  limit_at_end found = ground arith

  entries_stuck :
      (fuel : ℕ)
      → find_node page s.recs ≡ some node
      → leb tail (rec_addr page (s.recs.store e.rec_arr (count_in node e))) ≡ true
      → move_entries delete_treenode s.files.open_files ptr tail ret page fuel node.rec_mod_entry
          (some e)
          s.recs
        ≡ out_of_fuel
  unfolding move_entries
  entries_stuck zero found test = refl
  entries_stuck (suc fuel) found test =
      ap (λ x. and_then x by_limit) (limit_at_end found)
      ∙ ap (λ b. by_test (count_in node e) b s.recs) test
      ∙ entries_stuck fuel found test
    where
      by_test : ℕ → Bool → Run Recs (Unit {0})
      by_test k true =
          move_entries delete_treenode s.files.open_files ptr tail ret page fuel node.rec_mod_entry
            (some e)
      by_test k false =
          move_recs delete_treenode s.files.open_files ptr tail ret page k e.rec_arr 0 >>= λ _ t.
          move_entries delete_treenode s.files.open_files ptr tail ret page fuel node.rec_mod_entry
            (prev_of page e.addr t) t

      by_limit : ℕ → Run Recs (Unit {0})
      by_limit k t = by_test k (leb tail (rec_addr page (t.store e.rec_arr k))) t

  pages_stuck :
      (fuel left : ℕ)
      → find_node page s.recs ≡ some node
      → last_of node.list_head ≡ some e
      → leb tail (rec_addr page (s.recs.store e.rec_arr (count_in node e))) ≡ true
      → move_pages delete_treenode s.files.open_files ptr tail ret fuel (suc left) page s.recs
        ≡ out_of_fuel
  unfolding move_pages move_page
  pages_stuck fuel left found last test = ground (arith, entries_stuck fuel found test)

  -- `ts_realloc` of a block that does not end before the page of its start: if that page is traced, and
  -- the slot behind the last record of the oldest array (of a full array, what lies behind the array)
  -- holds an offset at or above the block's end, then the call never returns, in either build: no fuel
  -- is enough.
  pub ts_realloc-stuck :
      addr2page_num ptr ≤ addr2page_num tail
      → find_node page s.recs ≡ some node
      → last_of node.list_head ≡ some e
      → leb tail (rec_addr page (s.recs.store e.rec_arr (count_in node e))) ≡ true
      → (fuel : ℕ) → ts_realloc delete_treenode fuel ptr tail ret bytes s ≡ out_of_fuel
  unfolding ts_realloc
  ts_realloc-stuck le found last test fuel =
      let more : addr2page_num tail + 1 - page ≡ suc (addr2page_num tail - page) = omega arith in
      rw (more, pages_stuck fuel (addr2page_num tail - page) found last test) refl
