-- ===== src/TracedCopy/Bounded.antt =====
-- The counters of the nodes during `ts_memcpy_traced`.
use cidl.Base.{
  ℕ, zero, suc, ◌+◌, ◌-◌, ◌≤◌, ◌≡◌, Bool, true, false, List, [], ◌∷◌, Option, none, some, arith, ap,
  ◌==◌, if◌then◌else◌, sym, ◌∙◌, Ends-run_if, Ends-and_then, Keeps, Keeps-and_then, Ends-Keeps,
  Ends-or_exit, or_exit, segfault, Option-cases, Bool-cases, inl, inr, reverse,
}
use cidl.Addr.{Ptr, addr2page_offset}
use cidl.Mem.{mem_rec_per_entry}
use cidl.SearchTree.All.{All-tfind}
use cidl.Rec.{RecBlockEntry, RecTreeNode, Recs, Store, rec_compare, find_node, OpenFiles}
use cidl.Rec.Reclaim.Compact.{IsBounded, modified-IsBounded}
use cidl.Rec.Insert.{insert_rec}
use cidl.Rec.Insert.Terminates.{insert_rec-Ends}
use cidl.TracedCopy.{
  copy_recs, is_from, record_before, seek_rec, seek_entry, uplimit_of, prev_of, copy_entries,
  copy_from, copy_first, copy_node, copy_page, copy_pages, truncate_at,
}

seek_rec_bounds :
    (st : Store) (arr : Ptr) (offset left i idx : ℕ)
    → seek_rec st arr offset left i ≡ some idx
    → idx ≤ i + left
unfolding seek_rec
seek_rec_bounds st arr offset zero i idx e = absurd (ground (arith, e))
seek_rec_bounds st arr offset (suc left) i idx e =
    ground (arith, e, seek_rec_bounds st arr offset left (i + 1) idx)

seek_entry_bounds :
    (st : Store) (n : RecTreeNode) (last : Ptr) (offset uplimit : ℕ) (es : List RecBlockEntry)
    (e : RecBlockEntry) (u : ℕ)
    → n.mem_rec_idx ≤ 38
    → uplimit ≤ 38
    → seek_entry st n last offset uplimit es ≡ some (e, u)
    → u ≤ 38
unfolding seek_entry
seek_entry_bounds st n last offset uplimit [] e u h k q = absurd (ground (arith, q))
seek_entry_bounds st n last offset uplimit (x ∷ es) e u h k q =
    let limit = if n.rec_mod_entry == last then n.mem_rec_idx else uplimit in
    let le : limit ≤ 38 = ground arith in
    let by_test : Bool → Option (RecBlockEntry × ℕ) =
      λ b. elim b [ true ↦ some (x, limit) | false ↦ seek_entry st n last offset limit es ] in
    elim (Bool-cases (is_from offset (record_before st x.rec_arr limit))) [
      | inl here ↦ let same : by_test true ≡ some (e, u) = sym (ap by_test here) ∙ q in ground arith
      | inr there ↦
          seek_entry_bounds st n last offset limit es e u h le (sym (ap by_test there) ∙ q)
    ]

module _ (delete_treenode : Bool) (open_files : OpenFiles) (dest src : Ptr) where
  copy_recs-Keeps :
      (start left : ℕ) (arr : Ptr) (idx : ℕ) (s : Recs)
      → IsBounded s
      → Keeps IsBounded (copy_recs delete_treenode open_files dest src start left arr idx s)
  unfolding copy_recs
  copy_recs-Keeps start zero arr idx s v = v
  copy_recs-Keeps start (suc left) arr idx s v =
      Keeps-and_then IsBounded IsBounded (insert_rec delete_treenode open_files _ _ _ _ s) _
        (Ends-Keeps IsBounded _ (insert_rec-Ends delete_treenode open_files _ _ _ _ s v))
        (λ _ t w. copy_recs-Keeps start left arr (idx + 1) t w)

  copy_entries-Keeps :
      (start fuel : ℕ) (last : Ptr) (uplimit : ℕ) (o : Option RecBlockEntry) (s : Recs)
      → IsBounded s
      → Keeps IsBounded
          (copy_entries delete_treenode open_files dest src start fuel last uplimit o s)
  unfolding copy_entries
  copy_entries-Keeps start zero last uplimit none s v = v
  copy_entries-Keeps start (suc fuel) last uplimit none s v = v
  copy_entries-Keeps start zero last uplimit (some e) s v = tt
  copy_entries-Keeps start (suc fuel) last uplimit (some e) s v =
      Keeps-and_then IsBounded IsBounded
        (uplimit_of delete_treenode open_files dest src start last uplimit e.addr s) _
        (Ends-Keeps IsBounded _ (
          Ends-run_if IsBounded (e.addr == last) _ _ s
            (Ends-and_then IsBounded IsBounded (or_exit (find_node start s) segfault s) _
              (Ends-or_exit IsBounded (find_node start s) segfault s v) (λ _ t w. w))
            v))
        (λ u t w.
          Keeps-and_then IsBounded IsBounded
            (copy_recs delete_treenode open_files dest src start u e.rec_arr 0 t) _
            (copy_recs-Keeps start u e.rec_arr 0 t w)
            (λ _ t' w'. copy_entries-Keeps start fuel last u (prev_of start e.addr t') t' w'))

  copy_from-Keeps :
      (start fuel : ℕ) (last : Ptr) (uplimit idx : ℕ) (e : RecBlockEntry) (s : Recs)
      → IsBounded s
      → Keeps IsBounded
          (copy_from delete_treenode open_files dest src start fuel last uplimit idx e s)
  unfolding copy_from
  copy_from-Keeps start fuel last uplimit idx e s v =
      Keeps-and_then IsBounded IsBounded
        (copy_recs delete_treenode open_files dest src start (uplimit - idx) e.rec_arr idx s) _
        (copy_recs-Keeps start (uplimit - idx) e.rec_arr idx s v)
        (λ _ t w. copy_entries-Keeps start fuel last uplimit (prev_of start e.addr t) t w)

  copy_first-Keeps :
      (start fuel : ℕ) (last : Ptr) (e : RecBlockEntry) (uplimit : ℕ) (s : Recs)
      → uplimit ≤ 38
      → IsBounded s
      → Keeps IsBounded
          (copy_first delete_treenode open_files dest src start fuel last (e, uplimit) s)
  unfolding copy_first
  copy_first-Keeps start fuel last e uplimit s h v =
      let offset = addr2page_offset src in
      elim (Option-cases (seek_rec s.store e.rec_arr offset uplimit 0)) [
        | inl none_found ↦
            rw (Keeps, none_found) (copy_from-Keeps start fuel last uplimit uplimit e s v)
        | inr (idx, found) ↦
            let le : idx ≤ 38 =
              omega (arith, seek_rec_bounds s.store e.rec_arr offset uplimit 0 idx found, h) in
            rw (Keeps, found)
              (copy_from-Keeps start fuel last uplimit idx e (truncate_at start e idx s) (
                modified-IsBounded start
                  (λ n. record n { rec_mod_entry = e.addr; mem_rec_idx = idx }) s (λ n _. le) v))
      ]

  copy_node-Keeps :
      (first start fuel : ℕ) (n : RecTreeNode) (es : List RecBlockEntry) (s : Recs)
      → n.mem_rec_idx ≤ 38
      → IsBounded s
      → Keeps IsBounded (copy_node delete_treenode open_files dest src first start fuel n es s)
  unfolding copy_node
  copy_node-Keeps first start fuel n [] s h v = tt
  copy_node-Keeps first start fuel n (e ∷ es) s h v = elim (Bool-cases (start == first)) [
    | inr other ↦
        rw (Keeps, other) (copy_from-Keeps start fuel n.rec_mod_entry n.mem_rec_idx 0 e s v)
    | inl same ↦
        let found =
          seek_entry s.store n n.rec_mod_entry (addr2page_offset src) mem_rec_per_entry (e ∷ es) in
        elim (Option-cases found) [
          | inl q ↦ rw (Keeps, same, q) v
          | inr ((x, u), q) ↦
              rw (Keeps, same, q)
                (copy_first-Keeps start fuel n.rec_mod_entry x u s
                  (seek_entry_bounds s.store n n.rec_mod_entry (addr2page_offset src) 38 (e ∷ es) x
                    u h (omega arith) q)
                  v)
        ]
  ]

  copy_page-Keeps :
      (first start fuel : ℕ) (s : Recs)
      → IsBounded s
      → Keeps IsBounded (copy_page delete_treenode open_files dest src first start fuel s)
  unfolding copy_page
  copy_page-Keeps first start fuel s v = elim (Option-cases (find_node start s)) [
    | inl absent ↦ rw (Keeps, absent) v
    | inr (n, found) ↦
        rw (Keeps, found)
          (copy_node-Keeps first start fuel n (reverse n.list_head) s
            (All-tfind (λ m. m.mem_rec_idx ≤ 38) (rec_compare start) s.tree n v found) v)
  ]

  pub copy_pages-Keeps :
      (first fuel left start : ℕ) (s : Recs)
      → IsBounded s
      → Keeps IsBounded (copy_pages delete_treenode open_files dest src first fuel left start s)
  unfolding copy_pages
  copy_pages-Keeps first fuel zero start s v = v
  copy_pages-Keeps first fuel (suc left) start s v =
      Keeps-and_then IsBounded IsBounded
        (copy_page delete_treenode open_files dest src first start fuel s) _
        (copy_page-Keeps first start fuel s v)
        (λ _ t w. copy_pages-Keeps first fuel left (start + 1) t w)
