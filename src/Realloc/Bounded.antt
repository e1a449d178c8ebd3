-- ===== src/Realloc/Bounded.antt =====
-- The counters of the nodes during `ts_realloc`.
use cidl.Base.{
  ℕ, zero, suc, ◌+◌, Bool, Option, none, some, ◌==◌, leb, Keeps, Keeps-and_then, Keeps-run_if,
  Keeps-or_exit, Ends-Keeps, Ends-run_if, Ends-and_then, Ends-or_exit, or_exit, segfault,
  Option-cases, Bool-cases, inl, inr,
}
use cidl.Addr.{Ptr}
use cidl.Rec.{RecBlockEntry, Recs, find_node, OpenFiles}
use cidl.Rec.Reclaim.Compact.{IsBounded}
use cidl.Rec.Insert.{insert_rec}
use cidl.Rec.Insert.Terminates.{insert_rec-Ends}
use cidl.Write.{rec_addr}
use cidl.TracedCopy.{prev_of}
use cidl.Realloc.{last_of, move_recs, move_limit, move_entries, move_page, move_pages}

module _ (delete_treenode : Bool) (open_files : OpenFiles) (ptr tail ret : Ptr) where
  move_recs-Keeps :
      (start left : ℕ) (arr : Ptr) (i : ℕ) (s : Recs)
      → IsBounded s
      → Keeps IsBounded (move_recs delete_treenode open_files ptr tail ret start left arr i s)
  unfolding move_recs
  move_recs-Keeps start zero arr i s v = v
  move_recs-Keeps start (suc left) arr i s v =
      Keeps-run_if IsBounded (leb (rec_addr start (s.store arr i)) ptr) _ _ s
        (move_recs-Keeps start left arr (i + 1) s v)
        (Keeps-run_if IsBounded (leb tail (rec_addr start (s.store arr i))) _ _ s v (
          Keeps-and_then IsBounded IsBounded (insert_rec delete_treenode open_files _ _ _ _ s) _
            (Ends-Keeps IsBounded _ (insert_rec-Ends delete_treenode open_files _ _ _ _ s v))
            (λ _ t w. move_recs-Keeps start left arr (i + 1) t w)))

  move_entries-Keeps :
      (start fuel : ℕ) (most : Ptr) (o : Option RecBlockEntry) (s : Recs)
      → IsBounded s
      → Keeps IsBounded (move_entries delete_treenode open_files ptr tail ret start fuel most o s)
  unfolding move_entries
  move_entries-Keeps start zero most none s v = v
  move_entries-Keeps start (suc fuel) most none s v = v
  move_entries-Keeps start zero most (some e) s v = tt
  move_entries-Keeps start (suc fuel) most (some e) s v =
      Keeps-and_then IsBounded IsBounded
        (move_limit delete_treenode open_files ptr tail ret start most e s) _
        (Ends-Keeps IsBounded _ (
          Ends-run_if IsBounded (e.addr == most) _ _ s
            (Ends-and_then IsBounded IsBounded (or_exit (find_node start s) segfault s) _
              (Ends-or_exit IsBounded (find_node start s) segfault s v) (λ _ t w. w))
            v))
        (λ u t w. elim (Bool-cases (leb tail (rec_addr start (t.store e.rec_arr u)))) [
          | inl stays ↦ rw (Keeps, stays) (move_entries-Keeps start fuel most (some e) t w)
          | inr goes ↦
              rw (Keeps, goes)
                (Keeps-and_then IsBounded IsBounded
                  (move_recs delete_treenode open_files ptr tail ret start u e.rec_arr 0 t) _
                  (move_recs-Keeps start u e.rec_arr 0 t w)
                  (λ _ t' w'. move_entries-Keeps start fuel most (prev_of start e.addr t') t' w'))
        ])

  move_page-Keeps :
      (start fuel : ℕ) (s : Recs)
      → IsBounded s
      → Keeps IsBounded (move_page delete_treenode open_files ptr tail ret start fuel s)
  unfolding move_page
  move_page-Keeps start fuel s v = elim (Option-cases (find_node start s)) [
    | inl absent ↦ rw (Keeps, absent) v
    | inr (n, found) ↦
        rw (Keeps, found)
          (Keeps-and_then IsBounded IsBounded (or_exit (last_of n.list_head) segfault s) _
            (Keeps-or_exit IsBounded (last_of n.list_head) segfault s v)
            (λ e t w. move_entries-Keeps start fuel n.rec_mod_entry (some e) t w))
  ]

  pub move_pages-Keeps :
      (fuel left start : ℕ) (s : Recs)
      → IsBounded s
      → Keeps IsBounded (move_pages delete_treenode open_files ptr tail ret fuel left start s)
  unfolding move_pages
  move_pages-Keeps fuel zero start s v = v
  move_pages-Keeps fuel (suc left) start s v =
      Keeps-and_then IsBounded IsBounded
        (move_page delete_treenode open_files ptr tail ret start fuel s) _
        (move_page-Keeps start fuel s v) (λ _ t w. move_pages-Keeps fuel left (start + 1) t w)
