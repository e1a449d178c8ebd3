-- ===== src/Listing/Pages.antt =====
-- What `listRecTreeNode` prints, and the abstract view of a page.
use mathlib.Core.List.{append_assoc, append-nil}
use cidl.Base.{
  ℕ, zero, suc, ◌+◌, ◌*◌, ◌≡◌, refl, ap, sym, ◌∙◌, List, [], ◌∷◌, ◌++◌, map, ok, arith, Option,
  Option-cases, inl, inr,
}
use cidl.Addr.{Ptr}
use cidl.Mem.{mem_rec_size}
use cidl.Rec.{MemRec, RecBlockEntry, RecTreeNode, Recs, Store, find_node}
use cidl.Rec.View.{records, records_of, entries_records, take_recs, count_in}
use cidl.Write.{rec_addr}
use cidl.Listing.{
  Line, title_line, array_line, rec_line, not_in_tree, list_null, Output, list_recs, list_entries,
  list_queue, list_rec_tree_node, tail_of,
}

-- What a line shows of a record.
pub record Shown : Type 0 where
  pub page_offset : ℕ
  pub file_offset : ℕ
  pub file_name : ℕ
  pub buf_addr : ℕ

abbrev pub shown : (page_num : ℕ) → MemRec → Shown
shown page_num r = record {
  page_offset = r.page_offset;
  file_offset = r.file_offset;
  file_name = r.file_name;
  buf_addr = rec_addr page_num r;
}

-- The records of a listing: those above its first line for an array, and those of the arrays, the
-- last array first.
abbrev pub split : List Line → List Shown × List Shown
split [] = ([], [])
split (rec_line page_offset file_offset addr file_name buf_addr ∷ lines) =
    let (above, arrays) = split lines in
    (
      record {
        page_offset = page_offset;
        file_offset = file_offset;
        file_name = file_name;
        buf_addr = buf_addr;
      }
          ∷ above,
      arrays,
    )
split (array_line tail ent ∷ lines) = let (above, arrays) = split lines in ([], arrays ++ above)
split (_ ∷ lines) = split lines

module _ (page_num : ℕ) (store : Store) (n : RecTreeNode) where
  abbrev rec_lines : Ptr → (i left : ℕ) → List Line
  rec_lines arr i zero = []
  rec_lines arr i (suc left) =
      let r = store arr i in
      rec_line r.page_offset r.file_offset (arr + mem_rec_size * i) r.file_name
        (rec_addr page_num r)
      ∷ rec_lines arr (i + 1) left

  abbrev entry_lines : List RecBlockEntry → List Line
  entry_lines [] = []
  entry_lines (e ∷ es) =
      array_line (tail_of n e) e.addr ∷ (rec_lines e.rec_arr 0 (tail_of n e) ++ entry_lines es)

  list_recs-lines :
      (arr : Ptr) (i left : ℕ) (out : Output)
      → list_recs page_num store arr i left out ≡ ok (tt, out ++ rec_lines arr i left)
  unfolding list_recs
  list_recs-lines arr i zero out = ap (λ o. ok (tt, o)) (sym (append-nil out))
  list_recs-lines arr i (suc left) out =
      list_recs-lines arr (i + 1) left _
      ∙ ap (λ o. ok (tt, o)) (append_assoc out _ (rec_lines arr (i + 1) left))

  list_entries-lines :
      (es : List RecBlockEntry) (out : Output)
      → list_entries page_num store n es out ≡ ok (tt, out ++ entry_lines es)
  unfolding list_entries
  list_entries-lines [] out = ap (λ o. ok (tt, o)) (sym (append-nil out))
  list_entries-lines (e ∷ es) out =
      let head = out ++ array_line (tail_of n e) e.addr ∷ [] in
      let recs = rec_lines e.rec_arr 0 (tail_of n e) in
      rw (list_recs-lines e.rec_arr 0 (tail_of n e) head) (
        list_entries-lines es (head ++ recs)
        ∙ ap (λ o. ok (tt, o))
            (append_assoc head recs (entry_lines es) ∙ append_assoc out _ (recs ++ entry_lines es)))

  split-rec_lines :
      (arr : Ptr) (i left : ℕ) (lines : List Line)
      → split (rec_lines arr i left ++ lines)
        ≡ (map (shown page_num) (take_recs store arr i left) ++ (split lines).0, (split lines).1)
  split-rec_lines arr i zero lines = refl
  split-rec_lines arr i (suc left) lines =
      ap (λ p. (shown page_num (store arr i) ∷ p.0, p.1)) (split-rec_lines arr (i + 1) left lines)

  tail_of-count_in : (e : RecBlockEntry) → tail_of n e ≡ count_in n e
  unfolding count_in
  tail_of-count_in e = ground arith

  map-append :
      (xs ys : List MemRec)
      → map (shown page_num) (xs ++ ys) ≡ map (shown page_num) xs ++ map (shown page_num) ys
  map-append [] ys = refl
  map-append (x ∷ xs) ys = ap (λ l. shown page_num x ∷ l) (map-append xs ys)

  split-entry_lines :
      (es : List RecBlockEntry)
      → split (entry_lines es) ≡ ([], map (shown page_num) (entries_records store n es))
  split-entry_lines [] = refl
  split-entry_lines (e ∷ es) =
      let older = entries_records store n es in
      let own = take_recs store e.rec_arr 0 (tail_of n e) in
      ap (λ p. ([], p.1 ++ p.0)) (split-rec_lines e.rec_arr 0 (tail_of n e) (entry_lines es))
      ∙ ap (λ p. ([], p.1 ++ (map (shown page_num) own ++ p.0))) (split-entry_lines es)
      ∙ ap (λ l. ([], map (shown page_num) older ++ l)) (append-nil (map (shown page_num) own))
      ∙ ap (λ l. ([], l)) (sym (map-append older own))
      ∙ ap (λ k. ([], map (shown page_num) (older ++ take_recs store e.rec_arr 0 k)))
          (tail_of-count_in e)

  list_queue-records :
      (l : List RecBlockEntry)
      → (lines : List Line) × (list_queue page_num store n l [] ≡ ok (tt, lines))
        × (split lines ≡ ([], map (shown page_num) (entries_records store n l)))
  unfolding list_queue
  list_queue-records [] = (list_null page_num ∷ [], refl, refl)
  list_queue-records (e ∷ es) = (
    title_line page_num ∷ entry_lines (e ∷ es),
    list_entries-lines (e ∷ es) (title_line page_num ∷ []),
    split-entry_lines (e ∷ es),
  )

-- `listRecTreeNode` returns for every page, and its lines show exactly the records of the abstract view of
-- the page, array by array from the last line for an array to the first; for a page without a node it
-- shows none.
pub list_rec_tree_node-records :
    (page_num : ℕ) (s : Recs)
    → (lines : List Line) × (list_rec_tree_node page_num s [] ≡ ok (tt, lines))
      × (split lines ≡ ([], map (shown page_num) (records s page_num)))
unfolding list_rec_tree_node
list_rec_tree_node-records page_num s =
    let view_of : Option RecTreeNode → List Shown × List Shown =
      λ o. ([], map (shown page_num) (records_of s.store o)) in
    elim (Option-cases (find_node page_num s)) [
      | inl absent ↦
          (not_in_tree page_num ∷ [], rw (absent, list_rec_tree_node) refl, ap view_of (sym absent))
      | inr (n, found) ↦
          let (lines, run, view) = list_queue-records page_num s.store n n.list_head in
          (lines, rw (found, list_rec_tree_node) run, view ∙ ap view_of (sym found))
    ]
