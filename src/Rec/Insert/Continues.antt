-- ===== src/Rec/Insert/Continues.antt =====
-- `insertRec` of the build with DELETE_TREENODE, for a copy above the last one on its page.
use cidl.Base.{
  ℕ, zero, suc, Bool, refl, sym, ap, [], ◌∷◌, ◌++◌, ◌-◌, ◌≡◌, ◌∙◌, true, false, ◌&&◌, ltb,
  leb_short, none, some, List, ok, arith, Option-cases, inl, inr,
}
use cidl.Addr.{Ptr, addr2page_num, addr2page_offset}
use cidl.Rec.{RecTreeNode, Recs, Store, OpenFiles, find_node}
use cidl.Rec.View.{records, records_of, entries_records, take_recs, count_in, count_in_current}
use cidl.Rec.Owned.{IsOwned, HasRoom}
use cidl.Rec.Insert.{insert_rec, set_last_rec, arr_of}
use cidl.Rec.Insert.State.{new_rec}
use cidl.Rec.Insert.Inserted.{IsReady, Inserted}
use cidl.Rec.Insert.Refines.{insert_rec-Inserted}

-- The copy to `dest` lies above the last record of its page, if the page has one.
abbrev pub Continues : Ptr → Recs → Type 0
Continues dest s =
    (n : RecTreeNode) (arr : Ptr)
    → find_node (addr2page_num dest) s ≡ some n
    → arr_of n.rec_mod_entry n.list_head ≡ some arr
    → (ltb 0 n.mem_rec_idx
        && leb_short (addr2page_offset dest) (s.store arr (n.mem_rec_idx - 1)).page_offset)
      ≡ false

module _ (open_files : OpenFiles) (file_offset : ℕ) (dest : Ptr) (file_name : Ptr) (fd : ℕ)
    (s : Recs) (above : Continues dest s) where
  insert_rec-same :
      insert_rec true open_files file_offset dest file_name fd s
      ≡ insert_rec false open_files file_offset dest file_name fd s
  unfolding insert_rec set_last_rec
  insert_rec-same = elim (Option-cases (find_node (addr2page_num dest) s)) [
    | inl absent ↦ ground (arith, absent)
    | inr (n, found) ↦ elim (Option-cases (arr_of n.rec_mod_entry n.list_head)) [
      | inl lost ↦ ground (arith, found, lost)
      | inr (arr, e) ↦ ground (arith, found, e, above n arr found e)
    ]
  ]

  -- While the tree owns its entries and arrays and the heap has room, `insertRec` of the build with
  -- DELETE_TREENODE also returns and appends the record to its page alone, if the destination lies
  -- above that of the page's last record. A page that is not traced yet also needs a free node and no
  -- reclamation due.
  pub insert_rec-continued :
      {ents arrays : List Ptr}
      → IsOwned ents arrays s
      → HasRoom s
      → (find_node (addr2page_num dest) s ≡ none → IsReady s)
      → (t : Recs) × (insert_rec true open_files file_offset dest file_name fd s ≡ ok (tt, t))
        × Inserted (addr2page_num dest) (new_rec file_offset dest file_name fd) s t
  insert_rec-continued o room ready =
      let (t, run, w) =
        insert_rec-Inserted open_files file_offset dest file_name fd s o room ready in
      (t, insert_rec-same ∙ run, w)

-- What a record list that is empty says of its parts.
append-nil_right : {A : Type 0} (xs ys : List A) → xs ++ ys ≡ [] → ys ≡ []
append-nil_right [] ys e = e
append-nil_right (x ∷ xs) ys e = cc

take_recs-none : (st : Store) (arr : Ptr) (i k : ℕ) → take_recs st arr i k ≡ [] → k ≡ 0
take_recs-none st arr i zero e = refl
take_recs-none st arr i (suc k) e = cc

-- A copy to a page without records does not fall back.
pub records-Continues :
    {ents arrays : List Ptr} (dest : Ptr) (s : Recs)
    → IsOwned ents arrays s
    → records s (addr2page_num dest) ≡ []
    → Continues dest s
records-Continues dest s o fresh n arr found e =
    let v = o.nodes (addr2page_num dest) n found in
    let none_here : entries_records s.store n (v.first ∷ v.older) ≡ [] =
      sym (ap (records_of s.store) found ∙ ap (entries_records s.store n) v.queue) ∙ fresh in
    let count : count_in n v.first ≡ 0 =
      take_recs-none s.store v.first.rec_arr 0 (count_in n v.first)
        (append-nil_right (entries_records s.store n v.older) _ none_here) in
    ground (arith, count, count_in_current n v.first v.modified)

-- `insertRec` of either build appends the record, if the copy does not fall back in the build with
-- DELETE_TREENODE.
pub insert_rec-appended :
    (delete_treenode : Bool) (open_files : OpenFiles) (file_offset : ℕ) (dest : Ptr)
    (file_name : Ptr) (fd : ℕ) (s : Recs) {ents arrays : List Ptr} (o : IsOwned ents arrays s)
    → HasRoom s
    → (find_node (addr2page_num dest) s ≡ none → IsReady s)
    → (delete_treenode ≡ true → Continues dest s)
    → (t : Recs) × (insert_rec delete_treenode open_files file_offset dest file_name fd s
        ≡ ok (tt, t))
      × Inserted (addr2page_num dest) (new_rec file_offset dest file_name fd) s t
insert_rec-appended false open_files file_offset dest file_name fd s o room ready above =
    insert_rec-Inserted open_files file_offset dest file_name fd s o room ready
insert_rec-appended true open_files file_offset dest file_name fd s o room ready above =
    insert_rec-continued open_files file_offset dest file_name fd s (above refl) o room ready
