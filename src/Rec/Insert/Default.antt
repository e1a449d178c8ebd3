-- ===== src/Rec/Insert/Default.antt =====
-- `insertRec` of the build with DELETE_TREENODE, which is the default, in both of its cases.
use cidl.Base.{
  ℕ, ◌-◌, ◌≡◌, ◌∙◌, sym, Bool, true, false, ◌&&◌, ltb, leb_short, ◌==◌, if◌then◌else◌, none, some,
  List, [], ◌∷◌, ◌++◌, ok, arith, Option-cases, Bool-cases, inl, inr, subst,
}
use cidl.Addr.{Ptr, addr2page_num, addr2page_offset}
use cidl.Rec.{MemRec, RecTreeNode, Recs, OpenFiles, find_node}
use cidl.Rec.View.{records}
use cidl.Rec.Owned.{IsOwned, IsNode, HasRoom}
use cidl.Rec.Insert.{insert_rec, arr_of}
use cidl.Rec.Insert.State.{new_rec}
use cidl.Rec.Insert.Inserted.{IsReady, Inserted}
use cidl.Rec.Insert.Continues.{insert_rec-continued}
use cidl.Rec.Insert.Restarts.{Restarted, insert_rec-Restarted}

-- Whether the last record in the current array of the destination's page is not below the destination.
abbrev pub falls_back : Ptr → Recs → Bool
falls_back dest s = elim (find_node (addr2page_num dest) s) [
  | none ↦ false
  | some n ↦ elim (arr_of n.rec_mod_entry n.list_head) [
    | none ↦ false
    | some arr ↦
        ltb 0 n.mem_rec_idx
        && leb_short (addr2page_offset dest) (s.store arr (n.mem_rec_idx - 1)).page_offset
  ]
]

-- The record of a copy stands behind the records of its page, which are all dropped first if the copy
-- falls back. The other pages are as they were, and the invariant holds again.
pub record Placed (dest : Ptr) (value : MemRec) (s t : Recs) : Type 0 where
  pub places :
      (q : ℕ)
      → records t q ≡ (
          if addr2page_num dest == q
          then (if falls_back dest s then [] else records s q) ++ value ∷ []
          else records s q)
  pub ents : List Ptr
  pub arrays : List Ptr
  pub owned : IsOwned ents arrays t

module _ (open_files : OpenFiles) (file_offset : ℕ) (dest : Ptr) (file_name : Ptr) (fd : ℕ)
    (s : Recs) where
  abbrev page : ℕ
  page = addr2page_num dest

  abbrev value : MemRec
  value = new_rec file_offset dest file_name fd

  abbrev placed : Bool → ℕ → List MemRec
  placed b q = if page == q then (if b then [] else records s q) ++ value ∷ [] else records s q

  Inserted-Placed :
      (t : Recs) → falls_back dest s ≡ false → Inserted page value s t → Placed dest value s t
  Inserted-Placed t above w = record {
    places = λ q. subst (λ b. records t q ≡ placed b q) (sym above) (w.appends q);
    ents = w.ents;
    arrays = w.arrays;
    owned = w.owned;
  }

  Restarted-Placed :
      (t : Recs) (ents arrays : List Ptr)
      → falls_back dest s ≡ true
      → Restarted page value ents arrays s t
      → Placed dest value s t
  Restarted-Placed t ents arrays behind w = record {
    places = λ q. subst (λ b. records t q ≡ placed b q) (sym behind) (w.restarts q);
    ents = ents;
    arrays = arrays;
    owned = w.owned;
  }

  -- What the test reads.
  abbrev test : RecTreeNode → Ptr → Bool
  test n arr =
      ltb 0 n.mem_rec_idx
      && leb_short (addr2page_offset dest) (s.store arr (n.mem_rec_idx - 1)).page_offset

  falls_back-test :
      (n : RecTreeNode) (arr : Ptr)
      → find_node page s ≡ some n
      → arr_of n.rec_mod_entry n.list_head ≡ some arr
      → falls_back dest s ≡ test n arr
  falls_back-test n arr found e = ground (arith, found, e)

  untraced-above : find_node page s ≡ none → falls_back dest s ≡ false
  untraced-above absent = ground (arith, absent)

  current-first :
      {ents arrays : List Ptr} (n : RecTreeNode) (v : IsNode ents arrays n)
      → arr_of n.rec_mod_entry n.list_head ≡ some v.first.rec_arr
  current-first n v = ground (arith, v.queue, v.modified)

  -- While the tree owns its entries and arrays and the heap has room, `insertRec` of the build with
  -- DELETE_TREENODE returns; the new record stands behind those of its page, which are dropped first
  -- if the copy does not lie above the last record in the page's current array; the records of all
  -- other pages stay, and the invariant holds again. A page that is not traced yet also needs a free
  -- node and no reclamation due.
  pub insert_rec-Placed :
      {ents arrays : List Ptr}
      → IsOwned ents arrays s
      → HasRoom s
      → (find_node page s ≡ none → IsReady s)
      → (t : Recs) × (insert_rec true open_files file_offset dest file_name fd s ≡ ok (tt, t))
        × Placed dest value s t
  insert_rec-Placed {ents} {arrays} o room ready = elim (Bool-cases (falls_back dest s)) [
    | inr above ↦
        let (t, run, w) =
          insert_rec-continued open_files file_offset dest file_name fd s
            (λ n arr found e. sym (falls_back-test n arr found e) ∙ above) o room ready in
        (t, run, Inserted-Placed t above w)
    | inl behind ↦ elim (Option-cases (find_node page s)) [
      | inl absent ↦ absurd (ground (arith, behind, untraced-above absent))
      | inr (n, found) ↦
          let v = o.nodes page n found in
          let (t, run, w) =
            insert_rec-Restarted open_files file_offset dest file_name fd s n v.first v.older found
              v.queue o
              (sym (falls_back-test n v.first.rec_arr found (current-first n v)) ∙ behind) in
          (t, run, Restarted-Placed t _ _ behind w)
    ]
  ]
