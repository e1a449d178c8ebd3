-- ===== src/Rec/Reclaim/OneArray.antt =====
-- What the reclamation does to a page whose records are in one array.
use cidl.Base.{
  ℕ, zero, suc, ◌+◌, ◌-◌, ◌<◌, ◌≡◌, refl, ap, sym, ◌∙◌, true, false, ◌&&◌, ◌==◌, if◌then◌else◌,
  List, [], ◌∷◌, ◌++◌, some, null, ok, arith, Bool-cases, inl, inr, ==→eq,
}
use mathlib.Core.Option
use mathlib.Core.List.{append-nil}
use cidl.Addr.{Ptr}
use cidl.SearchTree.Lookup.{tfind-modify}
use cidl.Rec.{
  MemRec, RecBlockEntry, RecTreeNode, Recs, Store, key_of, OpenFiles, find_node, modify_node,
  file_slot,
}
use cidl.Rec.View.{records, records_of, take_recs, count_in_current}
use cidl.Rec.Reclaim.{
  compact_loop, compact_fuel, compact, drop_until, reclaim_list, reclaim_special_rec_tree_node,
}
use cidl.Rec.Reclaim.OneLoop.{cursor, open-stays, closed-drops}

-- The last of some records of an array stands behind the others.
take_recs-last :
    (st : Store) (arr : Ptr) (i k : ℕ)
    → take_recs st arr i (suc k) ≡ take_recs st arr i k ++ st arr (i + k) ∷ []
take_recs-last st arr i zero = ground arith
take_recs-last st arr i (suc k) = ground (
  arith,
  take_recs-last st arr (i + 1) k,
  ap (st arr) {x = i + 1 + k} {y = i + suc k} (omega arith),
)

take_recs-before_last :
    (st : Store) (arr : Ptr) (m : ℕ)
    → 0 < m
    → take_recs st arr 0 m ≡ take_recs st arr 0 (m - 1) ++ st arr (m - 1) ∷ []
take_recs-before_last st arr m h =
    ap (take_recs st arr 0) {x = m} {y = suc (m - 1)} (omega arith)
    ∙ take_recs-last st arr 0 (m - 1)
    ∙ ap (λ (j : ℕ). take_recs st arr 0 (m - 1) ++ st arr j ∷ []) (omega arith)

module _ (open_files : OpenFiles) (slot : ℕ) (e : RecBlockEntry) (n : RecTreeNode) (s : Recs)
    (found : find_node n.page_num s ≡ some n) (queue : n.list_head ≡ e ∷ []) where
  abbrev page : ℕ
  page = n.page_num

  abbrev one : RecTreeNode → RecTreeNode
  one k = record k { list_head = e ∷ [] }

  pub compact-one :
      (t : Recs) (n' : RecTreeNode)
      → compact_loop open_files page
          (compact_fuel n)
          (some (cursor e n.mem_rec_idx 0))
          (some (cursor e n.mem_rec_idx 0))
          s
        ≡ ok (tt, t)
      → find_node page t ≡ some n'
      → n'.rec_mod_entry ≡ e.addr
      → n'.list_head ≡ e ∷ []
      → compact open_files n s ≡ ok (tt, modify_node page one t)
  unfolding compact drop_until
  compact-one t n' run found' modified' queue' =
      ground (arith, queue, run, found', modified', queue')

  pub reclaim-compact :
      0 < n.mem_rec_idx → reclaim_special_rec_tree_node open_files n s ≡ compact open_files n s
  unfolding reclaim_special_rec_tree_node reclaim_list
  reclaim-compact h = ground (arith, queue)

  abbrev last : MemRec
  last = s.store e.rec_arr (n.mem_rec_idx - 1)

  -- The records that are lost.
  abbrev lost : ℕ → List MemRec
  lost q = if page == q && open_files slot == null then last ∷ [] else []

  pub one-find :
      (t : Recs) (q : ℕ)
      → find_node q (modify_node page one t)
        ≡ (if page == q then Option.map one (find_node q t) else find_node q t)
  one-find t q = tfind-modify key_of page q one t.tree (λ a. refl)

  view_of :
      (st : Store) (k : RecTreeNode)
      → k.list_head ≡ e ∷ []
      → k.rec_mod_entry ≡ e.addr
      → records_of st (some k) ≡ take_recs st e.rec_arr 0 k.mem_rec_idx
  view_of st k its current = ground (arith, its, count_in_current k e current)

  -- The records of the page before and after, by the counter of its node after.
  own-records :
      (t : Recs) (n' : RecTreeNode) (q : ℕ)
      → n.rec_mod_entry ≡ e.addr
      → t.store ≡ s.store
      → find_node page t ≡ some n'
      → n'.rec_mod_entry ≡ e.addr
      → (page == q) ≡ true
      → (records s q ≡ take_recs s.store e.rec_arr 0 n.mem_rec_idx)
        × (records (modify_node page one t) q ≡ take_recs s.store e.rec_arr 0 n'.mem_rec_idx)
  own-records t n' q modified store after modified' same =
      let key : page ≡ q = ==→eq _ _ same in
      let found' : find_node page (modify_node page one t) ≡ some (one n') =
        ground (arith, one-find t page, after) in
      (
        ap (λ (k : ℕ). records s k) (sym key)
            ∙ ap (records_of s.store) found
            ∙ view_of s.store n queue modified,
        ap (λ (k : ℕ). records (modify_node page one t) k) (sym key)
            ∙ ap (records_of t.store) found'
            ∙ view_of t.store (one n') refl modified'
            ∙ ap (λ (st : Store). take_recs st e.rec_arr 0 n'.mem_rec_idx) store,
      )

  other-records :
      (t : Recs) (q : ℕ)
      → t.store ≡ s.store
      → find_node q t ≡ find_node q s
      → (page == q) ≡ false
      → records s q ≡ records (modify_node page one t) q ++ lost q
  other-records t q store node other =
      let node' : find_node q (modify_node page one t) ≡ find_node q s =
        one-find t q ∙ rw other node in
      let stays : records (modify_node page one t) q ≡ records s q =
        ap (records_of t.store) node' ∙ ap (λ (st : Store). records_of st (find_node q s)) store in
      rw other (sym (append-nil _ ∙ stays))

  -- The reclamation of a page whose records are in one array, with at least one: it returns. If the slot
  -- of the descriptor of the first record has a file, all records of all pages stay; if it has none, the page
  -- loses its last record, whatever the files of the others are.
  pub reclaim_special_rec_tree_node_one_array :
      n.rec_mod_entry ≡ e.addr
      → 0 < n.mem_rec_idx
      → file_slot (s.store e.rec_arr 0).fd ≡ some slot
      → (t : Recs) × (reclaim_special_rec_tree_node open_files n s ≡ ok (tt, t))
        × ((q : ℕ) → records s q ≡ records t q ++ lost q)
  reclaim_special_rec_tree_node_one_array modified some_rec file =
      elim (Bool-cases (open_files slot == null)) [
        | inr live ↦ (
          modify_node page one s,
          reclaim-compact some_rec
              ∙ compact-one s n
                  (open-stays open_files page slot e n.mem_rec_idx (compact_fuel n) 0 n s file live
                    found some_rec (omega arith))
                  found modified queue,
          λ q. elim (Bool-cases (page == q)) [
            | inl same ↦
                rw (same, live)
                  ((own-records s n q modified refl found modified same).0
                    ∙ sym (append-nil _ ∙ (own-records s n q modified refl found modified same).1))
            | inr other ↦ other-records s q refl refl other
          ],
        )
        | inl dead ↦
            let n' : RecTreeNode = record n {
              rec_mod_entry = e.addr;
              mem_rec_idx = n.mem_rec_idx - 1;
            } in
            let (t, run, store, nodes) =
              closed-drops open_files page slot e n.mem_rec_idx (compact_fuel n) 0 n s file dead
                found some_rec (omega arith) in
            (
              modify_node page one t,
              reclaim-compact some_rec
                  ∙ compact-one t n' run (ground (arith, nodes page)) refl queue,
              λ q. elim (Bool-cases (page == q)) [
                | inl same ↦
                    let view =
                      own-records t n' q modified store (ground (arith, nodes page)) refl same in
                    rw (same, dead)
                      (view.0
                        ∙ take_recs-before_last s.store e.rec_arr n.mem_rec_idx some_rec
                        ∙ ap (λ l. l ++ last ∷ []) (sym view.1))
                | inr other ↦ other-records t q store (nodes q ∙ rw other refl) other
              ],
            )
      ]
