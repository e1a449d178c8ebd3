-- ===== src/Realloc/OnePage.antt =====
-- `ts_realloc` of a block on one page whose records are in one array.
use cidl.Base.{
  ℕ, zero, suc, ◌+◌, ◌-◌, ◌<◌, ◌≡◌, refl, ap, sym, ◌∙◌, subst, true, false, List, [], ◌∷◌, ◌++◌,
  some, none, ok, arith, leb, Bool, Run, ◌>>=◌, ==_self, and_then,
}
use cidl.Addr.{Ptr, addr2page_num}
use cidl.Rec.{MemRec, RecBlockEntry, RecTreeNode, Recs, find_node}
use cidl.Rec.View.{records, take_recs}
use cidl.Rec.Owned.{IsOwned}
use cidl.Rec.Insert.Stock.{HasStock}
use cidl.Write.{rec_addr}
use cidl.State.{State}
use cidl.TracedCopy.{prev_of}
use cidl.TracedCopy.Moves.{Away, arrivals}
use cidl.TracedCopy.OnePage.{whole, own_records}
use cidl.Realloc.{move_recs, move_entries, move_page, move_pages, ts_realloc}
use cidl.Realloc.Moved.{block_moves, move_recs-Moved}

module _ (fuel ptr tail ret : ℕ) (bytes : Ptr → ℕ) (s : State) (node : RecTreeNode)
    (e : RecBlockEntry) where
  abbrev page : ℕ
  page = addr2page_num ptr

  abbrev before : List MemRec
  before = records s.recs page

  none_before :
      (t : Recs)
      → node.list_head ≡ e ∷ []
      → find_node page t ≡ some node
      → prev_of page e.addr t ≡ none
  none_before t queue found = ground arith

  -- The first test, of the record behind the last one.
  abbrev behind_end : Recs → Ptr
  behind_end t = rec_addr page (t.store e.rec_arr node.mem_rec_idx)

  move_entries-run :
      (t : Recs)
      → find_node page s.recs ≡ some node
      → node.rec_mod_entry ≡ e.addr
      → leb tail (behind_end s.recs) ≡ false
      → move_recs false s.files.open_files ptr tail ret page node.mem_rec_idx e.rec_arr 0 s.recs
        ≡ ok (tt, t)
      → prev_of page e.addr t ≡ none
      → move_entries false s.files.open_files ptr tail ret page
          (suc fuel)
          node.rec_mod_entry
          (some e)
          s.recs
        ≡ ok (tt, t)
  unfolding move_entries
  move_entries-run t found modified test run prev =
      rw (modified, ==_self e.addr, found)
        (ap (λ b. by_test b s.recs) test
          ∙ ap (λ x. and_then x (λ _ t'. next t' t')) run
          ∙ ap
              (λ p.
                move_entries false s.files.open_files ptr tail ret page fuel node.rec_mod_entry p t)
              prev
          ∙ ends fuel)
    where
      next : Recs → Run Recs (Unit {0})
      next t' =
          move_entries false s.files.open_files ptr tail ret page fuel node.rec_mod_entry
            (prev_of page e.addr t')

      by_test : Bool → Run Recs (Unit {0})
      by_test true =
          move_entries false s.files.open_files ptr tail ret page fuel node.rec_mod_entry (some e)
      by_test false =
          move_recs false s.files.open_files ptr tail ret page node.mem_rec_idx e.rec_arr 0
          >>= λ _ t'. next t' t'

      ends :
          (k : ℕ)
          → move_entries false s.files.open_files ptr tail ret page k node.rec_mod_entry none t
            ≡ ok (tt, t)
      ends zero = refl
      ends (suc k) = refl

  move_pages-run :
      (t : Recs)
      → find_node page s.recs ≡ some node
      → node.list_head ≡ e ∷ []
      → move_entries false s.files.open_files ptr tail ret page
          (suc fuel)
          node.rec_mod_entry
          (some e)
          s.recs
        ≡ ok (tt, t)
      → move_pages false s.files.open_files ptr tail ret (suc fuel) 1 page s.recs ≡ ok (tt, t)
  unfolding move_pages move_page
  move_pages-run t found queue run = ground arith

  -- `ts_realloc` of a block on one page that is traced, with its records in one array, where the slot
  -- of the array behind the last record holds an offset below the block's end: it returns the new
  -- block, and the memory is that after `realloc`. Behind its own records each page has those of the
  -- old block that `ts_realloc` moves to it: the records up to the first one that does not lie below
  -- the block's end, and of these the ones above its start, each at the same distance from the new
  -- start. No other record changes, those of the old block stay, and the invariant holds. No record
  -- may be moved to the old page, and the pools need stock for them; one round of fuel is enough. The
  -- build is the one without DELETE_TREENODE.
  pub ts_realloc-Moved :
      {ents arrays : List Ptr}
      → IsOwned ents arrays s.recs
      → HasStock node.mem_rec_idx s.recs
      → ptr < tail
      → addr2page_num tail ≡ page
      → find_node page s.recs ≡ some node
      → node.list_head ≡ e ∷ []
      → leb tail (behind_end s.recs) ≡ false
      → Away page (block_moves ptr tail ret page before)
      → (t : Recs) × (ts_realloc false (suc fuel) ptr tail ret bytes s
          ≡ ok (ret, record s { recs = t; bytes = bytes }))
        × ((q : ℕ)
            → records t q ≡ records s.recs q ++ arrivals q (block_moves ptr tail ret page before))
        × (ents' : List Ptr) × (arrays' : List Ptr) × IsOwned ents' arrays' t
  unfolding ts_realloc
  ts_realloc-Moved o w inside end found queue test away =
      let v = o.nodes page node found in
      let own : before ≡ take_recs s.recs.store e.rec_arr 0 node.mem_rec_idx =
        own_records page node e queue s.recs found o v in
      let (t, run, moved) =
        move_recs-Moved s.files.open_files ptr tail ret inside page node e.rec_arr
          (rw queue (ground arith)) node.mem_rec_idx 0 s.recs o w found
          (subst (λ l. Away page (block_moves ptr tail ret page l)) own away) in
      let one : page + 1 - page ≡ 1 = omega arith in
      let pages = move_pages-run t found queue (
        move_entries-run t found (whole page node e queue s.recs found o v) test run
          (none_before t queue moved.stays)) in
      (
        t,
        rw (end, one, pages) refl,
        λ q.
            moved.arrives q
            ∙ ap (λ l. records s.recs q ++ arrivals q (block_moves ptr tail ret page l)) (sym own),
        moved.ents,
        moved.arrays,
        moved.owned,
      )
