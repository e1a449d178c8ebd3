-- ===== src/TracedCopy/OnePage.antt =====
-- `ts_memcpy_traced` of a source range on one page whose records are in one array.
use cidl.Base.{ℕ, ◌≡◌, ap, ◌∙◌, List, [], ◌∷◌, some, arith}
use cidl.Addr.{Ptr, addr2page_num, addr2page_offset}
use cidl.Rec.{MemRec, RecBlockEntry, RecTreeNode, Recs, find_node}
use cidl.Rec.View.{records, records_of, take_recs, count_in_current}
use cidl.Rec.Owned.{IsOwned, IsNode}
use cidl.State.{State}
use cidl.TracedCopy.Moves.{Move}
use cidl.TracedCopy.Copied.{moves, records_from}

module _ (page : ℕ) (n : RecTreeNode) (e : RecBlockEntry) (queue : n.list_head ≡ e ∷ []) (s : Recs)
    (found : find_node page s ≡ some n) where
  abbrev cut : ℕ → RecTreeNode
  cut idx = record n { rec_mod_entry = e.addr; mem_rec_idx = idx }

  module _ {ents arrays : List Ptr} (o : IsOwned ents arrays s) where
    pub whole : (v : IsNode ents arrays n) → n.rec_mod_entry ≡ e.addr
    whole v = ground (arith, v.queue, v.modified, queue)

    pub own_records :
        IsNode ents arrays n → records s page ≡ take_recs s.store e.rec_arr 0 n.mem_rec_idx
    own_records v =
        ap (records_of s.store) found ∙ rw queue (ground (arith, count_in_current n e (whole v)))

module _ (fuel dest src n : ℕ) (s : State) (node : RecTreeNode) (e : RecBlockEntry) (m : ℕ) where
  abbrev page : ℕ
  page = addr2page_num src

  abbrev offset : ℕ
  offset = addr2page_offset src

  -- The records of the source's page, and those of them that are moved.
  abbrev before : List MemRec
  before = records s.recs page

  abbrev moved : List Move
  moved = moves dest src page (records_from offset before)
