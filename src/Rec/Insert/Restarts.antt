-- ===== src/Rec/Insert/Restarts.antt =====
-- `insertRec` of the build with DELETE_TREENODE, for a copy that is not above the last one on its page.
use cidl.Base.{
  ℕ, erase_all, Distinct, subst, ◌-◌, ◌≡◌, ◌≢◌, refl, ap, ◌∙◌, sym, true, false, ◌&&◌, ltb,
  leb_short, ◌==◌, if◌then◌else◌, some, List, [], ◌∷◌, ok, arith, Bool-cases, inl, inr, has, ==→eq,
  ==→ne,
}
use cidl.Addr.{Ptr, addr2page_num, addr2page_offset}
use cidl.SearchTree.Lookup.{tfind-modify}
use cidl.Rec.{
  MemRec, RecBlockEntry, RecTreeNode, Recs, key_of, OpenFiles, find_node, modify_node, write_rec_at,
}
use cidl.Rec.View.{records, records_of, ptrs, arrs, addrs, records_of-write_other, count_in_current}
use cidl.Rec.Owned.{IsOwned, IsNode, Apart, Within, Within-erase_all, has_of_Within}
use cidl.Rec.Insert.{insert_rec, set_last_rec, delete_records, drop_all_but_last, write_rec}
use cidl.Rec.Insert.State.{new_rec}
use cidl.Rec.Insert.Keep.{replaced-IsOwned}
use cidl.Pool.{Pool}
use cidl.Pool.Grow.{IsValidGrowing}
use cidl.Rec.Insert.Dropped.{
  last_entry, dropped, with_pools, drop_all_but_last-Runs, has-last_entry, has-dropped,
  last_entry-kept,
}

module _ (page : ℕ) (value : MemRec) (e : RecBlockEntry) where
  abbrev emptied : RecTreeNode → RecTreeNode
  emptied m = record m { list_head = e ∷ []; rec_mod_entry = e.addr }

  abbrev counted : ℕ → RecTreeNode → RecTreeNode
  counted i m = record m { mem_rec_idx = i }

  -- The node has been emptied and has the one record.
  abbrev restarted : Recs → Recs
  restarted s = modify_node page (counted 1) (
      modify_node page (counted 0) (
        modify_node page emptied (record s {
          store = write_rec_at s.store e.rec_arr 0 value;
          last_rec = record { last_page_num = page; last_mem_rec = e.rec_arr; last_idx = page };
        })))

-- The record of the copy takes the place of all others of its page.
pub record Restarted (page : ℕ) (value : MemRec) (ents arrays : List Ptr) (s t : Recs)
    : Type 0 where
  pub restarts : (q : ℕ) → records t q ≡ (if page == q then value ∷ [] else records s q)
  pub owned : IsOwned ents arrays t

module _ (open_files : OpenFiles) (file_offset : ℕ) (dest : Ptr) (file_name : Ptr) (fd : ℕ)
    (s : Recs) (n : RecTreeNode) (first : RecBlockEntry) (older : List RecBlockEntry)
    (found : find_node (addr2page_num dest) s ≡ some n) (queue : n.list_head ≡ first ∷ older) where
  abbrev page : ℕ
  page = addr2page_num dest

  abbrev value : MemRec
  value = new_rec file_offset dest file_name fd

  -- The entry that the node keeps.
  abbrev e : RecBlockEntry
  e = last_entry first older

  abbrev after : Pool → Pool → Recs
  after p q = restarted page value e (with_pools p q s)

  abbrev after_node : RecTreeNode
  after_node = counted page value e 1 (emptied page value e n)

  found_after :
      (p p' : Pool) (q : ℕ)
      → find_node q (after p p') ≡ (if page == q then some after_node else find_node q s)
  found_after p p' q = ground (
    arith,
    found,
    ==→eq page q,
    tfind-modify key_of page q (emptied page value e) s.tree (λ a. refl),
    tfind-modify key_of page q (counted page value e 0)
        (modify_node page (emptied page value e) s).tree (λ a. refl),
    tfind-modify key_of page q (counted page value e 1)
        (modify_node page (counted page value e 0) (modify_node page (emptied page value e) s)).tree
        (λ a. refl),
  )

  -- The state in which `insertRec` gives back the entries.
  abbrev cached : Recs
  cached = record s {
    last_rec = record { last_page_num = page; last_mem_rec = first.rec_arr; last_idx = page };
  }

  insert_rec-after :
      (p q : Pool)
      → drop_all_but_last (first ∷ older) cached ≡ ok (e ∷ [], with_pools p q cached)
      → n.rec_mod_entry ≡ first.addr
      → (ltb 0 n.mem_rec_idx
          && leb_short
              (addr2page_offset dest)
              (s.store first.rec_arr (n.mem_rec_idx - 1)).page_offset)
        ≡ true
      → insert_rec true open_files file_offset dest file_name fd s ≡ ok (tt, after p q)
  unfolding insert_rec set_last_rec delete_records write_rec
  insert_rec-after p q run modified behind = ground (
    arith,
    found,
    queue,
    behind,
    run,
    tfind-modify key_of page page (emptied page value e) s.tree (λ a. refl),
    tfind-modify key_of page page (counted page value e 0)
        (modify_node page (emptied page value e) s).tree (λ a. refl),
  )

  module _ {ents arrays : List Ptr} (o : IsOwned ents arrays s) where
    own : IsNode ents arrays n
    own = o.nodes page n found

    own_queue : own.first ∷ own.older ≡ first ∷ older
    own_queue = sym own.queue ∙ queue

    -- What other nodes and the kept entry use is not given back.
    others_use :
        (kind : RecBlockEntry → Ptr) (used : List Ptr) (q : ℕ) (m : RecTreeNode)
        (l : List RecBlockEntry)
        → Apart (ptrs kind) s
        → page ≢ q
        → find_node q s ≡ some m
        → m.list_head ≡ l
        → Within (ptrs kind l) used
        → Within (ptrs kind l) (erase_all (ptrs kind (dropped first older)) used)
    others_use kind used q m l away ne f its w =
        Within-erase_all (ptrs kind (dropped first older)) (ptrs kind l) used w (λ a h.
          subst (λ l'. has a (ptrs kind l') ≡ false) its
            (away page q n m found f ne a (rw queue (has-dropped kind a first older h))))

    kept_uses :
        (kind : RecBlockEntry → Ptr) (used : List Ptr)
        → Distinct (ptrs kind (first ∷ older))
        → Within (ptrs kind (first ∷ older)) used
        → Within (kind e ∷ []) (erase_all (ptrs kind (dropped first older)) used)
    kept_uses kind used d w =
        Within-erase_all (ptrs kind (dropped first older)) (kind e ∷ []) used
          (
            has_of_Within (kind e) (ptrs kind (first ∷ older)) used w
                (has-last_entry kind first older),
            tt,
          )
          (λ a h. elim (Bool-cases (kind e == a)) [
            | inl same ↦ absurd (
                ground (
                  arith,
                  h,
                  last_entry-kept kind first older d,
                  ap (λ (x : Ptr). has x (ptrs kind (dropped first older))) (==→eq _ _ same),
                ))
            | inr other ↦ rw other refl
          ])

    -- The kept entry was one of the page.
    kept_was :
        (kind : RecBlockEntry → Ptr) (a : Ptr)
        → has a (kind e ∷ []) ≡ true
        → has a (ptrs kind n.list_head) ≡ true
    kept_was kind a h = rw queue (
        subst (λ (x : Ptr). has x (ptrs kind (first ∷ older)) ≡ true)
          (==→eq (kind e) a (ground (arith, h))) (has-last_entry kind first older))

    after-IsNode :
        IsNode
          (erase_all (addrs (dropped first older)) ents)
          (erase_all (arrs (dropped first older)) arrays)
          after_node
    after-IsNode = record {
      first = e;
      older = [];
      queue = refl;
      modified = refl;
      counter = omega arith;
      ents_distinct = (refl, tt);
      arrs_distinct = (refl, tt);
      ents_used =
          kept_uses (λ x. x.addr) ents (subst (λ l. Distinct (addrs l)) own_queue own.ents_distinct)
            (subst (λ l. Within (addrs l) ents) own_queue own.ents_used);
      arrs_used =
          kept_uses (λ x. x.rec_arr) arrays
            (subst (λ l. Distinct (arrs l)) own_queue own.arrs_distinct)
            (subst (λ l. Within (arrs l) arrays) own_queue own.arrs_used);
    }

    other-IsNode :
        (q : ℕ) (m : RecTreeNode)
        → page ≢ q
        → find_node q s ≡ some m
        → IsNode ents arrays m
        → IsNode
            (erase_all (addrs (dropped first older)) ents)
            (erase_all (arrs (dropped first older)) arrays)
            m
    other-IsNode q m ne f v = record {
      first = v.first;
      older = v.older;
      queue = v.queue;
      modified = v.modified;
      counter = v.counter;
      ents_distinct = v.ents_distinct;
      arrs_distinct = v.arrs_distinct;
      ents_used =
          others_use (λ x. x.addr) ents q m (v.first ∷ v.older) o.ents_apart ne f v.queue
            v.ents_used;
      arrs_used =
          others_use (λ x. x.rec_arr) arrays q m (v.first ∷ v.older) o.apart ne f v.queue
            v.arrs_used;
    }

    after-Restarted :
        (p q : Pool)
        → IsValidGrowing
            (erase_all (addrs (dropped first older)) ents)
            (record { pool = p; arena = s.mem.arena })
        → IsValidGrowing
            (erase_all (arrs (dropped first older)) arrays)
            (record { pool = q; arena = s.mem.arena })
        → Restarted page value
            (erase_all (addrs (dropped first older)) ents)
            (erase_all (arrs (dropped first older)) arrays)
            s
            (after p q)
    after-Restarted p p' v v' = record {
      restarts = λ q.
          ap (records_of (after p p').store) (found_after p p' q) ∙ elim (Bool-cases (page == q)) [
            | inl same ↦ rw same (ground (arith, count_in_current after_node e refl))
            | inr other ↦
                let ne : page ≢ q = ==→ne _ _ other in
                rw other (
                  records_of-write_other s.store e.rec_arr 0 value (find_node q s) (λ m f.
                    o.apart page q n m found f ne e.rec_arr
                      (rw queue (has-last_entry (λ x. x.rec_arr) first older))))
          ];
      owned =
          replaced-IsOwned page s (after p p') after_node o (found_after p p') v v' after-IsNode
            other-IsNode
            (λ q m ne f a h. o.apart page q n m found f ne a (kept_was (λ x. x.rec_arr) a h))
            (λ q m ne f a h. o.ents_apart page q n m found f ne a (kept_was (λ x. x.addr) a h));
    }

    -- While the tree owns its entries and arrays, `insertRec` of the build with DELETE_TREENODE, to a
    -- page whose current array's last record is not below the destination, returns: the new record has
    -- taken the place of all others of its page, the records of all other pages stay, the invariant
    -- holds, and of the entries and arrays in use those of the page but one have been given back.
    pub insert_rec-Restarted :
        (ltb 0 n.mem_rec_idx
            && leb_short
                (addr2page_offset dest)
                (s.store first.rec_arr (n.mem_rec_idx - 1)).page_offset)
          ≡ true
        → (t : Recs) × (insert_rec true open_files file_offset dest file_name fd s ≡ ok (tt, t))
          × Restarted page value
              (erase_all (addrs (dropped first older)) ents)
              (erase_all (arrs (dropped first older)) arrays)
              s
              t
    insert_rec-Restarted behind =
        let (p, q, run, v, w) =
          drop_all_but_last-Runs first older cached ents arrays o.entry_pool o.arr_pool
            (subst (λ l. Distinct (addrs l)) own_queue own.ents_distinct)
            (subst (λ l. Distinct (arrs l)) own_queue own.arrs_distinct)
            (subst (λ l. Within (addrs l) ents) own_queue own.ents_used)
            (subst (λ l. Within (arrs l) arrays) own_queue own.arrs_used) in
        let modified : n.rec_mod_entry ≡ first.addr = ground (arith, own.modified, own_queue) in
        (after p q, insert_rec-after p q run modified behind, after-Restarted p q v w)
