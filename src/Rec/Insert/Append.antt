-- ===== src/Rec/Insert/Append.antt =====
-- The records of all pages in each end state of `insertRec`.
use mathlib.Core.List.{append_assoc}
use mathlib.Core.Path.{ap₂}
use cidl.Base.{
  ap, sym, ◌∙◌, ℕ, ◌+◌, ◌≡◌, ◌≢◌, refl, true, false, List, [], ◌∷◌, ◌++◌, ◌==◌, none, some, arith,
  has, Bool-cases, ==→eq, ==→ne, inl, inr,
}
use cidl.Addr.{Ptr}
use cidl.Pool.{Pool, Growing}
use cidl.Mem.{mem_rec_per_entry}
use cidl.SearchTree.{tsearch}
use cidl.SearchTree.Lookup.{tfind-modify, tfind-tsearch}
use cidl.Rec.{
  MemRec, RecBlockEntry, RecTreeNode, Recs, key_of, Store, write_rec_at, find_node, modify_node,
  rec_compare,
}
use cidl.Rec.View.{
  node_records, take_recs, entries_records, addrs, arrs, records_of-write_other,
  entries_records-write_other, entries_records-count, count_in, count_in-full, count_in_current,
  take_recs-write_end,
}
use cidl.Rec.Owned.{IsOwned, IsNode, not-has_of_Within}
use cidl.Rec.Insert.{new_node}
use cidl.Rec.Insert.State.{Appends, in_array, in_new_array, in_new_node, with_entry}

pub first_arr :
    {ents arrays : List Ptr} {n : RecTreeNode} (v : IsNode ents arrays n)
    → has v.first.rec_arr (arrs n.list_head) ≡ true
first_arr v = rw v.queue (ground arith)

-- An array that is not in use belongs to no node.
pub unused_arr :
    {ents arrays : List Ptr} (m : RecTreeNode) (arr : Ptr)
    → IsNode ents arrays m
    → has arr arrays ≡ false
    → has arr (arrs m.list_head) ≡ false
unused_arr {arrays} m arr v h =
    rw v.queue (not-has_of_Within arr (arrs (v.first ∷ v.older)) arrays v.arrs_used h)

-- An entry that is not in use belongs to no node.
pub unused_ent :
    {ents arrays : List Ptr} (m : RecTreeNode) (ent : Ptr)
    → IsNode ents arrays m
    → has ent ents ≡ false
    → has ent (addrs m.list_head) ≡ false
unused_ent {ents} m ent v h =
    rw v.queue (not-has_of_Within ent (addrs (v.first ∷ v.older)) ents v.ents_used h)

module _ (page : ℕ) (value : MemRec) where
  entries-in_array :
      (st : Store) (n : RecTreeNode) (e : RecBlockEntry) (es : List RecBlockEntry)
      → n.rec_mod_entry ≡ e.addr
      → has e.addr (addrs es) ≡ false
      → has e.rec_arr (arrs es) ≡ false
      → entries_records
          (write_rec_at st e.rec_arr n.mem_rec_idx value)
          (record n { mem_rec_idx = n.mem_rec_idx + 1 })
          (e ∷ es)
        ≡ entries_records st n (e ∷ es) ++ value ∷ []
  entries-in_array st n e es modified out apart =
      let n' : RecTreeNode = record n { mem_rec_idx = n.mem_rec_idx + 1 } in
      ground (
        arith,
        entries_records-write_other st n' e.rec_arr n.mem_rec_idx value es apart,
        entries_records-count st n' n es,
        count_in_current n e,
        count_in_current n' e,
        take_recs-write_end st e.rec_arr value 0 n.mem_rec_idx n.mem_rec_idx (omega arith),
        append_assoc (entries_records st n es) (take_recs st e.rec_arr 0 n.mem_rec_idx)
            (value ∷ []),
      )

  -- The node's records after one more in its current array.
  own-in_array :
      (st : Store) (n : RecTreeNode) (e : RecBlockEntry) (es : List RecBlockEntry)
      → n.list_head ≡ e ∷ es
      → n.rec_mod_entry ≡ e.addr
      → has e.addr (addrs es) ≡ false
      → has e.rec_arr (arrs es) ≡ false
      → node_records
          (write_rec_at st e.rec_arr n.mem_rec_idx value)
          (record n { mem_rec_idx = n.mem_rec_idx + 1 })
        ≡ node_records st n ++ value ∷ []
  own-in_array st n e es queue modified out apart =
      let n' : RecTreeNode = record n { mem_rec_idx = n.mem_rec_idx + 1 } in
      ap (entries_records (write_rec_at st e.rec_arr n.mem_rec_idx value) n') queue
      ∙ entries-in_array st n e es modified out apart
      ∙ sym (ap (λ l. entries_records st n l ++ value ∷ []) queue)

  pub in_array-Appends :
      {ents arrays : List Ptr} (s : Recs) (n : RecTreeNode)
      → IsOwned ents arrays s
      → find_node page s ≡ some n
      → (v : IsNode ents arrays n) → Appends page value s (in_array page value v.first.rec_arr n s)
  in_array-Appends s n o found v q =
      let at =
        tfind-modify key_of page q (λ m. record m { mem_rec_idx = n.mem_rec_idx + 1 }) s.tree
          (λ a. refl) in
      elim (Bool-cases (page == q)) [
        | inl same ↦
            let e : page ≡ q = ==→eq _ _ same in
            ground (
              arith,
              at,
              found,
              own-in_array s.store n v.first v.older v.queue v.modified v.ents_distinct.0
                  v.arrs_distinct.0,
            )
        | inr other ↦
            let ne : page ≢ q = ==→ne _ _ other in
            ground (
              arith,
              at,
              records_of-write_other s.store v.first.rec_arr n.mem_rec_idx value (find_node q s)
                  (λ m e. o.apart page q n m found e ne v.first.rec_arr (first_arr v)),
            )
      ]

  entries-in_new_array :
      (st : Store) (n n' : RecTreeNode) (e new : RecBlockEntry) (es : List RecBlockEntry)
      → n.rec_mod_entry ≡ e.addr
      → n.mem_rec_idx ≡ mem_rec_per_entry
      → has e.addr (addrs es) ≡ false
      → n'.rec_mod_entry ≡ new.addr
      → n'.mem_rec_idx ≡ 1
      → has new.addr (addrs (e ∷ es)) ≡ false
      → has new.rec_arr (arrs (e ∷ es)) ≡ false
      → entries_records (write_rec_at st new.rec_arr 0 value) n' (new ∷ e ∷ es)
        ≡ entries_records st n (e ∷ es) ++ value ∷ []
  entries-in_new_array st n n' e new es modified full out modified' one fresh apart =
      let st' = write_rec_at st new.rec_arr 0 value in
      let older : entries_records st' n' (e ∷ es) ≡ entries_records st n (e ∷ es) =
        entries_records-write_other st n' new.rec_arr 0 value (e ∷ es) apart
        ∙ ap₂ (λ l k. l ++ take_recs st e.rec_arr 0 k)
            (entries_records-count st n' n es (ground arith) (ground arith))
            (count_in-full n n' e modified full (ground arith)) in
      let count : count_in n' new ≡ 1 = count_in_current n' new modified' ∙ one in
      ap₂ ◌++◌ older
        (ap (take_recs st' new.rec_arr 0) count ∙ ap (λ v. v ∷ []) (written st new.rec_arr))
    where
      written : (st : Store) (arr : Ptr) → write_rec_at st arr 0 value arr 0 ≡ value
      written st arr = ground arith

  -- The node's records after a full array has been followed by a new one.
  own-in_new_array :
      (st : Store) (n : RecTreeNode) (arr ent : Ptr) (e : RecBlockEntry) (es : List RecBlockEntry)
      → n.list_head ≡ e ∷ es
      → n.rec_mod_entry ≡ e.addr
      → n.mem_rec_idx ≡ mem_rec_per_entry
      → has e.addr (addrs es) ≡ false
      → has ent (addrs (e ∷ es)) ≡ false
      → has arr (arrs (e ∷ es)) ≡ false
      → node_records
          (write_rec_at st arr 0 value)
          (record (with_entry page value ent arr n) { mem_rec_idx = 1 })
        ≡ node_records st n ++ value ∷ []
  own-in_new_array st n arr ent e es queue modified full out new apart =
      let n' : RecTreeNode = record (with_entry page value ent arr n) { mem_rec_idx = 1 } in
      let entry : RecBlockEntry = record { addr = ent; rec_arr = arr } in
      ap (λ l. entries_records (write_rec_at st arr 0 value) n' (entry ∷ l)) queue
      ∙ entries-in_new_array st n n' e entry es modified full out refl refl new apart
      ∙ sym (ap (λ l. entries_records st n l ++ value ∷ []) queue)

  pub in_new_array-Appends :
      {ents arrays : List Ptr} (s : Recs) (n : RecTreeNode) (arr ent : Ptr) (g h : Growing)
      → IsOwned ents arrays s
      → find_node page s ≡ some n
      → IsNode ents arrays n
      → n.mem_rec_idx ≡ mem_rec_per_entry
      → has ent ents ≡ false
      → has arr arrays ≡ false
      → Appends page value s (in_new_array page value arr ent g h s)
  in_new_array-Appends {ents} {arrays} s n arr ent g h o found v full new apart q =
      let inner = tfind-modify key_of page q (with_entry page value ent arr) s.tree (λ a. refl) in
      let outer =
        tfind-modify key_of page q (λ m. record m { mem_rec_idx = 1 })
          (modify_node page (with_entry page value ent arr) s).tree (λ a. refl) in
      elim (Bool-cases (page == q)) [
        | inl same ↦
            let e : page ≡ q = ==→eq _ _ same in
            ground (
              arith,
              inner,
              outer,
              found,
              own-in_new_array s.store n arr ent v.first v.older v.queue v.modified full
                  v.ents_distinct.0
                  (not-has_of_Within ent (addrs (v.first ∷ v.older)) ents v.ents_used new)
                  (not-has_of_Within arr (arrs (v.first ∷ v.older)) arrays v.arrs_used apart),
            )
        | inr other ↦ ground (
          arith,
          inner,
          outer,
          records_of-write_other s.store arr 0 value (find_node q s)
              (λ m e. unused_arr m arr (o.nodes q m e) apart),
        )
      ]

  pub in_new_node-Appends :
      {ents arrays : List Ptr} (s : Recs) (addr head ent arr : Ptr) (nodes : Pool) (f g h : Growing)
      → IsOwned ents arrays s
      → find_node page s ≡ none
      → has arr arrays ≡ false
      → Appends page value s (in_new_node page value addr head ent arr nodes f g h s)
  in_new_node-Appends s addr head ent arr nodes f g h o absent apart q =
      let new = new_node addr page head ent arr in
      let inner = tfind-tsearch key_of page q new s.tree refl in
      let outer =
        tfind-modify key_of page q (λ m. record m { mem_rec_idx = 1 })
          (tsearch (rec_compare page) new s.tree) (λ a. refl) in
      elim (Bool-cases (page == q)) [
        | inl same ↦
            let e : page ≡ q = ==→eq _ _ same in
            let n' : RecTreeNode = record new { mem_rec_idx = 1 } in
            ground (
              arith,
              inner,
              outer,
              absent,
              count_in_current n' (record { addr = ent; rec_arr = arr }) refl,
            )
        | inr other ↦ ground (
          arith,
          inner,
          outer,
          records_of-write_other s.store arr 0 value (find_node q s)
              (λ m e. unused_arr m arr (o.nodes q m e) apart),
        )
      ]
