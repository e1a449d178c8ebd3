-- ===== src/Rec/Insert/Inserted.antt =====
-- The abstract specification of `insertRec`, for each of the three states it ends in.
use cidl.Base.{
  ℕ, ◌+◌, ◌-◌, ◌*◌, ◌≤◌, ◌<◌, ◌≡◌, ◌≢◌, refl, ap, subst, true, false, List, [], ◌∷◌, ◌==◌, none,
  some, arith, has, Bool-cases, ==→eq, inl, inr, null,
}
use cidl.Addr.{Ptr}
use cidl.Pool.{Pool, Growing}
use cidl.Pool.Valid.{IsValid-mono}
use cidl.Pool.Grow.{IsValidGrowing, Grown, total_after}
use cidl.Mem.{mem_rec_per_entry, mem_rec_size, rec_block_entry_size, tailhead_size}
use cidl.SearchTree.{tsearch}
use cidl.SearchTree.Lookup.{tfind-modify, tfind-tsearch}
use cidl.Rec.{MemRec, RecTreeNode, Recs, key_of, find_node, modify_node, rec_compare}
use cidl.Rec.View.{addrs, arrs}
use cidl.Rec.Owned.{IsOwned, IsNode, Within-cons, not-has_of_Within}
use cidl.Rec.Insert.{new_node, runs_low}
use cidl.Rec.Insert.State.{Appends, in_array, in_new_array, in_new_node, with_entry}
use cidl.Rec.Insert.Append.{
  in_array-Appends, in_new_array-Appends, in_new_node-Appends, unused_arr, unused_ent,
}
use cidl.Rec.Insert.Keep.{replaced-IsOwned, widen}

-- What a new node needs: no reclamation is due, the next free node is not NULL, and the pool of
-- queue heads is valid with `heads` in use.
pub record IsReady (s : Recs) : Type 0 where
  pub heads : List Ptr
  pub high : runs_low s ≡ false
  pub nonnull : s.mem.rec_tree_nodes.slots (s.mem.rec_tree_nodes.idx - 1) ≢ null
  pub head_pool : IsValidGrowing heads (record { pool = s.mem.tail_heads; arena = s.mem.arena })
  pub counted :
      0 < total_after tailhead_size (record { pool = s.mem.tail_heads; arena = s.mem.arena })

-- A run of `insertRec` that returns, appends its record, and keeps the invariant.
pub record Inserted (page : ℕ) (value : MemRec) (s t : Recs) : Type 0 where
  pub appends : Appends page value s t
  pub ents : List Ptr
  pub arrays : List Ptr
  pub owned : IsOwned ents arrays t

module _ (page : ℕ) (value : MemRec) {ents arrays : List Ptr} (s : Recs)
    (o : IsOwned ents arrays s) where
  pub in_array-Inserted :
      (n : RecTreeNode) (v : IsNode ents arrays n)
      → find_node page s ≡ some n
      → n.mem_rec_idx < mem_rec_per_entry
      → Inserted page value s (in_array page value v.first.rec_arr n s)
  in_array-Inserted n v found room = record {
    appends = in_array-Appends page value s n o found v;
    ents = ents;
    arrays = arrays;
    owned =
        replaced-IsOwned page s (in_array page value v.first.rec_arr n s)
          (record n { mem_rec_idx = n.mem_rec_idx + 1 }) o
          (λ q. ground (
            arith,
            tfind-modify key_of page q (λ m. record m { mem_rec_idx = n.mem_rec_idx + 1 }) s.tree
                (λ a. refl),
            found,
            ==→eq page q,
          ))
          o.entry_pool o.arr_pool
          (record {
            first = v.first;
            older = v.older;
            queue = v.queue;
            modified = v.modified;
            counter = omega arith;
            ents_distinct = v.ents_distinct;
            arrs_distinct = v.arrs_distinct;
            ents_used = v.ents_used;
            arrs_used = v.arrs_used;
          })
          (λ q m ne f w. w) (λ q m ne f a h. o.apart page q n m found f ne a h)
          (λ q m ne f a h. o.ents_apart page q n m found f ne a h);
  }

  in_new_array-IsNode :
      (n : RecTreeNode) (arr ent : Ptr)
      → IsNode ents arrays n
      → has ent ents ≡ false
      → has arr arrays ≡ false
      → IsNode
          (ent ∷ ents)
          (arr ∷ arrays)
          (record (with_entry page value ent arr n) { mem_rec_idx = 1 })
  in_new_array-IsNode n arr ent v fresh apart = record {
    first = record { addr = ent; rec_arr = arr };
    older = n.list_head;
    queue = refl;
    modified = refl;
    counter = omega arith;
    ents_distinct =
        rw v.queue (
          not-has_of_Within ent (addrs (v.first ∷ v.older)) ents v.ents_used fresh,
          v.ents_distinct,
        );
    arrs_distinct = rw v.queue (
      not-has_of_Within arr (arrs (v.first ∷ v.older)) arrays v.arrs_used apart,
      v.arrs_distinct,
    );
    ents_used =
        rw v.queue (==_here ent ents, Within-cons ent (addrs (v.first ∷ v.older)) ents v.ents_used);
    arrs_used =
        rw v.queue
          (==_here arr arrays, Within-cons arr (arrs (v.first ∷ v.older)) arrays v.arrs_used);
  }
    where
      ==_here : (a : Ptr) (l : List Ptr) → has a (a ∷ l) ≡ true
      ==_here a l = ground arith

  pub in_new_array-Inserted :
      (n : RecTreeNode) (v : IsNode ents arrays n) (arr ent : Ptr) (g h : Growing)
      → find_node page s ≡ some n
      → n.mem_rec_idx ≡ mem_rec_per_entry
      → Grown
          (mem_rec_size * mem_rec_per_entry)
          arrays
          (record { pool = s.mem.rec_arrs; arena = s.mem.arena })
          arr
          g
      → Grown rec_block_entry_size ents
          (record { pool = s.mem.rec_block_entries; arena = g.arena })
          ent
          h
      → Inserted page value s (in_new_array page value arr ent g h s)
  in_new_array-Inserted n v arr ent g h found full a b =
      let t = in_new_array page value arr ent g h s in
      let n' : RecTreeNode = record (with_entry page value ent arr n) { mem_rec_idx = 1 } in
      record {
        appends = in_new_array-Appends page value s n arr ent g h o found v full b.unused a.unused;
        ents = ent ∷ ents;
        arrays = arr ∷ arrays;
        owned =
            replaced-IsOwned page s t n' o
              (λ q. ground (
                arith,
                tfind-modify key_of page q (with_entry page value ent arr) s.tree (λ a. refl),
                tfind-modify key_of page q (λ m. record m { mem_rec_idx = 1 })
                    (modify_node page (with_entry page value ent arr) s).tree (λ a. refl),
                found,
                ==→eq page q,
              ))
              b.valid
              (record {
                valid = IsValid-mono _ _ _ _ b.keeps a.valid.valid;
                nonempty = a.valid.nonempty;
                used = b.valid.used;
              })
              (in_new_array-IsNode n arr ent v b.unused a.unused) (λ q m ne f w. widen ent arr w)
              (λ q m ne f x k. elim (Bool-cases (arr == x)) [
                | inl same ↦
                    subst (λ (y : Ptr). has y (arrs m.list_head) ≡ false) (==→eq _ _ same)
                      (unused_arr m arr (o.nodes q m f) a.unused)
                | inr other ↦ o.apart page q n m found f ne x (ground arith)
              ])
              (λ q m ne f x k. elim (Bool-cases (ent == x)) [
                | inl same ↦
                    subst (λ (y : Ptr). has y (addrs m.list_head) ≡ false) (==→eq _ _ same)
                      (unused_ent m ent (o.nodes q m f) b.unused)
                | inr other ↦ o.ents_apart page q n m found f ne x (ground arith)
              ]);
      }

  pub in_new_node-Inserted :
      (addr head ent arr : Ptr) (nodes : Pool) (f g h : Growing)
      → find_node page s ≡ none
      → s.mem.arena.next ≤ f.arena.next
      → Grown rec_block_entry_size ents
          (record { pool = s.mem.rec_block_entries; arena = f.arena })
          ent
          g
      → Grown
          (mem_rec_size * mem_rec_per_entry)
          arrays
          (record { pool = s.mem.rec_arrs; arena = g.arena })
          arr
          h
      → Inserted page value s (in_new_node page value addr head ent arr nodes f g h s)
  in_new_node-Inserted addr head ent arr nodes f g h absent le a b =
      let t = in_new_node page value addr head ent arr nodes f g h s in
      let new = new_node addr page head ent arr in
      let n' : RecTreeNode = record new { mem_rec_idx = 1 } in
      record {
        appends = in_new_node-Appends page value s addr head ent arr nodes f g h o absent b.unused;
        ents = ent ∷ ents;
        arrays = arr ∷ arrays;
        owned =
            replaced-IsOwned page s t n' o
              (λ q. ground (
                arith,
                tfind-tsearch key_of page q new s.tree refl,
                tfind-modify key_of page q (λ m. record m { mem_rec_idx = 1 })
                    (tsearch (rec_compare page) new s.tree) (λ a. refl),
                absent,
                ==→eq page q,
                ap (λ (k : ℕ). find_node k s) {x = page} {y = q},
              ))
              (record {
                valid = IsValid-mono _ _ _ _ b.keeps a.valid.valid;
                nonempty = a.valid.nonempty;
                used = b.valid.used;
              })
              b.valid
              (record {
                first = record { addr = ent; rec_arr = arr };
                older = [];
                queue = refl;
                modified = refl;
                counter = omega arith;
                ents_distinct = (refl, tt);
                arrs_distinct = (refl, tt);
                ents_used = (ground arith, tt);
                arrs_used = (ground arith, tt);
              })
              (λ q m ne f w. widen ent arr w)
              (λ q m ne f x k.
                subst (λ (y : Ptr). has y (arrs m.list_head) ≡ false)
                  (ground (arith, k, ==→eq arr x)) (unused_arr m arr (o.nodes q m f) b.unused))
              (λ q m ne f x k.
                subst (λ (y : Ptr). has y (addrs m.list_head) ≡ false)
                  (ground (arith, k, ==→eq ent x)) (unused_ent m ent (o.nodes q m f) a.unused));
      }
