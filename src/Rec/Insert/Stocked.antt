-- ===== src/Rec/Insert/Stocked.antt =====
-- One call of `insertRec` while the pools have stock.
use cidl.Base.{
  ℕ, suc, ◌+◌, ◌-◌, ◌*◌, ◌≡◌, refl, false, List, ◌∷◌, ltb, none, some, arith, has, Bool-cases,
  Option-cases, ltb→lt, ltb→le, ne→==, inl, inr, ok,
}
use cidl.Addr.{Ptr, addr2page_num}
use cidl.Pool.{Pool, Growing, tests_depot, tests_total, allocate}
use cidl.Pool.Pop.{top, popped, allocate_growing-popped, popped-Grown}
use cidl.Mem.{mem_rec_per_entry, mem_rec_size, rec_block_entry_size, tailhead_size}
use cidl.SearchTree.{tsearch}
use cidl.SearchTree.Lookup.{tfind-modify, tfind-tsearch}
use cidl.Rec.{MemRec, RecTreeNode, Recs, key_of, find_node, modify_node, rec_compare, OpenFiles}
use cidl.Rec.Owned.{IsOwned, IsNode}
use cidl.Rec.Insert.{insert_rec, new_node, runs_low}
use cidl.Rec.Insert.State.{new_rec, in_array, in_new_array, in_new_node, with_entry}
use cidl.Rec.Insert.Runs.{insert_rec-in_array, insert_rec-in_new_array, insert_rec-in_new_node}
use cidl.Rec.Insert.Append.{unused_arr, first_arr}
use cidl.Rec.Insert.Refines.{current}
use cidl.Rec.Insert.Inserted.{
  Inserted, in_array-Inserted, in_new_array-Inserted, in_new_node-Inserted,
}
use cidl.Rec.Insert.Stock.{HasStock, Leaves, fewer-HasStock}

module _ (page : ℕ) (value : MemRec) {ents arrays : List Ptr} (s : Recs)
    (o : IsOwned ents arrays s) where
  in_array-Leaves :
      (n : RecTreeNode) (v : IsNode ents arrays n)
      → find_node page s ≡ some n
      → Leaves page s (in_array page value v.first.rec_arr n s)
  in_array-Leaves n v found = record {
    same_node = λ q ne. ground (
      arith,
      tfind-modify key_of page q (λ m. record m { mem_rec_idx = n.mem_rec_idx + 1 }) s.tree
          (λ a. refl),
      ne→== page q ne,
    );
    same_recs = λ q m ne f a i h.
        ground (arith, o.apart page q n m found f ne v.first.rec_arr (first_arr v), h);
  }

  in_new_array-Leaves :
      (n : RecTreeNode) (arr ent : Ptr) (g h : Growing)
      → has arr arrays ≡ false
      → Leaves page s (in_new_array page value arr ent g h s)
  in_new_array-Leaves n arr ent g h apart = record {
    same_node = λ q ne. ground (
      arith,
      tfind-modify key_of page q (with_entry page value ent arr) s.tree (λ a. refl),
      tfind-modify key_of page q (λ m. record m { mem_rec_idx = 1 })
          (modify_node page (with_entry page value ent arr) s).tree (λ a. refl),
      ne→== page q ne,
    );
    same_recs = λ q m ne f a i k. ground (arith, unused_arr m arr (o.nodes q m f) apart, k);
  }

  in_new_node-Leaves :
      (addr head ent arr : Ptr) (nodes : Pool) (f g h : Growing)
      → has arr arrays ≡ false
      → Leaves page s (in_new_node page value addr head ent arr nodes f g h s)
  in_new_node-Leaves addr head ent arr nodes f g h apart =
      let new = new_node addr page head ent arr in
      record {
        same_node = λ q ne. ground (
          arith,
          tfind-tsearch key_of page q new s.tree refl,
          tfind-modify key_of page q (λ m. record m { mem_rec_idx = 1 })
              (tsearch (rec_compare page) new s.tree) (λ a. refl),
          ne→== page q ne,
        );
        same_recs = λ q m ne f a i k. ground (arith, unused_arr m arr (o.nodes q m f) apart, k);
      }

module _ (open_files : OpenFiles) (file_offset : ℕ) (dest : Ptr) (file_name : Ptr) (fd : ℕ)
    {ents arrays : List Ptr} (s : Recs) (o : IsOwned ents arrays s) (k : ℕ)
    (w : HasStock (suc k) s) where
  abbrev page : ℕ
  page = addr2page_num dest

  abbrev value : MemRec
  value = new_rec file_offset dest file_name fd

  -- It returns, and the next call has what it needs.
  abbrev Ends : Type 0
  Ends =
      (t : Recs) × (insert_rec false open_files file_offset dest file_name fd s ≡ ok (tt, t))
      × Inserted page value s t
      × HasStock k t
      × Leaves page s t

  abbrev arr_pool : Growing
  arr_pool = record { pool = s.mem.rec_arrs; arena = s.mem.arena }

  abbrev ent_pool : Growing
  ent_pool = record { pool = s.mem.rec_block_entries; arena = s.mem.arena }

  abbrev head_pool : Growing
  head_pool = record { pool = s.mem.tail_heads; arena = s.mem.arena }

  stocked_found : (n : RecTreeNode) → find_node page s ≡ some n → Ends
  stocked_found n found = elim (Bool-cases (ltb n.mem_rec_idx mem_rec_per_entry)) [
    | inl small ↦
        let lt = ltb→lt _ _ small in
        (
          in_array page value v.first.rec_arr n s,
          insert_rec-in_array open_files file_offset dest file_name fd s n v.first.rec_arr found
              (current n v) lt,
          in_array-Inserted page value s o n v found lt,
          (let t = in_array page value v.first.rec_arr n s in
              fewer-HasStock s t.tree t.store t.last_rec w (omega arith)),
          in_array-Leaves page value s o n v found,
        )
    | inr big ↦
        let full : n.mem_rec_idx ≡ mem_rec_per_entry = omega (arith, ltb→le _ _ big, v.counter) in
        let a =
          popped-Grown (mem_rec_size * mem_rec_per_entry) arrays arr_pool o.arr_pool
            (omega (arith, w.arrs_left)) in
        let b =
          popped-Grown rec_block_entry_size ents ent_pool o.entry_pool
            (omega (arith, w.ents_left)) in
        (
          in_new_array page value (top arr_pool) (top ent_pool) (popped arr_pool) (popped ent_pool)
              s,
          insert_rec-in_new_array open_files file_offset dest file_name fd s n v.first.rec_arr
              (top arr_pool) (top ent_pool) (popped arr_pool) (popped ent_pool) found (current n v)
              full
              (allocate_growing-popped tests_depot (mem_rec_size * mem_rec_per_entry) arr_pool
                (omega (arith, w.arrs_left)))
              (allocate_growing-popped tests_depot rec_block_entry_size ent_pool
                (omega (arith, w.ents_left))),
          in_new_array-Inserted page value s o n v (top arr_pool) (top ent_pool) (popped arr_pool)
              (popped ent_pool) found full a b,
          record {
            room = w.room;
            heads = w.heads;
            head_pool = w.head_pool;
            counted = w.counted;
            high = omega (arith, w.high);
            nonnull = w.nonnull;
            heads_left = omega (arith, w.heads_left);
            ents_left = omega (arith, w.ents_left);
            arrs_left = omega (arith, w.arrs_left);
          },
          in_new_array-Leaves page value s o n (top arr_pool) (top ent_pool) (popped arr_pool)
              (popped ent_pool) a.unused,
        )
  ]
    where
      v : IsNode ents arrays n
      v = o.nodes page n found

  abbrev nodes_left : Pool
  nodes_left = record s.mem.rec_tree_nodes { idx = s.mem.rec_tree_nodes.idx - 1 }

  abbrev next_node : Ptr
  next_node = s.mem.rec_tree_nodes.slots (s.mem.rec_tree_nodes.idx - 1)

  node_taken : allocate s.mem.rec_tree_nodes ≡ ok (next_node, nodes_left)
  unfolding allocate
  node_taken = ground (arith, w.high)

  not_low : runs_low s ≡ false
  not_low = ground (arith, w.high)

  stocked_new : find_node page s ≡ none → Ends
  stocked_new absent =
      let a =
        popped-Grown (mem_rec_size * mem_rec_per_entry) arrays arr_pool o.arr_pool
          (omega (arith, w.arrs_left)) in
      let b =
        popped-Grown rec_block_entry_size ents ent_pool o.entry_pool (omega (arith, w.ents_left)) in
      let c =
        popped-Grown tailhead_size w.heads head_pool w.head_pool (omega (arith, w.heads_left)) in
      (
        in_new_node page value next_node (top head_pool) (top ent_pool) (top arr_pool) nodes_left
            (popped head_pool) (popped ent_pool) (popped arr_pool) s,
        insert_rec-in_new_node open_files file_offset dest file_name fd s next_node (top head_pool)
            (top ent_pool) (top arr_pool) nodes_left (popped head_pool) (popped ent_pool)
            (popped arr_pool) absent not_low node_taken
            (w.nonnull (s.mem.rec_tree_nodes.idx - 1) (omega (arith, w.high)))
            (allocate_growing-popped tests_total tailhead_size head_pool
              (omega (arith, w.heads_left)))
            (allocate_growing-popped tests_depot rec_block_entry_size ent_pool
              (omega (arith, w.ents_left)))
            (allocate_growing-popped tests_depot (mem_rec_size * mem_rec_per_entry) arr_pool
              (omega (arith, w.arrs_left))),
        in_new_node-Inserted page value s o next_node (top head_pool) (top ent_pool) (top arr_pool)
            nodes_left (popped head_pool) (popped ent_pool) (popped arr_pool) absent (omega arith) b
            a,
        record {
          room = w.room;
          heads = top head_pool ∷ w.heads;
          head_pool = c.valid;
          counted = w.counted;
          high = omega (arith, w.high);
          nonnull = λ i h. w.nonnull i (omega (arith, h));
          heads_left = omega (arith, w.heads_left);
          ents_left = omega (arith, w.ents_left);
          arrs_left = omega (arith, w.arrs_left);
        },
        in_new_node-Leaves page value s o next_node (top head_pool) (top ent_pool) (top arr_pool)
            nodes_left (popped head_pool) (popped ent_pool) (popped arr_pool) a.unused,
      )

  -- While the pools have stock for one record and `k` more, `insertRec` (of the build without
  -- DELETE_TREENODE) returns, appends its record to its page and keeps the invariant, the pools have
  -- stock for `k` records, and the nodes of other pages and the records in their arrays stay.
  pub insert_rec-stocked : Ends
  insert_rec-stocked = elim (Option-cases (find_node page s)) [
    | inl absent ↦ stocked_new absent
    | inr (n, found) ↦ stocked_found n found
  ]
