-- ===== src/Rec/Insert/Refines.antt =====
-- `insertRec` against the insertion into a map from pages to lists of records.
use cidl.Base.{
  ℕ, ◌-◌, ◌*◌, ◌≤◌, ◌≡◌, false, List, ltb, none, some, arith, Bool-cases, Option-cases, ltb→lt,
  ltb→le, inl, inr, ok,
}
use cidl.Addr.{Ptr, addr2page_num}
use cidl.Pool.{Pool, Arena, tests_depot, tests_total, allocate}
use cidl.Pool.Valid.{IsValid-mono}
use cidl.Pool.Grow.{IsValidGrowing, allocate_growing-Grown}
use cidl.Mem.{mem_rec_per_entry, mem_rec_size, rec_block_entry_size, tailhead_size}
use cidl.Rec.{MemRec, RecTreeNode, Recs, find_node, OpenFiles}
use cidl.Rec.Owned.{IsOwned, IsNode, HasRoom}
use cidl.Rec.Insert.{insert_rec, arr_of}
use cidl.Rec.Insert.State.{new_rec, in_array, in_new_array, in_new_node}
use cidl.Rec.Insert.Runs.{insert_rec-in_array, insert_rec-in_new_array, insert_rec-in_new_node}
use cidl.Rec.Insert.Inserted.{
  IsReady, Inserted, in_array-Inserted, in_new_array-Inserted, in_new_node-Inserted,
}

node_ok :
    (s : Recs) (r : IsReady s)
    → allocate s.mem.rec_tree_nodes
      ≡ ok (
        s.mem.rec_tree_nodes.slots (s.mem.rec_tree_nodes.idx - 1),
        record (s.mem.rec_tree_nodes) { idx = s.mem.rec_tree_nodes.idx - 1 },
      )
unfolding allocate
node_ok s r = ground (arith, r.high)

-- A growing pool stays valid over a heap that another pool has grown in.
pub over :
    (lent : List Ptr) (p : Pool) (a b : Arena)
    → a.next ≤ b.next
    → IsValidGrowing lent (record { pool = p; arena = a })
    → IsValidGrowing lent (record { pool = p; arena = b })
over lent p a b h v = record {
  valid = IsValid-mono a.next b.next lent p h v.valid;
  nonempty = v.nonempty;
  used = omega (arith, v.used);
}

-- The array of the entry last modified is the first of the queue.
pub current :
    {ents arrays : List Ptr} (n : RecTreeNode) (v : IsNode ents arrays n)
    → arr_of n.rec_mod_entry n.list_head ≡ some v.first.rec_arr
current n v = rw v.queue (ground (arith, v.modified))

module _ (open_files : OpenFiles) (file_offset : ℕ) (dest : Ptr) (file_name : Ptr) (fd : ℕ)
    {ents arrays : List Ptr} (s : Recs) (o : IsOwned ents arrays s) (room : HasRoom s) where
  abbrev page : ℕ
  page = addr2page_num dest

  abbrev value : MemRec
  value = new_rec file_offset dest file_name fd

  abbrev Ends : Type 0
  Ends =
      (t : Recs) × (insert_rec false open_files file_offset dest file_name fd s ≡ ok (tt, t))
      × Inserted page value s t

  insert_found : (n : RecTreeNode) → find_node page s ≡ some n → Ends
  insert_found n found = elim (Bool-cases (ltb n.mem_rec_idx mem_rec_per_entry)) [
    | inl small ↦
        let lt = ltb→lt _ _ small in
        (
          in_array page value v.first.rec_arr n s,
          insert_rec-in_array open_files file_offset dest file_name fd s n v.first.rec_arr found
              (current n v) lt,
          in_array-Inserted page value s o n v found lt,
        )
    | inr big ↦
        let full : n.mem_rec_idx ≡ mem_rec_per_entry = omega (arith, ltb→le _ _ big, v.counter) in
        let (arr, g, e₁, w₁) =
          allocate_growing-Grown tests_depot (mem_rec_size * mem_rec_per_entry) arrays
            (record { pool = s.mem.rec_arrs; arena = s.mem.arena }) (omega arith) tt o.arr_pool
            (omega arith) in
        let (ent, h, e₂, w₂) =
          allocate_growing-Grown tests_depot rec_block_entry_size ents
            (record { pool = s.mem.rec_block_entries; arena = g.arena }) (omega arith) tt
            (over ents s.mem.rec_block_entries s.mem.arena g.arena w₁.keeps o.entry_pool)
            (omega (arith, w₁.within, w₁.limit)) in
        (
          in_new_array page value arr ent g h s,
          insert_rec-in_new_array open_files file_offset dest file_name fd s n v.first.rec_arr arr
              ent g h found (current n v) full e₁ e₂,
          in_new_array-Inserted page value s o n v arr ent g h found full w₁ w₂,
        )
  ]
    where
      v : IsNode ents arrays n
      v = o.nodes page n found

  insert_new : find_node page s ≡ none → IsReady s → Ends
  insert_new absent r =
      let nodes = s.mem.rec_tree_nodes in
      let (head, f, e₁, w₁) =
        allocate_growing-Grown tests_total tailhead_size r.heads
          (record { pool = s.mem.tail_heads; arena = s.mem.arena }) (omega arith) r.counted
          r.head_pool (omega arith) in
      let (ent, g, e₂, w₂) =
        allocate_growing-Grown tests_depot rec_block_entry_size ents
          (record { pool = s.mem.rec_block_entries; arena = f.arena }) (omega arith) tt
          (over ents s.mem.rec_block_entries s.mem.arena f.arena w₁.keeps o.entry_pool)
          (omega (arith, w₁.within, w₁.limit)) in
      let (arr, h, e₃, w₃) =
        allocate_growing-Grown tests_depot (mem_rec_size * mem_rec_per_entry) arrays
          (record { pool = s.mem.rec_arrs; arena = g.arena }) (omega arith) tt
          (over arrays s.mem.rec_arrs s.mem.arena g.arena (omega (arith, w₁.keeps, w₂.keeps))
            o.arr_pool)
          (omega (arith, w₁.within, w₁.limit, w₂.within, w₂.limit)) in
      (
        in_new_node page value (nodes.slots (nodes.idx - 1)) head ent arr
            (record nodes { idx = nodes.idx - 1 }) f g h s,
        insert_rec-in_new_node open_files file_offset dest file_name fd s
            (nodes.slots (nodes.idx - 1)) head ent arr (record nodes { idx = nodes.idx - 1 }) f g h
            absent r.high (node_ok s r) r.nonnull e₁ e₂ e₃,
        in_new_node-Inserted page value s o (nodes.slots (nodes.idx - 1)) head ent arr
            (record nodes { idx = nodes.idx - 1 }) f g h absent w₁.keeps w₂ w₃,
      )

  -- While the tree owns its entries and arrays and the heap has room, `insertRec` (of the build
  -- without DELETE_TREENODE) returns, the new record stands behind those of its page, the records of
  -- all other pages stay as they were, and the invariant holds again. A page that is not traced yet
  -- also needs a free node and no reclamation due.
  pub insert_rec-Inserted :
      (find_node page s ≡ none → IsReady s)
      → (t : Recs) × (insert_rec false open_files file_offset dest file_name fd s ≡ ok (tt, t))
        × Inserted page value s t
  insert_rec-Inserted ready = elim (Option-cases (find_node page s)) [
    | inl absent ↦ insert_new absent (ready absent)
    | inr (n, found) ↦ insert_found n found
  ]
