-- ===== src/Files/Read.antt =====
-- What `ts_read` returns and records.
use cidl.Base.{
  Bool, ℕ, ◌+◌, ◌-◌, ◌≤◌, ◌<◌, ◌≡◌, ◌≢◌, ◌%◌, refl, ap, ◌∙◌, true, has, List, none, some, arith,
  null, word64, ok, ne→==, ==_self, ltb, sub64, add64, compare, ◌⊎◌, inl, inr, Bool-cases, ltb→lt,
  ltb→le,
}
use cidl.Addr.{Ptr, addr2page_num}
use cidl.Pool.{update, allocate, withdraw}
use cidl.Pool.Valid.{IsValid}
use cidl.Mem.{allocate_file_map_tree_node, withdraw_file_map_tree_node}
use cidl.SearchTree.{tfind}
use cidl.SearchTree.All.{All, All-tfind, All-weaken, tfind-agree}
use cidl.Rec.{Recs, find_node, max_file_num}
use cidl.Rec.Owned.{IsOwned, HasRoom}
use cidl.Rec.Insert.Inserted.{IsReady, Inserted}
use cidl.Rec.Insert.Continues.{Continues, insert_rec-appended}
use cidl.State.{State, FileMapTreeNode, file_map_name_tree_ins_del_compare}
use cidl.Files.{
  get_path, set_node, record_copy, ts_memcpy_with_file, copy_begin_of, copy_len_of, ts_read,
}
use cidl.Files.Copy.{used_node, copy_rec, after_copy}

-- A position of the file inside the mapping: the bytes to copy start at it, do not reach behind the
-- mapping's end, and are as many as were asked for or all that are left.
pub copy_len-bounds :
    (m : FileMapTreeNode) (pos nbytes : ℕ)
    → m.offset ≤ pos
    → pos < word64
    → m.start + (pos - m.offset) ≤ m.tail
    → m.tail < word64
    → (copy_begin_of m pos ≡ m.start + (pos - m.offset))
      × (copy_begin_of m pos + copy_len_of m pos nbytes ≤ m.tail)
      × (copy_len_of m pos nbytes ≤ nbytes)
      × ((copy_len_of m pos nbytes ≡ nbytes)
          ⊎ (copy_begin_of m pos + copy_len_of m pos nbytes ≡ m.tail))
copy_len-bounds m pos nbytes inside small fits top =
    let begin : copy_begin_of m pos ≡ m.start + (pos - m.offset) = omega arith in
    let left : sub64 m.tail (copy_begin_of m pos) ≡ m.tail - copy_begin_of m pos = omega arith in
    elim (Bool-cases (ltb (sub64 m.tail (copy_begin_of m pos)) nbytes)) [
      | inl short ↦
          rw short (begin, omega arith, omega (arith, ltb→lt _ _ short), inr (omega arith))
      | inr all ↦ rw all (begin, omega (arith, ltb→le _ _ all), omega arith, inl refl)
    ]

-- The node that `ts_read` takes for its search, and the state after it was given back.
abbrev next_free : State → Ptr
next_free s = let p = s.recs.mem.file_map_tree_nodes in p.slots (p.idx - 1)

abbrev pub searched : (fd : ℕ) → State → State
searched fd s =
    let p = s.recs.mem.file_map_tree_nodes in
    let addr = p.slots (p.idx - 1) in
    record s {
      recs = record (s.recs) {
        mem = record (s.recs.mem) {
          file_map_tree_nodes = record p {
            slots = update p.slots (p.idx - 1) addr;
            idx = p.idx - 1 + 1;
          };
        };
      };
      files =
          set_node addr (record (s.files.nodes addr) { file_name = get_path fd s.files }) s.files;
    }

module _ (fd : ℕ) (s : State) (bound : Ptr) (lent : List Ptr)
    (v : IsValid bound lent s.recs.mem.file_map_tree_nodes)
    (free : 0 < s.recs.mem.file_map_tree_nodes.idx) where
  -- A node in use is not the one that is taken.
  pub stays : (q : Ptr) → has q lent ≡ true → (searched fd s).files.nodes q ≡ s.files.nodes q
  stays q h = rw (ne→== q (next_free s) differs) refl
    where
      differs : q ≢ next_free s
      differs e = ground (
        arith,
        v.apart (s.recs.mem.file_map_tree_nodes.idx - 1) (omega arith),
        h,
        ap (λ (a : Ptr). has a lent) e,
      )

  -- The search finds what it would find without the node that was taken for it.
  pub searched-finds :
      All (λ q. has q lent ≡ true) s.files.name_tree
      → tfind
          (file_map_name_tree_ins_del_compare (searched fd s).files.nodes (get_path fd s.files))
          s.files.name_tree
        ≡ tfind
            (file_map_name_tree_ins_del_compare s.files.nodes (get_path fd s.files))
            s.files.name_tree
  searched-finds in_use = tfind-agree _ _ s.files.name_tree (
      All-weaken (λ q. has q lent ≡ true) _ s.files.name_tree
        (λ q h. ap (λ n. compare (get_path fd s.files) n.file_name) (stays q h)) in_use)

  -- The pool of nodes lets one be taken and given back.
  taken :
      allocate s.recs.mem.file_map_tree_nodes
      ≡ ok (
        next_free s,
        record (s.recs.mem.file_map_tree_nodes) { idx = s.recs.mem.file_map_tree_nodes.idx - 1 },
      )
  unfolding allocate
  taken = ground (arith, free)

  given_back :
      withdraw
        (next_free s)
        (record (s.recs.mem.file_map_tree_nodes) { idx = s.recs.mem.file_map_tree_nodes.idx - 1 })
      ≡ ok (tt, (searched fd s).recs.mem.file_map_tree_nodes)
  unfolding withdraw
  given_back = ground (arith, free, v.counted)

-- The state that `ts_read` ends in.
pub ts_read-copied :
    (delete_treenode : Bool) (fd buf nbytes pos pos' : ℕ) (fm : Ptr) (s : State) (bound : Ptr)
    (lent : List Ptr) {ents arrays : List Ptr}
    → IsValid bound lent s.recs.mem.file_map_tree_nodes
    → 0 < s.recs.mem.file_map_tree_nodes.idx
    → All (λ q. has q lent ≡ true) s.files.name_tree
    → tfind
        (file_map_name_tree_ins_del_compare s.files.nodes (get_path fd s.files))
        s.files.name_tree
      ≡ some fm
    → s.files.open_files (fd % max_file_num) ≡ fm
    → fm ≢ null
    → IsOwned ents arrays s.recs
    → HasRoom s.recs
    → (find_node (addr2page_num buf) s.recs ≡ none → IsReady s.recs)
    → (delete_treenode ≡ true → Continues buf s.recs)
    → let m = s.files.nodes fm in
      let begin = copy_begin_of m pos in
      let len = copy_len_of m pos nbytes in
      (t : Recs) × (ts_read delete_treenode fd buf nbytes (some pos) (some pos') s
        ≡ ok (len, after_copy buf begin len fm t (searched fd s)))
      × Inserted (addr2page_num buf) (copy_rec buf begin m) s.recs t
unfolding ts_read ts_memcpy_with_file record_copy allocate_file_map_tree_node
    withdraw_file_map_tree_node
ts_read-copied delete_treenode fd buf nbytes pos pos' fm s bound lent v free in_use found slot ne o
      room ready above =
    let m = s.files.nodes fm in
    let begin = copy_begin_of m pos in
    let len = copy_len_of m pos nbytes in
    let s₁ = searched fd s in
    let same : s₁.files.nodes fm ≡ m =
      stays fd s bound lent v free fm
        (All-tfind (λ q. has q lent ≡ true) _ s.files.name_tree fm in_use found) in
    let (t, run, w) =
      insert_rec-appended delete_treenode s.files.open_files (add64 m.offset (sub64 begin m.start))
        buf m.file_name m.fd s₁.recs
        (record {
          entry_pool = o.entry_pool;
          arr_pool = o.arr_pool;
          nodes = o.nodes;
          apart = o.apart;
          ents_apart = o.ents_apart;
        })
        room
        (λ e.
          let r = ready e in
          record {
            heads = r.heads;
            high = r.high;
            nonnull = r.nonnull;
            head_pool = r.head_pool;
            counted = r.counted;
          })
        above in
    let target = searched-finds fd s bound lent v free in_use ∙ found in
    (
      t,
      rw (taken fd s bound lent v free) (
          rw (given_back fd s bound lent v free, ==_self (next_free s))
            (rw (target, same, slot)
              (rw (ne→== fm null ne, used_node fm s₁.files, same) (rw run refl)))),
      record { appends = w.appends; ents = w.ents; arrays = w.arrays; owned = w.owned },
    )
