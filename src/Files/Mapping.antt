-- ===== src/Files/Mapping.antt =====
-- What `ts_mmap` records.
use cidl.Base.{
  ℕ, ◌%◌, ◌<◌, ◌≡◌, ◌≢◌, refl, ap, ◌∙◌, ◌==◌, false, if◌then◌else◌, List, ◌∷◌, some, add64, null,
  ok, ==_self, ne→==, subst, sym, compare,
}
use cidl.Addr.{Ptr}
use cidl.Pool.{Pool, allocate}
use cidl.Pool.Valid.{IsValid, allocate-Allocated}
use cidl.Mem.{allocate_file_map_tree_node}
use cidl.SearchTree.{tfind, tsearch}
use cidl.SearchTree.Lookup.{or_else, tfind-tsearch}
use cidl.Rec.{max_file_num, Recs}
use cidl.State.{
  State, FileMapTreeNode, file_map_tree_ins_del_compare, file_map_name_tree_ins_del_compare,
}
use cidl.Files.{
  get_path, dr_prefix, starts_with_at, has_anonymous_bit, record_mapping, record_file, ts_mmap,
}

-- The node of a mapping of the open file `file`.
abbrev pub mapping : (ret len file off : ℕ) → State → FileMapTreeNode
mapping ret len file off s = record {
  start = ret;
  tail = add64 ret len;
  used_time = 0;
  file_name = get_path file s.files;
  offset = off;
  fd = file;
}

-- The pool of the nodes of mappings is replaced.
abbrev pub with_nodes : Pool → Recs → Recs
with_nodes p r = record r { mem = record (r.mem) { file_map_tree_nodes = p } }

-- The mapping has been recorded in a node that was not in use: the node's fields, the slot of the
-- descriptor, and both trees lead to it, unless a tree held an equal key before. The node's pool is
-- valid, and no other node has changed.
pub record Recorded (bound : Ptr) (lent : List Ptr) (m : FileMapTreeNode) (s t : State)
    : Type 0 where
  pub addr : Ptr
  pub fields : t.files.nodes addr ≡ m
  pub others : (p : Ptr) → p ≢ addr → t.files.nodes p ≡ s.files.nodes p
  pub slot : t.files.open_files (m.fd % max_file_num) ≡ addr
  pub tree :
      t.files.tree ≡ tsearch (file_map_tree_ins_del_compare t.files.nodes m.start) addr s.files.tree
  pub by_start :
      tfind (file_map_tree_ins_del_compare t.files.nodes m.start) t.files.tree
      ≡ or_else (tfind (file_map_tree_ins_del_compare t.files.nodes m.start) s.files.tree) addr
  pub by_name :
      tfind (file_map_name_tree_ins_del_compare t.files.nodes m.file_name) t.files.name_tree
      ≡ or_else
          (tfind (file_map_name_tree_ins_del_compare t.files.nodes m.file_name) s.files.name_tree)
          addr
  pub name_tree :
      t.files.name_tree
      ≡ tsearch
          (file_map_name_tree_ins_del_compare t.files.nodes m.file_name)
          addr
          s.files.name_tree
  pub pool : IsValid bound (addr ∷ lent) t.recs.mem.file_map_tree_nodes
  pub records_stay : t.recs.tree ≡ s.recs.tree
  pub rest : (p : Pool) × (t.recs ≡ with_nodes p s.recs)
  pub stats_stay : t.stats ≡ s.stats
  pub paths_stay : t.files.fd2path ≡ s.files.fd2path
  pub bytes_stay : t.bytes ≡ s.bytes

module _ (ret len file off : ℕ) (s : State) (addr : Ptr) (p : Pool) where
  abbrev m : FileMapTreeNode
  m = mapping ret len file off s

  abbrev nodes : Ptr → FileMapTreeNode
  nodes q = if q == addr then m else s.files.nodes q

  abbrev after : State
  after = record s {
    recs = record (s.recs) { mem = record (s.recs.mem) { file_map_tree_nodes = p } };
    files = record (s.files) {
      nodes = nodes;
      open_files = λ i. if i == file % max_file_num then addr else s.files.open_files i;
      tree = tsearch (file_map_tree_ins_del_compare nodes ret) addr s.files.tree;
      name_tree =
          tsearch (file_map_name_tree_ins_del_compare nodes (nodes addr).file_name) addr
            s.files.name_tree;
    };
  }

  record_mapping-after :
      allocate s.recs.mem.file_map_tree_nodes ≡ ok (addr, p)
      → record_mapping ret len file off s ≡ ok (tt, after)
  unfolding record_mapping allocate_file_map_tree_node
  record_mapping-after e = rw e refl

  node_fields : nodes addr ≡ m
  node_fields = rw (==_self addr)

  found_by :
      (key : Ptr → ℕ) (k : ℕ) (t : _)
      → key addr ≡ k
      → tfind (λ b. compare k (key b)) (tsearch (λ b. compare k (key b)) addr t)
        ≡ or_else (tfind (λ b. compare k (key b)) t) addr
  found_by key k t e =
      tfind-tsearch key k k addr t e
      ∙ ap
          (λ b.
            if b
            then or_else (tfind (λ b. compare k (key b)) t) addr
            else tfind (λ b. compare k (key b)) t)
          (==_self k)

  after-Recorded :
      (bound : Ptr) (lent : List Ptr)
      → IsValid bound (addr ∷ lent) p
      → Recorded bound lent m s after
  after-Recorded bound lent v = record {
    addr = addr;
    fields = node_fields;
    others = λ q ne. rw (ne→== q addr ne);
    slot = rw (==_self (file % max_file_num));
    tree = refl;
    by_start = found_by (λ b. (nodes b).start) ret s.files.tree (ap (λ n. n.start) node_fields);
    by_name =
        subst
          (λ (k : ℕ).
            tfind (file_map_name_tree_ins_del_compare nodes m.file_name)
              (tsearch (file_map_name_tree_ins_del_compare nodes k) addr s.files.name_tree)
            ≡ or_else
                (tfind (file_map_name_tree_ins_del_compare nodes m.file_name) s.files.name_tree)
                addr)
          (sym (ap (λ n. n.file_name) node_fields))
          (found_by (λ b. (nodes b).file_name) m.file_name s.files.name_tree
            (ap (λ n. n.file_name) node_fields));
    name_tree =
        ap
          (λ n.
            tsearch (file_map_name_tree_ins_del_compare nodes n.file_name) addr s.files.name_tree)
          node_fields;
    pool = v;
    records_stay = refl;
    rest = (p, refl);
    stats_stay = refl;
    paths_stay = refl;
    bytes_stay = refl;
  }

pub ts_mmap-Recorded :
    (len prot file off ret : ℕ) (bytes : Ptr → ℕ) (s : State) (bound : Ptr) (lent : List Ptr)
    → IsValid bound lent s.recs.mem.file_map_tree_nodes
    → 0 < s.recs.mem.file_map_tree_nodes.idx
    → has_anonymous_bit prot ≡ false
    → get_path file s.files ≢ null
    → starts_with_at bytes (get_path file s.files) dr_prefix ≡ false
    → (t : State) × (ts_mmap len prot (some file) off ret bytes s ≡ ok (ret, t))
      × Recorded bound lent (mapping ret len file off s) (record s { bytes = bytes }) t
unfolding ts_mmap record_file
ts_mmap-Recorded len prot file off ret bytes before bound lent v free flag path other =
    let s : State = record before { bytes = bytes } in
    let (addr, p, e, a) = allocate-Allocated v free in
    (
      after ret len file off s addr p,
      rw (flag, ne→== (get_path file s.files) null path, other)
          (rw (record_mapping-after ret len file off s addr p e) refl),
      after-Recorded ret len file off s addr p bound lent a.valid,
    )
