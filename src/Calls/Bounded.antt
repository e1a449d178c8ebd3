-- ===== src/Calls/Bounded.antt =====
-- The counters of the nodes after any sequence of calls.
use cidl.Base.{
  ◌%◌, ℕ, Bool, Option, none, some, ◌==◌, Run, Keeps, Keeps-and_then, Keeps-run_if, if◌then◌else◌,
  add64, sub64, Keeps-zoom, Keeps-or_exit, Ends-Keeps, Option-cases, inl, inr, null, pure, exit,
  fatal, segfault, Result, ok, out_of_fuel, or_exit,
}
use cidl.Addr.{Ptr}
use cidl.Mem.{Mem, allocate_file_map_tree_node, withdraw_file_map_tree_node}
use cidl.SearchTree.{tfind, tdelete}
use cidl.Rec.{Recs, on_mem, max_file_num}
use cidl.Rec.Reclaim.Compact.{IsBounded}
use cidl.Rec.Insert.{insert_rec}
use cidl.Rec.Insert.Terminates.{insert_rec-Ends}
use cidl.State.{
  State, on_recs, on_pools, file_map_tree_ins_del_compare, file_map_name_tree_ins_del_compare,
  file_map_tree_search_compare,
}
use cidl.Files.{
  record_mapping, record_file, ts_mmap, ts_munmap, record_copy, ts_memcpy, copy_begin_of,
  copy_len_of, ts_memcpy_with_file, ts_read, has_anonymous_bit, get_path, starts_with_at, dr_prefix,
  set_open_file, set_node, memcpy,
}
use cidl.Files.Copy.{used}

abbrev Any : Mem → Type 0
Any m = Unit {0}

abbrev pub Bounded : State → Type 0
Bounded s = IsBounded s.recs

any : {A : Type 0} (r : Result (A × Mem)) → Keeps Any r
any (ok (a, m)) = tt
any (exit n) = tt
any out_of_fuel = tt

pub recs-Keeps :
    {A : Type 0} (m : Run Recs A) (s : State)
    → Keeps IsBounded (m s.recs)
    → Keeps Bounded (on_recs m s)
recs-Keeps m s h =
    Keeps-zoom IsBounded Bounded (λ t. t.recs) (λ t r. record t { recs = r }) m s h (λ t w. w)

-- Taking a node of a mapping, or giving it back.
pub pools-Keeps :
    {A : Type 0} (m : Run Mem A) (s : State) → Bounded s → Keeps Bounded (on_pools m s)
pools-Keeps m s v = recs-Keeps (on_mem m) s (
    Keeps-zoom Any IsBounded (λ r. r.mem) (λ r t. record r { mem = t }) m s.recs
      (any (m s.recs.mem)) (λ t _. v))

record_mapping-Keeps :
    (ret len file off : ℕ) (s : State)
    → Bounded s
    → Keeps Bounded (record_mapping ret len file off s)
unfolding record_mapping
record_mapping-Keeps ret len file off s v =
    Keeps-and_then Bounded Bounded (on_pools allocate_file_map_tree_node s) _
      (pools-Keeps allocate_file_map_tree_node s v) (λ p t w. w)

record_file-Keeps :
    (len prot : ℕ) (file : Option ℕ) (off ret : ℕ) (s : State)
    → Bounded s
    → Keeps Bounded (record_file len prot file off ret s)
unfolding record_file
record_file-Keeps len prot none off ret s v = v
record_file-Keeps len prot (some file) off ret s v =
    Keeps-run_if Bounded (has_anonymous_bit prot) _ _ s v (
      Keeps-and_then Bounded Bounded
        ((if get_path file s.files == null
            then (λ s. exit segfault)
            else (if starts_with_at s.bytes (get_path file s.files) dr_prefix
                then pure tt
                else record_mapping ret len file off))
          s)
        _
        (Keeps-run_if Bounded (get_path file s.files == null) (λ s. exit segfault) _ s tt
          (Keeps-run_if Bounded (starts_with_at s.bytes (get_path file s.files) dr_prefix) (pure tt)
            (record_mapping ret len file off) s v (record_mapping-Keeps ret len file off s v)))
        (λ _ t w. w))

-- The state in which `ts_munmap` gives a node back.
abbrev without_mapping : (addr fm : Ptr) → State → State
without_mapping addr fm s =
    let f = set_open_file (s.files.nodes fm).fd null s.files in
    record s {
      files = record f {
        tree = tdelete (file_map_tree_ins_del_compare f.nodes addr) f.tree;
        name_tree = tdelete (file_map_tree_ins_del_compare f.nodes addr) f.name_tree;
      };
    }

pub ts_mmap-Keeps :
    (len prot : ℕ) (file : Option ℕ) (off ret : ℕ) (bytes : Ptr → ℕ) (s : State)
    → Bounded s
    → Keeps Bounded (ts_mmap len prot file off ret bytes s)
unfolding ts_mmap
ts_mmap-Keeps len prot file off ret bytes s v =
    record_file-Keeps len prot file off ret (record s { bytes = bytes }) v

pub ts_munmap-Keeps :
    (addr : Ptr) (ret : ℕ) (s : State) → Bounded s → Keeps Bounded (ts_munmap addr ret s)
unfolding ts_munmap
ts_munmap-Keeps addr ret s v =
    elim (Option-cases (tfind (file_map_tree_ins_del_compare s.files.nodes addr) s.files.tree)) [
      | inl absent ↦ rw (Keeps, absent) v
      | inr (fm, found) ↦
          rw (Keeps, found)
            (Keeps-and_then Bounded Bounded
              (on_pools (withdraw_file_map_tree_node fm) (without_mapping addr fm s)) _
              (pools-Keeps (withdraw_file_map_tree_node fm) (without_mapping addr fm s) v)
              (λ _ t w. w))
    ]

record_copy-Keeps :
    (delete_treenode : Bool) (dest src fm : Ptr) (s : State)
    → Bounded s
    → Keeps Bounded (record_copy delete_treenode dest src fm s)
unfolding record_copy
record_copy-Keeps delete_treenode dest src fm s v =
    let s' : State = record s { files = used fm s.files } in
    let node = s'.files.nodes fm in
    let insert =
      insert_rec delete_treenode s'.files.open_files (add64 node.offset (sub64 src node.start)) dest
        node.file_name node.fd in
    recs-Keeps insert s' (
      Ends-Keeps IsBounded (insert s.recs) (
        insert_rec-Ends delete_treenode s'.files.open_files
          (add64 node.offset (sub64 src node.start)) dest node.file_name node.fd s.recs v))

pub ts_memcpy-Keeps :
    (delete_treenode : Bool) (dest src n : ℕ) (s : State)
    → Bounded s
    → Keeps Bounded (ts_memcpy delete_treenode dest src n s)
unfolding ts_memcpy
ts_memcpy-Keeps delete_treenode dest src n s v =
    let s' : State = record s { bytes = memcpy dest src n s.bytes } in
    elim (Option-cases
      (tfind (file_map_tree_search_compare s.files.nodes src (add64 src n)) s.files.tree)) [
        | inl absent ↦ rw (Keeps, absent) v
        | inr (fm, found) ↦
            rw (Keeps, found)
              (Keeps-and_then Bounded Bounded (record_copy delete_treenode dest src fm s') _
                (record_copy-Keeps delete_treenode dest src fm s' v) (λ _ t w. w))
      ]

pub ts_memcpy_with_file-Keeps :
    (delete_treenode : Bool) (dest src n fm : ℕ) (s : State)
    → Bounded s
    → Keeps Bounded (ts_memcpy_with_file delete_treenode dest src n fm s)
unfolding ts_memcpy_with_file
ts_memcpy_with_file-Keeps delete_treenode dest src n fm s v =
    let s' : State = record s { bytes = memcpy dest src n s.bytes } in
    Keeps-and_then Bounded Bounded
      ((if fm == null then pure tt else record_copy delete_treenode dest src fm) s') _
      (Keeps-run_if Bounded (fm == null) (pure tt) (record_copy delete_treenode dest src fm) s' v
        (record_copy-Keeps delete_treenode dest src fm s' v))
      (λ _ t w. w)

pub ts_read-Keeps :
    (delete_treenode : Bool) (fd buf nbytes : ℕ) (pos pos' : Option ℕ) (s : State)
    → Bounded s
    → Keeps Bounded (ts_read delete_treenode fd buf nbytes pos pos' s)
unfolding ts_read
ts_read-Keeps delete_treenode fd buf nbytes pos pos' s v =
    Keeps-and_then Bounded Bounded (on_pools allocate_file_map_tree_node s) _
      (pools-Keeps allocate_file_map_tree_node s v)
      (λ p s₁ v₁.
        let f =
          set_node p (record (s₁.files.nodes p) { file_name = get_path fd s₁.files }) s₁.files in
        let s₂ : State = record s₁ { files = f } in
        let target =
          tfind (file_map_name_tree_ins_del_compare f.nodes (f.nodes p).file_name) f.name_tree in
        Keeps-and_then Bounded Bounded (on_pools (withdraw_file_map_tree_node p) s₂) _
          (pools-Keeps (withdraw_file_map_tree_node p) s₂ v₁)
          (λ _ s₃ v₃.
            Keeps-and_then Bounded Bounded (or_exit target fatal s₃) _
              (Keeps-or_exit Bounded target fatal s₃ v₃)
              (λ node s₄ v₄.
                Keeps-and_then Bounded Bounded (or_exit pos fatal s₄) _
                  (Keeps-or_exit Bounded pos fatal s₄ v₄)
                  (λ at s₅ v₅.
                    let begin = copy_begin_of (s₅.files.nodes node) at in
                    let len = copy_len_of (s₅.files.nodes node) at nbytes in
                    let fm = s₅.files.open_files (fd % max_file_num) in
                    Keeps-and_then Bounded Bounded
                      (ts_memcpy_with_file delete_treenode buf begin len fm s₅) _
                      (ts_memcpy_with_file-Keeps delete_treenode buf begin len fm s₅ v₅)
                      (λ _ s₆ v₆.
                        Keeps-and_then Bounded Bounded (or_exit pos' fatal s₆) _
                          (Keeps-or_exit Bounded pos' fatal s₆ v₆) (λ _ t w. w))))))
