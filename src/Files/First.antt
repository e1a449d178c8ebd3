-- ===== src/Files/First.antt =====
-- The first file that a program opens and maps.
pub mod ToWrite
pub mod ToClose
use cidl.Base.{
  ℕ, ◌+◌, ◌-◌, ◌≤◌, ◌<◌, ◌≡◌, ◌≢◌, refl, true, false, List, [], ◌∷◌, some, null, ok, ap, ◌∙◌, sym,
  subst, arith, word64, add64, ne→==, Ordering, erase, ==_self, Option, compare, ◌%◌,
}
use cidl.Addr.{Ptr, addr2page_num}
use cidl.Pool.{Pool}
use cidl.Mem.{file_map_tree_node_pool_size}
use cidl.Pool.Valid.{IsValid}
use cidl.SearchTree.{Tree, empty, node, tfind, tsearch, tdelete, join}
use cidl.Rec.{Recs, max_file_num}
use cidl.Rec.View.{records}
use cidl.Rec.Owned.{IsOwned, HasRoom}
use cidl.Rec.Insert.Inserted.{IsReady}
use cidl.State.{
  State, FileMapTreeNode, file_map_tree_search_compare, file_map_name_tree_ins_del_compare,
}
use cidl.Write.{ts_write}
use cidl.Write.Bounds.{NoneBehind}
use cidl.Files.{
  ts_close, ts_open, ts_mmap, ts_memcpy, get_path, store_path, dr_prefix, starts_with_at,
  has_anonymous_bit,
}
use cidl.Files.Mapping.{Recorded, mapping, ts_mmap-Recorded, with_nodes}
use cidl.Files.Counts.{Disjoint}
use cidl.Files.WriteBack.{IsMapped, ts_memcpy-ts_write}
use cidl.Files.Close.{ts_close-Closed}
use cidl.SearchTree.One.{tsearch-empty}

-- A file that can be opened and mapped, while no mapping is recorded.
pub record IsFirst (bound : Ptr) (lent : List Ptr) (path : Ptr) (prot : ℕ) (s : State)
    : Type 0 where
  pub pool : IsValid bound lent s.recs.mem.file_map_tree_nodes
  pub free : 0 < s.recs.mem.file_map_tree_nodes.idx
  pub readable : has_anonymous_bit prot ≡ false
  pub named : path ≢ null
  pub plain : starts_with_at s.bytes path dr_prefix ≡ false
  pub no_start : s.files.tree ≡ empty
  pub no_name : s.files.name_tree ≡ empty

abbrev pub opened : ℕ → Ptr → State → State
opened fd path s = record s { files = store_path fd path s.files }

pub ts_open-opened :
    (fd : ℕ) (path : Ptr) (s : State)
    → path ≢ null
    → ts_open (some fd) path true s ≡ ok (some fd, opened fd path s)
unfolding ts_open
ts_open-opened fd path s ne = rw (ne→== path null ne) refl

pub opened-path : (fd : ℕ) (path : Ptr) (s : State) → get_path fd (opened fd path s).files ≡ path
opened-path fd path s = ground arith

-- The file has been opened and mapped: both trees hold its node alone.
pub record Mapped (bound : Ptr) (lent : List Ptr) (m : FileMapTreeNode) (path : Ptr) (s t : State)
    : Type 0 where
  pub done : Recorded bound lent m s t
  pub one_start : t.files.tree ≡ node empty (done.addr) empty
  pub one_name : t.files.name_tree ≡ node empty (done.addr) empty
  pub name : m.file_name ≡ path

pub ts_mmap-Mapped :
    (fd : ℕ) (path : Ptr) (len prot off ret : ℕ) (bytes : Ptr → ℕ) (s : State) (bound : Ptr)
    (lent : List Ptr)
    → IsFirst bound lent path prot (record s { bytes = bytes })
    → (t : State) × (ts_mmap len prot (some fd) off ret bytes (opened fd path s) ≡ ok (ret, t))
      × Mapped bound lent
          (mapping ret len fd off (opened fd path s))
          path
          (opened fd path (record s { bytes = bytes }))
          t
ts_mmap-Mapped fd path len prot off ret bytes s bound lent f =
    let e = opened-path fd path s in
    let (t, run, w) =
      ts_mmap-Recorded len prot fd off ret bytes (opened fd path s) bound lent f.pool f.free
        f.readable (λ z. f.named (sym e ∙ z))
        (subst (λ (p : Ptr). starts_with_at bytes p dr_prefix ≡ false) (sym e) f.plain) in
    (
      t,
      run,
      record {
        done = w;
        one_start = w.tree ∙ tsearch-empty _ w.addr s.files.tree f.no_start;
        one_name = w.name_tree ∙ tsearch-empty _ w.addr s.files.name_tree f.no_name;
        name = e;
      },
    )

pub compare_self : (k : ℕ) → compare k k ≡ Ordering.eq
compare_self k = ground arith
