-- ===== src/Files/First/ToClose.antt =====
-- From the opening of the first file to its close.
use cidl.Base.{
  ℕ, ◌≡◌, true, List, ◌∷◌, some, null, ok, ap, ◌∙◌, sym, subst, arith, Ordering, erase, ==_self,
  ◌%◌,
}
use cidl.Addr.{Ptr}
use cidl.Mem.{file_map_tree_node_pool_size}
use cidl.Pool.Valid.{IsValid}
use cidl.SearchTree.{empty}
use cidl.Rec.{max_file_num}
use cidl.State.{State, file_map_name_tree_ins_del_compare}
use cidl.Files.{ts_close, ts_open, ts_mmap, get_path}
use cidl.Files.Close.{ts_close-Closed}
use cidl.Files.First.{IsFirst, opened, ts_open-opened, opened-path, ts_mmap-Mapped, compare_self}
use cidl.SearchTree.One.{tfind-one, tdelete-one}

erase_head : (a : Ptr) (l : List Ptr) → erase a (a ∷ l) ≡ l
erase_head a l = ground (arith, ==_self a)

-- The first file of a program, with a path that does not start with "./pmem/DR-", is opened, mapped
-- without the bit of MAP_ANONYMOUS while a node is free, and closed: the calls return what the system
-- returned, and then both trees of mappings are empty again, the slot of the descriptor is clear, and
-- the pool of the nodes is valid with the same nodes in use.
pub ts_open-ts_close :
    (fd : ℕ) (path : Ptr) (len prot off ret closed : ℕ) (bytes : Ptr → ℕ) (s : State) (bound : Ptr)
    (lent : List Ptr)
    → IsFirst bound lent path prot (record s { bytes = bytes })
    → (t : State) × (u : State) × (ts_open (some fd) path true s ≡ ok (some fd, opened fd path s))
      × (ts_mmap len prot (some fd) off ret bytes (opened fd path s) ≡ ok (ret, t))
      × (ts_close fd (some closed) t ≡ ok (some closed, u))
      × (u.files.tree ≡ empty)
      × (u.files.name_tree ≡ empty)
      × (u.files.open_files (fd % max_file_num) ≡ null)
      × IsValid bound lent u.recs.mem.file_map_tree_nodes
ts_open-ts_close fd path len prot off ret closed bytes s bound lent first =
    let (t, run, m) = ts_mmap-Mapped fd path len prot off ret bytes s bound lent first in
    let a = m.done.addr in
    let known : get_path fd t.files ≡ path =
      ap (λ f. f (fd % file_map_tree_node_pool_size)) m.done.paths_stay ∙ opened-path fd path s in
    let by_path : file_map_name_tree_ins_del_compare t.files.nodes (get_path fd t.files) a
        ≡ Ordering.eq =
      rw (known, m.done.fields, m.name) (compare_self path) in
    let slot : (t.files.nodes a).fd ≡ fd = ap (λ f. f.fd) m.done.fields in
    let (u, close, w) =
      ts_close-Closed fd closed a t bound (a ∷ lent) m.done.pool (λ z. first.named (sym known ∙ z))
        (tfind-one _ a t.files.tree m.one_start by_path) (ground (arith, ==_self a)) in
    (
      t,
      u,
      ts_open-opened fd path s first.named,
      run,
      close,
      w.tree ∙ tdelete-one _ a t.files.tree m.one_start by_path,
      w.name_tree ∙ tdelete-one _ a t.files.name_tree m.one_name by_path,
      subst (λ (k : ℕ). u.files.open_files (k % max_file_num) ≡ null) slot w.slot,
      subst (λ (l : List Ptr). IsValid bound l u.recs.mem.file_map_tree_nodes) (erase_head a lent)
          w.pool,
    )
