-- ===== src/Files.antt =====
-- The functions of awn.c that map files and copy from them: `ts_mmap`, `ts_munmap`, `ts_memcpy`,
-- `ts_memcpy_withFile`, `ts_read`, `ts_open`, `ts_openat`, `ts_fopen` and `ts_close`.
-- What a system call returns is an argument.
pub mod Copy
pub mod Counts
pub mod WriteBack
pub mod ReadBack
pub mod Mapping
pub mod Read
pub mod Unmap
pub mod Forget
pub mod Close
pub mod First
use cidl.Base.{
  ℕ, zero, suc, ◌+◌, ◌-◌, ◌/◌, ◌%◌, ◌^◌, ◌≤◌, Bool, true, false, ◌&&◌, not, List, [], ◌∷◌, ltb, leb,
  ◌==◌, if◌then◌else◌, Option, none, some, null, word64, add64, sub64, to_int, Run, pure, get,
  modify, exit, or_exit, fatal, segfault, min, ◌>>◌, ◌>>=◌,
}
use cidl.Addr.{Ptr}
use cidl.SearchTree.{tfind, tsearch, tdelete}
use cidl.Mem.{
  allocate_file_map_tree_node, withdraw_file_map_tree_node, file_map_tree_node_pool_size,
}
use cidl.Rec.{max_file_num}
use cidl.Rec.Insert.{insert_rec}
use cidl.State.{
  State, Files, FileMapTreeNode, file_map_tree_ins_del_compare, file_map_name_tree_ins_del_compare,
  file_map_tree_search_compare, on_recs, on_pools, on_files,
}

-- `FD2PATH[fd%FILEMAPTREENODEPOOLSIZE]`, read and written.
abbrev pub get_path : ℕ → Files → Ptr
get_path fd f = f.fd2path (fd % file_map_tree_node_pool_size)

abbrev pub store_path : ℕ → Ptr → Files → Files
store_path fd path f = record f {
  fd2path = λ i. if i == fd % file_map_tree_node_pool_size then path else f.fd2path i;
}

abbrev pub set_open_file : ℕ → Ptr → Files → Files
set_open_file fd p f = record f {
  open_files = λ i. if i == fd % max_file_num then p else f.open_files i;
}

abbrev pub set_node : Ptr → FileMapTreeNode → Files → Files
set_node p n f = record f { nodes = λ q. if q == p then n else f.nodes q }

-- The text "./pmem/DR-" that `ts_mmap` looks for at the start of a path.
abbrev pub dr_prefix : List ℕ
dr_prefix = b'.' ∷ b'/' ∷ b'p' ∷ b'm' ∷ b'e' ∷ b'm' ∷ b'/' ∷ b'D' ∷ b'R' ∷ b'-' ∷ []

abbrev pub starts_with_at : (Ptr → ℕ) → Ptr → List ℕ → Bool
starts_with_at bytes p [] = true
starts_with_at bytes p (c ∷ cs) = bytes p == c && starts_with_at bytes (p + 1) cs

-- `prot & MAP_ANONYMOUS`, the bit 0x20.
abbrev pub has_anonymous_bit : ℕ → Bool
has_anonymous_bit prot = not ((prot / 2 ^ 5) % 2 == 0)

-- The part of `ts_mmap` that records the mapping of `file` at `ret`.
unfoldable pub record_mapping : (ret len file off : ℕ) → Run State (Unit {0})
record_mapping ret len file off = do
  tree_node ← on_pools allocate_file_map_tree_node
  on_files (
      modify (λ f.
        set_node tree_node
          (record {
            start = ret;
            tail = add64 ret len;
            used_time = 0;
            file_name = get_path file f;
            offset = off;
            fd = file;
          })
          f))
  on_files (modify (set_open_file file tree_node))
  on_files (
      modify (λ f. record f {
        tree = tsearch (file_map_tree_ins_del_compare f.nodes ret) tree_node f.tree;
      }))
  on_files (
      modify (λ f. record f {
        name_tree =
            tsearch (file_map_name_tree_ins_del_compare f.nodes (f.nodes tree_node).file_name)
              tree_node f.name_tree;
      }))

-- The part of `ts_mmap` behind the system call. `file` is `none` for a negative descriptor.
unfoldable pub record_file : (len prot : ℕ) → (file : Option ℕ) → (off ret : ℕ) → Run State Ptr
record_file len prot none off ret = pure ret
record_file len prot (some file) off ret = if has_anonymous_bit prot then pure ret else do
  s ← get
  let path = get_path file s.files
  if path == null
      then (λ s. exit segfault)
      else (if starts_with_at s.bytes path dr_prefix
          then pure tt
          else record_mapping ret len file off)
  pure ret

-- `ts_mmap`. `mmap` returns `ret`, and the memory, with what is mapped, is then as in `bytes`.
unfoldable pub ts_mmap :
    (len prot : ℕ) → (file : Option ℕ) → (off ret : ℕ) → (bytes : Ptr → ℕ) → Run State Ptr
ts_mmap len prot file off ret bytes = do
  modify (λ s. record s { bytes = bytes })
  record_file len prot file off ret

-- `ts_munmap`, which also frees the text of the file name. `ret` is what `munmap` returns. The
-- node is taken out of the tree by names with the comparison by starts.
unfoldable pub ts_munmap : (addr : Ptr) → (ret : ℕ) → Run State ℕ
ts_munmap addr ret = do
  s ← get
  elim (tfind (file_map_tree_ins_del_compare s.files.nodes addr) s.files.tree) [
    | none ↦ pure tt
    | some freep ↦ do
      on_files (modify (set_open_file (s.files.nodes freep).fd null))
      on_files (
          modify (λ f. record f {
            tree = tdelete (file_map_tree_ins_del_compare f.nodes addr) f.tree;
            name_tree = tdelete (file_map_tree_ins_del_compare f.nodes addr) f.name_tree;
          }))
      on_pools (withdraw_file_map_tree_node freep)
  ]
  pure ret

-- `memcpy` of ranges that do not overlap.
abbrev pub memcpy : (dest src : Ptr) → (n : ℕ) → (Ptr → ℕ) → Ptr → ℕ
memcpy dest src n bytes a =
    if leb dest a && ltb a (dest + n) then bytes (src + (a - dest)) else bytes a

-- The record of a copy from the mapping at `fm`, which both copying functions make.
unfoldable pub record_copy : (delete_treenode : Bool) → (dest src fm : Ptr) → Run State (Unit {0})
record_copy delete_treenode dest src fm = do
  on_files
      (modify (λ f. set_node fm (record (f.nodes fm) { used_time = (f.nodes fm).used_time + 1 }) f))
  s ← get
  let node = s.files.nodes fm
  on_recs (
      insert_rec delete_treenode s.files.open_files (add64 node.offset (sub64 src node.start)) dest
        node.file_name node.fd)

-- `ts_memcpy`: the mapping is looked for by the source range.
unfoldable pub ts_memcpy : (delete_treenode : Bool) → (dest src : Ptr) → (n : ℕ) → Run State Ptr
ts_memcpy delete_treenode dest src n = do
  modify (λ s. record s { bytes = memcpy dest src n s.bytes })
  s ← get
  elim (tfind (file_map_tree_search_compare s.files.nodes src (add64 src n)) s.files.tree) [
    | none ↦ pure tt
    | some fm ↦ record_copy delete_treenode dest src fm
  ]
  pure dest

-- `ts_memcpy_withFile`: the caller gives the mapping.
unfoldable pub ts_memcpy_with_file :
    (delete_treenode : Bool) → (dest src : Ptr) → (n : ℕ) → (fm : Ptr) → Run State Ptr
ts_memcpy_with_file delete_treenode dest src n fm = do
  modify (λ s. record s { bytes = memcpy dest src n s.bytes })
  if fm == null then pure tt else record_copy delete_treenode dest src fm
  pure dest

-- `copyBegin = node->start+(seekRet - node->offset)` and the bytes from there to the mapping's end.
abbrev pub copy_begin_of : FileMapTreeNode → (pos : ℕ) → Ptr
copy_begin_of node pos = add64 node.start (sub64 pos node.offset)

abbrev pub copy_len_of : FileMapTreeNode → (pos nbytes : ℕ) → ℕ
copy_len_of node pos nbytes =
    let left = sub64 node.tail (copy_begin_of node pos) in if ltb left nbytes then left else nbytes

-- `ts_read`. `pos` and `pos'` are what the two calls of `lseek` return, `none` for -1.
unfoldable pub ts_read :
    (delete_treenode : Bool)
    → (fd : ℕ) → (buf : Ptr) → (nbytes : ℕ) → (pos pos' : Option ℕ) → Run State ℕ
ts_read delete_treenode fd buf nbytes pos pos' = do
  tree_node ← on_pools allocate_file_map_tree_node
  on_files (
      modify (λ f. set_node tree_node (record (f.nodes tree_node) { file_name = get_path fd f }) f))
  s ← get
  let target =
      tfind (file_map_name_tree_ins_del_compare s.files.nodes (s.files.nodes tree_node).file_name)
        s.files.name_tree
  on_pools (withdraw_file_map_tree_node tree_node)
  node ← or_exit target fatal
  seek_ret ← or_exit pos fatal
  s ← get
  let copy_begin = copy_begin_of (s.files.nodes node) seek_ret
  let copy_len = copy_len_of (s.files.nodes node) seek_ret nbytes
  _ ←
      ts_memcpy_with_file delete_treenode buf copy_begin copy_len
        (s.files.open_files (fd % max_file_num))
  _ ← or_exit pos' fatal
  pure copy_len

-- `ts_open`: `result` is the descriptor, or `none` if `open` fails; `abpath` is what `realpath`
-- returns; `stat_ok` whether `fstat` succeeds.
unfoldable pub ts_open :
    (result : Option ℕ) → (abpath : Ptr) → (stat_ok : Bool) → Run State (Option ℕ)
ts_open none abpath stat_ok = pure none
ts_open (some fd) abpath stat_ok = do
  if abpath == null then pure tt else on_files (modify (store_path fd abpath))
  if stat_ok then pure tt else (λ s. exit fatal)
  pure (some fd)

-- `ts_openat` stores the path that the caller gave.
unfoldable pub ts_openat :
    (result : Option ℕ) → (path : Ptr) → (stat_ok : Bool) → Run State (Option ℕ)
ts_openat none path stat_ok = pure none
ts_openat (some fd) path stat_ok = do
  if path == null then pure tt else on_files (modify (store_path fd path))
  if stat_ok then pure tt else (λ s. exit fatal)
  pure (some fd)

-- `ts_fopen`: `result` is the descriptor of the stream. Without a real path the descriptor stays 0.
-- `size` is what `fstat` of the descriptor reports, `none` if it fails.
unfoldable pub ts_fopen :
    (result : Option ℕ) → (abpath : Ptr) → (size : ℕ → Option ℕ) → Run State (Option ℕ)
ts_fopen none abpath size = pure none
ts_fopen (some fileno) abpath size = do
  let fd : ℕ = if abpath == null then 0 else fileno
  st_size ← or_exit (size fd) fatal
  if st_size == 0 then pure tt else on_files (modify (store_path fd abpath))
  pure (some fileno)

-- `ts_close`: `result` is `none` if `close` fails. The tree by starts is searched with the comparison
-- by names.
unfoldable pub ts_close : (fd : ℕ) → (result : Option ℕ) → Run State (Option ℕ)
ts_close fd none = pure none
ts_close fd (some result) = do
  s ← get
  let abpath = get_path fd s.files
  let found = tfind (file_map_name_tree_ins_del_compare s.files.nodes abpath) s.files.tree
  if abpath == null then pure tt else elim found [
    | none ↦ pure tt
    | some freep ↦ do
      on_files (modify (set_open_file (s.files.nodes freep).fd null))
      on_files (
          modify (λ f. record f {
            tree = tdelete (file_map_name_tree_ins_del_compare f.nodes abpath) f.tree;
            name_tree = tdelete (file_map_name_tree_ins_del_compare f.nodes abpath) f.name_tree;
          }))
      on_pools (withdraw_file_map_tree_node freep)
  ]
  pure (some result)
