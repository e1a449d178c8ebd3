-- ===== src/Files/First/ToWrite.antt =====
-- From the opening of the first file to the write of a buffer with its bytes.
use cidl.Base.{
  Bool, ℕ, ◌+◌, ◌-◌, ◌≤◌, ◌<◌, ◌≡◌, true, List, [], some, ok, ap, ◌∙◌, sym, subst, arith, word64,
  add64, Ordering,
}
use cidl.Addr.{Ptr, addr2page_num}
use cidl.Pool.{Pool}
use cidl.Rec.{Recs}
use cidl.Rec.View.{records}
use cidl.Rec.Owned.{IsOwned, HasRoom}
use cidl.Rec.Insert.Inserted.{IsReady}
use cidl.State.{State, FileMapTreeNode, file_map_tree_search_compare}
use cidl.Write.{ts_write}
use cidl.Write.Bounds.{NoneBehind}
use cidl.Files.{memcpy, ts_open, ts_mmap, ts_memcpy}
use cidl.Files.Mapping.{mapping, with_nodes}
use cidl.Files.Counts.{Spares, Disjoint}
use cidl.Files.WriteBack.{IsMapped, ts_memcpy-ts_write}
use cidl.Files.First.{IsFirst, opened, ts_open-opened, Mapped, ts_mmap-Mapped, compare_self}
use cidl.SearchTree.One.{tfind-one}

IsOwned-with_nodes :
    {ents arrays : List Ptr} (p : Pool) (r : Recs)
    → IsOwned ents arrays r
    → IsOwned ents arrays (with_nodes p r)
IsOwned-with_nodes p r o = record {
  entry_pool = o.entry_pool;
  arr_pool = o.arr_pool;
  nodes = o.nodes;
  apart = o.apart;
  ents_apart = o.ents_apart;
}

IsReady-with_nodes : (p : Pool) (r : Recs) → IsReady r → IsReady (with_nodes p r)
IsReady-with_nodes p r h = record {
  heads = h.heads;
  high = h.high;
  nonnull = h.nonnull;
  head_pool = h.head_pool;
  counted = h.counted;
}

search-inside :
    (nodes : Ptr → FileMapTreeNode) (src end a : Ptr)
    → (nodes a).start ≤ src
    → src ≤ (nodes a).tail
    → file_map_tree_search_compare nodes src end a ≡ Ordering.eq
search-inside nodes src end a lo hi = ground (arith, lo, hi)

-- An address in the mapping of the only file is found in it.
Mapped-IsMapped :
    (ret len fd off src n path : ℕ) (s t : State) (bound : Ptr) (lent : List Ptr)
    (m : Mapped bound lent (mapping ret len fd off s) path s t)
    → ret ≤ src
    → src ≤ ret + len
    → ret + len < word64
    → off + (src - ret) < word64
    → IsMapped src n m.done.addr t
Mapped-IsMapped ret len fd off src n path s t bound lent m lo hi small position =
    let a = m.done.addr in
    let begins : (t.files.nodes a).start ≡ ret = ap (λ f. f.start) m.done.fields in
    let ends : (t.files.nodes a).tail ≡ add64 ret len = ap (λ f. f.tail) m.done.fields in
    let from : (t.files.nodes a).offset ≡ off = ap (λ f. f.offset) m.done.fields in
    record {
      by_range = tfind-one _ a t.files.tree m.one_start (
          search-inside t.files.nodes src (add64 src n) a (omega (arith, begins))
            (omega (arith, ends)));
      by_name =
          tfind-one _ a t.files.name_tree m.one_name (compare_self (t.files.nodes a).file_name);
      starts = omega (arith, begins);
      address = omega arith;
      position = rw (begins, from) position;
    }

-- The first file of a program, with a path that does not start with "./pmem/DR-", is opened and
-- mapped without the bit of MAP_ANONYMOUS, and a buffer is filled by `ts_memcpy`, of either build,
-- with or without DELETE_TREENODE, from an address in the mapping and then written. While a node of
-- mappings is free and the record pools have room, the ranges, the file offset and the count do not
-- wrap around, the buffer and its source do not overlap, and the buffer's first page has no record
-- and its later pages none behind its end, and the system call of the write changes neither the buffer
-- nor the bytes that it was copied from, all calls return, and the write counts exactly the length of
-- the buffer as the same.
pub ts_open-ts_write :
    (delete_treenode : Bool) (fd : ℕ) (path : Ptr) (len prot off ret : ℕ) (dest src n written : ℕ)
    (mapped bytes : Ptr → ℕ) (s : State) (bound : Ptr) (lent : List Ptr) {ents arrays : List Ptr}
    (o : IsOwned ents arrays s.recs)
    → HasRoom s.recs
    → IsReady s.recs
    → IsFirst bound lent path prot (record s { bytes = mapped })
    → ret ≤ src
    → src ≤ ret + len
    → ret + len < word64
    → off + (src - ret) < word64
    → dest + n < word64
    → Disjoint n dest src
    → records s.recs (addr2page_num dest) ≡ []
    → ((q : ℕ)
        → addr2page_num dest < q
        → q ≤ addr2page_num (dest + n)
        → NoneBehind q (dest + n) (records s.recs q))
    → s.stats.ts_write_same_size + n < word64
    → Spares (memcpy dest src n mapped) bytes n dest
    → Spares (memcpy dest src n mapped) bytes n src
    → (t : State) × (u : State) × (ts_open (some fd) path true s ≡ ok (some fd, opened fd path s))
      × (ts_mmap len prot (some fd) off ret mapped (opened fd path s) ≡ ok (ret, t))
      × (ts_memcpy delete_treenode dest src n t ≡ ok (dest, u))
      × ((ts_write dest n written bytes u).1.stats.ts_write_same_size
          ≡ s.stats.ts_write_same_size + n)
ts_open-ts_write delete_treenode fd path len prot off ret dest src n written mapped bytes s bound
      lent {ents} {arrays} o room ready first lo hi small position fits apart fresh none_behind
      counts kept_dest kept_src =
    let (t, run, m) = ts_mmap-Mapped fd path len prot off ret mapped s bound lent first in
    let (p, same) = m.done.rest in
    let keep : (P : Recs → Type 0) → P (with_nodes p s.recs) → P t.recs =
      λ P h. subst P (sym same) h in
    let memory : (P : (Ptr → ℕ) → Type 0) → P mapped → P t.bytes =
      λ P h. subst P (sym m.done.bytes_stay) h in
    let stats = ap (λ x. x.ts_write_same_size) m.done.stats_stay in
    let (u, copy, write) =
      ts_memcpy-ts_write delete_treenode dest src n written bytes m.done.addr t
        (keep (IsOwned ents arrays) (IsOwned-with_nodes p s.recs o)) (keep HasRoom room)
        (λ e. keep IsReady (IsReady-with_nodes p s.recs ready))
        (Mapped-IsMapped ret len fd off src n path (opened fd path (record s { bytes = mapped })) t
          bound lent m lo hi small position)
        fits apart (keep (λ r. records r (addr2page_num dest) ≡ []) fresh)
        (λ q a b. keep (λ r. NoneBehind q (dest + n) (records r q)) (none_behind q a b))
        (omega (arith, stats)) (memory (λ b. Spares (memcpy dest src n b) bytes n dest) kept_dest)
        (memory (λ b. Spares (memcpy dest src n b) bytes n src) kept_src) in
    (t, u, ts_open-opened fd path s first.named, run, copy, write ∙ ap (λ (x : ℕ). x + n) stats)
