-- ===== src/Files/WriteBack.antt =====
-- A buffer that `ts_memcpy` filled from a mapped file and `ts_write` then writes.
use cidl.Base.{
  Bool, ℕ, ◌+◌, ◌-◌, ◌≤◌, ◌<◌, ◌≡◌, ap, ◌∙◌, List, [], none, some, add64, word64, ok, arith,
  ==_self,
}
use cidl.Addr.{Ptr, addr2page_num}
use cidl.SearchTree.{tfind}
use cidl.Rec.{find_node}
use cidl.Rec.View.{records}
use cidl.Rec.Owned.{IsOwned, HasRoom}
use cidl.Rec.Insert.Inserted.{IsReady}
use cidl.Rec.Insert.Continues.{records-Continues}
use cidl.State.{State, file_map_tree_search_compare, file_map_name_tree_ins_del_compare}
use cidl.Write.{ts_write}
use cidl.Write.Bounds.{NoneBehind}
use cidl.Files.{memcpy, ts_memcpy}
use cidl.Files.Copy.{used_node, used-by_name, copy_rec, after_copy, ts_memcpy-Inserted}
use cidl.Files.Counts.{Spares, Disjoint, memcpy-SameBytes, copied-ts_write, Inserted-NoneBehind}

-- The range of `n` bytes at `src` lies in the mapping `fm`, which both trees of mappings lead to.
pub record IsMapped (src n : ℕ) (fm : Ptr) (s : State) : Type 0 where
  pub by_range :
      tfind (file_map_tree_search_compare s.files.nodes src (add64 src n)) s.files.tree ≡ some fm
  pub by_name :
      tfind
        (file_map_name_tree_ins_del_compare s.files.nodes (s.files.nodes fm).file_name)
        s.files.name_tree
      ≡ some fm
  pub starts : (s.files.nodes fm).start ≤ src
  pub address : src < word64
  pub position : (s.files.nodes fm).offset + (src - (s.files.nodes fm).start) < word64

pub ts_memcpy-ts_write :
    (delete_treenode : Bool) (dest src n written : ℕ) (bytes : Ptr → ℕ) (fm : Ptr) (s : State)
    {ents arrays : List Ptr} (o : IsOwned ents arrays s.recs)
    → HasRoom s.recs
    → (find_node (addr2page_num dest) s.recs ≡ none → IsReady s.recs)
    → IsMapped src n fm s
    → dest + n < word64
    → Disjoint n dest src
    → records s.recs (addr2page_num dest) ≡ []
    → ((q : ℕ)
        → addr2page_num dest < q
        → q ≤ addr2page_num (dest + n)
        → NoneBehind q (dest + n) (records s.recs q))
    → s.stats.ts_write_same_size + n < word64
    → Spares (memcpy dest src n s.bytes) bytes n dest
    → Spares (memcpy dest src n s.bytes) bytes n src
    → (s₁ : State) × (ts_memcpy delete_treenode dest src n s ≡ ok (dest, s₁))
      × ((ts_write dest n written bytes s₁).1.stats.ts_write_same_size
          ≡ s.stats.ts_write_same_size + n)
ts_memcpy-ts_write delete_treenode dest src n written bytes fm s o room ready m fits apart fresh
      none_behind small kept_dest kept_src =
    let node = s.files.nodes fm in
    let page = addr2page_num dest in
    let (t, run, w) =
      ts_memcpy-Inserted delete_treenode dest src n fm s o room ready m.by_range
        (λ _. records-Continues dest s.recs o fresh) in
    (
      after_copy dest src n fm t s,
      run,
      copied-ts_write dest src n written bytes fm node (after_copy dest src n fm t s)
          (ground (arith, w.appends page, ==_self page, fresh))
          (ap (λ c. tfind c s.files.name_tree) (used-by_name fm s.files node.file_name) ∙ m.by_name)
          (used_node fm s.files) m.starts m.address m.position fits
          (memcpy-SameBytes dest src n s.bytes apart) kept_dest kept_src
          (Inserted-NoneBehind page (dest + n) (copy_rec dest src node) s.recs t w
            (addr2page_num (dest + n)) none_behind)
          small,
    )
