-- ===== src/Files/Forget.antt =====
-- The tree of mappings by their starts over `ts_mmap` and `ts_munmap`.
use mathlib.Core.Path.{ap₂}
use cidl.Base.{
  Option, compare, ℕ, ◌<◌, ◌≡◌, ◌≢◌, ◌==◌, ap, sym, ◌∙◌, subst, if◌then◌else◌, none, some, true,
  false, has, List, ◌∷◌, null, ok, arith, Bool-cases, inl, inr, ==→eq,
}
use cidl.Addr.{Ptr}
use cidl.Pool.Valid.{IsValid}
use cidl.SearchTree.{tfind, tdelete}
use cidl.SearchTree.All.{All, All-weaken, tfind-agree}
use cidl.SearchTree.Lookup.{or_else, tfind-tsearch}
use cidl.SearchTree.Order.{
  IsOrdered, IsOrdered-agree, tsearch-IsOrdered, tdelete-IsOrdered, tfind-tdelete,
}
use cidl.State.{State, Files, file_map_tree_ins_del_compare}
use cidl.Files.{ts_mmap, ts_munmap, get_path, dr_prefix, starts_with_at, has_anonymous_bit}
use cidl.Files.Mapping.{ts_mmap-Recorded}
use cidl.Files.Unmap.{ts_munmap-Released}

-- The start of a mapping, and what a search by an address finds.
abbrev pub start_of : Files → Ptr → ℕ
start_of f p = (f.nodes p).start

abbrev pub find_start : ℕ → Files → Option Ptr
find_start addr f = tfind (file_map_tree_ins_del_compare f.nodes addr) f.tree

-- While the mappings are in the order of distinct starts, `ts_munmap` of an address at which a mapping
-- starts whose node is in use makes the search by starts find nothing there; at all other addresses it
-- finds what it found, and the order stays.
pub ts_munmap_forgets :
    (addr : Ptr) (ret : ℕ) (fm : Ptr) (s : State) (bound : Ptr) (lent : List Ptr)
    → IsValid bound lent s.recs.mem.file_map_tree_nodes
    → find_start addr s.files ≡ some fm
    → has fm lent ≡ true
    → IsOrdered (start_of s.files) s.files.tree
    → (t : State) × (ts_munmap addr ret s ≡ ok (ret, t))
      × ((j : ℕ) → find_start j t.files ≡ (if addr == j then none else find_start j s.files))
      × IsOrdered (start_of t.files) t.files.tree
ts_munmap_forgets addr ret fm s bound lent v found in_use order =
    let (t, run, w) = ts_munmap-Released addr ret fm s bound lent v found in_use in
    let cut = tdelete (file_map_tree_ins_del_compare s.files.nodes addr) s.files.tree in
    (
      t,
      run,
      λ j.
          ap₂ (λ n u. tfind (file_map_tree_ins_del_compare n j) u) w.nodes_stay w.tree
          ∙ tfind-tdelete (start_of s.files) addr j s.files.tree order,
      subst (λ n. IsOrdered (λ p. (n p).start) t.files.tree) (sym w.nodes_stay)
          (subst (IsOrdered (start_of s.files)) (sym w.tree)
            (tdelete-IsOrdered (start_of s.files) addr s.files.tree order)),
    )

-- A mapping that is made where none starts, and then unmapped, leaves what a search by starts finds:
-- `ts_mmap` and `ts_munmap` return what the system returned, and every search finds what it found
-- before. The mapping is recorded as for `ts_mmap` alone, the nodes in the tree are in use, and the
-- tree is in the order of distinct starts.
pub ts_mmap-ts_munmap :
    (len prot file off ret unmapped : ℕ) (bytes : Ptr → ℕ) (s : State) (bound : Ptr)
    (lent : List Ptr)
    → IsValid bound lent s.recs.mem.file_map_tree_nodes
    → 0 < s.recs.mem.file_map_tree_nodes.idx
    → has_anonymous_bit prot ≡ false
    → get_path file s.files ≢ null
    → starts_with_at bytes (get_path file s.files) dr_prefix ≡ false
    → All (λ p. has p lent ≡ true) s.files.tree
    → IsOrdered (start_of s.files) s.files.tree
    → find_start ret s.files ≡ none
    → (t : State) × (u : State) × (ts_mmap len prot (some file) off ret bytes s ≡ ok (ret, t))
      × (ts_munmap ret unmapped t ≡ ok (unmapped, u))
      × ((j : ℕ) → find_start j u.files ≡ find_start j s.files)
ts_mmap-ts_munmap len prot file off ret unmapped bytes s bound lent v free flag path other in_use
      order fresh =
    let (t, run, w) =
      ts_mmap-Recorded len prot file off ret bytes s bound lent v free flag path other in
    let same : All (λ p. start_of t.files p ≡ start_of s.files p) s.files.tree =
      All-weaken (λ p. has p lent ≡ true) (λ p. start_of t.files p ≡ start_of s.files p)
        s.files.tree
        (λ p used.
          ap (λ n. n.start)
            (w.others p
              (λ e. ground (arith, w.pool.lent_distinct.0, used, ap (λ (a : Ptr). has a lent) e))))
        in_use in
    let same_find : (j : ℕ)
        → tfind (file_map_tree_ins_del_compare t.files.nodes j) s.files.tree
          ≡ find_start j s.files =
      λ j.
        tfind-agree (file_map_tree_ins_del_compare t.files.nodes j)
          (file_map_tree_ins_del_compare s.files.nodes j) s.files.tree
          (All-weaken (λ p. start_of t.files p ≡ start_of s.files p) _ s.files.tree
            (λ p e. ap (compare j) e) same) in
    let starts : start_of t.files w.addr ≡ ret = ap (λ n. n.start) w.fields in
    let order' : IsOrdered (start_of t.files) t.files.tree =
      subst (IsOrdered (start_of t.files)) (sym w.tree) (
        tsearch-IsOrdered (start_of t.files) ret w.addr s.files.tree starts
          (IsOrdered-agree (start_of s.files) (start_of t.files) s.files.tree same order)) in
    let found : find_start ret t.files ≡ some w.addr =
      w.by_start ∙ ap (λ o. or_else o w.addr) (same_find ret ∙ fresh) in
    let (u, run', finds, _) =
      ts_munmap_forgets ret unmapped w.addr t bound (w.addr ∷ lent) w.pool found (ground arith)
        order' in
    (
      t,
      u,
      run,
      run',
      λ j. finds j ∙ elim (Bool-cases (ret == j)) [
        | inl here ↦ rw here (sym fresh ∙ ap (λ (k : ℕ). find_start k s.files) (==→eq _ _ here))
        | inr there ↦ rw there (
            ap (tfind (file_map_tree_ins_del_compare t.files.nodes j)) w.tree
            ∙ tfind-tsearch (start_of t.files) ret j w.addr s.files.tree starts
            ∙ ap
                (λ b.
                  if b
                  then or_else (tfind (file_map_tree_ins_del_compare t.files.nodes j) s.files.tree)
                      w.addr
                  else tfind (file_map_tree_ins_del_compare t.files.nodes j) s.files.tree)
                there
            ∙ same_find j)
      ],
    )
