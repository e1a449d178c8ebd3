-- ===== src/Rec/Reclaim.antt =====
-- The reclamation of record nodes in tree.c.
pub mod Compact
pub mod Terminates
pub mod Walks
pub mod OneLoop
pub mod OneArray
pub mod Open
pub mod TwoLoop
pub mod TwoArrays
use cidl.Base.{
  ℕ, zero, suc, ◌+◌, ◌-◌, ◌*◌, ◌≡◌, Bool, true, false, ◌&&◌, ◌||◌, not, List, [], ◌∷◌, reverse, ltb,
  leb, ◌==◌, if◌then◌else◌, Option, none, some, length, null, Result, ok, exit, out_of_fuel, Run,
  pure, get, modify, or_exit, and_then, segfault, ◌>>◌, ◌>>=◌,
}
use cidl.Addr.{Ptr}
use cidl.Mem.{
  Mem, mem_rec_per_entry, threshold_of, withdraw_mem_rec_arr, withdraw_rec_block_entry,
  withdraw_tail_head, withdraw_rec_tree_node,
}
use cidl.SearchTree
use cidl.SearchTree.{tdelete, tfind}
use cidl.SearchTree.Walk.{walk, is_empty, Visit, preorder, postorder, endorder, leaf}
use cidl.Rec.{
  MemRec, RecBlockEntry, RecTreeNode, Recs, rec_compare, write_rec_at, on_mem, find_node,
  modify_node, file_slot, OpenFiles,
}

abbrev pub has_node : ℕ → Recs → Bool
has_node page s = elim (find_node page s) [ none ↦ false | some _ ↦ true ]

-- A place in the queue of a node: the entry with those before it, nearest first (`TAILQ_PREV`),
-- the array and the index of the record that the pointer stands at, and the two counters.
pub record Cursor : Type 0 where
  pub ent : RecBlockEntry
  pub prev : List RecBlockEntry
  pub arr : Ptr
  pub at : ℕ
  pub idx : ℕ
  pub max_idx : ℕ

-- `TAILQ_PREV(ent)?(MEMRECPERENTRY-1):(node->memRecIdx-1)`. The difference is compared with a
-- counter that is not negative, so it may stop at 0.
abbrev pub max_of : List RecBlockEntry → ℕ → ℕ
max_of [] mem_rec_idx = mem_rec_idx - 1
max_of (_ ∷ _) mem_rec_idx = mem_rec_per_entry - 1

-- `NEXTKEEPED` and `NEXTSEARCHING`, which are the same but for their names. The pointer is a copy
-- of the caller's, and `return keeped++` returns it before it is incremented.
pub next : ℕ → Cursor → Option Cursor
next mem_rec_idx c =
    if ltb c.idx c.max_idx then some (record c { idx = c.idx + 1 }) else to_prev c.prev
  where
    to_prev : List RecBlockEntry → Option Cursor
    to_prev [] = none
    to_prev (e ∷ es) = some (record {
      ent = e;
      prev = es;
      arr = e.rec_arr;
      at = 0;
      idx = 0;
      max_idx = max_of es mem_rec_idx;
    })

-- `openFileArray[(searching->fd)%MAX_FILE_NUM]`
pub is_open : OpenFiles → MemRec → Run Recs Bool
is_open open_files r = do
  slot ← or_exit (file_slot r.fd) segfault
  pure (not (open_files slot == null))

-- The loop that moves the records of open files to the front, on fuel. `keeped` runs out only
-- after `searching` or through NULL.
pub compact_loop : OpenFiles → (page fuel : ℕ) → Option Cursor → Option Cursor → Run Recs (Unit {0})
unfolding next is_open
compact_loop open_files page fuel keeped none = pure tt
compact_loop open_files page zero keeped (some searching) = λ s. out_of_fuel
compact_loop open_files page (suc fuel) keeped (some searching) = do
  s ← get
  live ← is_open open_files (s.store searching.arr searching.at)
  node ← or_exit (find_node page s) segfault
  k ← or_exit keeped segfault
  let same = k.arr == searching.arr && k.at == searching.at
  let step = λ (m : ℕ) (k' : Option Cursor). compact_loop open_files page fuel k' (next m searching)
  elim live [
    | true ↦ elim same [
      | true ↦ step node.mem_rec_idx (some k)
      | false ↦ do
        modify (λ s. record s {
          store = write_rec_at s.store k.arr k.at (s.store searching.arr searching.at);
        })
        step node.mem_rec_idx (next node.mem_rec_idx k)
    ]
    | false ↦ do
      modify (modify_node page (λ n. record n { rec_mod_entry = k.ent.addr; mem_rec_idx = k.idx }))
      step k.idx (next k.idx k)
  ]

-- `while(delEnt != keepEnt){ … }`: the entries before the kept one are given back.
pub drop_until : Ptr → List RecBlockEntry → Run Recs (List RecBlockEntry)
drop_until keep_ent [] = if keep_ent == null then pure [] else λ s. exit segfault
drop_until keep_ent (e ∷ es) =
    let rest = drop_until keep_ent es in
    if e.addr == keep_ent
    then pure (e ∷ es)
    else do on_mem (withdraw_mem_rec_arr e.rec_arr); on_mem (withdraw_rec_block_entry e.addr); rest

-- The first cursor of the loop, at `TAILQ_LAST`.
abbrev pub last_cursor : ℕ → List RecBlockEntry → Option Cursor
last_cursor mem_rec_idx [] = none
last_cursor mem_rec_idx (e ∷ es) = some (record {
  ent = e;
  prev = es;
  arr = e.rec_arr;
  at = 0;
  idx = 0;
  max_idx = max_of es mem_rec_idx;
})

-- Enough rounds for every counter of every entry.
abbrev pub compact_fuel : RecTreeNode → ℕ
compact_fuel n = mem_rec_per_entry * length n.list_head + n.mem_rec_idx + 1

pub compact : OpenFiles → RecTreeNode → Run Recs (Unit {0})
unfolding compact_loop drop_until
compact open_files n = do
  let start = last_cursor n.mem_rec_idx (reverse n.list_head)
  compact_loop open_files n.page_num (compact_fuel n) start start
  s ← get
  n' ← or_exit (find_node n.page_num s) segfault
  left ← drop_until n'.rec_mod_entry n'.list_head
  modify (modify_node n.page_num (λ m. record m { list_head = left }))

-- The node goes back to the pools with its one empty array, and out of the tree.
pub delete_node : RecTreeNode → RecBlockEntry → Run Recs (Unit {0})
delete_node n ent = do
  modify (λ s. record s { reclamed_rec_node = s.reclamed_rec_node + 1 })
  on_mem (withdraw_mem_rec_arr ent.rec_arr)
  on_mem (withdraw_rec_block_entry ent.addr)
  on_mem (withdraw_tail_head n.list_addr)
  on_mem (withdraw_rec_tree_node n.addr)
  modify (λ s. record s { tree = tdelete (rec_compare n.page_num) s.tree })

-- `reclaimSpecialRecTreeNode`, by the queue of the node: `TAILQ_FIRST` equals `TAILQ_LAST` if there
-- is one entry.
pub reclaim_list : OpenFiles → RecTreeNode → List RecBlockEntry → Run Recs (Unit {0})
unfolding compact delete_node
reclaim_list open_files n [] = λ s. exit segfault
reclaim_list open_files n (e ∷ []) =
    if n.mem_rec_idx == 0 then delete_node n e else compact open_files n
reclaim_list open_files n (e ∷ e' ∷ es) = compact open_files n

pub reclaim_special_rec_tree_node : OpenFiles → RecTreeNode → Run Recs (Unit {0})
unfolding reclaim_list
reclaim_special_rec_tree_node open_files n = reclaim_list open_files n n.list_head

-- The status of a run in which `twalk` would go on over a tree from which its action has taken a node:
-- the C library does not say what happens then.
abbrev pub walk_undefined : ℕ
walk_undefined = 140

-- The reclamation through the pointer that `twalk` passes, which leads to the node as it is now. The walk
-- can go on if the node is still in the tree, and it ends well if the node was the only one.
pub reclaim_visited : OpenFiles → RecTreeNode → Run Recs (Unit {0})
unfolding reclaim_special_rec_tree_node
reclaim_visited open_files n = do
  s ← get
  live ← or_exit (find_node n.page_num s) walk_undefined
  reclaim_special_rec_tree_node open_files live
  t ← get
  if has_node n.page_num t || is_empty t.tree then pure tt else λ u. exit walk_undefined

-- `reclaimRecTreeNode`, the action of the walk.
abbrev pub reclaim_rec_tree_node : OpenFiles → RecTreeNode → Visit → ℕ → Run Recs (Unit {0})
reclaim_rec_tree_node open_files n preorder depth = pure tt
reclaim_rec_tree_node open_files n postorder depth = reclaim_visited open_files n
reclaim_rec_tree_node open_files n endorder depth = pure tt
reclaim_rec_tree_node open_files n leaf depth = reclaim_visited open_files n

-- `recTreeNodeGrabageReclaim`
unfoldable pub rec_tree_node_grabage_reclaim : OpenFiles → Run Recs (Unit {0})
unfolding walk reclaim_visited
rec_tree_node_grabage_reclaim open_files = do
  modify (λ s. record s { reclamed_rec_node = 0 })
  s ← get
  walk (reclaim_rec_tree_node open_files) s.tree 0
  on_mem (modify (λ m. record m { rec_tree_node_threshold = threshold_of m.rec_tree_nodes.idx }))
