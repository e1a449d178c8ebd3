-- ===== src/Listing.antt =====
-- The functions of tree.c that list the mappings and the records, and that look for empty nodes. What
-- they print is a list of lines, each with the values that its format shows.
pub mod Walks
pub mod Pages
use cidl.Base.{
  ℕ, zero, suc, ◌+◌, ◌*◌, Bool, true, false, ◌&&◌, ◌==◌, if◌then◌else◌, List, [], ◌∷◌, ◌++◌, none,
  some, Run, pure, modify, exit, assert_failed, null, ◌>>◌, ◌>>=◌,
}
use cidl.Addr.{Ptr}
use cidl.Mem.{mem_rec_per_entry, mem_rec_size}
use cidl.SearchTree.{Tree}
use cidl.SearchTree.Walk.{Visit, preorder, postorder, endorder, leaf, walk}
use cidl.Rec.{MemRec, RecBlockEntry, RecTreeNode, Recs, Store, find_node}
use cidl.State.{State, Files, FileMapTreeNode}
use cidl.Write.{rec_addr}

pub data Line : Type 0 where
  file_line : (start tail offset file_name addr : ℕ) → Line
  page_line : (page_num list_head mem_rec_idx addr : ℕ) → Line
  title_line : (page_num : ℕ) → Line
  array_line : (tail ent : ℕ) → Line
  rec_line : (page_offset file_offset addr file_name buf_addr : ℕ) → Line
  not_in_tree list_null node_empty : (page_num : ℕ) → Line

abbrev pub Output : Type 0
Output = List Line

abbrev pub print : Line → Run Output (Unit {0})
print line = modify (λ out. out ++ line ∷ [])

-- `listFileMapNodeAction`
abbrev pub list_file_map_node_action :
    (Ptr → FileMapTreeNode) → Ptr → Visit → ℕ → Run Output (Unit {0})
list_file_map_node_action nodes a preorder depth = pure tt
list_file_map_node_action nodes a postorder depth =
    print (file_line (nodes a).start (nodes a).tail (nodes a).offset (nodes a).file_name a)
list_file_map_node_action nodes a endorder depth = pure tt
list_file_map_node_action nodes a leaf depth =
    print (file_line (nodes a).start (nodes a).tail (nodes a).offset (nodes a).file_name a)

-- `listFileMapTree`
unfoldable pub list_file_map_tree : Files → Run Output (Unit {0})
list_file_map_tree f = walk (list_file_map_node_action f.nodes) f.tree 0

-- `showRecMapNode`
abbrev pub show_rec_map_node : RecTreeNode → Run Output (Unit {0})
show_rec_map_node n = print (page_line n.page_num n.list_addr n.mem_rec_idx n.addr)

-- `listRecMapAction`
abbrev pub list_rec_map_action : RecTreeNode → Visit → ℕ → Run Output (Unit {0})
list_rec_map_action n preorder depth = pure tt
list_rec_map_action n postorder depth = show_rec_map_node n
list_rec_map_action n endorder depth = pure tt
list_rec_map_action n leaf depth = show_rec_map_node n

-- `listRecTree`
unfoldable pub list_rec_tree : Recs → Run Output (Unit {0})
list_rec_tree s = walk list_rec_map_action s.tree 0

-- `for(int i=0; i<tail; i++,recArr++)`, by the rounds left.
pub list_recs : (page_num : ℕ) → Store → Ptr → (i left : ℕ) → Run Output (Unit {0})
list_recs page_num store arr i zero = pure tt
list_recs page_num store arr i (suc left) = do
  let r = store arr i
  print (
      rec_line r.page_offset r.file_offset (arr + mem_rec_size * i) r.file_name
        (rec_addr page_num r))
  list_recs page_num store arr (i + 1) left

-- `tail`: `memRecIdx` in the entry last modified, and the length of an array in all others.
abbrev pub tail_of : RecTreeNode → RecBlockEntry → ℕ
tail_of n e = if e.addr == n.rec_mod_entry then n.mem_rec_idx else mem_rec_per_entry

-- `TAILQ_FOREACH(ent, listHead, entries)`
pub list_entries : (page_num : ℕ) → Store → RecTreeNode → List RecBlockEntry → Run Output (Unit {0})
unfolding list_recs
list_entries page_num store n [] = pure tt
list_entries page_num store n (e ∷ es) = do
  print (array_line (tail_of n e) e.addr)
  list_recs page_num store e.rec_arr 0 (tail_of n e)
  list_entries page_num store n es

-- The part of `listRecTreeNode` behind the search, by the queue of the node.
pub list_queue : (page_num : ℕ) → Store → RecTreeNode → List RecBlockEntry → Run Output (Unit {0})
unfolding list_entries
list_queue page_num store n [] = print (list_null page_num)
list_queue page_num store n (e ∷ es) = do
  print (title_line page_num)
  list_entries page_num store n (e ∷ es)

-- `listRecTreeNode`
unfoldable pub list_rec_tree_node : (page_num : ℕ) → Recs → Run Output (Unit {0})
unfolding list_queue
list_rec_tree_node page_num s = elim (find_node page_num s) [
  | none ↦ print (not_in_tree page_num)
  | some n ↦ list_queue page_num s.store n n.list_head
]

-- `recIdx==0 && TAILQ_FIRST(head)==TAILQ_LAST(head, tailhead)`
abbrev pub has_one : List RecBlockEntry → Bool
has_one [] = true
has_one (e ∷ []) = true
has_one (e ∷ e' ∷ es) = false

abbrev pub is_empty_node : RecTreeNode → Bool
is_empty_node n = n.mem_rec_idx == 0 && has_one n.list_head

-- `showRecMapNodeDetail`
abbrev pub show_rec_map_node_detail : Recs → RecTreeNode → Run Output (Unit {0})
show_rec_map_node_detail s n = do
  print (page_line n.page_num n.list_addr n.mem_rec_idx n.addr)
  if is_empty_node n then print (node_empty n.page_num) else list_rec_tree_node n.page_num s

-- `listRecMapActionDetail`
abbrev pub list_rec_map_action_detail : Recs → RecTreeNode → Visit → ℕ → Run Output (Unit {0})
list_rec_map_action_detail s n preorder depth = pure tt
list_rec_map_action_detail s n postorder depth = show_rec_map_node_detail s n
list_rec_map_action_detail s n endorder depth = pure tt
list_rec_map_action_detail s n leaf depth = show_rec_map_node_detail s n

-- `listRecTreeDetail`
unfoldable pub list_rec_tree_detail : Recs → Run Output (Unit {0})
list_rec_tree_detail s = walk (list_rec_map_action_detail s) s.tree 0

-- `checkEmptyNode`
abbrev pub check_empty_node : RecTreeNode → Run Output (Unit {0})
check_empty_node n = if is_empty_node n then (λ out. exit assert_failed) else pure tt

-- `checkEmptyNodeAction`
abbrev pub check_empty_node_action : RecTreeNode → Visit → ℕ → Run Output (Unit {0})
check_empty_node_action n preorder depth = pure tt
check_empty_node_action n postorder depth = check_empty_node n
check_empty_node_action n endorder depth = pure tt
check_empty_node_action n leaf depth = check_empty_node n

-- `checkEmptyRecTreeNode`
unfoldable pub check_empty_rec_tree_node : Recs → Run Output (Unit {0})
check_empty_rec_tree_node s = walk check_empty_node_action s.tree 0
