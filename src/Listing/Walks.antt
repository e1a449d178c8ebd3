-- ===== src/Listing/Walks.antt =====
-- What the walks over the trees of tree.c print and check.
use mathlib.Core.List.{append_assoc, append-nil}
use cidl.Base.{
  ◌≡◌, refl, ap, sym, ◌∙◌, Bool, true, ◌&&◌, not, if◌then◌else◌, List, [], ◌∷◌, ◌++◌, map, ok, exit,
  assert_failed, Bool-cases, inl, inr,
}
use cidl.Addr.{Ptr}
use cidl.SearchTree.{elements}
use cidl.SearchTree.Walk.{each, walk-elements}
use cidl.Rec.{RecTreeNode, Recs}
use cidl.State.{Files}
use cidl.Listing.{
  Line, file_line, page_line, Output, print, list_file_map_tree, list_file_map_node_action,
  list_rec_tree, list_rec_map_action, check_empty_rec_tree_node, check_empty_node_action,
  check_empty_node, is_empty_node, show_rec_map_node,
}

each-print :
    {A : Type 0} (line : A → Line) (xs : List A) (out : Output)
    → each (λ a. print (line a)) xs out ≡ ok (tt, out ++ map line xs)
each-print line [] out = ap (λ o. ok (tt, o)) (sym (append-nil out))
each-print line (x ∷ xs) out =
    each-print line xs (out ++ line x ∷ [])
    ∙ ap (λ o. ok (tt, o)) (append_assoc out (line x ∷ []) (map line xs))

abbrev pub line_of : Files → Ptr → Line
line_of f a =
    file_line (f.nodes a).start (f.nodes a).tail (f.nodes a).offset (f.nodes a).file_name a

abbrev pub page_line_of : RecTreeNode → Line
page_line_of n = page_line n.page_num n.list_addr n.mem_rec_idx n.addr

-- `listFileMapTree` prints one line for each mapping, and `listRecTree` one for each page with records,
-- in the order of their trees.
pub list_trees-elements :
    (f : Files) (s : Recs) (out : Output)
    → (list_file_map_tree f out ≡ ok (tt, out ++ map (line_of f) (elements f.tree)))
      × (list_rec_tree s out ≡ ok (tt, out ++ map page_line_of (elements s.tree)))
unfolding list_file_map_tree list_rec_tree
list_trees-elements f s out = (
  ap (λ m. m out)
        (walk-elements (list_file_map_node_action f.nodes) (λ a. print (line_of f a)) (λ a d. refl)
          (λ a d. refl) (λ a d. refl) (λ a d. refl) f.tree 0)
      ∙ each-print (line_of f) (elements f.tree) out,
  ap (λ m. m out)
        (walk-elements list_rec_map_action show_rec_map_node (λ a d. refl) (λ a d. refl)
          (λ a d. refl) (λ a d. refl) s.tree 0)
      ∙ each-print page_line_of (elements s.tree) out,
)

-- No node of the list is empty.
abbrev pub none_empty : List RecTreeNode → Bool
none_empty [] = true
none_empty (n ∷ ns) = not (is_empty_node n) && none_empty ns

each-check :
    (ns : List RecTreeNode) (out : Output)
    → each check_empty_node ns out ≡ (if none_empty ns then ok (tt, out) else exit assert_failed)
each-check [] out = refl
each-check (n ∷ ns) out = elim (Bool-cases (is_empty_node n)) [
  | inl bad ↦ rw bad refl
  | inr good ↦ rw good (each-check ns out)
]

-- `checkEmptyRecTreeNode` returns if no node is empty, and fails its assertion otherwise.
pub check_empty_rec_tree_node-none_empty :
    (s : Recs) (out : Output)
    → check_empty_rec_tree_node s out
      ≡ (if none_empty (elements s.tree) then ok (tt, out) else exit assert_failed)
unfolding check_empty_rec_tree_node
check_empty_rec_tree_node-none_empty s out =
    ap (λ m. m out)
      (walk-elements check_empty_node_action check_empty_node (λ a d. refl) (λ a d. refl)
        (λ a d. refl) (λ a d. refl) s.tree 0)
    ∙ each-check (elements s.tree) out
