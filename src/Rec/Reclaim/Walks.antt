-- ===== src/Rec/Reclaim/Walks.antt =====
-- The walk of the reclamation over the record tree.
use cidl.Base.{◌≡◌, refl}
use cidl.SearchTree.{Tree, elements}
use cidl.SearchTree.Walk.{walk, each, walk-elements}
use cidl.Rec.{RecTreeNode, OpenFiles}
use cidl.Rec.Reclaim.{reclaim_rec_tree_node, reclaim_visited}

-- `twalk` with the action `reclaimRecTreeNode`, which acts between the subtrees of a node and at a leaf,
-- goes on from each node to the next in order, as long as no visit ends the run.
pub walk-visits :
    (open_files : OpenFiles) (t : Tree RecTreeNode)
    → walk (reclaim_rec_tree_node open_files) t 0 ≡ each (reclaim_visited open_files) (elements t)
walk-visits open_files t =
    walk-elements (reclaim_rec_tree_node open_files) (reclaim_visited open_files) (λ n d. refl)
      (λ n d. refl) (λ n d. refl) (λ n d. refl) t 0
