-- ===== src/Rec/Insert/Stock.antt =====
-- What a sequence of calls of `insertRec` needs of the pools, and what one call leaves alone.
use cidl.Base.{ℕ, ◌+◌, ◌≤◌, ◌<◌, ◌≡◌, ◌≢◌, true, List, some, has, null, arith}
use cidl.Addr.{Ptr}
use cidl.Pool.Grow.{IsValidGrowing, total_after}
use cidl.Mem.{tailhead_size}
use cidl.SearchTree.{Tree}
use cidl.Rec.{RecTreeNode, Recs, Store, LastRec, find_node}
use cidl.Rec.View.{arrs}
use cidl.Rec.Owned.{HasRoom}

-- The pools hold objects for `k` records on as many new pages, and no reclamation is due before.
pub record HasStock (k : ℕ) (s : Recs) : Type 0 where
  pub room : HasRoom s
  pub heads : List Ptr
  pub head_pool : IsValidGrowing heads (record { pool = s.mem.tail_heads; arena = s.mem.arena })
  pub counted :
      0 < total_after tailhead_size (record { pool = s.mem.tail_heads; arena = s.mem.arena })
  pub high : s.mem.rec_tree_node_threshold + k ≤ s.mem.rec_tree_nodes.idx
  pub nonnull : (i : ℕ) → i < s.mem.rec_tree_nodes.idx → s.mem.rec_tree_nodes.slots i ≢ null
  pub heads_left : k ≤ s.mem.tail_heads.idx
  pub ents_left : k ≤ s.mem.rec_block_entries.idx
  pub arrs_left : k ≤ s.mem.rec_arrs.idx

-- The nodes of all other pages are as they were, and so are the records in their arrays.
pub record Leaves (page : ℕ) (s t : Recs) : Type 0 where
  pub same_node : (q : ℕ) → page ≢ q → find_node q t ≡ find_node q s
  pub same_recs :
      (q : ℕ) (n : RecTreeNode)
      → page ≢ q
      → find_node q s ≡ some n
      → (a : Ptr) (i : ℕ) → has a (arrs n.list_head) ≡ true
      → t.store a i ≡ s.store a i

-- It does not depend on the nodes and the records, and stock for more records is stock for fewer.
pub fewer-HasStock :
    {i j : ℕ} (s : Recs) (tree : Tree RecTreeNode) (store : Store) (last : LastRec)
    → HasStock i s
    → j ≤ i
    → HasStock j (record s { tree = tree; store = store; last_rec = last })
fewer-HasStock s tree store last w le = record {
  room = w.room;
  heads = w.heads;
  head_pool = w.head_pool;
  counted = w.counted;
  high = omega (arith, w.high);
  nonnull = w.nonnull;
  heads_left = omega (arith, w.heads_left);
  ents_left = omega (arith, w.ents_left);
  arrs_left = omega (arith, w.arrs_left);
}

pub restock : {i j : ℕ} (s : Recs) → HasStock i s → j ≤ i → HasStock j s
restock s w le =
    let v = fewer-HasStock s s.tree s.store s.last_rec w le in
    record {
      room = v.room;
      heads = v.heads;
      head_pool = v.head_pool;
      counted = v.counted;
      high = v.high;
      nonnull = v.nonnull;
      heads_left = v.heads_left;
      ents_left = v.ents_left;
      arrs_left = v.arrs_left;
    }
