-- ===== src/Examples/Traced.antt =====
-- A second record on the page that has one.
use cidl.Base.{ℕ, ◌<◌, ◌≡◌, ◌≢◌, refl, sym, subst, ap, [], ◌∷◌, some, arith, ◌∙◌}
use cidl.Addr.{Ptr}
use cidl.Pool.{Pool}
use cidl.Pool.Valid.{IsValid}
use cidl.SearchTree.{tfind}
use cidl.Rec.{Recs, RecTreeNode, find_node}
use cidl.Rec.Owned.{IsOwned, IsNode, HasRoom}
use cidl.Examples.States.{traced, page_node, mem}

-- The page's entry and array are in use.
abbrev pub recs : Recs
recs = record (traced.recs) {
  mem = record mem {
    rec_tree_nodes = record (mem.rec_tree_nodes) { idx = 3 };
    tail_heads = record (mem.tail_heads) { idx = 1 };
    rec_block_entries = record (mem.rec_block_entries) { idx = 1 };
    rec_arrs = record (mem.rec_arrs) { idx = 1 };
  };
}

found_page : (q : ℕ) (n : RecTreeNode) → find_node q recs ≡ some n → (q ≡ 2) × (page_node ≡ n)
unfolding tfind
found_page q n e = ground (arith, e)

pub one_left :
    (a b : Ptr) (p : Pool)
    → p.idx ≡ 1
    → p.size ≡ 2
    → p.slots 0 ≡ a
    → a ≢ b
    → a < 10000
    → b < 10000
    → IsValid 10000 (b ∷ []) p
one_left a b p idx size slot ne la lb = record {
  counted = omega arith;
  distinct = λ i j hi hj e. omega arith;
  apart = λ i hi. ground (arith, ap p.slots {x = i} {y = 0} (omega arith), sym slot);
  below = λ i hi. omega (arith, ap p.slots {x = i} {y = 0} (omega arith));
  lent_distinct = (refl, tt);
  lent_below = (lb, tt);
}

recs-IsNode : IsNode (3024 ∷ []) (4912 ∷ []) page_node
recs-IsNode = record {
  first = record { addr = 3024; rec_arr = 4912 };
  older = [];
  queue = refl;
  modified = refl;
  counter = omega arith;
  ents_distinct = (refl, tt);
  arrs_distinct = (refl, tt);
  ents_used = (refl, tt);
  arrs_used = (refl, tt);
}

pub recs-IsOwned : IsOwned (3024 ∷ []) (4912 ∷ []) recs
recs-IsOwned = record {
  entry_pool = record {
    valid =
        one_left 3000 3024 recs.mem.rec_block_entries refl refl refl (omega arith) (omega arith)
          (omega arith);
    nonempty = omega arith;
    used = omega arith;
  };
  arr_pool = record {
    valid =
        one_left 4000 4912 recs.mem.rec_arrs refl refl refl (omega arith) (omega arith)
          (omega arith);
    nonempty = omega arith;
    used = omega arith;
  };
  nodes = λ q n e. subst (IsNode (3024 ∷ []) (4912 ∷ [])) (found_page q n e).1 recs-IsNode;
  apart = λ p q n m e f ne. absurd (ne ((found_page p n e).0 ∙ sym (found_page q m f).0));
  ents_apart = λ p q n m e f ne. absurd (ne ((found_page p n e).0 ∙ sym (found_page q m f).0));
}

pub recs-HasRoom : HasRoom recs
recs-HasRoom = omega arith
