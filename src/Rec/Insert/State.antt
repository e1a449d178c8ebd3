-- ===== src/Rec/Insert/State.antt =====
-- The states that `insertRec` ends in, and what it promises of them.
use cidl.Base.{ℕ, ◌+◌, ◌≡◌, [], ◌∷◌, ◌++◌, ◌==◌, if◌then◌else◌, to_short}
use cidl.Addr.{Ptr, addr2page_num}
use cidl.Pool.{Pool, Growing}
use cidl.SearchTree.{tsearch}
use cidl.Rec.{MemRec, RecTreeNode, Recs, rec_compare, write_rec_at, modify_node}
use cidl.Rec.View.{records}
use cidl.Rec.Insert.{page_offset_of, new_node}

abbrev pub new_rec : (file_offset : ℕ) → (dest : Ptr) → (file_name : Ptr) → (fd : ℕ) → MemRec
new_rec file_offset dest file_name fd = record {
  file_offset = file_offset;
  file_name = file_name;
  page_offset = page_offset_of dest (addr2page_num dest);
  fd = to_short fd;
}

module _ (page : ℕ) (value : MemRec) where
  -- One record is appended to the page, and the records of all other pages stay.
  abbrev pub Appends : Recs → Recs → Type 0
  Appends s t =
      (q : ℕ) → records t q ≡ (if page == q then records s q ++ value ∷ [] else records s q)

  -- The record has been put into the array `arr` of the page's node.
  abbrev pub in_array : Ptr → RecTreeNode → Recs → Recs
  in_array arr n s =
      modify_node page (λ m. record m { mem_rec_idx = n.mem_rec_idx + 1 })
        (record s {
          store = write_rec_at s.store arr n.mem_rec_idx value;
          last_rec = record { last_page_num = page; last_mem_rec = arr; last_idx = page };
        })

  abbrev pub with_entry : (ent arr : Ptr) → RecTreeNode → RecTreeNode
  with_entry ent arr m = record m {
    list_head = record { addr = ent; rec_arr = arr } ∷ m.list_head;
    rec_mod_entry = ent;
  }

  -- It has been put into the new array `arr` of a new entry `ent`; `g` and `h` are the pools that
  -- these came from, afterwards.
  abbrev pub in_new_array : (arr ent : Ptr) → (g h : Growing) → Recs → Recs
  in_new_array arr ent g h s =
      modify_node page (λ m. record m { mem_rec_idx = 1 })
        (modify_node page (with_entry ent arr) (record s {
          mem = record s.mem { rec_arrs = g.pool; rec_block_entries = h.pool; arena = h.arena };
          store = write_rec_at s.store arr 0 value;
          last_rec = record { last_page_num = page; last_mem_rec = arr; last_idx = page };
        }))

  -- It is the first of a new node.
  abbrev pub in_new_node : (addr head ent arr : Ptr) → Pool → (f g h : Growing) → Recs → Recs
  in_new_node addr head ent arr nodes f g h s =
      modify_node page (λ m. record m { mem_rec_idx = 1 })
        (record s {
          tree = tsearch (rec_compare page) (new_node addr page head ent arr) s.tree;
          mem = record s.mem {
            rec_tree_nodes = nodes;
            tail_heads = f.pool;
            rec_block_entries = g.pool;
            rec_arrs = h.pool;
            arena = h.arena;
          };
          store = write_rec_at s.store arr 0 value;
          last_rec = record { last_page_num = page; last_mem_rec = arr; last_idx = page };
        })
