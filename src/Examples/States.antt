-- ===== src/Examples/States.antt =====
-- The states that the examples start from.
use cidl.Base.{
  ◌+◌, ◌≤◌, ◌<◌, ◌⊎◌, inl, inr, ne→==, ℕ, ◌∷◌, ◌%◌, ◌≡◌, refl, [], none, arith, null, ◌==◌,
  if◌then◌else◌,
}
use cidl.Addr.{Ptr}
use cidl.Files.Counts.{Spares}
use cidl.Pool.{Pool, Arena}
use cidl.Pool.Grow.{IsValidGrowing}
use cidl.Mem.{Mem}
use cidl.Mem.Init.{filled, filled-IsValid}
use cidl.SearchTree.{empty, node, tfind}
use cidl.Rec.{MemRec, Recs, RecTreeNode, find_node}
use cidl.Rec.Owned.{IsOwned, HasRoom}
use cidl.Rec.Insert.Inserted.{IsReady}
use cidl.State.{State, Files, FileMapTreeNode, Stats}

abbrev pub arena : Arena
arena = record { next = 10000; limit = 100000; total_alloc_size = 1 }

abbrev pub heads : Pool
heads = filled 16 2 2000

abbrev pub mem : Mem
mem = record {
  file_map_tree_nodes = filled 48 2 100;
  rec_tree_nodes = filled 32 4 1000;
  rec_tree_node_threshold = 2;
  tail_heads = heads;
  rec_block_entries = filled 24 2 3000;
  rec_arrs = filled 912 2 4000;
  arena = arena;
}

abbrev pub no_rec : MemRec
no_rec = record { file_offset = 0; file_name = null; page_offset = 0; fd = 0 }

abbrev pub recs : Recs
recs = record {
  tree = empty;
  store = λ arr i. no_rec;
  mem = mem;
  last_rec = record { last_page_num = 0; last_mem_rec = null; last_idx = 0 };
  reclamed_rec_node = 0;
}

pub untraced : (q : ℕ) → find_node q recs ≡ none
unfolding tfind
untraced q = refl

pub recs-IsOwned : IsOwned [] [] recs
unfolding tfind
recs-IsOwned = record {
  entry_pool = record {
    valid = filled-IsValid 24 2 3000 10000 (omega arith) (omega arith);
    nonempty = omega arith;
    used = omega arith;
  };
  arr_pool = record {
    valid = filled-IsValid 912 2 4000 10000 (omega arith) (omega arith);
    nonempty = omega arith;
    used = omega arith;
  };
  nodes = λ q n e. absurd (ground (arith, e));
  apart = λ p q n m e. absurd (ground (arith, e));
  ents_apart = λ p q n m e. absurd (ground (arith, e));
}

pub recs-HasRoom : HasRoom recs
recs-HasRoom = omega arith

pub heads-IsValid : IsValidGrowing [] (record { pool = heads; arena = arena })
heads-IsValid = record {
  valid = filled-IsValid 16 2 2000 10000 (omega arith) (omega arith);
  nonempty = omega arith;
  used = omega arith;
}

pub recs-IsReady : IsReady recs
recs-IsReady = record {
  heads = [];
  high = refl;
  nonnull = λ e. ground (arith, e);
  head_pool = heads-IsValid;
  counted = omega arith;
}

-- A mapping of a file's first hundred bytes.
abbrev pub mapping : FileMapTreeNode
mapping = record { start = 20000; tail = 20100; used_time = 0; file_name = 600; offset = 0; fd = 3 }

abbrev pub files : Files
files = record {
  nodes = λ p. mapping;
  tree = node empty 500 empty;
  name_tree = node empty 500 empty;
  open_files = λ i. if i == 3 then 500 else null;
  fd2path = λ i. 600;
}

abbrev pub stats : Stats
stats = record {
  ts_write_time = 0;
  ts_write_size = 0;
  ts_write_same_size = 0;
  ts_write_not_found_size = 0;
  ts_metadata_item = 0;
}

abbrev pub state : State
state = record { recs = recs; files = files; stats = stats; bytes = λ a. a % 7 }

-- The memory after a write to the byte 50 of the mapped file, which the mapping shares.
abbrev pub overwritten : (Ptr → ℕ) → Ptr → ℕ
overwritten bytes a = if a == 20050 then 9 else bytes a

pub overwritten-Spares :
    (bytes : Ptr → ℕ) (n : ℕ) (a : Ptr)
    → (a + n ≤ 20050) ⊎ (20050 < a)
    → Spares bytes (overwritten bytes) n a
overwritten-Spares bytes n a apart i h =
    rw (ne→== (a + i) 20050 (λ e. elim apart [ inl below ↦ omega arith | inr above ↦ omega arith ]))
      refl

-- The page 2 has one record, of the bytes from the mapping's tenth on.
abbrev pub first_rec : MemRec
first_rec = record { file_offset = 10; file_name = 600; page_offset = 10; fd = 3 }

abbrev pub page_node : RecTreeNode
page_node = record {
  addr = 1096;
  page_num = 2;
  list_addr = 2016;
  list_head = record { addr = 3024; rec_arr = 4912 } ∷ [];
  rec_mod_entry = 3024;
  mem_rec_idx = 1;
}

abbrev pub traced : State
traced = record state {
  recs = record recs { tree = node empty page_node empty; store = λ arr i. first_rec };
  bytes = λ a. 1;
}
