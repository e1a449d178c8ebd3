-- ===== src/Setup/ToWrite.antt =====
-- From `init` to the write of a buffer with the bytes of the first file.
use cidl.Base.{
  Bool, ℕ, ◌+◌, ◌-◌, ◌≤◌, ◌<◌, ◌≡◌, ◌≢◌, refl, true, false, [], some, none, null, ok, arith, word64,
}
use cidl.Addr.{Ptr, page_size, page_num_shift, addr2page_num}
use cidl.Pool.Valid.{IsValid}
use cidl.Mem.Init.{init_bytes, filled-IsValid}
use cidl.SearchTree.{tfind}
use cidl.Rec.{find_node}
use cidl.Rec.View.{records}
use cidl.Rec.Owned.{IsOwned, HasRoom}
use cidl.Rec.Insert.Inserted.{IsReady}
use cidl.Write.{ts_write}
use cidl.Write.Bounds.{NoneBehind}
use cidl.State.{State}
use cidl.Files.{memcpy, ts_open, ts_mmap, ts_memcpy, starts_with_at, dr_prefix, has_anonymous_bit}
use cidl.Files.Counts.{Spares, Disjoint}
use cidl.Files.First.{opened}
use cidl.Files.First.ToWrite.{ts_open-ts_write}
use cidl.Setup.{init}
use cidl.Setup.Started.{table_bytes, started, globals, init-started, align_up_bound, heap_of, pools}

-- The heap that `init` takes, and one refill of each of the pools that grow.
abbrev pub needed : ℕ
needed = table_bytes + init_bytes + page_size + 2048 + 6504000

module _ (s : State) (used : 0 < (heap_of s).next)
    (room : (heap_of s).next + needed ≤ (heap_of s).limit) where
  abbrev t : State
  t = started page_num_shift s

  untraced : (q : ℕ) → records t.recs q ≡ []
  unfolding tfind
  untraced q = refl

  none_behind : (q end : ℕ) → NoneBehind q end (records t.recs q)
  unfolding tfind
  none_behind q end = tt

  no_node : (q : ℕ) → find_node q t.recs ≡ none
  unfolding tfind
  no_node q = refl

  heap_bounds :
      ((heap_of s).next + table_bytes + init_bytes ≤ t.recs.mem.arena.next)
      × (t.recs.mem.arena.next < (heap_of s).next + table_bytes + init_bytes + page_size + 2048)
  heap_bounds =
      omega (arith, align_up_bound page_size (pools page_num_shift s).arena.next (omega arith))

  files-IsValid : IsValid t.recs.mem.arena.next [] t.recs.mem.file_map_tree_nodes
  files-IsValid = filled-IsValid _ _ _ _ (omega arith) (omega (arith, heap_bounds))

  started-IsOwned : IsOwned [] [] t.recs
  started-IsOwned = record {
    entry_pool = record {
      valid = filled-IsValid _ _ _ _ (omega arith) (omega (arith, heap_bounds));
      nonempty = omega arith;
      used = omega (arith, heap_bounds);
    };
    arr_pool = record {
      valid = filled-IsValid _ _ _ _ (omega arith) (omega (arith, heap_bounds));
      nonempty = omega arith;
      used = omega (arith, heap_bounds);
    };
    nodes = λ q n e. absurd (ground (arith, no_node q, e));
    apart = λ p q n m e. absurd (ground (arith, no_node p, e));
    ents_apart = λ p q n m e. absurd (ground (arith, no_node p, e));
  }

  started-HasRoom : HasRoom t.recs
  started-HasRoom = omega (arith, heap_bounds)

  started-IsReady : IsReady t.recs
  started-IsReady = record {
    heads = [];
    high = refl;
    nonnull = λ e. omega (arith, e);
    head_pool = record {
      valid = filled-IsValid _ _ _ _ (omega arith) (omega (arith, heap_bounds));
      nonempty = omega arith;
      used = omega (arith, heap_bounds);
    };
    counted = omega arith;
  }

-- A program starts the library with a page of 4096 bytes, with enough fuel and room in the heap; it
-- opens a file, whose path does not start with "./pmem/DR-", maps it without the bit of
-- MAP_ANONYMOUS, fills a buffer by `ts_memcpy`, with or without DELETE_TREENODE, from an address
-- in the mapping, and writes the buffer. While the ranges and the file offset do not wrap around and
-- the buffer and its source do not overlap, and the system call of the write changes neither of them,
-- as it would if it wrote to the same bytes of a shared mapping, all calls return, and the library has
-- counted exactly the length of the buffer as the same.
pub init-ts_write :
    (delete_treenode : Bool) (fuel : ℕ) (fd : ℕ) (path : Ptr) (len prot off ret : ℕ)
    (dest src n written : ℕ) (mapped bytes : Ptr → ℕ) (s : State)
    → page_num_shift < fuel
    → 0 < (heap_of s).next
    → (heap_of s).next + needed ≤ (heap_of s).limit
    → has_anonymous_bit prot ≡ false
    → path ≢ null
    → starts_with_at mapped path dr_prefix ≡ false
    → ret ≤ src
    → src ≤ ret + len
    → ret + len < word64
    → off + (src - ret) < word64
    → dest + n < word64
    → Disjoint n dest src
    → Spares (memcpy dest src n mapped) bytes n dest
    → Spares (memcpy dest src n mapped) bytes n src
    → (t u v : State) × (init false fuel page_size s ≡ ok (globals page_num_shift s, t))
      × (ts_open (some fd) path true t ≡ ok (some fd, opened fd path t))
      × (ts_mmap len prot (some fd) off ret mapped (opened fd path t) ≡ ok (ret, u))
      × (ts_memcpy delete_treenode dest src n u ≡ ok (dest, v))
      × ((ts_write dest n written bytes v).1.stats.ts_write_same_size ≡ n)
init-ts_write delete_treenode fuel fd path len prot off ret dest src n written mapped bytes s enough
      used room readable named plain lo hi small position fits apart kept_dest kept_src =
    let t = started page_num_shift s in
    let (u, v, open_run, map_run, copy_run, same) =
      ts_open-ts_write delete_treenode fd path len prot off ret dest src n written mapped bytes t
        t.recs.mem.arena.next [] (started-IsOwned s used room) (started-HasRoom s used room)
        (started-IsReady s used room)
        (record {
          pool = files-IsValid s used room;
          free = omega arith;
          readable = readable;
          named = named;
          plain = plain;
          no_start = refl;
          no_name = refl;
        })
        lo hi small position fits apart (untraced s used room (addr2page_num dest))
        (λ q a b. none_behind s used room q (dest + n)) (omega arith) kept_dest kept_src in
    (
      t,
      u,
      v,
      init-started page_num_shift s fuel enough used (omega arith),
      open_run,
      map_run,
      copy_run,
      omega (arith, same),
    )
