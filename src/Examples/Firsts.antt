-- ===== src/Examples/Firsts.antt =====
-- The first file of a program: opened, mapped, copied from, and closed.
use cidl.Base.{ℕ, ◌+◌, ◌%◌, ◌≡◌, refl, true, [], some, null, ok, arith, inl, inr}
use cidl.Addr.{addr2page_num}
use cidl.Pool.Valid.{IsValid}
use cidl.Mem.Init.{filled-IsValid}
use cidl.SearchTree.{empty, tfind}
use cidl.Rec.{max_file_num}
use cidl.Rec.View.{records}
use cidl.State.{State}
use cidl.Write.{ts_write}
use cidl.Write.Bounds.{NoneBehind}
use cidl.Files.{memcpy, ts_open, ts_mmap, ts_memcpy, ts_close}
use cidl.Files.First.{IsFirst, opened}
use cidl.Files.First.ToWrite.{ts_open-ts_write}
use cidl.Files.First.ToClose.{ts_open-ts_close}
use cidl.Examples.States.{
  overwritten, overwritten-Spares, state, recs, recs-IsOwned, recs-HasRoom, recs-IsReady,
}

-- No file has been mapped yet.
abbrev unused : State
unused = record state { files = record (state.files) { tree = empty; name_tree = empty } }

unused-IsFirst : IsFirst 10000 [] 600 1 (record unused { bytes = overwritten state.bytes })
unused-IsFirst = record {
  pool = filled-IsValid 48 2 100 10000 (omega arith) (omega arith);
  free = omega arith;
  readable = refl;
  named = λ e. ground (arith, e);
  plain = refl;
  no_start = refl;
  no_name = refl;
}

untraced : (q : ℕ) → records recs q ≡ []
unfolding tfind
untraced q = refl

none_behind : (q : ℕ) → NoneBehind q 8207 (records recs q)
none_behind q = rw (untraced q) tt

ts_open-ts_write_example :
    (t : State) × (u : State) × (ts_open (some 3) 600 true unused
      ≡ ok (some 3, opened 3 600 unused))
    × (ts_mmap 4096 1 (some 3) 0 40960 (overwritten state.bytes) (opened 3 600 unused)
        ≡ ok (40960, t))
    × (ts_memcpy true 8202 40970 5 t ≡ ok (8202, u))
    × ((ts_write 8202 5 5
          (overwritten (memcpy 8202 40970 5 (overwritten state.bytes)))
          u).1.stats.ts_write_same_size
        ≡ 0 + 5)
ts_open-ts_write_example =
    ts_open-ts_write true 3 600 4096 1 0 40960 8202 40970 5 5 (overwritten state.bytes)
      (overwritten (memcpy 8202 40970 5 (overwritten state.bytes))) unused 10000 [] recs-IsOwned
      recs-HasRoom recs-IsReady unused-IsFirst (omega arith) (omega arith) (omega arith)
      (omega arith) (omega arith) (inl (omega arith)) (untraced (addr2page_num 8202))
      (λ q h k. none_behind q) (omega arith)
      (overwritten-Spares (memcpy 8202 40970 5 (overwritten state.bytes)) 5 8202
        (inl (omega arith)))
      (overwritten-Spares (memcpy 8202 40970 5 (overwritten state.bytes)) 5 40970
        (inr (omega arith)))

ts_open-ts_close_example :
    (t : State) × (u : State) × (ts_open (some 3) 600 true unused
      ≡ ok (some 3, opened 3 600 unused))
    × (ts_mmap 4096 1 (some 3) 0 40960 (overwritten state.bytes) (opened 3 600 unused)
        ≡ ok (40960, t))
    × (ts_close 3 (some 0) t ≡ ok (some 0, u))
    × (u.files.tree ≡ empty)
    × (u.files.name_tree ≡ empty)
    × (u.files.open_files (3 % max_file_num) ≡ null)
    × IsValid 10000 [] u.recs.mem.file_map_tree_nodes
ts_open-ts_close_example =
    ts_open-ts_close 3 600 4096 1 0 40960 0 (overwritten state.bytes) unused 10000 [] unused-IsFirst
