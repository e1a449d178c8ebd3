-- ===== src/Calls/Opening.antt =====
-- The counters of the nodes when files are opened and closed.
use cidl.Base.{
  ◌>>◌, ℕ, Bool, true, false, Option, none, some, ◌==◌, Keeps, Keeps-and_then, Keeps-run_if,
  if◌then◌else◌, Keeps-or_exit, Option-cases, Bool-cases, inl, inr, null, pure, exit, fatal, modify,
  or_exit,
}
use cidl.Addr.{Ptr}
use cidl.Mem.{withdraw_file_map_tree_node}
use cidl.SearchTree.{tfind, tdelete}
use cidl.State.{State, Files, on_pools, on_files, file_map_name_tree_ins_del_compare}
use cidl.Files.{ts_open, ts_openat, ts_fopen, ts_close, get_path, set_open_file, store_path}
use cidl.Calls.Bounded.{Bounded, pools-Keeps}

-- What `ts_open` and its kin do with a descriptor.
stored-Keeps :
    (f : Files → Files) (b : Bool) (stat_ok : Bool) (fd : ℕ) (s : State)
    → Bounded s
    → Keeps Bounded (
        ((if b then pure tt else on_files (modify f))
            >> ((if stat_ok then pure tt else (λ s. exit fatal)) >> pure (some fd)))
          s)
stored-Keeps f true true fd s v = v
stored-Keeps f true false fd s v = tt
stored-Keeps f false true fd s v = v
stored-Keeps f false false fd s v = tt

pub ts_open-Keeps :
    (result : Option ℕ) (abpath : Ptr) (stat_ok : Bool) (s : State)
    → Bounded s
    → Keeps Bounded (ts_open result abpath stat_ok s)
unfolding ts_open
ts_open-Keeps none abpath stat_ok s v = v
ts_open-Keeps (some fd) abpath stat_ok s v =
    stored-Keeps (store_path fd abpath) (abpath == null) stat_ok fd s v

pub ts_openat-Keeps :
    (result : Option ℕ) (path : Ptr) (stat_ok : Bool) (s : State)
    → Bounded s
    → Keeps Bounded (ts_openat result path stat_ok s)
unfolding ts_openat
ts_openat-Keeps none path stat_ok s v = v
ts_openat-Keeps (some fd) path stat_ok s v =
    stored-Keeps (store_path fd path) (path == null) stat_ok fd s v

pub ts_fopen-Keeps :
    (result : Option ℕ) (abpath : Ptr) (size : ℕ → Option ℕ) (s : State)
    → Bounded s
    → Keeps Bounded (ts_fopen result abpath size s)
unfolding ts_fopen
ts_fopen-Keeps none abpath size s v = v
ts_fopen-Keeps (some fileno) abpath size s v =
    let fd : ℕ = if abpath == null then 0 else fileno in
    Keeps-and_then Bounded Bounded (or_exit (size fd) fatal s) _
      (Keeps-or_exit Bounded (size fd) fatal s v)
      (λ st t w.
        Keeps-and_then Bounded Bounded
          ((if st == 0 then pure tt else on_files (modify (store_path fd abpath))) t) _
          (Keeps-run_if Bounded (st == 0) (pure tt) (on_files (modify (store_path fd abpath))) t w
            w)
          (λ _ u x. x))

-- The state in which `ts_close` gives a node back.
abbrev closed : (abpath fm : Ptr) → State → State
closed abpath fm s =
    let f = set_open_file (s.files.nodes fm).fd null s.files in
    record s {
      files = record f {
        tree = tdelete (file_map_name_tree_ins_del_compare f.nodes abpath) f.tree;
        name_tree = tdelete (file_map_name_tree_ins_del_compare f.nodes abpath) f.name_tree;
      };
    }

pub ts_close-Keeps :
    (fd : ℕ) (result : Option ℕ) (s : State) → Bounded s → Keeps Bounded (ts_close fd result s)
unfolding ts_close
ts_close-Keeps fd none s v = v
ts_close-Keeps fd (some result) s v =
    let abpath = get_path fd s.files in
    elim (Bool-cases (abpath == null)) [
      | inl e ↦ rw (Keeps, e) v
      | inr e ↦
          elim (Option-cases
            (tfind (file_map_name_tree_ins_del_compare s.files.nodes abpath) s.files.tree)) [
              | inl absent ↦ rw (Keeps, e, absent) v
              | inr (fm, found) ↦
                  rw (Keeps, e, found)
                    (Keeps-and_then Bounded Bounded
                      (on_pools (withdraw_file_map_tree_node fm) (closed abpath fm s)) _
                      (pools-Keeps (withdraw_file_map_tree_node fm) (closed abpath fm s) v)
                      (λ _ t w. w))
            ]
    ]
