-- ===== src/Rec/Reclaim/Compact.antt =====
-- The loop of `reclaimSpecialRecTreeNode` that compacts the records of a page: each round takes a
-- place off those before it.
use cidl.Base.{
  ℕ, zero, suc, ◌+◌, ◌-◌, ◌*◌, ◌≤◌, ◌<◌, ◌≡◌, refl, Bool, true, false, ◌&&◌, not, ◌==◌, List, [],
  ◌∷◌, length, Option, none, some, arith, Option-cases, Bool-cases, List-cases, inl, inr, ◌⊎◌, ltb,
  null, ok, exit, segfault, Ends,
}
use cidl.Mem.{mem_rec_per_entry}
use cidl.SearchTree.All.{All, All-tfind, All-modify}
use cidl.Rec.{
  MemRec, RecBlockEntry, RecTreeNode, Recs, rec_compare, find_node, modify_node, file_slot,
  OpenFiles, write_rec_at,
}
use cidl.Rec.Reclaim.{Cursor, max_of, next, is_open, compact_loop}

-- The counter of every node is within an array.
abbrev pub IsBounded : Recs → Type 0
IsBounded s = All (λ n. n.mem_rec_idx ≤ mem_rec_per_entry) s.tree

-- The counters of a cursor are indices of an array.
abbrev pub IsCursor : Option Cursor → Type 0
IsCursor none = Unit {0}
IsCursor (some c) = (c.idx ≤ c.max_idx) × (c.max_idx < mem_rec_per_entry)

-- The rounds that a cursor has before it.
abbrev pub rounds : Option Cursor → ℕ
rounds none = 0
rounds (some c) = 38 * length c.prev + (c.max_idx - c.idx) + 1

pub max_of-lt : (es : List RecBlockEntry) (m : ℕ) → m ≤ 38 → max_of es m < 38
max_of-lt [] m h = omega arith
max_of-lt (e ∷ es) m h = omega arith

next-IsCursor :
    (m : ℕ) (c : Cursor)
    → m ≤ 38
    → IsCursor (some c)
    → IsCursor (next m c) × (suc (rounds (next m c)) ≤ rounds (some c))
unfolding next
next-IsCursor m c h v = elim (Bool-cases (ltb c.idx c.max_idx)) [
  | inl e ↦ rw e ((ground arith, v.1), ground arith)
  | inr e ↦ elim (List-cases c.prev) [
    | inl q ↦ rw (e, q) (tt, omega arith)
    | inr (ent, es, q) ↦
        rw (e, q) ((omega arith, max_of-lt es m h), omega (arith, max_of-lt es m h))
  ]
]

is_open-cases :
    (open_files : OpenFiles) (r : MemRec) (s : Recs)
    → ((b : Bool) × (is_open open_files r s ≡ ok (b, s))) ⊎ (is_open open_files r s ≡ exit segfault)
unfolding is_open
is_open-cases open_files r s = elim (Option-cases (file_slot r.fd)) [
  | inl e ↦ inr (rw e refl)
  | inr (slot, e) ↦ inl (not (open_files slot == null), rw e refl)
]

pub modified-IsBounded :
    (page : ℕ) (f : RecTreeNode → RecTreeNode) (s : Recs)
    → ((n : RecTreeNode) → n.mem_rec_idx ≤ 38 → (f n).mem_rec_idx ≤ 38)
    → IsBounded s
    → IsBounded (modify_node page f s)
modified-IsBounded page f s h v =
    All-modify (λ n. n.mem_rec_idx ≤ 38) (rec_compare page) f s.tree h v

module _ (open_files : OpenFiles) (page : ℕ) where
  pub compact_loop-Ends :
      (fuel : ℕ) (k c : Option Cursor) (s : Recs)
      → IsBounded s
      → IsCursor k
      → IsCursor c
      → rounds c ≤ fuel
      → Ends IsBounded (compact_loop open_files page fuel k c s)
  unfolding compact_loop
  compact_loop-Ends fuel k none s v w u h = v
  compact_loop-Ends zero k (some c) s v w u h = absurd (omega arith)
  compact_loop-Ends (suc fuel) none (some c) s v w u h =
      elim (is_open-cases open_files (s.store c.arr c.at) s) [
        | inl (b, e) ↦ elim (Option-cases (find_node page s)) [
          | inl q ↦ rw (e, q) tt
          | inr (n, q) ↦ rw (e, q) tt
        ]
        | inr e ↦ rw e tt
      ]
  compact_loop-Ends (suc fuel) (some k) (some c) s v w u h =
      elim (is_open-cases open_files (s.store c.arr c.at) s) [
        | inl (true, e) ↦ elim (Option-cases (find_node page s)) [
          | inl q ↦ rw (e, q) tt
          | inr (n, q) ↦
              let le : n.mem_rec_idx ≤ 38 =
                All-tfind (λ n. n.mem_rec_idx ≤ 38) (rec_compare page) s.tree n v q in
              let after = next-IsCursor n.mem_rec_idx c le u in
              elim (Bool-cases (k.arr == c.arr && k.at == c.at)) [
                | inl same ↦
                    rw (e, q)
                      (rw (Ends, same)
                        (compact_loop-Ends fuel (some k) (next n.mem_rec_idx c) s v w after.0
                          (omega (arith, after.1))))
                | inr other ↦
                    rw (e, q)
                      (rw (Ends, other)
                        (compact_loop-Ends fuel (next n.mem_rec_idx k) (next n.mem_rec_idx c)
                          (record s {
                            store = write_rec_at s.store k.arr k.at (s.store c.arr c.at);
                          })
                          v (next-IsCursor n.mem_rec_idx k le w).0 after.0
                          (omega (arith, after.1))))
              ]
        ]
        | inl (false, e) ↦ elim (Option-cases (find_node page s)) [
          | inl q ↦ rw (e, q) tt
          | inr (n, q) ↦
              let le : k.idx ≤ 38 = omega (arith, w.0, w.1) in
              let after = next-IsCursor k.idx c le u in
              rw (e, q)
                (compact_loop-Ends fuel (next k.idx k) (next k.idx c)
                  (modify_node page
                    (λ n. record n { rec_mod_entry = k.ent.addr; mem_rec_idx = k.idx }) s)
                  (modified-IsBounded page
                    (λ n. record n { rec_mod_entry = k.ent.addr; mem_rec_idx = k.idx }) s
                    (λ n _. le) v)
                  (next-IsCursor k.idx k le w).0 after.0 (omega (arith, after.1)))
        ]
        | inr e ↦ rw e tt
      ]
