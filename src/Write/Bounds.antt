-- ===== src/Write/Bounds.antt =====
-- The bytes that `ts_write` counts as the same, against those that it writes.
use cidl.Base.{
  ℕ, zero, suc, ◌+◌, ◌-◌, ◌%◌, ◌≤◌, ◌<◌, ◌≡◌, sym, subst, List, [], ◌∷◌, ltb, leb, some, arith,
  Bool-cases, Option-cases, inl, inr, word64, add64, ltb→le,
}
use cidl.Addr.{Ptr, get_addr, addr2page_num}
use cidl.SearchTree.{tfind}
use cidl.Rec.{MemRec, RecTreeNode, find_node}
use cidl.Rec.View.{records, node_records}
use cidl.State.{State, file_map_name_tree_ins_del_compare}
use cidl.Write.{
  Progress, rec_addr, cmp_write, file_cmp_start_of, compare_page, compare_pages, do_ts_write,
  ts_write,
}
use cidl.Write.Compare.{common, common-le, cmp_write-common}
use cidl.Write.Fold.{compare_one, compare_all, compare_blocks-all}

-- No record of the list lies behind `tail`.
abbrev pub NoneBehind : (start : ℕ) → (tail : Ptr) → List MemRec → Type 0
NoneBehind start tail [] = Unit {0}
NoneBehind start tail (r ∷ rs) = (rec_addr start r ≤ tail) × NoneBehind start tail rs

-- Since the count of same bytes was `base`, it has grown by no more than the bytes of the buffer
-- before `diffPos`, which lies in the buffer.
pub record IsCounted (base buf tail : ℕ) (p : Progress) : Type 0 where
  pub lower : base ≤ p.stats.ts_write_same_size
  pub upper : p.stats.ts_write_same_size + buf ≤ base + p.diff_pos
  pub past : buf ≤ p.diff_pos
  pub inside : p.diff_pos ≤ tail

module _ (s : State) (base buf tail : ℕ) (fits : tail < word64)
    (room : base + (tail - buf) < word64) where
  cmp_write-cases :
      (start : ℕ) (r : MemRec) (p : Progress)
      → IsCounted base buf tail p
      → p.diff_pos ≤ start
      → start ≤ tail
      → IsCounted base buf tail (cmp_write s start r tail p).1
  unfolding cmp_write
  cmp_write-cases start r p v h k =
      elim (Option-cases
        (tfind (file_map_name_tree_ins_del_compare s.files.nodes r.file_name) s.files.name_tree)) [
          | inl absent ↦ rw absent v
          | inr (fm, found) ↦ elim (Bool-cases (leb (s.files.nodes fm).offset r.file_offset)) [
            | inl in_map ↦
                let c =
                  common s.bytes (tail - start) start (file_cmp_start_of (s.files.nodes fm) r) in
                let le : c ≤ tail - start = common-le s.bytes (tail - start) start _ in
                subst (λ q. IsCounted base buf tail q.1)
                  (sym (cmp_write-common s r fm start tail p found (ground arith) k fits))
                  (record {
                    lower = ground (arith, v.lower, v.upper);
                    upper = ground (arith, v.lower, v.upper);
                    past = omega arith;
                    inside = omega arith;
                  })
            | inr out ↦ rw (found, out) v
          ]
        ]

  one-IsCounted :
      (start : ℕ) (r : MemRec) (p : Progress)
      → rec_addr start r ≤ tail
      → IsCounted base buf tail p
      → IsCounted base buf tail (compare_one s start tail r p)
  one-IsCounted start r p h v = elim (Bool-cases (ltb (rec_addr start r) p.diff_pos)) [
    | inl before ↦ rw before v
    | inr here ↦ rw here (cmp_write-cases (rec_addr start r) r p v (ltb→le _ _ here) h)
  ]

  all-IsCounted :
      (start : ℕ) (rs : List MemRec) (p : Progress)
      → NoneBehind start tail rs
      → IsCounted base buf tail p
      → IsCounted base buf tail (compare_all s start tail rs p)
  all-IsCounted start [] p h v = v
  all-IsCounted start (r ∷ rs) p h v =
      all-IsCounted start rs (compare_one s start tail r p) h.1 (one-IsCounted start r p h.0 v)

  node-IsCounted :
      (start : ℕ) (n : RecTreeNode) (p : Progress)
      → find_node start s.recs ≡ some n
      → NoneBehind start tail (records s.recs start)
      → IsCounted base buf tail p
      → IsCounted base buf tail (compare_all s start tail (node_records s.recs.store n) p)
  node-IsCounted start n p found h v = all-IsCounted start _ p (rw found at h) v

  pub page-IsCounted :
      (own length start : ℕ) (p : Progress)
      → NoneBehind start tail (records s.recs start)
      → IsCounted base buf tail p
      → IsCounted base buf tail (compare_page s own length tail start p)
  unfolding compare_page
  page-IsCounted own length start p h v = elim (Bool-cases (ltb (get_addr start 4095) p.diff_pos)) [
    | inl before ↦ rw before v
    | inr here ↦ elim (Option-cases (find_node start s.recs)) [
      | inl absent ↦
          rw (here, absent)
            (record { lower = v.lower; upper = v.upper; past = v.past; inside = v.inside })
      | inr (n, found) ↦
          rw (here, found)
            (rw (compare_blocks-all s start tail n n.list_head p)
              (node-IsCounted start n p found h v))
    ]
  ]

  pub pages-IsCounted :
      (own length left start : ℕ) (p : Progress)
      → ((q : ℕ) → start ≤ q → q < start + left → NoneBehind q tail (records s.recs q))
      → IsCounted base buf tail p
      → IsCounted base buf tail (compare_pages s own length tail left start p)
  unfolding compare_pages
  pages-IsCounted own length zero start p h v = v
  pages-IsCounted own length (suc left) start p h v =
      pages-IsCounted own length left (start + 1) (compare_page s own length tail start p)
        (λ q a b. h q (omega arith) (omega arith))
        (page-IsCounted own length start p (h start (omega arith) (omega arith)) v)

-- If no record of the pages of the buffer lies behind its end, and the count does not overflow, a
-- write adds at least 0 and at most its length to the count of same bytes.
pub ts_write_bounds :
    (buf length written : ℕ) (bytes : Ptr → ℕ) (s : State)
    → buf + length < word64
    → s.stats.ts_write_same_size + length < word64
    → ((q : ℕ)
        → addr2page_num buf ≤ q
        → q ≤ addr2page_num (buf + length)
        → NoneBehind q (buf + length) (records s.recs q))
    → let s' = (ts_write buf length written bytes s).1 in
      (s.stats.ts_write_same_size ≤ s'.stats.ts_write_same_size)
      × (s'.stats.ts_write_same_size ≤ s.stats.ts_write_same_size + length)
unfolding ts_write do_ts_write
ts_write_bounds buf length written bytes s fits room none_behind =
    let e : add64 buf length ≡ buf + length = omega arith in
    let s₁ = (record s {
      bytes = bytes;
      stats = record s.stats {
        ts_write_time = (s.stats.ts_write_time + 1) % 0xffffff;
        ts_write_size = add64 s.stats.ts_write_size length;
      };
    }) in
    let start = addr2page_num buf in
    let end = addr2page_num (buf + length) in
    let v =
      pages-IsCounted s₁ s.stats.ts_write_same_size buf (buf + length) fits (omega arith) buf length
        (end + 1 - start) start (record { stats = s₁.stats; diff_pos = buf })
        (λ q a b. none_behind q a (omega arith)) (omega arith) in
    rw e (omega (arith, v.lower, v.upper, v.inside))
