-- ===== src/StreamWrite/Bounds.antt =====
-- What `ts_fwrite` counts as the same.
use cidl.Base.{
  ℕ, zero, suc, ◌+◌, ◌-◌, ◌*◌, ◌%◌, ◌≤◌, ◌<◌, ◌≡◌, sym, subst, List, [], ◌∷◌, ◌++◌, ltb, leb,
  if◌then◌else◌, some, arith, Bool-cases, Option-cases, inl, inr, word64, add64, ltb→le,
}
use cidl.Addr.{Ptr, get_addr, addr2page_num}
use cidl.SearchTree.{tfind}
use cidl.Rec.{MemRec, RecBlockEntry, RecTreeNode, find_node}
use cidl.Rec.View.{records, entries_records, node_records, take_recs, count_in}
use cidl.State.{State, Stats, file_map_name_tree_ins_del_compare}
use cidl.Write.{Progress, rec_addr, cmp_write, file_cmp_start_of}
use cidl.Write.Compare.{common, common-le, cmp_write-common}
use cidl.StreamWrite.{
  skip_before, stream_recs, stream_block, stream_blocks, stream_page, stream_pages, ts_fwrite,
}

-- No record of the list lies before `buf`.
abbrev pub NoneBefore : (start : ℕ) → (buf : Ptr) → List MemRec → Type 0
NoneBefore start buf [] = Unit {0}
NoneBefore start buf (r ∷ rs) = (buf ≤ rec_addr start r) × NoneBefore start buf rs

NoneBefore-append :
    (start : ℕ) (buf : Ptr) (rs qs : List MemRec)
    → NoneBefore start buf (rs ++ qs)
    → NoneBefore start buf rs × NoneBefore start buf qs
NoneBefore-append start buf [] qs h = (tt, h)
NoneBefore-append start buf (r ∷ rs) qs h =
    let k = NoneBefore-append start buf rs qs h.1 in ((h.0, k.0), k.1)

-- The end of the part of the buffer that has been compared.
abbrev reach : ℕ → Progress → ℕ
reach buf p = if ltb p.diff_pos buf then buf else p.diff_pos

-- Since the count of same bytes was `base`, it has grown by no more than that part.
pub record IsStreamed (base buf tail : ℕ) (p : Progress) : Type 0 where
  pub lower : base ≤ p.stats.ts_write_same_size
  pub upper : p.stats.ts_write_same_size + buf ≤ base + reach buf p
  pub inside : p.diff_pos ≤ tail

module _ (s : State) (base buf tail : ℕ) (fits : tail < word64)
    (room : base + (tail - buf) < word64) where
  reach-le : (p : Progress) (at : ℕ) → buf ≤ at → p.diff_pos ≤ at → reach buf p ≤ at
  reach-le p at h k = ground arith

  compared-IsStreamed :
      (at : ℕ) (r : MemRec) (p : Progress)
      → IsStreamed base buf tail p
      → p.diff_pos ≤ at
      → buf ≤ at
      → at ≤ tail
      → IsStreamed base buf tail (cmp_write s at r tail p).1
  unfolding cmp_write
  compared-IsStreamed at r p v h b k =
      elim (Option-cases
        (tfind (file_map_name_tree_ins_del_compare s.files.nodes r.file_name) s.files.name_tree)) [
          | inl absent ↦ rw absent v
          | inr (fm, found) ↦ elim (Bool-cases (leb (s.files.nodes fm).offset r.file_offset)) [
            | inl in_map ↦
                let c = common s.bytes (tail - at) at (file_cmp_start_of (s.files.nodes fm) r) in
                let le : c ≤ tail - at = common-le s.bytes (tail - at) at _ in
                let before = reach-le p at b h in
                subst (λ q. IsStreamed base buf tail q.1)
                  (sym (cmp_write-common s r fm at tail p found (ground arith) k fits))
                  (record {
                    lower = ground (arith, v.lower, v.upper);
                    upper = ground (arith, v.lower, v.upper);
                    inside = omega arith;
                  })
            | inr out ↦ rw (found, out) v
          ]
        ]

  recs-IsStreamed :
      (start left : ℕ) (arr : Ptr) (i : ℕ) (p : Progress)
      → NoneBefore start buf (take_recs s.recs.store arr i left)
      → IsStreamed base buf tail p
      → IsStreamed base buf tail (stream_recs s start buf tail left arr i p)
  unfolding stream_recs
  recs-IsStreamed start zero arr i p h v = v
  recs-IsStreamed start (suc left) arr i p h v =
      elim (Bool-cases (ltb (rec_addr start (s.recs.store arr i)) p.diff_pos)) [
        | inl before ↦ rw (stream_recs, before) (recs-IsStreamed start left arr (i + 1) p h.1 v)
        | inr here ↦ elim (Bool-cases (ltb tail (rec_addr start (s.recs.store arr i)))) [
          | inl behind ↦ rw (stream_recs, here, behind) v
          | inr within ↦
              rw (stream_recs, here, within)
                (recs-IsStreamed start left arr (i + 1) _ h.1 (
                  compared-IsStreamed (rec_addr start (s.recs.store arr i)) (s.recs.store arr i) p v
                    (ltb→le _ _ here) h.0 (ltb→le _ _ within)))
        ]
      ]

  -- What is left of an array behind the skipped records.
  left_behind :
      (start left : ℕ) (arr : Ptr) (i : ℕ)
      → NoneBefore start buf (take_recs s.recs.store arr i left)
      → (let j = skip_before s start buf tail left arr i in
          NoneBefore start buf (take_recs s.recs.store arr j (i + left - j)))
  unfolding skip_before
  left_behind start zero arr i h =
      subst (λ k. NoneBefore start buf (take_recs s.recs.store arr i k)) {x = 0} {y = i + 0 - i}
        (omega arith) h
  left_behind start (suc left) arr i h =
      elim (Bool-cases (ltb (rec_addr start (s.recs.store arr i)) buf)) [
        | inl before ↦
            rw (skip_before, before)
              (let j = skip_before s start buf tail left arr (i + 1) in
                subst (λ k. NoneBefore start buf (take_recs s.recs.store arr j k))
                  {x = i + 1 + left - j} {y = i + suc left - j} (omega arith)
                  (left_behind start left arr (i + 1) h.1))
        | inr here ↦
            rw (skip_before, here)
              (subst (λ k. NoneBefore start buf (take_recs s.recs.store arr i k)) {x = suc left}
                {y = i + suc left - i} (omega arith) h)
      ]

  blocks-IsStreamed :
      (start : ℕ) (n : RecTreeNode) (es : List RecBlockEntry) (p : Progress)
      → NoneBefore start buf (entries_records s.recs.store n es)
      → IsStreamed base buf tail p
      → IsStreamed base buf tail (stream_blocks s start buf tail n es p)
  unfolding stream_blocks stream_block
  blocks-IsStreamed start n [] p h v = v
  blocks-IsStreamed start n (e ∷ es) p h v =
      let idx = count_in n e in
      let k =
        NoneBefore-append start buf (entries_records s.recs.store n es)
          (take_recs s.recs.store e.rec_arr 0 idx) h in
      let i = skip_before s start buf tail idx e.rec_arr 0 in
      recs-IsStreamed start (idx - i) e.rec_arr i (stream_blocks s start buf tail n es p)
        (subst (λ m. NoneBefore start buf (take_recs s.recs.store e.rec_arr i m)) {x = 0 + idx - i}
          {y = idx - i} (omega arith) (left_behind start idx e.rec_arr 0 k.1))
        (blocks-IsStreamed start n es p k.0 v)

  page-IsStreamed :
      (length start : ℕ) (p : Progress)
      → NoneBefore start buf (records s.recs start)
      → IsStreamed base buf tail p
      → IsStreamed base buf tail (stream_page s buf length tail start p)
  unfolding stream_page
  page-IsStreamed length start p h v = elim (Bool-cases (ltb (get_addr start 0) p.diff_pos)) [
    | inl before ↦ rw before v
    | inr here ↦ elim (Option-cases (find_node start s.recs)) [
      | inl absent ↦
          rw (here, absent) (record { lower = v.lower; upper = v.upper; inside = v.inside })
      | inr (n, found) ↦
          rw (here, found) (blocks-IsStreamed start n n.list_head p (of_node n found) v)
    ]
  ]
    where
      of_node :
          (n : RecTreeNode)
          → find_node start s.recs ≡ some n
          → NoneBefore start buf (node_records s.recs.store n)
      of_node n found = rw found at h

  pages-IsStreamed :
      (length left start : ℕ) (p : Progress)
      → ((q : ℕ) → start ≤ q → q < start + left → NoneBefore q buf (records s.recs q))
      → IsStreamed base buf tail p
      → IsStreamed base buf tail (stream_pages s buf length tail left start p)
  unfolding stream_pages
  pages-IsStreamed length zero start p h v = v
  pages-IsStreamed length (suc left) start p h v =
      pages-IsStreamed length left (start + 1) (stream_page s buf length tail start p)
        (λ q a b. h q (omega arith) (omega arith))
        (page-IsStreamed length start p (h start (omega arith) (omega arith)) v)

-- If no record of the pages of the buffer lies before it, and the count does not overflow, then
-- `ts_fwrite` adds at least 0 and at most the bytes written to the count of same bytes, wherever else
-- the records lie.
pub ts_fwrite_bounds :
    (buf size n written : ℕ) (bytes : Ptr → ℕ) (s : State)
    → buf + size * n < word64
    → s.stats.ts_write_same_size + size * n < word64
    → ((q : ℕ)
        → addr2page_num buf ≤ q
        → q ≤ addr2page_num (buf + size * n)
        → NoneBefore q buf (records s.recs q))
    → let s' = (ts_fwrite buf size n written bytes s).1 in
      (s.stats.ts_write_same_size ≤ s'.stats.ts_write_same_size)
      × (s'.stats.ts_write_same_size ≤ s.stats.ts_write_same_size + size * n)
unfolding ts_fwrite
ts_fwrite_bounds buf size n written bytes s fits room none_before =
    let s' : State = record s { bytes = bytes } in
    let length = size * n in
    let l : length % word64 ≡ length = omega arith in
    let e : add64 buf length ≡ buf + length = omega arith in
    let start = addr2page_num buf in
    let end = addr2page_num (buf + length) in
    let counted : Stats = record (s.stats) { ts_write_size = add64 s.stats.ts_write_size length } in
    let v =
      pages-IsStreamed s' s.stats.ts_write_same_size buf (buf + length) fits (omega arith) length
        (end + 1 - start) start (record { stats = counted; diff_pos = 0 })
        (λ q a b. none_before q a (omega arith))
        (record { lower = omega arith; upper = ground arith; inside = omega arith }) in
    let top =
      reach-le s' s.stats.ts_write_same_size buf (buf + length) fits (omega arith)
        (stream_pages s' buf length (buf + length) (end + 1 - start) start
          (record { stats = counted; diff_pos = 0 }))
        (buf + length) (omega arith) v.inside in
    rw (l, e) (v.lower, omega (arith, v.upper, top))
