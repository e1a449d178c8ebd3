-- ===== src/Write/Fold.antt =====
-- The loops of `do_ts_write` over the entries and arrays of a page, against the order of `Rec.View`.
use cidl.Base.{
  ℕ, zero, suc, ◌+◌, ◌-◌, ◌≡◌, refl, ap, sym, ◌∙◌, true, false, List, [], ◌∷◌, ◌++◌, ltb,
  if◌then◌else◌, arith, Bool-cases, inl, inr,
}
use cidl.Addr.{Ptr}
use cidl.Rec.{MemRec, RecBlockEntry, RecTreeNode}
use cidl.Rec.View.{take_recs, entries_records, count_in}
use cidl.State.{State}
use cidl.Write.{Progress, rec_addr, cmp_write, skip, compare_recs, compare_block, compare_blocks}

module _ (s : State) (start : ℕ) (tail : Ptr) where
  abbrev pub compare_one : MemRec → Progress → Progress
  compare_one r p =
      if ltb (rec_addr start r) p.diff_pos then p else (cmp_write s (rec_addr start r) r tail p).1

  abbrev pub compare_all : List MemRec → Progress → Progress
  compare_all [] p = p
  compare_all (r ∷ rs) p = compare_all rs (compare_one r p)

  compare_all-append :
      (rs qs : List MemRec) (p : Progress)
      → compare_all (rs ++ qs) p ≡ compare_all qs (compare_all rs p)
  compare_all-append [] qs p = refl
  compare_all-append (r ∷ rs) qs p = compare_all-append rs qs (compare_one r p)

  compare_recs-all :
      (left : ℕ) (arr : Ptr) (i : ℕ) (p : Progress)
      → compare_recs s start tail left arr i p ≡ compare_all (take_recs s.recs.store arr i left) p
  unfolding compare_recs
  compare_recs-all zero arr i p = refl
  compare_recs-all (suc left) arr i p =
      compare_recs-all left arr (i + 1) (compare_one (s.recs.store arr i) p)

  by_count :
      (arr : Ptr) (i k k' : ℕ) (p : Progress)
      → k ≡ k'
      → compare_all (take_recs s.recs.store arr i k) p
        ≡ compare_all (take_recs s.recs.store arr i k') p
  by_count arr i k k' p e = ap (λ m. compare_all (take_recs s.recs.store arr i m) p) e

  skip_before :
      (left : ℕ) (arr : Ptr) (i : ℕ) (p : Progress)
      → ltb (rec_addr start (s.recs.store arr i)) p.diff_pos ≡ true
      → skip s start tail (suc left) arr i p.diff_pos
        ≡ skip s start tail left arr (i + 1) p.diff_pos
  unfolding skip
  skip_before left arr i p h = ground arith

  skip_here :
      (left : ℕ) (arr : Ptr) (i : ℕ) (p : Progress)
      → ltb (rec_addr start (s.recs.store arr i)) p.diff_pos ≡ false
      → skip s start tail (suc left) arr i p.diff_pos ≡ i
  unfolding skip
  skip_here left arr i p h = ground arith

  one_before :
      (r : MemRec) (p : Progress) → ltb (rec_addr start r) p.diff_pos ≡ true → compare_one r p ≡ p
  one_before r p h = rw h

  -- The records that the first loop skips would not be compared by the second.
  skip-all :
      (left : ℕ) (arr : Ptr) (i : ℕ) (p : Progress)
      → (let j = skip s start tail left arr i p.diff_pos in
          compare_all (take_recs s.recs.store arr j (i + left - j)) p)
        ≡ compare_all (take_recs s.recs.store arr i left) p
  unfolding skip
  skip-all zero arr i p = by_count arr i (i + 0 - i) 0 p (omega arith)
  skip-all (suc left) arr i p =
      elim (Bool-cases (ltb (rec_addr start (s.recs.store arr i)) p.diff_pos)) [
        | inl before ↦
            let j = skip s start tail left arr (i + 1) p.diff_pos in
            ap from (skip_before left arr i p before)
            ∙ by_count arr j (i + suc left - j) (i + 1 + left - j) p (omega arith)
            ∙ skip-all left arr (i + 1) p
            ∙ sym (
                ap (compare_all (take_recs s.recs.store arr (i + 1) left))
                  (one_before (s.recs.store arr i) p before))
        | inr here ↦
            ap from (skip_here left arr i p here)
            ∙ by_count arr i (i + suc left - i) (suc left) p (omega arith)
      ]
    where
      from : ℕ → Progress
      from j = compare_all (take_recs s.recs.store arr j (i + suc left - j)) p

  compare_block-all :
      (n : RecTreeNode) (e : RecBlockEntry) (p : Progress)
      → compare_block s start tail n e p
        ≡ compare_all (take_recs s.recs.store e.rec_arr 0 (count_in n e)) p
  unfolding compare_block
  compare_block-all n e p =
      let idx = count_in n e in
      let i = skip s start tail idx e.rec_arr 0 p.diff_pos in
      compare_recs-all (idx - i) e.rec_arr i p
      ∙ by_count e.rec_arr i (idx - i) (0 + idx - i) p (omega arith)
      ∙ skip-all idx e.rec_arr 0 p

  -- Comparing the entries of a node is comparing its records, oldest first.
  pub compare_blocks-all :
      (n : RecTreeNode) (es : List RecBlockEntry) (p : Progress)
      → compare_blocks s start tail n es p ≡ compare_all (entries_records s.recs.store n es) p
  unfolding compare_blocks
  compare_blocks-all n [] p = refl
  compare_blocks-all n (e ∷ es) p =
      compare_block-all n e (compare_blocks s start tail n es p)
      ∙ ap (compare_all (take_recs s.recs.store e.rec_arr 0 (count_in n e)))
          (compare_blocks-all n es p)
      ∙ sym (
          compare_all-append (entries_records s.recs.store n es)
            (take_recs s.recs.store e.rec_arr 0 (count_in n e)) p)
