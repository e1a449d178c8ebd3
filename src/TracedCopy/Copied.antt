-- ===== src/TracedCopy/Copied.antt =====
-- `ts_memcpy_traced` of a source range on one page whose records are in one array.
use cidl.Base.{
  ℕ, zero, suc, ◌+◌, ◌≡◌, refl, ap, sym, ◌∙◌, subst, true, false, List, [], ◌∷◌, if◌then◌else◌,
  some, has, ok, arith, Bool-cases, inl, inr, add64, sub64,
}
use cidl.Addr.{Ptr}
use cidl.Rec.{MemRec, RecTreeNode, Recs, Store, find_node, OpenFiles}
use cidl.Rec.View.{take_recs, arrs}
use cidl.Rec.Owned.{IsOwned}
use cidl.Rec.Insert.Stock.{HasStock, restock}
use cidl.Write.{rec_addr}
use cidl.TracedCopy.{copy_recs, is_from, seek_rec}
use cidl.TracedCopy.Moves.{Move, Away, Moved, none-Moved, one-Moved, then-Moved, take_recs-kept}

-- The records of a page, each with the address at the same distance from `dest` as its own is from
-- `src`.
abbrev pub moves : (dest src : Ptr) → (start : ℕ) → List MemRec → List Move
moves dest src start [] = []
moves dest src start (r ∷ rs) =
    record { rec = r; dest = add64 dest (sub64 (rec_addr start r) src) } ∷ moves dest src start rs

-- The records up to the first one that is not below the offset, and those from it on.
abbrev pub records_below : (offset : ℕ) → List MemRec → List MemRec
records_below offset [] = []
records_below offset (r ∷ rs) = if is_from offset r then [] else r ∷ records_below offset rs

abbrev pub records_from : (offset : ℕ) → List MemRec → List MemRec
records_from offset [] = []
records_from offset (r ∷ rs) = if is_from offset r then r ∷ rs else records_from offset rs

module _ (open_files : OpenFiles) (dest src : Ptr) (page : ℕ) (n : RecTreeNode) (arr : Ptr)
    (mine : has arr (arrs n.list_head) ≡ true) (k : ℕ) where
  -- The loop over the records of an array moves all of them.
  pub copy_recs-Moved :
      (left i : ℕ) (s : Recs) {ents arrays : List Ptr}
      → IsOwned ents arrays s
      → HasStock (left + k) s
      → find_node page s ≡ some n
      → Away page (moves dest src page (take_recs s.store arr i left))
      → (t : Recs) × (copy_recs false open_files dest src page left arr i s ≡ ok (tt, t))
        × Moved page n k (moves dest src page (take_recs s.store arr i left)) s t
  unfolding copy_recs
  copy_recs-Moved zero i s o w found away =
      (s, refl, none-Moved page n k s o (restock s w (omega arith)) found)
  copy_recs-Moved (suc left) i s o w found away =
      let r = s.store arr i in
      let m : Move = record { rec = r; dest = add64 dest (sub64 (rec_addr page r) src) } in
      let (t, run, first) =
        one-Moved open_files page n (left + k) m s o (restock s w (omega arith)) found away.0 in
      let same : take_recs t.store arr (i + 1) left ≡ take_recs s.store arr (i + 1) left =
        take_recs-kept s.store t.store arr (i + 1) left (λ j. first.kept arr j mine) in
      let (u, run', rest) =
        copy_recs-Moved left (i + 1) t first.owned first.stock first.stays
          (subst (λ l. Away page (moves dest src page l)) (sym same) away.1) in
      (
        u,
        rw run run',
        then-Moved page n (left + k) k m (moves dest src page (take_recs s.store arr (i + 1) left))
            s t u first (subst (λ l. Moved page n k (moves dest src page l) t u) same rest),
      )

-- The first record that is not below the offset, if the last one is not.
pub seek_rec-finds :
    (st : Store) (arr : Ptr) (offset m i : ℕ)
    → is_from offset (st arr (i + m)) ≡ true
    → (d e : ℕ) × (suc m ≡ d + suc e)
      × (seek_rec st arr offset (suc m) i ≡ some (i + d))
      × (records_below offset (take_recs st arr i (suc m)) ≡ take_recs st arr i d)
      × (records_from offset (take_recs st arr i (suc m)) ≡ take_recs st arr (i + d) (suc e))
unfolding seek_rec
seek_rec-finds st arr offset zero i h =
    (zero, zero, omega arith, ground arith, ground arith, ground arith)
seek_rec-finds st arr offset (suc m) i h = elim (Bool-cases (is_from offset (st arr i))) [
  | inl here ↦ (zero, suc m, omega arith, ground arith, ground arith, ground arith)
  | inr there ↦
      let shift : i + 1 + m ≡ i + suc m = omega arith in
      let (d, e, count, found, below, from) =
        seek_rec-finds st arr offset m (i + 1) (ap (λ j. is_from offset (st arr j)) shift ∙ h) in
      let at : i + 1 + d ≡ i + suc d = omega arith in
      (
        suc d,
        e,
        omega (arith, count),
        rw (seek_rec, there) (found ∙ ap some at),
        ground (arith, below),
        ground (arith, from, ap (λ j. take_recs st arr j (suc e)) at),
      )
]

-- The same from the start of an array.
pub seek_rec-first :
    (st : Store) (arr : Ptr) (offset m : ℕ)
    → is_from offset (st arr m) ≡ true
    → (d e : ℕ) × (suc m ≡ d + suc e)
      × (seek_rec st arr offset (suc m) 0 ≡ some d)
      × (records_below offset (take_recs st arr 0 (suc m)) ≡ take_recs st arr 0 d)
      × (records_from offset (take_recs st arr 0 (suc m)) ≡ take_recs st arr d (suc e))
seek_rec-first st arr offset m h =
    let zero_add : (k : ℕ) → 0 + k ≡ k = λ k. omega arith in
    let (d, e, count, found, below, from) =
      seek_rec-finds st arr offset m 0 (ap (λ j. is_from offset (st arr j)) (zero_add m) ∙ h) in
    (
      d,
      e,
      count,
      found ∙ ap some (zero_add d),
      below,
      from ∙ ap (λ j. take_recs st arr j (suc e)) (zero_add d),
    )
