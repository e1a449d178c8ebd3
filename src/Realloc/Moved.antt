-- ===== src/Realloc/Moved.antt =====
-- `ts_realloc` of a block on one page whose records are in one array.
use mathlib.Core.Path.{ap₂}
use cidl.Base.{
  Bool, Run, pure, ◌>>◌, and_then, ℕ, zero, suc, ◌+◌, ◌<◌, ◌≡◌, refl, ap, sym, ◌∙◌, subst, true,
  false, List, [], ◌∷◌, if◌then◌else◌, some, has, ok, arith, ltb, leb, Bool-cases, inl, inr, add64,
  sub64,
}
use cidl.Addr.{Ptr}
use cidl.Rec.{MemRec, RecTreeNode, Recs, find_node, OpenFiles}
use cidl.Rec.View.{take_recs, arrs}
use cidl.Rec.Owned.{IsOwned}
use cidl.Rec.Insert.{insert_rec}
use cidl.Rec.Insert.Stock.{HasStock, restock}
use cidl.Write.{rec_addr}
use cidl.TracedCopy.Moves.{Move, Away, Moved, none-Moved, one-Moved, then-Moved, take_recs-kept}
use cidl.Realloc.{move_recs}

-- The records up to the first one that is not below `tail`, and of these the ones above `ptr`.
abbrev pub records_before : (tail : Ptr) → (start : ℕ) → List MemRec → List MemRec
records_before tail start [] = []
records_before tail start (r ∷ rs) =
    if ltb (rec_addr start r) tail then r ∷ records_before tail start rs else []

abbrev pub records_above : (ptr : Ptr) → (start : ℕ) → List MemRec → List MemRec
records_above ptr start [] = []
records_above ptr start (r ∷ rs) =
    let rest = records_above ptr start rs in if ltb ptr (rec_addr start r) then r ∷ rest else rest

-- Each record with the address at the same distance from `ret` as its own is from `ptr`.
abbrev pub relocated : (ptr ret : Ptr) → (start : ℕ) → List MemRec → List Move
relocated ptr ret start [] = []
relocated ptr ret start (r ∷ rs) =
    record { rec = r; dest = add64 (sub64 (rec_addr start r) ptr) ret } ∷ relocated ptr ret start rs

abbrev pub block_moves : (ptr tail ret : Ptr) → (start : ℕ) → List MemRec → List Move
block_moves ptr tail ret start rs =
    relocated ptr ret start (records_above ptr start (records_before tail start rs))

module _ (open_files : OpenFiles) (ptr tail ret : Ptr) (inside : ptr < tail) (page : ℕ)
    (n : RecTreeNode) (arr : Ptr) (mine : has arr (arrs n.list_head) ≡ true) where
  -- The rest of the loop after the record `i`.
  abbrev rest_of : (left i : ℕ) → Run Recs (Unit {0})
  rest_of left i = move_recs false open_files ptr tail ret page left arr (i + 1)

  abbrev insert_moved : MemRec → Run Recs (Unit {0})
  insert_moved r =
      insert_rec false open_files r.file_offset (add64 (sub64 (rec_addr page r) ptr) ret)
        r.file_name r.fd

  -- One round, by the two tests.
  abbrev round : (below behind : Bool) → (left i : ℕ) → Run Recs (Unit {0})
  round below behind left i s =
      (if below
          then rest_of left i
          else (if behind then pure tt else (insert_moved (s.store arr i) >> rest_of left i)))
        s

  move_recs-round :
      (below behind : Bool) (left i : ℕ) (s : Recs)
      → leb (rec_addr page (s.store arr i)) ptr ≡ below
      → leb tail (rec_addr page (s.store arr i)) ≡ behind
      → move_recs false open_files ptr tail ret page (suc left) arr i s
        ≡ round below behind left i s
  unfolding move_recs
  move_recs-round below behind left i s e f = ap₂ (λ b c. round b c left i s) e f

  abbrev moves_in : (left i : ℕ) → Recs → List Move
  moves_in left i s = block_moves ptr tail ret page (take_recs s.store arr i left)

  abbrev move_of : MemRec → Move
  move_of r = record { rec = r; dest = add64 (sub64 (rec_addr page r) ptr) ret }

  abbrev Done : (left i : ℕ) → Recs → Type 0
  Done left i s =
      (t : Recs) × (move_recs false open_files ptr tail ret page left arr i s ≡ ok (tt, t))
      × Moved page n 0 (moves_in left i s) s t

  moves_in-below :
      (left i : ℕ) (s : Recs)
      → leb (rec_addr page (s.store arr i)) ptr ≡ true
      → moves_in (suc left) i s ≡ moves_in left (i + 1) s
  moves_in-below left i s below = ground arith

  moves_in-behind :
      (left i : ℕ) (s : Recs)
      → leb tail (rec_addr page (s.store arr i)) ≡ true
      → moves_in (suc left) i s ≡ []
  moves_in-behind left i s behind = ground arith

  moves_in-inside :
      (left i : ℕ) (s : Recs)
      → leb (rec_addr page (s.store arr i)) ptr ≡ false
      → leb tail (rec_addr page (s.store arr i)) ≡ false
      → moves_in (suc left) i s ≡ move_of (s.store arr i) ∷ moves_in left (i + 1) s
  moves_in-inside left i s above before = ground arith

  kept :
      {k : ℕ} {ms : List Move} (left i : ℕ) (s t : Recs)
      → Moved page n k ms s t
      → moves_in left i t ≡ moves_in left i s
  kept left i s t m =
      ap (block_moves ptr tail ret page)
        (take_recs-kept s.store t.store arr i left (λ j. m.kept arr j mine))

  below-Done :
      (left i : ℕ) (s : Recs)
      → leb (rec_addr page (s.store arr i)) ptr ≡ true
      → Done left (i + 1) s
      → Done (suc left) i s
  below-Done left i s below (t, run, moved) = (
    t,
    move_recs-round true (leb tail (rec_addr page (s.store arr i))) left i s below refl ∙ run,
    subst (λ l. Moved page n 0 l s t) (sym (moves_in-below left i s below)) moved,
  )

  inside-Done :
      (left i : ℕ) (s t : Recs)
      → leb (rec_addr page (s.store arr i)) ptr ≡ false
      → leb tail (rec_addr page (s.store arr i)) ≡ false
      → insert_moved (s.store arr i) s ≡ ok (tt, t)
      → Moved page n left (move_of (s.store arr i) ∷ []) s t
      → Done left (i + 1) t
      → Done (suc left) i s
  inside-Done left i s t above before run first (u, run', others) = (
    u,
    move_recs-round false false left i s above before
        ∙ ap (λ x. and_then x (λ _. rest_of left i)) run
        ∙ run',
    subst (λ l. Moved page n 0 l s u) (sym (moves_in-inside left i s above before))
        (then-Moved page n left 0 (move_of (s.store arr i)) (moves_in left (i + 1) s) s t u first
          (subst (λ l. Moved page n 0 l t u) (kept left (i + 1) s t first) others)),
  )

  -- The loop over the records of an array.
  pub move_recs-Moved :
      (left i : ℕ) (s : Recs) {ents arrays : List Ptr}
      → IsOwned ents arrays s
      → HasStock left s
      → find_node page s ≡ some n
      → Away page (moves_in left i s)
      → Done left i s
  unfolding move_recs
  move_recs-Moved zero i s o w found away = (s, refl, none-Moved page n 0 s o w found)
  move_recs-Moved (suc left) i s o w found away =
      elim (Bool-cases (leb (rec_addr page (s.store arr i)) ptr)) [
        | inl below ↦ below-Done left i s below (
            move_recs-Moved left (i + 1) s o (restock s w (omega arith)) found
              (subst (Away page) (moves_in-below left i s below) away))
        | inr above ↦ elim (Bool-cases (leb tail (rec_addr page (s.store arr i)))) [
          | inl behind ↦ (
            s,
            move_recs-round false true left i s above behind,
            subst (λ l. Moved page n 0 l s s) (sym (moves_in-behind left i s behind))
                (none-Moved page n 0 s o (restock s w (omega arith)) found),
          )
          | inr before ↦
              let away' = subst (Away page) (moves_in-inside left i s above before) away in
              let (t, run, first) =
                one-Moved open_files page n left (move_of (s.store arr i)) s o w found away'.0 in
              inside-Done left i s t above before run first (
                move_recs-Moved left (i + 1) t first.owned first.stock first.stays
                  (subst (Away page) (sym (kept left (i + 1) s t first)) away'.1))
        ]
      ]
