-- ===== src/TracedCopy/Moves.antt =====
-- Records that are inserted again at other addresses, one after the other, while the node that they
-- come from stays.
use mathlib.Core.List.{append_assoc}
use cidl.Base.{
  ℕ, zero, suc, ◌+◌, ◌≡◌, ◌≢◌, refl, ap, sym, ◌∙◌, true, false, List, [], ◌∷◌, ◌++◌, ◌==◌,
  if◌then◌else◌, some, has, ok, arith, Bool-cases, inl, inr,
}
use cidl.Addr.{Ptr, addr2page_num}
use cidl.Rec.{MemRec, RecTreeNode, Recs, Store, find_node, OpenFiles}
use cidl.Rec.View.{records, take_recs, arrs}
use cidl.Rec.Owned.{IsOwned}
use cidl.Rec.Insert.{insert_rec}
use cidl.Rec.Insert.State.{new_rec}
use cidl.Rec.Insert.Stock.{HasStock}
use cidl.Rec.Insert.Stocked.{insert_rec-stocked}

-- A record and the address that it is inserted at.
pub record Move : Type 0 where
  pub rec : MemRec
  pub dest : Ptr

abbrev pub page_of : Move → ℕ
page_of m = addr2page_num m.dest

abbrev pub rec_of : Move → MemRec
rec_of m = new_rec m.rec.file_offset m.dest m.rec.file_name m.rec.fd

-- What reaches a page, in order.
abbrev pub arrivals : ℕ → List Move → List MemRec
arrivals q [] = []
arrivals q (m ∷ ms) = if page_of m == q then rec_of m ∷ arrivals q ms else arrivals q ms

-- No record goes to the page.
abbrev pub Away : ℕ → List Move → Type 0
Away page [] = Unit {0}
Away page (m ∷ ms) = (page_of m ≢ page) × Away page ms

-- The moves were made, the node of `page` is still `n` with the records in its arrays, and the pools
-- have stock for `k` more.
pub record Moved (page : ℕ) (n : RecTreeNode) (k : ℕ) (ms : List Move) (s t : Recs) : Type 0 where
  pub arrives : (q : ℕ) → records t q ≡ records s q ++ arrivals q ms
  pub ents : List Ptr
  pub arrays : List Ptr
  pub owned : IsOwned ents arrays t
  pub stock : HasStock k t
  pub stays : find_node page t ≡ some n
  pub kept : (a : Ptr) (i : ℕ) → has a (arrs n.list_head) ≡ true → t.store a i ≡ s.store a i

append_nil : {A : Type 0} (xs : List A) → xs ++ [] ≡ xs
append_nil [] = refl
append_nil (x ∷ xs) = ap (λ ys. x ∷ ys) (append_nil xs)

pub none-Moved :
    (page : ℕ) (n : RecTreeNode) (k : ℕ) (s : Recs) {ents arrays : List Ptr}
    → IsOwned ents arrays s
    → HasStock k s
    → find_node page s ≡ some n
    → Moved page n k [] s s
none-Moved page n k s {ents} {arrays} o w found = record {
  arrives = λ q. sym (append_nil (records s q));
  ents = ents;
  arrays = arrays;
  owned = o;
  stock = w;
  stays = found;
  kept = λ a i h. refl;
}

-- A call of `insertRec`, and the moves that are made after it.
pub one-Moved :
    (open_files : OpenFiles) (page : ℕ) (n : RecTreeNode) (j : ℕ) (m : Move) (s : Recs)
    {ents arrays : List Ptr}
    → IsOwned ents arrays s
    → HasStock (suc j) s
    → find_node page s ≡ some n
    → page_of m ≢ page
    → (t : Recs) × (insert_rec false open_files m.rec.file_offset m.dest m.rec.file_name m.rec.fd s
        ≡ ok (tt, t))
      × Moved page n j (m ∷ []) s t
one-Moved open_files page n j m s o w found ne =
    let (t, run, ins, stock, leaves) =
      insert_rec-stocked open_files m.rec.file_offset m.dest m.rec.file_name m.rec.fd s o j w in
    (
      t,
      run,
      record {
        arrives = λ q. elim (Bool-cases (page_of m == q)) [
          | inl same ↦ ground (arith, ins.appends q, same)
          | inr other ↦ ground (arith, ins.appends q, other, append_nil (records s q))
        ];
        ents = ins.ents;
        arrays = ins.arrays;
        owned = ins.owned;
        stock = stock;
        stays = leaves.same_node page ne ∙ found;
        kept = λ a i h. leaves.same_recs page n ne found a i h;
      },
    )

pub then-Moved :
    (page : ℕ) (n : RecTreeNode) (j k : ℕ) (m : Move) (ms : List Move) (s t u : Recs)
    → Moved page n j (m ∷ []) s t
    → Moved page n k ms t u
    → Moved page n k (m ∷ ms) s u
then-Moved page n j k m ms s t u a b = record {
  arrives = λ q. elim (Bool-cases (page_of m == q)) [
    | inl same ↦ ground (
      arith,
      a.arrives q,
      b.arrives q,
      same,
      append_assoc (records s q) (rec_of m ∷ []) (arrivals q ms),
    )
    | inr other ↦ ground (arith, a.arrives q, b.arrives q, other, append_nil (records s q))
  ];
  ents = b.ents;
  arrays = b.arrays;
  owned = b.owned;
  stock = b.stock;
  stays = b.stays;
  kept = λ x i h. b.kept x i h ∙ a.kept x i h;
}

-- The records of an array that was not written to.
pub take_recs-kept :
    (st st' : Store) (arr : Ptr) (i n : ℕ)
    → ((j : ℕ) → st' arr j ≡ st arr j)
    → take_recs st' arr i n ≡ take_recs st arr i n
take_recs-kept st st' arr i zero h = refl
take_recs-kept st st' arr i (suc n) h = ground (arith, h i, take_recs-kept st st' arr (i + 1) n h)
