-- ===== src/Rec/Reclaim/TwoLoop.antt =====
-- The loop of the reclamation on a queue of two entries, with the files of both first records open.
use cidl.Base.{
  ℕ, zero, suc, ◌+◌, ◌-◌, ◌≤◌, ◌<◌, ◌≡◌, ◌≢◌, refl, ap, sym, ◌∙◌, true, false, ◌==◌, [], ◌∷◌, some,
  none, null, ok, arith, Bool-cases, inl, inr, ltb, lt→ltb, le→ltb, ltb→lt, ltb→le, ne→==,
}
use cidl.Addr.{Ptr}
use cidl.Mem.{mem_rec_per_entry}
use cidl.Rec.{
  MemRec, RecBlockEntry, RecTreeNode, Recs, Store, OpenFiles, find_node, file_slot, write_rec_at,
}
use cidl.Rec.Reclaim.{Cursor, next, is_open, compact_loop}
use cidl.Rec.Reclaim.OneLoop.{cursor}

-- The file of the first record of an array is open.
abbrev pub IsLive : OpenFiles → Store → Ptr → Type 0
IsLive open_files st arr =
    (slot : ℕ) × (file_slot (st arr 0).fd ≡ some slot) × ((open_files slot == null) ≡ false)

live :
    (open_files : OpenFiles) (arr : Ptr) (s : Recs)
    → IsLive open_files s.store arr
    → is_open open_files (s.store arr 0) s ≡ ok (true, s)
unfolding is_open
live open_files arr s h = rw (h.1, h.2) refl

-- The cursor at the older entry, before which the newer one stands.
abbrev pub old_cursor : (old new : RecBlockEntry) → ℕ → Cursor
old_cursor old new i = record {
  ent = old;
  prev = new ∷ [];
  arr = old.rec_arr;
  at = 0;
  idx = i;
  max_idx = mem_rec_per_entry - 1;
}

module _ (open_files : OpenFiles) (page : ℕ) (old new : RecBlockEntry) (m : ℕ) where
  old-more :
      (k i : ℕ)
      → i + 1 < mem_rec_per_entry
      → next k (old_cursor old new i) ≡ some (old_cursor old new (i + 1))
  unfolding next
  old-more k i h = rw (lt→ltb i (mem_rec_per_entry - 1) (omega arith)) refl

  old-last :
      (i : ℕ) → i + 1 ≡ mem_rec_per_entry → next m (old_cursor old new i) ≡ some (cursor new m 0)
  unfolding next
  old-last i h = rw (le→ltb i (mem_rec_per_entry - 1) (omega arith)) refl

  -- The older array: nothing changes, and the pointer to what is kept stays at its first record.
  pub old-stays :
      (fuel i : ℕ) (n : RecTreeNode) (s : Recs)
      → IsLive open_files s.store old.rec_arr
      → find_node page s ≡ some n
      → n.mem_rec_idx ≡ m
      → i < mem_rec_per_entry
      → mem_rec_per_entry ≤ i + fuel
      → compact_loop open_files page fuel
          (some (old_cursor old new 0))
          (some (old_cursor old new i))
          s
        ≡ compact_loop open_files page
            (i + fuel - mem_rec_per_entry)
            (some (old_cursor old new 0))
            (some (cursor new m 0))
            s
  unfolding compact_loop is_open
  old-stays zero i n s alive found count h enough = absurd (omega arith)
  old-stays (suc fuel) i n s alive found count h enough =
      elim (Bool-cases (ltb (i + 1) mem_rec_per_entry)) [
        | inl more ↦
            let lt : i + 1 < mem_rec_per_entry = ltb→lt _ _ more in
            ground (
              arith,
              live open_files old.rec_arr s alive,
              found,
              old-more n.mem_rec_idx i lt,
              old-stays fuel (i + 1) n s alive found count lt (omega arith),
              ap
                  (λ (f : ℕ).
                    compact_loop open_files page f (some (old_cursor old new 0))
                      (some (cursor new m 0)) s)
                  {x = i + 1 + fuel - mem_rec_per_entry} {y = i + suc fuel - mem_rec_per_entry}
                  (omega arith),
            )
        | inr last ↦
            let end : i + 1 ≡ mem_rec_per_entry = omega (arith, ltb→le _ _ last) in
            ground (
              arith,
              live open_files old.rec_arr s alive,
              found,
              count,
              old-last i end,
              ap
                  (λ (f : ℕ).
                    compact_loop open_files page f (some (old_cursor old new 0))
                      (some (cursor new m 0)) s)
                  {x = fuel} {y = i + suc fuel - mem_rec_per_entry} (omega arith),
            )
      ]

  new-more : (i : ℕ) → i + 1 < m → next m (cursor new m i) ≡ some (cursor new m (i + 1))
  unfolding next
  new-more i h = rw (lt→ltb i (m - 1) (omega arith)) refl

  new-last : (i : ℕ) → i + 1 ≡ m → next m (cursor new m i) ≡ none
  unfolding next
  new-last i h = rw (le→ltb i (m - 1) (omega arith)) refl

  abbrev pub copied : Recs → Recs
  copied s = record s { store = write_rec_at s.store old.rec_arr 0 (s.store new.rec_arr 0) }

  -- The newer array: its first record is copied over the first of the older, as often as it has records.
  pub new-copies :
      (fuel i : ℕ) (n : RecTreeNode) (s : Recs)
      → old.rec_arr ≢ new.rec_arr
      → IsLive open_files s.store new.rec_arr
      → find_node page s ≡ some n
      → n.mem_rec_idx ≡ m
      → i < m
      → m ≤ mem_rec_per_entry
      → m ≤ i + fuel
      → (t : Recs) × (compact_loop open_files page fuel
            (some (old_cursor old new i))
            (some (cursor new m i))
            s
          ≡ ok (tt, t))
        × (t.tree ≡ s.tree)
        × ((a : Ptr) (j : ℕ) → t.store a j ≡ (copied s).store a j)
  unfolding compact_loop
  new-copies zero i n s ne alive found count h le enough = absurd (omega arith)
  new-copies (suc fuel) i n s ne alive found count h le enough =
      let unread : (copied s).store new.rec_arr 0 ≡ s.store new.rec_arr 0 =
        rw (ne→== new.rec_arr old.rec_arr (λ e. ne (sym e))) refl in
      let apart : (old.rec_arr == new.rec_arr) ≡ false = ne→== old.rec_arr new.rec_arr ne in
      elim (Bool-cases (ltb (i + 1) m)) [
        | inl more ↦
            let lt = ltb→lt _ _ more in
            let (t, run, tree, store) =
              new-copies fuel (i + 1) n (copied s) ne
                (alive.0, ap (λ (r : MemRec). file_slot r.fd) unread ∙ alive.1, alive.2) found count
                lt le (omega arith) in
            (
              t,
              ground (
                arith,
                live open_files new.rec_arr s alive,
                found,
                apart,
                count,
                old-more m i (omega arith),
                new-more i lt,
                run,
              ),
              tree,
              λ a j. store a j ∙ ground (arith, unread),
            )
        | inr last ↦ (
          copied s,
          ground (
            arith,
            live open_files new.rec_arr s alive,
            found,
            apart,
            count,
            new-last i (omega (arith, ltb→le _ _ last)),
          ),
          refl,
          λ a j. refl,
        )
      ]
