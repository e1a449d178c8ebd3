-- ===== src/Rec/Reclaim/OneLoop.antt =====
-- The loop of the reclamation on a queue of one entry.
use cidl.Base.{
  ℕ, zero, suc, ◌+◌, ◌-◌, ◌≤◌, ◌<◌, ◌≡◌, refl, ◌∙◌, true, false, not, ◌==◌, if◌then◌else◌, [], none,
  some, null, ok, arith, Bool-cases, inl, inr, ltb, lt→ltb, le→ltb, ltb→lt, ltb→le, ==→eq,
}
use mathlib.Core.Option
use cidl.SearchTree.Lookup.{tfind-modify}
use cidl.Rec.{
  MemRec, RecBlockEntry, RecTreeNode, Recs, key_of, OpenFiles, find_node, modify_node, file_slot,
}
use cidl.Rec.Reclaim.{Cursor, next, is_open, compact_loop}

-- The cursor at the entry `e` of a queue with one, of `m` records. Its pointer stays at the first.
abbrev pub cursor : RecBlockEntry → (m idx : ℕ) → Cursor
cursor e m idx = record { ent = e; prev = []; arr = e.rec_arr; at = 0; idx = idx; max_idx = m - 1 }

module _ (open_files : OpenFiles) (page slot : ℕ) (e : RecBlockEntry) (m : ℕ) where
  next-more : (k i : ℕ) → i + 1 < m → next k (cursor e m i) ≡ some (cursor e m (i + 1))
  unfolding next
  next-more k i h = rw (lt→ltb i (m - 1) (omega arith)) refl

  next-last : (k i : ℕ) → i + 1 ≡ m → next k (cursor e m i) ≡ none
  unfolding next
  next-last k i h = rw (le→ltb i (m - 1) (omega arith)) refl

  is_open-at :
      (r : MemRec) (s : Recs)
      → file_slot r.fd ≡ some slot
      → is_open open_files r s ≡ ok (not (open_files slot == null), s)
  unfolding is_open
  is_open-at r s file = rw file refl

  -- While the file of the first record is open, the loop changes nothing.
  pub open-stays :
      (fuel i : ℕ) (n : RecTreeNode) (s : Recs)
      → file_slot (s.store e.rec_arr 0).fd ≡ some slot
      → (open_files slot == null) ≡ false
      → find_node page s ≡ some n
      → i < m
      → m ≤ i + fuel
      → compact_loop open_files page fuel (some (cursor e m 0)) (some (cursor e m i)) s ≡ ok (tt, s)
  unfolding compact_loop is_open
  open-stays zero i n s file live found h enough = absurd (omega arith)
  open-stays (suc fuel) i n s file live found h enough = elim (Bool-cases (ltb (i + 1) m)) [
    | inl more ↦ ground (
      arith,
      is_open-at (s.store e.rec_arr 0) s file,
      live,
      found,
      next-more n.mem_rec_idx i (ltb→lt _ _ more),
      open-stays fuel (i + 1) n s file live found (ltb→lt _ _ more) (omega arith),
    )
    | inr last ↦ ground (
      arith,
      is_open-at (s.store e.rec_arr 0) s file,
      live,
      found,
      next-last n.mem_rec_idx i (omega (arith, ltb→le _ _ last)),
    )
  ]

  -- If the file of the first record is not open, the loop takes one off the counter of the node.
  pub closed-drops :
      (fuel i : ℕ) (n : RecTreeNode) (s : Recs)
      → file_slot (s.store e.rec_arr 0).fd ≡ some slot
      → (open_files slot == null) ≡ true
      → find_node page s ≡ some n
      → i < m
      → m ≤ i + fuel
      → (t : Recs) × (compact_loop open_files page fuel
            (some (cursor e m i))
            (some (cursor e m i))
            s
          ≡ ok (tt, t))
        × (t.store ≡ s.store)
        × ((q : ℕ)
            → find_node q t ≡ (
                if page == q
                then some (record n { rec_mod_entry = e.addr; mem_rec_idx = m - 1 })
                else find_node q s))
  unfolding compact_loop
  closed-drops zero i n s file dead found h enough = absurd (omega arith)
  closed-drops (suc fuel) i n s file dead found h enough =
      let set : RecTreeNode → RecTreeNode =
        λ (k : RecTreeNode). record k { rec_mod_entry = e.addr; mem_rec_idx = i } in
      let s' = modify_node page set s in
      let at : (q : ℕ)
          → find_node q s' ≡ (if page == q then Option.map set (find_node q s) else find_node q s) =
        λ q. tfind-modify key_of page q set s.tree (λ a. refl) in
      elim (Bool-cases (ltb (i + 1) m)) [
        | inl more ↦
            let lt = ltb→lt _ _ more in
            let (t, run, store, nodes) =
              closed-drops fuel (i + 1) (set n) s' file dead (ground (arith, at page, found)) lt
                (omega arith) in
            (
              t,
              rw (is_open-at (s.store e.rec_arr 0) s file, dead, found, next-more i i lt) run,
              store,
              λ q. nodes q ∙ ground (arith, at q),
            )
        | inr last ↦
            let end : i + 1 ≡ m = omega (arith, ltb→le _ _ last) in
            (
              s',
              rw (is_open-at (s.store e.rec_arr 0) s file, dead, found, next-last i i end) refl,
              refl,
              λ q. ground (arith, at q, found, end, ==→eq page q),
            )
      ]
