-- ===== src/Files/Counts.antt =====
-- The write of a buffer whose bytes are those of its only record.
use cidl.Base.{
  ℕ, zero, suc, ◌+◌, ◌-◌, ◌%◌, ◌≤◌, ◌<◌, ◌≡◌, ◌⊎◌, inl, inr, refl, ap, ◌∙◌, sym, subst, false, ltb,
  [], ◌∷◌, some, add64, word64, sign_extend16, arith, ==_self, ne→==, Option-cases, le→ltb,
}
use cidl.Addr.{Ptr, get_addr, addr2page_num}
use cidl.SearchTree.{tfind}
use cidl.Rec.{MemRec, Recs, find_node}
use cidl.Rec.View.{records, node_records}
use cidl.Rec.Insert.Inserted.{Inserted}
use cidl.State.{State, Stats, FileMapTreeNode, file_map_name_tree_ins_del_compare}
use cidl.Write.{
  Progress, rec_addr, compare_page, compare_pages, do_ts_write, ts_write, file_cmp_start_of,
}
use cidl.Write.Compare.{SameBytes, common, cmp_write-common, counted}
use cidl.Write.Fold.{compare_one, compare_all, compare_blocks-all}
use cidl.Write.Bounds.{NoneBehind, pages-IsCounted}
use cidl.Files.{memcpy}
use cidl.Files.Copy.{copy_rec}

-- Two ranges of `n` bytes have no address in common.
abbrev pub Disjoint : (n : ℕ) → (a b : Ptr) → Type 0
Disjoint n a b = (a + n ≤ b) ⊎ (b + n ≤ a)

-- What changes the memory from `before` to `after` leaves the `n` bytes at `a`.
abbrev pub Spares : (before after : Ptr → ℕ) → (n : ℕ) → (a : Ptr) → Type 0
Spares before after n a = (i : ℕ) → i < n → after (a + i) ≡ before (a + i)

common-same : (bytes : Ptr → ℕ) (n : ℕ) (a b : Ptr) → SameBytes bytes n a b → common bytes n a b ≡ n
common-same bytes zero a b h = refl
common-same bytes (suc n) a b h =
    let first : bytes a ≡ bytes b =
      ap bytes (plus_zero a) ∙ h 0 (omega arith) ∙ ap bytes (sym (plus_zero b)) in
    rw (first, ==_self (bytes b))
      (ap suc (
        common-same bytes n (a + 1) (b + 1)
          (λ i k. ap bytes (shifted a i) ∙ h (suc i) (omega arith) ∙ ap bytes (sym (shifted b i)))))
  where
    plus_zero : (k : ℕ) → k ≡ k + 0
    plus_zero k = omega arith

    shifted : (k i : ℕ) → k + 1 + i ≡ k + suc i
    shifted k i = omega arith

-- After the copy the destination holds what the source holds.
pub memcpy-SameBytes :
    (dest src n : ℕ) (bytes : Ptr → ℕ)
    → Disjoint n dest src
    → SameBytes (memcpy dest src n bytes) n dest src
memcpy-SameBytes dest src n bytes (inl h) i k =
    ground (arith, ap bytes {x = src + (dest + i - dest)} {y = src + i} (omega arith))
memcpy-SameBytes dest src n bytes (inr h) i k =
    ground (arith, ap bytes {x = src + (dest + i - dest)} {y = src + i} (omega arith))

-- The record of a copy leads back to the source.
file_cmp_start-copy_rec :
    (dest src : Ptr) (m : FileMapTreeNode)
    → m.start ≤ src
    → src < word64
    → m.offset + (src - m.start) < word64
    → (file_cmp_start_of m (copy_rec dest src m) ≡ src)
      × (m.offset ≤ (copy_rec dest src m).file_offset)
file_cmp_start-copy_rec dest src m h k f = (omega arith, omega arith)

rec_addr-copy_rec :
    (dest src : Ptr) (m : FileMapTreeNode)
    → dest < word64
    → rec_addr (addr2page_num dest) (copy_rec dest src m) ≡ dest
unfolding get_addr addr2page_num
rec_addr-copy_rec dest src m h =
    let e : (copy_rec dest src m).page_offset ≡ dest % 4096 = omega arith in
    let w : sign_extend16 (dest % 4096) ≡ dest % 4096 = unsigned (dest % 4096) (omega arith) in
    ap (λ o. get_addr (addr2page_num dest) (sign_extend16 o)) e
    ∙ ap (get_addr (addr2page_num dest)) w
    ∙ omega arith
  where
    unsigned : (o : ℕ) → o < 4096 → sign_extend16 o ≡ o
    unsigned o k = ground arith

not_behind : (dest : Ptr) → dest < word64 → ltb (get_addr (addr2page_num dest) 4095) dest ≡ false
unfolding get_addr addr2page_num
not_behind dest h = le→ltb _ _ (omega arith)

pages_of : (dest n : ℕ) → addr2page_num dest ≤ addr2page_num (dest + n)
unfolding addr2page_num
pages_of dest n = omega arith

module _ (s : State) (dest src n : ℕ) (r : MemRec) (fm : Ptr) (fits : dest + n < word64)
    (only : records s.recs (addr2page_num dest) ≡ r ∷ [])
    (here : rec_addr (addr2page_num dest) r ≡ dest)
    (named : tfind (file_map_name_tree_ins_del_compare s.files.nodes r.file_name) s.files.name_tree
      ≡ some fm)
    (inside : (s.files.nodes fm).offset ≤ r.file_offset)
    (back : file_cmp_start_of (s.files.nodes fm) r ≡ src)
    (same : SameBytes s.bytes n dest src) where
  abbrev from : Stats → Progress
  from stats = record { stats = stats; diff_pos = dest }

  -- The only record of the buffer's first page counts all of the buffer.
  one_rec :
      (stats : Stats)
      → compare_one s (addr2page_num dest) (dest + n) r (from stats)
        ≡ counted n (dest + n) (from stats)
  one_rec stats =
      let p = from stats in
      let c : common s.bytes (dest + n - dest) dest (file_cmp_start_of (s.files.nodes fm) r) ≡ n =
        ap (common s.bytes (dest + n - dest) dest) back
        ∙ ap (λ k. common s.bytes k dest src) {x = dest + n - dest} {y = n} (omega arith)
        ∙ common-same s.bytes n dest src same in
      rw (here, le→ltb dest dest (omega arith))
        (ap (λ q. q.1) (cmp_write-common s r fm dest (dest + n) p named inside (omega arith) fits)
          ∙ ap (λ k. counted k (dest + k) p) c)

  first_page :
      (stats : Stats)
      → compare_page s dest n (dest + n) (addr2page_num dest) (from stats)
        ≡ counted n (dest + n) (from stats)
  unfolding compare_page
  first_page stats = elim (Option-cases (find_node (addr2page_num dest) s.recs)) [
    | inl absent ↦ absurd (ground (arith, absent, only))
    | inr (m, found) ↦
        let node_only : node_records s.recs.store m ≡ r ∷ [] = rw found at only in
        rw (not_behind dest (omega arith), found)
          (compare_blocks-all s (addr2page_num dest) (dest + n) m m.list_head (from stats)
            ∙ ap (λ l. compare_all s (addr2page_num dest) (dest + n) l (from stats)) node_only
            ∙ one_rec stats)
  ]

  -- All pages together count the buffer once.
  all_pages :
      (stats : Stats)
      → stats.ts_write_same_size + n < word64
      → ((q : ℕ)
          → addr2page_num dest < q
          → q ≤ addr2page_num (dest + n)
          → NoneBehind q (dest + n) (records s.recs q))
      → (compare_pages s dest n
          (dest + n)
          (addr2page_num (dest + n) + 1 - addr2page_num dest)
          (addr2page_num dest)
          (from stats)).stats.ts_write_same_size
        ≡ stats.ts_write_same_size + n
  unfolding compare_pages
  all_pages stats room none_behind =
      let page = addr2page_num dest in
      let left = addr2page_num (dest + n) - page in
      let e : addr2page_num (dest + n) + 1 - page ≡ suc left = omega (arith, pages_of dest n) in
      let base = stats.ts_write_same_size + n in
      let v =
        pages-IsCounted s base (dest + n) (dest + n) fits (omega arith) dest n left (page + 1)
          (counted n (dest + n) (from stats)) (λ q a b. none_behind q (omega arith) (omega arith))
          (record {
            lower = omega arith;
            upper = omega arith;
            past = omega arith;
            inside = omega arith;
          }) in
      rw e (
        ap (λ p. (compare_pages s dest n (dest + n) left (page + 1) p).stats.ts_write_same_size)
          (first_page stats)
        ∙ omega (arith, v.lower, v.upper, v.inside))

-- The write of a buffer that holds `n` bytes at `src` of the mapping `m`, by the only record of its
-- first page. No record of its later pages lies behind its end, and the system call changes neither
-- the buffer nor these bytes of the mapping.
pub copied-ts_write :
    (dest src n written : ℕ) (bytes : Ptr → ℕ) (fm : Ptr) (m : FileMapTreeNode) (s : State)
    → records s.recs (addr2page_num dest) ≡ copy_rec dest src m ∷ []
    → tfind (file_map_name_tree_ins_del_compare s.files.nodes m.file_name) s.files.name_tree
      ≡ some fm
    → s.files.nodes fm ≡ record m { used_time = m.used_time + 1 }
    → m.start ≤ src
    → src < word64
    → m.offset + (src - m.start) < word64
    → dest + n < word64
    → SameBytes s.bytes n dest src
    → Spares s.bytes bytes n dest
    → Spares s.bytes bytes n src
    → ((q : ℕ)
        → addr2page_num dest < q
        → q ≤ addr2page_num (dest + n)
        → NoneBehind q (dest + n) (records s.recs q))
    → s.stats.ts_write_same_size + n < word64
    → (ts_write dest n written bytes s).1.stats.ts_write_same_size ≡ s.stats.ts_write_same_size + n
unfolding ts_write do_ts_write
copied-ts_write dest src n written bytes fm m s only named here starts address position fits same
      kept_dest kept_src none_behind small =
    let s' : State = record s {
      bytes = bytes;
      stats = record s.stats {
        ts_write_time = (s.stats.ts_write_time + 1) % 0xffffff;
        ts_write_size = add64 s.stats.ts_write_size n;
      };
    } in
    let e : add64 dest n ≡ dest + n = omega arith in
    let back = file_cmp_start-copy_rec dest src m starts address position in
    rw e (
      all_pages s' dest src n (copy_rec dest src m) fm fits only
        (rec_addr-copy_rec dest src m (omega arith)) named (rw here back.1) (rw here back.0)
        (λ i h. kept_dest i h ∙ same i h ∙ sym (kept_src i h)) s'.stats small none_behind)

-- The records of a page above that of a new record are not behind the end if they were not before.
pub Inserted-NoneBehind :
    (page end : ℕ) (r : MemRec) (s t : Recs)
    → Inserted page r s t
    → (last : ℕ) → ((q : ℕ) → page < q → q ≤ last → NoneBehind q end (records s q))
    → (q : ℕ) → page < q
    → q ≤ last
    → NoneBehind q end (records t q)
Inserted-NoneBehind page end r s t w last h q a b =
    let stays : records t q ≡ records s q =
      ground (arith, w.appends q, ne→== page q (λ k. absurd (omega arith))) in
    subst (NoneBehind q end) (sym stays) (h q a b)
