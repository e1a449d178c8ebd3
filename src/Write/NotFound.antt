-- ===== src/Write/NotFound.antt =====
-- `ts_write` of untraced memory.
use cidl.Base.{
  ℕ, zero, suc, ◌+◌, ◌-◌, ◌*◌, ◌%◌, ◌/◌, ◌^◌, ◌≤◌, ◌<◌, ◌≡◌, refl, ap, ◌∙◌, false, ltb,
  if◌then◌else◌, none, arith, word64, add64, le→ltb, sign_extend, min_int,
}
use cidl.Addr.{Ptr, page_size, get_addr, addr2page_num, addr2page_offset}
use cidl.Rec.{find_node}
use cidl.State.{State}
use cidl.Write.{Progress, compare_page, compare_pages, do_ts_write, ts_write, to_tail_len}

-- `n` more bytes have been counted as not found.
abbrev pub missed : ℕ → Progress → Progress
missed n p = record p {
  stats = record p.stats { ts_write_not_found_size = add64 p.stats.ts_write_not_found_size n };
}

-- What a page adds: the bytes from its start to the end of the buffer, 4096 at most.
abbrev missed_in : (rest : ℕ) → ℕ
missed_in rest = if ltb 4096 rest then 4096 else rest

tail_len :
    (buf length q rest : ℕ)
    → addr2page_num buf ≤ q
    → q * 4096 + rest ≡ buf + length
    → buf + length < word64
    → addr2page_offset buf + length < 2 ^ 31
    → sign_extend (min_int page_size (to_tail_len buf length q)) ≡ missed_in rest
unfolding addr2page_num addr2page_offset get_addr
tail_len buf length q rest h e fits small =
    let t : to_tail_len buf length q ≡ rest = omega arith in rw t (small_case rest (omega arith))
  where
    small_case : (r : ℕ) → r < 2 ^ 31 → sign_extend (min_int page_size r) ≡ missed_in r
    small_case r k = ground arith

missed_all : (rest : ℕ) → rest < 4096 → missed_in rest ≡ rest
missed_all rest h = ground arith

missed_sum :
    (rest : ℕ) (p : Progress)
    → 4096 ≤ rest
    → missed (rest - 4096) (missed (missed_in rest) p) ≡ missed rest p
missed_sum rest p h = ground arith

page_split : (a : Ptr) → addr2page_num a * 4096 + addr2page_offset a ≡ a
unfolding addr2page_num addr2page_offset
page_split a = omega arith

page_le : (q a : ℕ) → q * 4096 ≤ a → q ≤ addr2page_num a
unfolding addr2page_num
page_le q a h = omega arith

pages_le : (buf length : ℕ) → addr2page_num buf ≤ addr2page_num (buf + length)
unfolding addr2page_num
pages_le buf length = omega arith

pages_left :
    (buf length : ℕ)
    → addr2page_num (buf + length) - addr2page_num buf ≡ (addr2page_offset buf + length) / 4096
unfolding addr2page_num addr2page_offset
pages_left buf length = omega arith

module _ (s : State) (buf length tail : ℕ) (fits : buf + length < word64)
    (small : addr2page_offset buf + length < 2 ^ 31) where
  not_before :
      (q : ℕ) (p : Progress)
      → p.diff_pos ≡ buf
      → addr2page_num buf ≤ q
      → q * 4096 ≤ buf + length
      → ltb (get_addr q 4095) p.diff_pos ≡ false
  unfolding get_addr addr2page_num
  not_before q p d h k = le→ltb _ _ (omega arith)

  page-missed :
      (q rest : ℕ) (p : Progress)
      → p.diff_pos ≡ buf
      → find_node q s.recs ≡ none
      → addr2page_num buf ≤ q
      → q * 4096 + rest ≡ buf + length
      → compare_page s buf length tail q p ≡ missed (missed_in rest) p
  unfolding compare_page
  page-missed q rest p d absent h e =
      rw (not_before q p d h (omega arith), absent)
        (ap (λ n. missed n p) (tail_len buf length q rest h e fits small))

  -- From page `q` on, up to the page of the buffer's end.
  pages-missed :
      (left q rest : ℕ) (p : Progress)
      → p.diff_pos ≡ buf
      → ((i : ℕ) → q ≤ i → i * 4096 ≤ buf + length → find_node i s.recs ≡ none)
      → addr2page_num buf ≤ q
      → q * 4096 + rest ≡ buf + length
      → left ≡ rest / 4096
      → compare_pages s buf length tail (suc left) q p ≡ missed rest p
  unfolding compare_pages
  pages-missed zero q rest p d absent h e k =
      page-missed q rest p d (absent q (omega arith) (omega arith)) h e
      ∙ ap (λ n. missed n p) (missed_all rest (omega arith))
  pages-missed (suc left) q rest p d absent h e k =
      ap (compare_pages s buf length tail (suc left) (q + 1))
        (page-missed q rest p d (absent q (omega arith) (omega arith)) h e)
      ∙ pages-missed left (q + 1) (rest - 4096) (missed (missed_in rest) p) d
          (λ i a b. absent i (omega arith) b) (omega arith) (omega arith) (omega arith)
      ∙ missed_sum rest p (omega arith)

-- A write of a buffer none of whose pages is traced counts nothing as the same. As not found it counts
-- the bytes written and, beyond them, those of the first page before the buffer.
pub ts_write-untraced :
    (buf length written : ℕ) (bytes : Ptr → ℕ) (s : State)
    → buf + length < word64
    → addr2page_offset buf + length < 2 ^ 31
    → ((q : ℕ)
        → addr2page_num buf ≤ q
        → q ≤ addr2page_num (buf + length)
        → find_node q s.recs ≡ none)
    → let s' = (ts_write buf length written bytes s).1 in
      (s'.stats.ts_write_not_found_size
        ≡ add64 s.stats.ts_write_not_found_size (addr2page_offset buf + length))
      × (s'.stats.ts_write_same_size ≡ s.stats.ts_write_same_size)
      × (s'.stats.ts_write_size ≡ add64 s.stats.ts_write_size length)
unfolding ts_write do_ts_write
ts_write-untraced buf length written bytes s fits small absent =
    let e : add64 buf length ≡ buf + length = omega arith in
    let s₁ = (record s {
      bytes = bytes;
      stats = record s.stats {
        ts_write_time = (s.stats.ts_write_time + 1) % 0xffffff;
        ts_write_size = add64 s.stats.ts_write_size length;
      };
    }) in
    let start = addr2page_num buf in
    let end = addr2page_num (buf + length) in
    let start_ok = page_split buf in
    let end_ok = page_split (buf + length) in
    let run =
      pages-missed s₁ buf length (buf + length) fits small (end - start) start
        (addr2page_offset buf + length) (record { stats = s₁.stats; diff_pos = buf }) refl
        (λ q a b. absent q a (page_le q (buf + length) b)) (omega arith) (omega arith)
        (pages_left buf length) in
    let rounds : end + 1 - start ≡ suc (end - start) = omega (arith, pages_le buf length) in
    rw (e, rounds, run) (refl, refl, refl)
