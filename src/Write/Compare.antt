-- ===== src/Write/Compare.antt =====
-- What the byte comparison and `cmpWrite` count.
use cidl.Base.{
  ℕ, zero, suc, ◌+◌, ◌-◌, ◌≤◌, ◌<◌, ◌≡◌, ◌≢◌, ◌⊎◌, subst, refl, ap, ◌∙◌, true, ◌==◌, leb,
  if◌then◌else◌, Option, none, some, arith, Bool-cases, inl, inr, word64, add64, sub64, ==→eq,
  ==→ne, ne→==,
}
use cidl.Addr.{Ptr}
use cidl.SearchTree.{tfind}
use cidl.Rec.{MemRec}
use cidl.State.{State, file_map_name_tree_ins_del_compare}
use cidl.Write.{Progress, compared, memcmp_avx2_asm, cmp_write, file_cmp_start_of}

-- Two ranges of `n` bytes agree.
abbrev pub SameBytes : (Ptr → ℕ) → (n : ℕ) → (a b : Ptr) → Type 0
SameBytes bytes n a b = (i : ℕ) → i < n → bytes (a + i) ≡ bytes (b + i)

-- The length of the longest common prefix of two ranges of `n` bytes.
abbrev pub common : (Ptr → ℕ) → (n : ℕ) → (a b : Ptr) → ℕ
common bytes zero a b = 0
common bytes (suc n) a b = if bytes a == bytes b then suc (common bytes n (a + 1) (b + 1)) else 0

pub common-le : (bytes : Ptr → ℕ) (n : ℕ) (a b : Ptr) → common bytes n a b ≤ n
common-le bytes zero a b = omega arith
common-le bytes (suc n) a b = ground (arith, common-le bytes n (a + 1) (b + 1))

-- What `memcmp_avx2_asm` returns: 0 if the common prefix is all, and otherwise a difference right
-- behind it.
abbrev pub compare_result : ℕ → ℕ → Ptr → Option Ptr
compare_result c n a = if c == n then none else some (a + c)

compare_result-suc :
    (c n : ℕ) (a : Ptr) → compare_result c n (a + 1) ≡ compare_result (suc c) (suc n) a
compare_result-suc c n a = elim (Bool-cases (c == n)) [
  | inl same ↦ ground (arith, ==→eq c n same)
  | inr other ↦
      rw (other, ne→== (suc c) (suc n) (λ e. ==→ne c n other (omega arith))) (ap some (omega arith))
]

pub memcmp-common :
    (bytes : Ptr → ℕ) (n : ℕ) (a b : Ptr)
    → memcmp_avx2_asm bytes n a b ≡ compare_result (common bytes n a b) n a
unfolding memcmp_avx2_asm
memcmp-common bytes zero a b = refl
memcmp-common bytes (suc n) a b = ground (
  arith,
  memcmp-common bytes n (a + 1) (b + 1),
  compare_result-suc (common bytes n (a + 1) (b + 1)) n a,
)

shift : (bytes : Ptr → ℕ) (a i : ℕ) → bytes (a + suc i) ≡ bytes (a + 1 + i)
shift bytes a i = ap bytes (omega arith)

-- The bytes of the common prefix agree.
pub common-SameBytes :
    (bytes : Ptr → ℕ) (n : ℕ) (a b : Ptr) → SameBytes bytes (common bytes n a b) a b
common-SameBytes bytes zero a b i h = elim h [ ]
common-SameBytes bytes (suc n) a b zero h =
    ground (arith, ap bytes (a_zero a), ap bytes (a_zero b), ==→eq (bytes a) (bytes b))
  where
    a_zero : (k : ℕ) → k + 0 ≡ k
    a_zero k = omega arith
common-SameBytes bytes (suc n) a b (suc i) h =
    ground (arith, shift bytes a i, shift bytes b i, common-SameBytes bytes n (a + 1) (b + 1) i)

-- The byte behind it, if any, differs.
pub common_maximal :
    (bytes : Ptr → ℕ) (n : ℕ) (a b : Ptr)
    → common bytes n a b < n
    → bytes (a + common bytes n a b) ≢ bytes (b + common bytes n a b)
common_maximal bytes zero a b h = absurd (omega arith)
common_maximal bytes (suc n) a b h = elim (Bool-cases (bytes a == bytes b)) [
  | inl same ↦
      let k = common bytes n (a + 1) (b + 1) in
      rw same (λ e.
        common_maximal bytes n (a + 1) (b + 1) (ground arith)
          (ground (arith, shift bytes a k, shift bytes b k)))
  | inr other ↦
      rw other
        (λ e. ground (arith, ap bytes (a_zero a), ap bytes (a_zero b), ==→ne (bytes a) (bytes b)))
]
  where
    a_zero : (k : ℕ) → k + 0 ≡ k
    a_zero k = omega arith

-- `memcmp_avx2_asm` finds the first difference: it returns 0 only if the two ranges agree, and
-- otherwise the address that it stores is that of a byte of the first range which differs from its
-- counterpart in the second, while all bytes before it agree.
memcmp_avx2_asm-first :
    (bytes : Ptr → ℕ) (n : ℕ) (a b : Ptr)
    → ((memcmp_avx2_asm bytes n a b ≡ none) × SameBytes bytes n a b)
      ⊎ ((i : ℕ) × (i < n)
          × (memcmp_avx2_asm bytes n a b ≡ some (a + i))
          × SameBytes bytes i a b
          × (bytes (a + i) ≢ bytes (b + i)))
memcmp_avx2_asm-first bytes n a b =
    let c = common bytes n a b in
    let at = memcmp-common bytes n a b in
    elim (Bool-cases (c == n)) [
      | inl all ↦ inl (
        at ∙ rw all refl,
        subst (λ k. SameBytes bytes k a b) (==→eq c n all) (common-SameBytes bytes n a b),
      )
      | inr some_differ ↦
          let lt : c < n = omega (arith, common-le bytes n a b, ==→ne c n some_differ) in
          inr (
            c,
            lt,
            at ∙ rw some_differ refl,
            common-SameBytes bytes n a b,
            common_maximal bytes n a b lt,
          )
    ]

-- The state after `n` bytes have been found to be the same.
abbrev pub counted : ℕ → Ptr → Progress → Progress
counted n diff_pos p = record {
  stats = record p.stats {
    ts_metadata_item = add64 p.stats.ts_metadata_item 1;
    ts_write_same_size = add64 p.stats.ts_write_same_size n;
  };
  diff_pos = diff_pos;
}

compared-inside :
    (c n start tail : ℕ) (p : Progress)
    → start + n ≡ tail
    → tail < word64
    → c ≤ n
    → compared start tail (compare_result c n start) p ≡ (c, counted c (start + c) p)
compared-inside c n start tail p e fits h = elim (Bool-cases (c == n)) [
  | inl same ↦ rw same (ground (arith, ==→eq c n same))
  | inr other ↦ rw other (ground arith)
]

compared-beyond :
    (c n start tail : ℕ) (p : Progress)
    → tail < start
    → start < word64
    → c < n
    → compared start tail (compare_result c n start) p
      ≡ (word64 - (start - tail), counted (word64 - (start - tail)) (start + c) p)
compared-beyond c n start tail p h fits k = rw (ne→== c n (omega arith)) (ground arith)

module _ (s : State) (mrp : MemRec) (fm : Ptr) (start tail : Ptr) (p : Progress)
    (found : tfind
        (file_map_name_tree_ins_del_compare s.files.nodes mrp.file_name)
        s.files.name_tree
      ≡ some fm)
    (inside : (s.files.nodes fm).offset ≤ mrp.file_offset) where
  abbrev file : Ptr
  file = file_cmp_start_of (s.files.nodes fm) mrp

  cmp_write-compared :
      cmp_write s start mrp tail p
      ≡ compared start tail
          (compare_result (common s.bytes (sub64 tail start) start file) (sub64 tail start) start)
          p
  unfolding cmp_write
  cmp_write-compared = rw found (
      rw (leb_true (s.files.nodes fm).offset mrp.file_offset inside)
        (ap (λ r. compared start tail r p) (memcmp-common s.bytes (sub64 tail start) start file)))
    where
      leb_true : (a b : ℕ) → a ≤ b → leb a b ≡ true
      leb_true a b h = ground arith

  -- A comparison that starts inside the buffer counts exactly the bytes, up to the buffer's end,
  -- that agree with the mapped file, and moves `diffPos` right behind them.
  pub cmp_write-common :
      start ≤ tail
      → tail < word64
      → cmp_write s start mrp tail p ≡ (
        common s.bytes (tail - start) start file,
        counted
            (common s.bytes (tail - start) start file)
            (start + common s.bytes (tail - start) start file)
            p,
      )
  cmp_write-common h fits =
      let n : sub64 tail start ≡ tail - start = omega arith in
      let c = common s.bytes (tail - start) start file in
      cmp_write-compared
      ∙ ap (λ k. compared start tail (compare_result (common s.bytes k start file) k start) p) n
      ∙ compared-inside c (tail - start) start tail p (omega arith) fits
          (common-le s.bytes (tail - start) start file)

  -- A comparison that starts behind the buffer's end, and meets a difference before the address
  -- space ends, takes the distance to the end off the count, modulo 2^64.
  pub cmp_write_beyond :
      tail < start
      → start < word64
      → common s.bytes (sub64 tail start) start file < sub64 tail start
      → cmp_write s start mrp tail p ≡ (
        word64 - (start - tail),
        counted (word64 - (start - tail)) (start + common s.bytes (sub64 tail start) start file) p,
      )
  cmp_write_beyond h fits differs =
      cmp_write-compared
      ∙ compared-beyond (common s.bytes (sub64 tail start) start file) (sub64 tail start) start tail
          p h fits differs
