-- ===== src/Rec/View.antt =====
-- The abstract view of the record tree: for each page the records of its node, in the order in
-- which they were made. It is also the order in which the comparison loop of `do_ts_write` reads
-- them: entries from the last of the queue to the first, each array from its start.
use cidl.Base.{
  ℕ, zero, suc, ◌+◌, ◌≤◌, ◌≡◌, ◌≢◌, refl, false, List, [], ◌∷◌, ◌++◌, ◌==◌, if◌then◌else◌, Option,
  none, some, arith, has,
}
use cidl.Addr.{Ptr}
use cidl.Mem.{mem_rec_per_entry}
use cidl.Rec.{MemRec, RecBlockEntry, RecTreeNode, Recs, Store, write_rec_at, find_node}

-- The records from index `i` on, by their number.
abbrev pub take_recs : Store → Ptr → (i n : ℕ) → List MemRec
take_recs s arr i zero = []
take_recs s arr i (suc n) = s arr i ∷ take_recs s arr (i + 1) n

-- The number of records in an entry's array: `memRecIdx` in the entry last modified, and in all
-- others the length of the array.
unfoldable pub count_in : RecTreeNode → RecBlockEntry → ℕ
count_in n e = if n.rec_mod_entry == e.addr then n.mem_rec_idx else mem_rec_per_entry

abbrev pub entries_records : Store → RecTreeNode → List RecBlockEntry → List MemRec
entries_records s n [] = []
entries_records s n (e ∷ es) = entries_records s n es ++ take_recs s e.rec_arr 0 (count_in n e)

abbrev pub node_records : Store → RecTreeNode → List MemRec
node_records s n = entries_records s n n.list_head

abbrev pub records_of : Store → Option RecTreeNode → List MemRec
records_of s none = []
records_of s (some n) = node_records s n

abbrev pub records : Recs → ℕ → List MemRec
records s page = records_of s.store (find_node page s)

-- A pointer of each entry.
abbrev pub ptrs : (RecBlockEntry → Ptr) → List RecBlockEntry → List Ptr
ptrs f [] = []
ptrs f (e ∷ es) = f e ∷ ptrs f es

abbrev pub addrs : List RecBlockEntry → List Ptr
addrs = ptrs (λ e. e.addr)

abbrev pub arrs : List RecBlockEntry → List Ptr
arrs = ptrs (λ e. e.rec_arr)

-- A write to an array changes no other array.
pub take_recs-write_other :
    (s : Store) (arr p : Ptr) (j : ℕ) (v : MemRec) (i n : ℕ)
    → arr ≢ p
    → take_recs (write_rec_at s p j v) arr i n ≡ take_recs s arr i n
take_recs-write_other s arr p j v i zero ne = refl
take_recs-write_other s arr p j v i (suc n) ne =
    ground (arith, take_recs-write_other s arr p j v (i + 1) n ne)

-- A write at or behind the end changes none of the records before it.
pub take_recs-write_behind :
    (s : Store) (arr : Ptr) (j : ℕ) (v : MemRec) (i n : ℕ)
    → i + n ≤ j
    → take_recs (write_rec_at s arr j v) arr i n ≡ take_recs s arr i n
take_recs-write_behind s arr j v i zero h = refl
take_recs-write_behind s arr j v i (suc n) h =
    ground (arith, take_recs-write_behind s arr j v (i + 1) n (omega arith))

-- A write at the end appends a record.
pub take_recs-write_end :
    (s : Store) (arr : Ptr) (v : MemRec) (i n j : ℕ)
    → i + n ≡ j
    → take_recs (write_rec_at s arr j v) arr i (n + 1) ≡ take_recs s arr i n ++ v ∷ []
take_recs-write_end s arr v i zero j h = ground arith
take_recs-write_end s arr v i (suc n) j h =
    ground (arith, take_recs-write_end s arr v (i + 1) n j (omega arith))

-- The records of entries depend on the arrays of these entries alone.
pub entries_records-write_other :
    (s : Store) (n : RecTreeNode) (p : Ptr) (j : ℕ) (v : MemRec) (es : List RecBlockEntry)
    → has p (arrs es) ≡ false
    → entries_records (write_rec_at s p j v) n es ≡ entries_records s n es
entries_records-write_other s n p j v [] h = refl
entries_records-write_other s n p j v (e ∷ es) h = ground (
  arith,
  take_recs-write_other s e.rec_arr p j v 0 (count_in n e),
  entries_records-write_other s n p j v es,
)

-- They depend on the counter and on the entry last modified only through the counts.
pub entries_records-count :
    (s : Store) (n m : RecTreeNode) (es : List RecBlockEntry)
    → has n.rec_mod_entry (addrs es) ≡ false
    → has m.rec_mod_entry (addrs es) ≡ false
    → entries_records s n es ≡ entries_records s m es
unfolding count_in
entries_records-count s n m [] h k = refl
entries_records-count s n m (e ∷ es) h k = ground (arith, entries_records-count s n m es)

-- A write to an array that a node does not have leaves its records.
pub records_of-write_other :
    (s : Store) (p : Ptr) (j : ℕ) (v : MemRec) (o : Option RecTreeNode)
    → ((m : RecTreeNode) → o ≡ some m → has p (arrs m.list_head) ≡ false)
    → records_of (write_rec_at s p j v) o ≡ records_of s o
records_of-write_other s p j v none h = refl
records_of-write_other s p j v (some m) h =
    entries_records-write_other s m p j v m.list_head (h m refl)

-- An entry whose array is full has the same records once another entry is the one last modified.
pub count_in-full :
    (n m : RecTreeNode) (e : RecBlockEntry)
    → n.rec_mod_entry ≡ e.addr
    → n.mem_rec_idx ≡ mem_rec_per_entry
    → m.rec_mod_entry ≢ e.addr
    → count_in m e ≡ count_in n e
unfolding count_in
count_in-full n m e modified full other = ground arith

pub count_in_current :
    (n : RecTreeNode) (e : RecBlockEntry) → n.rec_mod_entry ≡ e.addr → count_in n e ≡ n.mem_rec_idx
unfolding count_in
count_in_current n e modified = ground arith
