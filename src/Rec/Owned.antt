-- ===== src/Rec/Owned.antt =====
-- The invariant of the record tree: what its nodes hold comes from the pools, and no entry or array
-- is in two places.
use cidl.Base.{
  ℕ, ◌+◌, ◌≤◌, ◌*◌, ◌≡◌, ◌≢◌, true, false, List, [], ◌∷◌, some, has, erase, erase_all,
  has-erase_other, Distinct, refl, ap, arith, ◌==◌, Bool-cases, ==→eq, inl, inr,
}
use cidl.Addr.{Ptr}
use cidl.Pool.{pointer_size}
use cidl.Pool.Grow.{IsValidGrowing}
use cidl.Mem.{mem_rec_per_entry, mem_rec_size, rec_block_entry_size, tailhead_size}
use cidl.Rec.{RecBlockEntry, RecTreeNode, Recs, find_node}
use cidl.Rec.View.{addrs, arrs}

-- All elements of the first list are in the second.
abbrev pub Within : List Ptr → List Ptr → Type 0
Within [] ys = Unit {0}
Within (x ∷ xs) ys = (has x ys ≡ true) × Within xs ys

-- The queue of a node is not empty, its head is the entry last modified, its counter is within
-- an array, and its entries and arrays are distinct and in use.
pub record IsNode (ents arrays : List Ptr) (n : RecTreeNode) : Type 0 where
  pub first : RecBlockEntry
  pub older : List RecBlockEntry
  pub queue : n.list_head ≡ first ∷ older
  pub modified : n.rec_mod_entry ≡ first.addr
  pub counter : n.mem_rec_idx ≤ mem_rec_per_entry
  pub ents_distinct : Distinct (addrs (first ∷ older))
  pub arrs_distinct : Distinct (arrs (first ∷ older))
  pub ents_used : Within (addrs (first ∷ older)) ents
  pub arrs_used : Within (arrs (first ∷ older)) arrays

-- Two pages have no pointer of a kind in common.
abbrev pub Apart : (List RecBlockEntry → List Ptr) → Recs → Type 0
Apart kind s =
    (p q : ℕ) (n m : RecTreeNode)
    → find_node p s ≡ some n
    → find_node q s ≡ some m
    → p ≢ q
    → (a : Ptr) → has a (kind n.list_head) ≡ true
    → has a (kind m.list_head) ≡ false

-- `ents` and `arrays` are the entries and the arrays in use.
pub record IsOwned (ents arrays : List Ptr) (s : Recs) : Type 0 where
  pub entry_pool :
      IsValidGrowing ents (record { pool = s.mem.rec_block_entries; arena = s.mem.arena })
  pub arr_pool : IsValidGrowing arrays (record { pool = s.mem.rec_arrs; arena = s.mem.arena })
  pub nodes : (q : ℕ) (n : RecTreeNode) → find_node q s ≡ some n → IsNode ents arrays n
  pub apart : Apart arrs s
  pub ents_apart : Apart addrs s

-- The heap has room for one more refill of each of the pools that `insertRec` takes from.
abbrev pub refill_bytes : ℕ → ℕ → ℕ
refill_bytes elem size = elem * size + pointer_size * size * 2

abbrev pub HasRoom : Recs → Type 0
HasRoom s =
    s.mem.arena.next
      + refill_bytes (mem_rec_size * mem_rec_per_entry) s.mem.rec_arrs.size
      + refill_bytes rec_block_entry_size s.mem.rec_block_entries.size
      + refill_bytes tailhead_size s.mem.tail_heads.size
    ≤ s.mem.arena.limit

pub not-has_of_Within :
    (a : Ptr) (xs ys : List Ptr) → Within xs ys → has a ys ≡ false → has a xs ≡ false
not-has_of_Within a [] ys w h = refl
not-has_of_Within a (x ∷ xs) ys w h = elim (Bool-cases (x == a)) [
  | inl same ↦ let e : x ≡ a = ==→eq _ _ same in absurd (ne_of e)
  | inr other ↦ rw other (not-has_of_Within a xs ys w.1 h)
]
  where
    ne_of : x ≡ a → ⊥
    ne_of e = ground (arith, ap (λ (t : ℕ). has t ys) e)

pub Within-erase :
    (a : Ptr) (xs ys : List Ptr) → Within xs ys → has a xs ≡ false → Within xs (erase a ys)
Within-erase a [] ys w h = tt
Within-erase a (x ∷ xs) ys w h =
    (ground (arith, w.0, has-erase_other x a ys), Within-erase a xs ys w.1 (ground (arith, h)))

-- What is in use stays so when others are no longer.
pub Within-erase_all :
    (gone xs ys : List Ptr)
    → Within xs ys
    → ((a : Ptr) → has a gone ≡ true → has a xs ≡ false)
    → Within xs (erase_all gone ys)
Within-erase_all [] xs ys w h = w
Within-erase_all (a ∷ gone) xs ys w h =
    Within-erase_all gone xs (erase a ys) (Within-erase a xs ys w (h a (ground arith)))
      (λ b hb. h b (ground (arith, hb)))

pub has_of_Within : (a : Ptr) (xs ys : List Ptr) → Within xs ys → has a xs ≡ true → has a ys ≡ true
has_of_Within a [] ys w h = cc
has_of_Within a (x ∷ xs) ys w h = ground (arith, w.0, has_of_Within a xs ys w.1)

pub Within-cons : (a : Ptr) (xs ys : List Ptr) → Within xs ys → Within xs (a ∷ ys)
Within-cons a [] ys w = tt
Within-cons a (x ∷ xs) ys w = (ground arith, Within-cons a xs ys w.1)
