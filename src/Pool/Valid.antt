-- ===== src/Pool/Valid.antt =====
-- Which objects of a pool are in use, for the allocate and withdraw functions of mem.h and mem.c.
use cidl.Base.{
  ℕ, ◌+◌, ◌-◌, ◌<◌, ◌≤◌, ◌≡◌, true, false, List, ◌∷◌, arith, ok, length, has, erase, Distinct,
  AllBelow, has-erase, has-erase_self, erase-Distinct, length-erase, erase-AllBelow, AllBelow-mono,
  lt_of_has,
}
use cidl.Addr.{Ptr}
use cidl.Pool.{Pool, update, allocate, withdraw}

-- The state of a pool when the objects of `lent` are in use: the free objects are distinct, none
-- is in use, no object is in use twice, and the pool's size counts both. All objects lie below
-- `bound`.
pub record IsValid (bound : Ptr) (lent : List Ptr) (p : Pool) : Type 0 where
  pub counted : p.idx + length lent ≡ p.size
  pub distinct : (i j : ℕ) → i < p.idx → j < p.idx → p.slots i ≡ p.slots j → i ≡ j
  pub apart : (i : ℕ) → i < p.idx → has (p.slots i) lent ≡ false
  pub below : (i : ℕ) → i < p.idx → p.slots i < bound
  pub lent_distinct : Distinct lent
  pub lent_below : AllBelow bound lent

-- An object that is handed out was not in use, and the pool stays valid with it in use.
pub record Allocated (bound : Ptr) (lent : List Ptr) (ptr : Ptr) (p : Pool) : Type 0 where
  pub unused : has ptr lent ≡ false
  pub inside : ptr < bound
  pub valid : IsValid bound (ptr ∷ lent) p

module _ {bound : Ptr} {lent : List Ptr} {p : Pool} (v : IsValid bound lent p) where
  open v use {counted, distinct, apart, below, lent_distinct, lent_below}

  pub popped-IsValid :
      0 < p.idx → IsValid bound (p.slots (p.idx - 1) ∷ lent) (record p { idx = p.idx - 1 })
  popped-IsValid h = record {
    counted = omega arith;
    distinct = λ i j hi hj e. distinct i j (omega arith) (omega arith) e;
    apart = λ i hi. ground (arith, distinct i (p.idx - 1), apart i);
    below = λ i hi. below i (omega arith);
    lent_distinct = (apart (p.idx - 1) (omega arith), lent_distinct);
    lent_below = (below (p.idx - 1) (omega arith), lent_below);
  }

  -- While an object is free, a pool that does not grow hands one out that was not in use.
  pub allocate-Allocated :
      0 < p.idx
      → (ptr : Ptr) × (p' : Pool) × (allocate p ≡ ok (ptr, p')) × Allocated bound lent ptr p'
  unfolding allocate
  allocate-Allocated h = (
    p.slots (p.idx - 1),
    record p { idx = p.idx - 1 },
    ground arith,
    record {
      unused = apart (p.idx - 1) (omega arith);
      inside = below (p.idx - 1) (omega arith);
      valid = popped-IsValid h;
    },
  )

  pushed-IsValid :
      (ptr : Ptr)
      → has ptr lent ≡ true
      → IsValid bound
          (erase ptr lent)
          (record p { slots = update p.slots p.idx ptr; idx = p.idx + 1 })
  pushed-IsValid ptr h = record {
    counted = omega (arith, length-erase ptr lent h);
    distinct = λ i j hi hj e. ground (arith, distinct i j, apart i, apart j);
    apart = λ i hi.
        ground
          (arith, has-erase_self ptr lent lent_distinct, has-erase (p.slots i) ptr lent, apart i);
    below = λ i hi. ground (arith, below i, lt_of_has ptr bound lent lent_below h);
    lent_distinct = erase-Distinct ptr lent lent_distinct;
    lent_below = erase-AllBelow ptr bound lent lent_below;
  }

  -- An object in use can always be given back: the assertion on the index holds, the object is
  -- free again and the pool stays valid.
  pub withdraw-IsValid :
      (ptr : Ptr)
      → has ptr lent ≡ true
      → (p' : Pool) × (withdraw ptr p ≡ ok (tt, p')) × IsValid bound (erase ptr lent) p'
  unfolding withdraw
  withdraw-IsValid ptr h = (
    record p { slots = update p.slots p.idx ptr; idx = p.idx + 1 },
    ground (arith, length-erase ptr lent h, counted),
    pushed-IsValid ptr h,
  )

pub withdraw-size : (ptr : Ptr) (p q : Pool) → withdraw ptr p ≡ ok (tt, q) → q.size ≡ p.size
unfolding withdraw
withdraw-size ptr p q e = ground (arith, e)

-- A pool stays valid when the heap in use grows.
pub IsValid-mono :
    (a b : Ptr) (lent : List Ptr) (p : Pool) → a ≤ b → IsValid a lent p → IsValid b lent p
IsValid-mono a b lent p h v = record {
  counted = v.counted;
  distinct = v.distinct;
  apart = v.apart;
  below = λ i hi. omega (arith, v.below i hi);
  lent_distinct = v.lent_distinct;
  lent_below = AllBelow-mono a b lent (omega arith) v.lent_below;
}
