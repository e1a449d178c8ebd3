-- ===== src/Pool/Grow.antt =====
-- The refill of an empty pool, `allocateTailHead` and its kin of mem.h.
use native.Mathlib.Nat.{eq_of_mul-eq-mul_left, mul-le-mul_left}
use cidl.Base.{
  ℕ, zero, suc, ◌+◌, ◌-◌, ◌*◌, ◌<◌, ◌≤◌, ◌≡◌, refl, ap, false, List, ◌∷◌, arith, leb, ok, has,
  AllBelow-mono, not-has_of_below, add64, Bool-cases, leb→eq_zero, inl, inr,
}
use cidl.Addr.{Ptr}
use cidl.Pool.{
  Pool, Arena, Growing, DepotCheck, tests_depot, tests_total, update, fill, refill, grow,
  allocate_growing, pointer_size, pop,
}
use cidl.Pool.Valid.{IsValid, allocate-Allocated}

fill-low : (n elem i : ℕ) (a : ℕ → Ptr) (j : ℕ) → j < i → fill n elem i a j ≡ a j
unfolding fill
fill-low zero elem i a j h = refl
fill-low (suc n) elem i a j h =
    ground (arith, fill-low n elem (i + 1) (update a i (a (i - 1) + elem)) j)

fill-new :
    (n elem i d : ℕ) (a : ℕ → Ptr)
    → 0 < i
    → d < n
    → fill n elem i a (i + d) ≡ a (i - 1) + elem * suc d
unfolding fill
fill-new zero elem i d a hi h = elim h [ ]
fill-new (suc n) elem i zero a hi h =
    ground (arith, fill-low n elem (i + 1) (update a i (a (i - 1) + elem)) (i + 0))
fill-new (suc n) elem i (suc d) a hi h =
    let e : i + suc d ≡ (i + 1) + d = omega arith in
    let ih =
      fill-new n elem (i + 1) d (update a i (a (i - 1) + elem)) (omega arith) (omega arith) in
    ground (arith, ap (fill n elem (i + 1) (update a i (a (i - 1) + elem))) e, ih)

-- The objects of the new block stand behind the pointers that the array held.
refill-low :
    (elem : ℕ) (block : Ptr) (p : Pool) (j : ℕ)
    → j < p.idx
    → (refill elem block p).slots j ≡ p.slots j
refill-low elem block p j h =
    ground (arith, fill-low (p.size - 1) elem (p.idx + 1) (update p.slots p.idx block) j)

refill-new :
    (elem : ℕ) (block : Ptr) (p : Pool) (d : ℕ)
    → d < p.size
    → (refill elem block p).slots (p.idx + d) ≡ block + elem * d
refill-new elem block p zero h =
    ground (arith, fill-low (p.size - 1) elem (p.idx + 1) (update p.slots p.idx block) (p.idx + 0))
refill-new elem block p (suc d) h =
    let e : p.idx + suc d ≡ p.idx + 1 + d = omega arith in
    let a = update p.slots p.idx block in
    let at = fill-new (p.size - 1) elem (p.idx + 1) d a (omega arith) (omega arith) in
    ground (arith, ap (fill (p.size - 1) elem (p.idx + 1) a) e, at)

-- A growing pool is valid if all its objects lie below the end of the heap in use.
pub record IsValidGrowing (lent : List Ptr) (g : Growing) : Type 0 where
  pub valid : IsValid g.arena.next lent g.pool
  pub nonempty : 0 < g.pool.size
  pub used : 0 < g.arena.next

-- Room in the heap for a refill: the block, and a pointer array of twice the length.
abbrev pub HasRoom : ℕ → Growing → Type 0
HasRoom elem g = g.arena.next + elem * g.pool.size + pointer_size * g.pool.size * 2 ≤ g.arena.limit

-- The refilled pool is valid.
refill-IsValid :
    (elem : ℕ) (block bound : Ptr) (lent : List Ptr) (p : Pool)
    → 0 < elem
    → p.idx ≡ 0
    → IsValid block lent p
    → block + elem * p.size ≤ bound
    → IsValid bound lent (refill elem block p)
refill-IsValid elem block bound lent p he h v room = record {
  counted = ground (arith, v.counted);
  distinct = λ i j hi hj e.
      let hi' : i < p.size = omega arith in
      let hj' : j < p.size = omega arith in
      let ei : p.idx + i ≡ i = omega arith in
      let ej : p.idx + j ≡ j = omega arith in
      let qi = refill-new elem block p i hi' in
      let qj = refill-new elem block p j hj' in
      eq_of_mul-eq-mul_left elem he i j (
        ground
          (arith, e, ap (refill elem block p).slots ei, ap (refill elem block p).slots ej, qi, qj));
  apart = λ i hi. not-has_of_below _ block lent v.lent_below (ground (arith, at i hi));
  below = λ i hi.
      let hi' : i < p.size = omega arith in
      ground (arith, at i hi, mul-le-mul_left {m = suc i} {n = p.size} elem (omega arith));
  lent_distinct = v.lent_distinct;
  lent_below = AllBelow-mono block bound lent (omega arith) v.lent_below;
}
  where
    at : (i : ℕ) → i < p.idx + p.size → (refill elem block p).slots i ≡ block + elem * i
    at i hi =
        let e : p.idx + i ≡ i = omega arith in
        ground (arith, ap (refill elem block p).slots e, refill-new elem block p i (omega arith))

-- `totalAllocSize` after a refill.
abbrev pub total_after : ℕ → Growing → ℕ
total_after elem g =
    add64 (add64 g.arena.total_alloc_size (elem * g.pool.size)) (pointer_size * g.pool.size)

-- The pool that tests the byte count instead of the array needs a count that is not 0.
abbrev pub CountsBytes : DepotCheck → ℕ → Type 0
CountsBytes tests_depot total = Unit {0}
CountsBytes tests_total total = 0 < total

-- What a client may know of an object that a growing pool hands out: it was not in use, the pool
-- stays valid with it in use, and the heap in use grows by one refill at most.
pub record Grown (elem : ℕ) (lent : List Ptr) (g : Growing) (ptr : Ptr) (g' : Growing)
    : Type 0 where
  pub unused : has ptr lent ≡ false
  pub valid : IsValidGrowing (ptr ∷ lent) g'
  pub keeps : g.arena.next ≤ g'.arena.next
  pub within : g'.arena.next ≤ g.arena.next + elem * g.pool.size + pointer_size * g.pool.size * 2
  pub limit : g'.arena.limit ≡ g.arena.limit

abbrev grown : ℕ → Growing → Growing
grown elem g = record {
  pool = refill elem g.arena.next g.pool;
  arena = record {
    next = g.arena.next + elem * g.pool.size + pointer_size * g.pool.size * 2;
    limit = g.arena.limit;
    total_alloc_size = total_after elem g;
  };
}

module _ (check : DepotCheck) (elem : ℕ) (g : Growing) where
  grow-ok :
      0 < g.arena.next
      → CountsBytes check (total_after elem g)
      → HasRoom elem g
      → grow check elem g ≡ ok (tt, grown elem g)
  unfolding grow
  grow-ok used total room = by_check check total
    where
      by_check :
          (c : DepotCheck)
          → CountsBytes c (total_after elem g)
          → grow c elem g ≡ ok (tt, grown elem g)
      by_check tests_depot t = ground arith
      by_check tests_total t = ground arith

grown-IsValid :
    (elem : ℕ) (lent : List Ptr) (g : Growing)
    → 0 < elem
    → g.pool.idx ≡ 0
    → IsValidGrowing lent g
    → IsValidGrowing lent (grown elem g)
grown-IsValid elem lent g he h v = record {
  valid = refill-IsValid elem g.arena.next _ lent g.pool he h v.valid (omega arith);
  nonempty = ground (arith, v.nonempty);
  used = ground (arith, v.used);
}

abbrev next_of : Arena → Ptr
next_of a = a.next

abbrev limit_of : Arena → Ptr
limit_of a = a.limit

pop-unused :
    (lent : List Ptr) (g : Growing)
    → IsValidGrowing lent g
    → 0 < g.pool.idx
    → (ptr : Ptr) × (g' : Growing) × (pop g ≡ ok (ptr, g'))
      × (has ptr lent ≡ false)
      × IsValidGrowing (ptr ∷ lent) g'
      × (g'.arena ≡ g.arena)
pop-unused lent g v h =
    let (ptr, p, e, a) = allocate-Allocated v.valid h in
    (
      ptr,
      record g { pool = p },
      rw (e, pop),
      a.unused,
      record {
        valid = a.valid;
        nonempty = omega (arith, a.valid.counted, v.valid.counted);
        used = v.used;
      },
      refl,
    )

-- A pool that grows always hands out an object that was not in use, and stays valid, as long as
-- the heap has room for a refill, and for the pool that tests the byte count, the count of
-- allocated bytes does not wrap to 0. The heap in use grows by one refill at most.
pub allocate_growing-Grown :
    (check : DepotCheck) (elem : ℕ) (lent : List Ptr) (g : Growing)
    → 0 < elem
    → CountsBytes check (total_after elem g)
    → IsValidGrowing lent g
    → HasRoom elem g
    → (ptr : Ptr) × (g' : Growing) × (allocate_growing check elem g ≡ ok (ptr, g'))
      × Grown elem lent g ptr g'
unfolding allocate_growing
allocate_growing-Grown check elem lent g he ht v room = elim (Bool-cases (leb g.pool.idx 0)) [
  | inl e ↦
      let (ptr, g', q, out, w, same) =
        pop-unused lent (grown elem g) (grown-IsValid elem lent g he (leb→eq_zero _ e) v)
          (ground (arith, v.nonempty)) in
      (
        ptr,
        g',
        rw (e, grow-ok check elem g v.used ht room) q,
        record {
          unused = out;
          valid = w;
          keeps = omega (arith, ap next_of same);
          within = omega (arith, ap next_of same);
          limit = ap limit_of same;
        },
      )
  | inr e ↦
      let (ptr, g', q, out, w, same) = pop-unused lent g v (ground arith) in
      (
        ptr,
        g',
        rw e q,
        record {
          unused = out;
          valid = w;
          keeps = omega (arith, ap next_of same);
          within = omega (arith, ap next_of same);
          limit = ap limit_of same;
        },
      )
]
