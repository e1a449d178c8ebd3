-- ===== src/Pool.antt =====
-- The object pools of mem.h and mem.c: an array of pointers to free objects, used as a stack, which
-- some of the pools refill from `malloc` when it is empty.
pub mod Valid
pub mod Grow
pub mod Pop
use cidl.Base.{
  ℕ, zero, suc, ◌+◌, ◌-◌, ◌*◌, ◌≤◌, ◌<◌, ◌≡◌, Bool, true, false, List, [], ◌∷◌, ◌||◌, ltb, leb,
  ◌==◌, if◌then◌else◌, word64, add64, null, Result, ok, exit, Run, assert, assert_failed, segfault,
  and_then, ◌>>◌, ◌>>=◌,
}
use cidl.Addr.{Ptr}

-- `<POOL>POOLPTR`, `<POOL>POOLIDX` and `<POOL>POOLSIZE`.
pub record Pool : Type 0 where
  pub slots : ℕ → Ptr
  pub idx : ℕ
  pub size : ℕ

-- `a[i] = v`
abbrev pub update : (ℕ → Ptr) → ℕ → Ptr → ℕ → Ptr
update a i v j = if j == i then v else a j

-- The pools that do not grow: `assert(IDX>0); IDX--; return POOLPTR[IDX];`
unfoldable pub allocate : Run Pool Ptr
allocate p =
    if ltb 0 p.idx
    then ok (p.slots (p.idx - 1), record p { idx = p.idx - 1 })
    else exit assert_failed

-- `assert(IDX<SIZE); POOLPTR[IDX] = ptr; IDX++;`
unfoldable pub withdraw : Ptr → Run Pool (Unit {0})
withdraw ptr p =
    if ltb p.idx p.size
    then ok (tt, record p { slots = update p.slots p.idx ptr; idx = p.idx + 1 })
    else exit assert_failed

-- The C heap. A block that `malloc` returns lies above all earlier ones and below `limit`; it
-- returns NULL when no room is left. `totalAllocSize` is the library's own count.
pub record Arena : Type 0 where
  pub next : Ptr
  pub limit : Ptr
  pub total_alloc_size : ℕ

abbrev pub malloc : ℕ → Arena → Ptr × Arena
malloc n a =
    if leb (a.next + n) a.limit then (a.next, record a { next = a.next + n }) else (null, a)

abbrev pub count_alloc : ℕ → Arena → Arena
count_alloc n a = record a { total_alloc_size = add64 a.total_alloc_size n }

-- What the `if` after the second `malloc` tests.
pub data DepotCheck : Type 0 where
  tests_depot tests_total : DepotCheck

abbrev pub depot_check : DepotCheck → Ptr → Arena → Run Arena (Unit {0})
depot_check tests_depot depot a s = if depot == null then exit assert_failed else ok (tt, s)
depot_check tests_total depot a s =
    if a.total_alloc_size == 0
    then exit assert_failed
    else if depot == null
    then exit segfault
    else ok (tt, s)

-- `for(int i=IDX+1; i<IDX+SIZE; i++) POOLPTR[i] = POOLPTR[i-1] + 1;`, by the rounds left.
unfoldable pub fill : (rounds elem i : ℕ) → (ℕ → Ptr) → ℕ → Ptr
fill zero elem i a = a
fill (suc n) elem i a = fill n elem (i + 1) (update a i (a (i - 1) + elem))

-- A pool with the heap that it grows from.
pub record Growing : Type 0 where
  pub pool : Pool
  pub arena : Arena

abbrev pub pointer_size : ℕ
pointer_size = 8

-- The pointer array after a refill with the objects of the block at `block`.
abbrev pub refill : (elem : ℕ) → Ptr → Pool → Pool
refill elem block p = record {
  slots = fill (p.size - 1) elem (p.idx + 1) (update p.slots p.idx block);
  idx = p.idx + p.size;
  size = p.size + p.size;
}

-- The refill of an empty pool with as many new objects of `elem` bytes as it has in all.
unfoldable pub grow : DepotCheck → (elem : ℕ) → Run Growing (Unit {0})
grow check elem g =
    let p = g.pool in
    let (block, a₁) = malloc (elem * p.size) (count_alloc (elem * p.size) g.arena) in
    if block == null
    then exit assert_failed
    else let (depot, a₂) = malloc (pointer_size * p.size * 2) a₁ in
      let a₃ = count_alloc (pointer_size * p.size) a₂ in
      and_then (depot_check check depot a₃ a₃)
        λ _ a. ok (tt, record { pool = refill elem block p; arena = a })

abbrev pub pop : Run Growing Ptr
pop g = and_then (allocate g.pool) λ ptr p. ok (ptr, record g { pool = p })

-- The pools that grow: `if(IDX<=0){ ... } assert(IDX>0); IDX--; return POOLPTR[IDX];`
unfoldable pub allocate_growing : DepotCheck → (elem : ℕ) → Run Growing Ptr
allocate_growing check elem g = if leb g.pool.idx 0 then (grow check elem >> pop) g else pop g
